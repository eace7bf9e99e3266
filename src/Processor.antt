-- ===== src/Processor.antt =====
-- pkg/processor.
pub mod Summary
pub mod Drift
pub mod Config
pub mod Externals
pub mod EventType
pub mod Handler
pub mod Dispatch
pub mod Lifecycle
