-- ===== src/Event/RoundTrip.antt =====
-- The messages that README.md documents against their decoding.
pub mod Blocks
pub mod Sidecars
pub mod Payloads
pub mod Partials
pub mod Typed
pub mod Message
