-- ===== src/Event/Again.antt =====
-- Each `ShouldIgnore` of pkg/event/gossipsub, made twice on one raw event.
mod Consensus
mod Partials
pub use Consensus.*
pub use Partials.*
