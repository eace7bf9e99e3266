-- ===== src/Event/Decoding.antt =====
-- `json.Unmarshal` of a message into each raw event of pkg/event/gossipsub, by the json tags of its
-- struct.
pub mod Blocks
pub mod Payloads
pub mod Partials
pub mod Returning
pub use Blocks.*
pub use Payloads.*
pub use Partials.*
