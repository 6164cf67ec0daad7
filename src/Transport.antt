-- ===== src/Transport.antt =====
-- src/transport.rs, part by part.
pub mod Handle
pub mod Poll
pub mod Slot
pub mod Info
pub mod Fabric
pub mod Listener
pub mod Request
pub mod Connection
pub mod Safety
pub mod Scopes
pub mod Spending
pub mod Halting
pub mod Refusals
pub mod Waiting
pub mod Construction
pub mod Rejection
