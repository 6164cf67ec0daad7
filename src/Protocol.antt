-- ===== src/Protocol.antt =====
-- src/bin/clients.rs and src/bin/server.rs: the two state machines against each other.
pub mod System
pub mod Invariant
pub mod Delivery
pub mod Termination
pub mod Progress
