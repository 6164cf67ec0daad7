-- ===== src/Shim/Sync.antt =====
-- The flags of a connection of src/transport.rs and the queues of naive/fabric_shim.c, through the life of
-- the connection.
pub mod Tracking
pub mod Aside
pub mod Marks
pub mod Synchrony
pub mod Reporting
pub mod Working
pub mod Observing
pub mod Session
