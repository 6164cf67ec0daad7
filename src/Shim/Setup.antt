-- ===== src/Shim/Setup.antt =====
-- The opens of `initialize` of src/transport.rs on naive/fabric_shim.c.
pub mod Opened
pub mod Enabling
pub mod Endpoints
pub mod Stages
pub mod SettingUp
pub mod Queues
pub mod Attaching
pub mod Fitting
pub mod Placing
pub mod Initial
