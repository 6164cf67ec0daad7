-- ===== src/Client.antt =====
-- src/bin/clients.rs.
pub mod Exchange
pub mod Loop
pub mod Run
pub mod Invariant
pub mod Order
pub mod Log
pub mod Sends
pub mod Termination
pub mod Safety
pub mod Accepting
pub mod Main
pub mod Answering
pub mod Fake
pub mod RunTermination
pub mod Tests
