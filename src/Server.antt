-- ===== src/Server.antt =====
-- src/bin/server.rs.
pub mod Exchange
pub mod Loop
pub mod Run
pub mod Order
pub mod Conversation
pub mod Termination
pub mod Safety
pub mod RunSafety
pub mod Accepting
pub mod Main
pub mod Answering
pub mod RunTermination
pub mod Replies
pub mod Refinement
pub mod Rejection
pub mod Pace
pub mod Serving
pub mod Replying
pub mod Tests
