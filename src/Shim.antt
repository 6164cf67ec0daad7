-- ===== src/Shim.antt =====
-- naive/fabric_shim.c, part by part.
pub mod Objects
pub mod Closing
pub mod Posting
pub mod Opening
pub mod Polling
pub mod Lending
pub mod Teardown
pub mod Endpoint
pub mod Submission
pub mod Completing
pub mod Life
pub mod Backing
pub mod Slots
pub mod Steps
pub mod Composition
pub mod Connecting
pub mod Querying
pub mod Listening
pub mod Linking
pub mod Setup
pub mod Sync
pub mod Info
