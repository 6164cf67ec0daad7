-- ===== src/Shim/Info.antt =====
-- naive/fabric_shim.c: what becomes of the infos of queries and requests.
pub mod Selection
pub mod Lookup
pub mod Requests
pub mod Consuming
