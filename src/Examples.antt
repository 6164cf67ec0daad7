-- ===== src/Examples.antt =====
-- A machine that answers every call, runs of the model on it, and the theorems at such inputs.
mod Bench
mod Transport
mod Applications
pub mod Protocol
mod Runs
mod Fake
mod CommandLine
mod Peer
mod ShimBench
mod ShimSetup
mod ShimQueries
