-- ===== src/Miner.antt =====
-- crates/quip-dashboard/src/miner: what the client of the miner reads from its answers.
pub mod Attempts
pub mod Cache
pub mod Json
pub mod Submission
