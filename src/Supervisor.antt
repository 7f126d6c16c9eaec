-- ===== src/Supervisor.antt =====
-- crates/quip-dashboard/src/supervisor.rs: the supervisor of the container's processes.
pub mod Logs
pub mod Process
pub mod Reader
pub mod Run
