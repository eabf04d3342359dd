-- ===== src/Privileged/Executor.antt =====
-- crates/sentia-privileged/src/executor.rs: what the root broker does to the system, and the checks
-- in front of it. The children model paths, helper programs, package requests and processes.
pub mod Paths
pub mod Effects
pub mod Helpers
pub mod Apt
pub mod Files
pub mod Units
pub mod Processes
pub mod Snapshots
pub mod Execute
