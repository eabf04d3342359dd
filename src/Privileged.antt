-- ===== src/Privileged.antt =====
-- crates/sentia-privileged: the root broker that previews, authorizes and executes typed operations.
pub mod Operation
pub mod Json
pub mod Broker
pub mod Executor
pub mod Callers
pub mod Service
pub mod Tests
