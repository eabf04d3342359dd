-- ===== src/Health.antt =====
-- crates/sentia-health: the health daemon, its alerts and its sampling intervals.
pub mod Floats
pub mod Alert
pub mod Monitor
pub mod Tests
