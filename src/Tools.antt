-- ===== src/Tools.antt =====
-- crates/sentia-tools/src: the read-only tools.
pub mod Validation
pub mod Tests
