-- ===== src/LocalBroker.antt =====
-- crates/sentia-local-broker: the broker in front of the local inference server.
pub mod Queue
pub mod Tests
