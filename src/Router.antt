-- ===== src/Router.antt =====
-- crates/sentia-router: what leaves the machine, and where a request is routed.
pub mod Redaction
pub mod Privacy
pub mod Breakers
pub mod Requests
pub mod Values
pub mod Schemas
pub mod Tools
pub mod Offers
pub mod Route
pub mod Events
pub mod Messages
pub mod Conversation
pub mod Agent
pub mod Attempts
pub mod Candidates
pub mod Chat
pub mod Control
pub mod Settings
pub mod Tests
