-- ===== src/Protocol.antt =====
-- crates/sentia-protocol/src: the contracts that the daemons share.
pub mod Errors
pub mod Requests
pub mod Status
pub mod Sockets
pub mod Tools
pub mod Transactions
pub mod Authorizations
mod Tests
