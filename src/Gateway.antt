-- ===== src/Gateway.antt =====
-- rs-gateway/src: what the gateway does with the requests of its clients and the events of the
-- engine.
pub mod Ledger
pub mod Hub
pub mod Session
pub mod Listener
pub mod Limiter
pub mod Dto
pub mod Replies
pub mod Routes
pub mod Auth
pub mod Admin
pub mod Tests
