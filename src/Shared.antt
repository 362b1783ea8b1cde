-- ===== src/Shared.antt =====
-- rs-shared: the data that the engine and the gateway exchange.
pub mod Balance
pub mod Fees
pub mod Requests
pub mod Replies
pub mod Events
pub mod Ws
