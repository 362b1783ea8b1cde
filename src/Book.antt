-- ===== src/Book.antt =====
-- rs-engine/src/orderbook: the price-time-priority limit order book.
pub mod Types
pub mod State
pub mod Matching
pub mod Best
pub mod View
pub mod WellFormed
pub mod Fill
pub mod Resting
pub mod Priority
pub mod Loop
pub mod Orders
pub mod Quote
pub mod Tests
