-- ===== src/Book/Types.antt =====
-- rs-engine/src/orderbook/types.rs
use cex_rs.Base.{ℕ, String, List}

pub data Side : Type 0 where
  bid ask : Side

pub record Order : Type 0 where
  pub order_id : ℕ
  pub user_id : ℕ
  pub side : Side
  pub price : ℕ
  pub remaining_qty : ℕ

pub record Trade : Type 0 where
  pub buyer : ℕ
  pub seller : ℕ
  pub price : ℕ
  pub qty : ℕ
  pub taker_order_id : ℕ
  pub maker_order_id : ℕ
  pub taker_side : Side

-- The resting part of an incoming order.
pub record OrderAccepted : Type 0 where
  pub order_id : ℕ
  pub user_id : ℕ
  pub side : Side
  pub price : ℕ
  pub remaining_qty : ℕ

pub record OrderCancelled : Type 0 where
  pub order_id : ℕ
  pub user_id : ℕ
  pub side : Side
  pub price : ℕ
  pub remaining_qty : ℕ

pub record UserOrderSnapshot : Type 0 where
  pub order_id : ℕ
  pub user_id : ℕ
  pub side : Side
  pub price : ℕ
  pub remaining_qty : ℕ

pub data MatchResult : Type 0 where
  trade : Trade → MatchResult
  order_accepted : OrderAccepted → MatchResult

pub data OrderbookError : Type 0 where
  invalid_price invalid_quantity order_not_found not_order_owner : OrderbookError

pub record LevelSnapshot : Type 0 where
  pub price : ℕ
  pub qty : ℕ

pub record OrderbookSnapshot : Type 0 where
  pub symbol : String
  pub bids : List LevelSnapshot
  pub asks : List LevelSnapshot
