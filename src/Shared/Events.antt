-- ===== src/Shared/Events.antt =====
-- The execution events of rs-shared/src/models/execution.rs.
use cex_rs.Base.{ℕ, String, List}

pub record OrderCreated : Type 0 where
  pub order_id : ℕ
  pub user_id : ℕ
  pub market : String
  pub side : String
  pub price : ℕ
  pub original_qty : ℕ
  pub remaining_qty : ℕ
  pub status : String

pub record TradeExecuted : Type 0 where
  pub maker_order_id : ℕ
  pub taker_order_id : ℕ
  pub buyer_id : ℕ
  pub seller_id : ℕ
  pub market : String
  pub price : ℕ
  pub qty : ℕ
  pub quote_amount : ℕ
  pub maker_remaining_qty : ℕ
  pub taker_remaining_qty : ℕ
  pub buyer_fee : ℕ
  pub seller_fee : ℕ

pub record CancelledOrder : Type 0 where
  pub order_id : ℕ
  pub user_id : ℕ
  pub remaining_qty : ℕ

pub record FundingExecuted : Type 0 where
  pub user_id : ℕ
  pub currency : String
  pub amount : ℕ
  pub operation_type : String

pub record DepthUpdated : Type 0 where
  pub market : String
  pub bids : List (ℕ × ℕ)
  pub asks : List (ℕ × ℕ)

pub data ExecutionEvent : Type 0 where
  order_created : OrderCreated → ExecutionEvent
  trade_executed : TradeExecuted → ExecutionEvent
  order_cancelled : CancelledOrder → ExecutionEvent
  funding_executed : FundingExecuted → ExecutionEvent
  depth_updated : DepthUpdated → ExecutionEvent
