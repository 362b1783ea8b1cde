-- ===== src/Shared/Replies.antt =====
-- rs-shared/src/models/responses.rs and order.rs
use cex_rs.Base.{ℕ, String, Option, List}
use cex_rs.Base.HashMap.{HashMap}
use cex_rs.Shared.Balance.{Balance}

pub record OpenOrderInfo : Type 0 where
  pub order_id : ℕ
  pub user_id : ℕ
  pub side : String
  pub price : ℕ
  pub remaining_qty : ℕ
  pub market : String

pub record OrderbookLevel : Type 0 where
  pub price : ℕ
  pub qty : ℕ

pub record OrderbookData : Type 0 where
  pub bids : List OrderbookLevel
  pub asks : List OrderbookLevel

pub record BalanceReply : Type 0 where
  pub identifier : String
  pub usd_balance : Balance
  pub stock_balance : HashMap String Balance

pub record OrderReply : Type 0 where
  pub identifier : String
  pub order_id : Option ℕ
  pub status : Option String
  pub error : Option String
  pub status_code : Option ℕ

pub record CancelReply : Type 0 where
  pub identifier : String
  pub order_id : Option ℕ
  pub remaining_qty : Option ℕ
  pub message : Option String
  pub error : Option String

pub record OpenOrdersReply : Type 0 where
  pub identifier : String
  pub orders : List OpenOrderInfo

pub record OrderStatusReply : Type 0 where
  pub identifier : String
  pub order : Option OpenOrderInfo
  pub status : Option String
  pub error : Option String

pub record OrderbookReply : Type 0 where
  pub identifier : String
  pub orderbook : OrderbookData

pub record GenericReply : Type 0 where
  pub identifier : String
  pub message : String
