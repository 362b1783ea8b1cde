-- ===== src/Shared/Requests.antt =====
-- rs-shared/src/models/requests.rs. `F` is the type of `f64` values.
use cex_rs.Base.{ℕ, String, Option}
use cex_rs.Base.Int.{ℤ}

pub data OrderType : Type 0 where
  limit market : OrderType

pub data TimeInForce : Type 0 where
  gtc ioc fok : TimeInForce

pub record SignupMsg : Type 0 where
  pub user_id : ℕ
  pub queue_id : String
  pub identifier : String

pub record OnrampMsg : Type 0 where
  pub user_id : ℕ
  pub qty : ℕ
  pub queue_id : String
  pub identifier : String

pub record DepositMsg : Type 0 where
  pub user_id : ℕ
  pub symbol : String
  pub qty : ℕ
  pub queue_id : String
  pub identifier : String

pub record OrderMsg (F : Type 0) : Type 0 where
  pub user_id : ℕ
  pub asset : String
  pub side : String
  pub order_type : OrderType
  pub price : ℤ
  pub qty : ℤ
  pub slippage_pct : Option F
  pub time_in_force : TimeInForce
  pub queue_id : String
  pub identifier : String

pub record CancelMsg : Type 0 where
  pub user_id : ℕ
  pub order_id : ℕ
  pub queue_id : String
  pub identifier : String

pub record BalanceQueryMsg : Type 0 where
  pub user_id : ℕ
  pub queue_id : String
  pub identifier : String

pub record OrderbookQueryMsg : Type 0 where
  pub asset : String
  pub queue_id : String
  pub identifier : String

pub record OpenOrdersQueryMsg : Type 0 where
  pub user_id : ℕ
  pub queue_id : String
  pub identifier : String

pub record OrderStatusQueryMsg : Type 0 where
  pub user_id : ℕ
  pub order_id : ℕ
  pub queue_id : String
  pub identifier : String

pub record ResetMsg : Type 0 where
  pub queue_id : String
  pub identifier : String
