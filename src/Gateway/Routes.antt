-- ===== src/Gateway/Routes.antt =====
-- rs-gateway/src/routes: orders.rs, balance.rs and orderbook.rs. A route is what it does before it
-- waits for the engine, a message or an answer at once, and the answer that it makes of the reply.
pub mod Accepted
pub mod Private
pub mod Funding
pub mod History
pub mod Recorded
pub mod Tests
use cex_rs.Base.{
  ℕ, String, Bool, true, false, not, ◌&&◌, ◌||◌, Option, none, some, List, [], ◌∷◌, select, ltb,
  leb, if◌then◌else◌, ◌==◌, nat_eq, string_eq, Result, ok, err,
}
use cex_rs.Base.HashMap.{HashMap}
use cex_rs.Base.Int.{ℤ, to_i64}
use cex_rs.Base.Text.{to_lowercase, to_uppercase}
use cex_rs.Shared.Balance.{Balance}
use cex_rs.Shared.Requests.{
  OrderType, limit, market, TimeInForce, gtc, ioc, fok, OrderMsg, CancelMsg, BalanceQueryMsg,
  OnrampMsg, DepositMsg, OrderbookQueryMsg, OpenOrdersQueryMsg, OrderStatusQueryMsg,
}
use cex_rs.Shared.Replies.{
  OpenOrderInfo, OrderbookData, BalanceReply, OrderReply, CancelReply, OpenOrdersReply,
  OrderStatusReply, OrderbookReply,
}
use cex_rs.Gateway.Dto.{
  OnrampBody, DepositBody, OrderBody, validate_onramp, validate_deposit, validate_order, is_listed,
}
use cex_rs.Gateway.Ledger.{Database, OrderRow, TradeRow, LedgerEntry, find_row, same_id}

-- The bodies of the answers, field by field.
pub data Body : Type 0 where
  message : String → Body
  error_body : Body
  placed : (order_id : Option ℕ) (status : String) → Body
  cancelled : (order_id remaining_qty : Option ℕ) (message : String) → Body
  open_orders : List OpenOrderInfo → Body
  order_found : (order : OrderRow) (trades : List TradeRow) → Body
  balances :
      (message : String) (usd_balance : Balance) (stock_balance : HashMap String Balance) → Body
  orderbook : (asset : String) (orderbook : OrderbookData) → Body
  issued : (token : String) → Body
  plain : String → Body
  trade_history : List TradeRow → Body
  ledger_history : List LedgerEntry → Body
  failure : String → Body

pub record Response : Type 0 where
  pub status : ℕ
  pub body : Body

abbrev pub turn_away : ℕ → String → Response
turn_away status text = record { status = status; body = message text }

-- `reply.error` and the like, with a default.
abbrev pub or_else : String → Option String → String
or_else d none = d
or_else d (some s) = s

-- `StatusCode::from_u16(code.unwrap_or(500)).unwrap_or(INTERNAL_SERVER_ERROR)`, which takes the
-- codes from 100 to 999.
unfoldable pub status_from : Option ℕ → ℕ
status_from none = 500
status_from (some code) = if leb 100 code && ltb code 1000 then code else 500

unfoldable pub order_type_of : String → OrderType
order_type_of text = if to_lowercase text == "market" then market else limit

unfoldable pub time_in_force_of : Option String → TimeInForce
time_in_force_of none = gtc
time_in_force_of (some text) =
    let t = to_uppercase text in if t == "IOC" then ioc else if t == "FOK" then fok else gtc

-- `queue_id` is the gateway's, `identifier` the uuid that is drawn, `user_id` the one of the token.
module _ (queue_id identifier : String) where
  unfoldable pub place_order_request :
      {F : Type 0} → (F → Bool) → ℕ → OrderBody F → Result (OrderMsg F) Response
  place_order_request {F} out_of_range user_id body = elim (validate_order F out_of_range body) [
    | err e ↦ err (turn_away 400 e)
    | ok t ↦ ok (record {
      user_id = user_id;
      asset = body.asset;
      side = body.side;
      order_type = order_type_of body.order_type;
      price = body.price;
      qty = body.qty;
      slippage_pct = body.slippage_pct;
      time_in_force = time_in_force_of body.time_in_force;
      queue_id = queue_id;
      identifier = identifier;
    })
  ]

  unfoldable pub cancel_order_request : ℕ → ℕ → CancelMsg
  cancel_order_request user_id order_id = record {
    user_id = user_id;
    order_id = order_id;
    queue_id = queue_id;
    identifier = identifier;
  }

  unfoldable pub open_orders_request : ℕ → OpenOrdersQueryMsg
  open_orders_request user_id = record {
    user_id = user_id;
    queue_id = queue_id;
    identifier = identifier;
  }

  -- The database comes first; `none` is an error of it.
  unfoldable pub trades_of : ℤ → List TradeRow → List TradeRow
  trades_of order_id =
      select (λ t. same_id t.maker_order_id order_id || same_id t.taker_order_id order_id)

  unfoldable pub order_row_answer : ℕ → ℕ → OrderRow → Option Database → Response
  order_row_answer user_id order_id order db =
      if not (same_id order.user_id (to_i64 user_id))
      then turn_away 404 "Order not found"
      else elim db [
        | none ↦ record { status = 500; body = error_body }
        | some d ↦ record {
          status = 200;
          body = order_found order (trades_of (to_i64 order_id) d.trades);
        }
      ]

  unfoldable pub order_status_msg : ℕ → ℕ → OrderStatusQueryMsg
  order_status_msg user_id order_id = record {
    user_id = user_id;
    order_id = order_id;
    queue_id = queue_id;
    identifier = identifier;
  }

  -- `db` is the database at the first query, and `later` at the second.
  unfoldable pub get_order_request :
      ℕ → ℕ → Option Database → Option Database → Result OrderStatusQueryMsg Response
  get_order_request user_id order_id db later = elim db [
    | none ↦ err (record { status = 500; body = error_body })
    | some d ↦ elim (find_row (to_i64 order_id) d.orders) [
      | some order ↦ err (order_row_answer user_id order_id order later)
      | none ↦ ok (order_status_msg user_id order_id)
    ]
  ]

  unfoldable pub balance_request : ℕ → BalanceQueryMsg
  balance_request user_id = record {
    user_id = user_id;
    queue_id = queue_id;
    identifier = identifier;
  }

  unfoldable pub onramp_request : ℕ → OnrampBody → Result OnrampMsg Response
  onramp_request user_id body = elim (validate_onramp body) [
    | err e ↦ err (turn_away 400 e)
    | ok t ↦
        ok (record {
          user_id = user_id;
          qty = body.qty;
          queue_id = queue_id;
          identifier = identifier;
        })
  ]

  unfoldable pub deposit_request : ℕ → String → DepositBody → Result DepositMsg Response
  deposit_request user_id asset body = elim (validate_deposit body) [
    | err e ↦ err (turn_away 400 e)
    | ok t ↦
        let asset_lower = to_lowercase asset in
        if not (is_listed asset_lower)
        then err (turn_away 400 "Supported assets are SOL, BTC, ETH")
        else ok (record {
          user_id = user_id;
          symbol = asset_lower;
          qty = body.qty;
          queue_id = queue_id;
          identifier = identifier;
        })
  ]

  unfoldable pub orderbook_request : String → Result OrderbookQueryMsg Response
  orderbook_request asset =
      if not (is_listed (to_lowercase asset))
      then err (turn_away 400 "Supported assets are SOL, BTC, ETH")
      else ok (record { asset = asset; queue_id = queue_id; identifier = identifier })

unfoldable pub place_order_answer : OrderReply → Response
place_order_answer reply = elim reply.error [
  | some e ↦ turn_away (status_from reply.status_code) e
  | none ↦ record { status = 201; body = placed reply.order_id (or_else "open" reply.status) }
]

unfoldable pub cancel_order_answer : CancelReply → Response
cancel_order_answer reply = elim reply.error [
  | some e ↦ turn_away 404 e
  | none ↦ record {
    status = 200;
    body = cancelled reply.order_id reply.remaining_qty (or_else "Order cancelled" reply.message);
  }
]

unfoldable pub open_orders_answer : OpenOrdersReply → Response
open_orders_answer reply = record { status = 200; body = open_orders reply.orders }

-- The order as the engine has it, in the shape of a row.
unfoldable pub fallback_order : OpenOrderInfo → Option String → OrderRow
fallback_order o status = record {
  id = to_i64 o.order_id;
  user_id = to_i64 o.user_id;
  market = "SOL_USD";
  side = o.side;
  price = to_i64 o.price;
  original_qty = to_i64 o.remaining_qty;
  remaining_qty = to_i64 o.remaining_qty;
  status = or_else "open" status;
}

unfoldable pub get_order_answer : OrderStatusReply → Response
get_order_answer reply = elim reply.order [
  | some o ↦ record { status = 200; body = order_found (fallback_order o reply.status) [] }
  | none ↦ turn_away 404 "Order not found"
]

unfoldable pub balance_answer : String → BalanceReply → Response
balance_answer text reply = record {
  status = 200;
  body = balances text reply.usd_balance reply.stock_balance;
}

unfoldable pub orderbook_answer : String → OrderbookReply → Response
orderbook_answer asset reply = record { status = 200; body = orderbook asset reply.orderbook }
