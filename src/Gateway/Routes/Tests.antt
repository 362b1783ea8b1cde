-- ===== src/Gateway/Routes/Tests.antt =====
-- Runs of the routes, and the theorems about them at concrete requests.
use cex_rs.Base.{
  ℕ, ◌≡◌, refl, String, Bool, true, ◌||◌, Option, none, some, List, [], ◌∷◌, leb, ltb, arith, ok,
  ◌==◌, nat_eq, string_eq, if◌then◌else◌,
}
use cex_rs.Base.HashMap
use cex_rs.Base.HashMap.{HashMap}
use cex_rs.Base.Int.{pos, to_i64}
use cex_rs.Base.Text.{to_lowercase, to_uppercase}
use cex_rs.Shared.Requests.{OrderMsg, OnrampMsg, limit, gtc}
use cex_rs.Shared.Replies.{BalanceReply}
use cex_rs.Engine.State.{EngineState, new, usd_mut}
use cex_rs.Engine.Dispatch.{Decoder}
use cex_rs.Engine.Tests.{percent}
use cex_rs.Gateway.Dto.{
  OrderBody, validate_order, validate_onramp, slippage_fails, time_in_force_fails,
}
use cex_rs.Gateway.Ledger.{Database, OrderRow, TradeRow, find_row}
use cex_rs.Gateway.Replies.{Replies, begin_request, enter}
use cex_rs.Gateway.Replies.Correlated.{
  Happening, pop, happen_all, first_reply, begin_request-first_reply,
}
use cex_rs.Gateway.Routes.{
  order_found, trade_history, place_order_request, order_type_of, time_in_force_of,
  get_order_request, order_row_answer, trades_of, onramp_request,
}
use cex_rs.Gateway.Routes.History.{get_my_trades, trades_where}
use cex_rs.Gateway.Routes.Recorded.{Recorded, apply_event-Recorded}
use cex_rs.Shared.Events.{TradeExecuted}
use cex_rs.Gateway.Routes.Accepted.{Accepted, place_order_request-Accepted}
use cex_rs.Gateway.Routes.Private.{at_once, get_order-private}
use cex_rs.Gateway.Routes.Funding.{Json, Funded, reply_to, onramp_request-roundtrip}

-- A bid for 2 SOL at 100, written in capitals where that is allowed.
abbrev bid_body : OrderBody ℕ
bid_body = record {
  asset = "SOL";
  side = "bid";
  order_type = "Limit";
  price = pos 100;
  qty = pos 2;
  slippage_pct = none;
  time_in_force = some "gtc";
}

abbrev out_of_range : ℕ → Bool
out_of_range s = leb s 0 || ltb 50 s

abbrev bid_msg : OrderMsg ℕ
bid_msg = record {
  user_id = 12;
  asset = "SOL";
  side = "bid";
  order_type = limit;
  price = pos 100;
  qty = pos 2;
  slippage_pct = none;
  time_in_force = gtc;
  queue_id = "q";
  identifier = "uuid";
}

place_order_request-Accepted_example : Accepted percent bid_msg
unfolding place_order_request validate_order slippage_fails time_in_force_fails order_type_of
    time_in_force_of to_lowercase to_uppercase
place_order_request-Accepted_example =
    place_order_request-Accepted percent "q" "uuid" out_of_range 12 bid_body bid_msg refl

abbrev row : OrderRow
row = record {
  id = pos 5;
  user_id = pos 12;
  market = "SOL_USD";
  side = "bid";
  price = pos 100;
  original_qty = pos 2;
  remaining_qty = pos 2;
  status = "open";
}

abbrev tables : Database
tables = record { orders = row ∷ []; trades = []; ledger_entries = []; last_stream_id = "0-0" }

abbrev engine : EngineState
engine =
    usd_mut 12 (λ b. record b { available = 30 })
      (new (record { maker_fee_bps = 10; taker_fee_bps = 20 }))

get_order-private_example : row.user_id ≡ to_i64 12
unfolding get_order_request find_row order_row_answer trades_of to_i64
get_order-private_example =
    get_order-private "q" "uuid" 12 5 (some tables) (some tables) engine
      (record { status = 200; body = order_found row [] }) row []
      (at_once (record { status = 200; body = order_found row [] }) refl) refl

-- Two requests wait; the reply to the second comes first.
abbrev waiting : Replies
waiting = enter "other" 1 (record { pending = []; sent = [] })

abbrev named : String → Option String
named s = if s == "for other" then some "other" else if s == "for uuid" then some "uuid" else none

abbrev happenings : List Happening
happenings = pop (ok none) ∷ pop (ok (some "for other")) ∷ pop (ok (some "for uuid")) ∷ []

begin_request-first_reply_example :
    HashMap.get 2
      (happen_all named happenings
        (begin_request "onramp" (some "json") true "uuid" 2 waiting).0).sent
    ≡ first_reply named "uuid" 2 happenings
unfolding enter HashMap.get HashMap.insert
begin_request-first_reply_example =
    begin_request-first_reply named "uuid" 2 "onramp" (some "json") true happenings waiting tt refl
      (λ i t h. ground (arith, h))

abbrev onramp_msg : OnrampMsg
onramp_msg = record { user_id = 12; qty = 70; queue_id = "q"; identifier = "uuid" }

abbrev funded_reply : BalanceReply
funded_reply = reply_to onramp_msg engine

-- Every text of a message is this one, and every text of a reply is the reply to it.
abbrev decode : Decoder ℕ
decode = record {
  signup = λ s. none;
  onramp = λ s. some onramp_msg;
  deposit = λ s. none;
  balance = λ s. none;
  order = λ s. none;
  cancel = λ s. none;
  orderbook = λ s. none;
  open_orders = λ s. none;
  order_status = λ s. none;
  reset = λ s. none;
}

abbrev json : Json
json = record {
  write_onramp = λ msg. "message";
  write_reply = λ r. "for uuid";
  read_reply = λ s. some funded_reply;
  identifier_of = named;
}

onramp_request-roundtrip_example :
    Funded percent decode json "q" "uuid" 2 waiting engine 12 onramp_msg
unfolding enter HashMap.get HashMap.insert onramp_request validate_onramp
onramp_request-roundtrip_example =
    onramp_request-roundtrip percent decode json "q" "uuid" 2 waiting engine 12 refl
      (λ i t h. ground (arith, h)) (record { qty = 70 }) onramp_msg refl
      (record { onramp_read = refl; reply_read = refl; reply_named = refl })

-- The order of the histories: that of the table.
abbrev as_is : (A : Type 0) → List A → List A
as_is A xs = xs

abbrev trade_between : ℕ → ℕ → TradeRow
trade_between buyer seller = record {
  maker_order_id = pos 5;
  taker_order_id = pos 6;
  buyer_id = pos buyer;
  seller_id = pos seller;
  market = "SOL_USD";
  price = pos 100;
  qty = pos 2;
  quote_amount = pos 200;
}

-- Only the trades of the user 12 are shown.
trades_of_12 :
    get_my_trades as_is 12 (
      some (record tables {
        trades = trade_between 12 7 ∷ trade_between 8 9 ∷ trade_between 7 12 ∷ [];
      }))
    ≡ record { status = 200; body = trade_history (trade_between 12 7 ∷ trade_between 7 12 ∷ []) }
unfolding get_my_trades trades_where to_i64
trades_of_12 = refl

abbrev sold : TradeExecuted
sold = record {
  maker_order_id = 5;
  taker_order_id = 6;
  buyer_id = 12;
  seller_id = 7;
  market = "SOL_USD";
  price = 100;
  qty = 2;
  quote_amount = 200;
  maker_remaining_qty = 0;
  taker_remaining_qty = 0;
  buyer_fee = 1;
  seller_fee = 1;
}

apply_event-Recorded_example : Recorded as_is 7 "uuid" sold tables
apply_event-Recorded_example =
    apply_event-Recorded as_is 7 "uuid" sold tables (omega arith) (omega arith) (omega arith)
