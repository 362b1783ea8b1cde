-- ===== src/Gateway/Tests.antt =====
-- Runs of the gateway, and the theorems about it at concrete states.
use cex_rs.Base.{
  inl, ℕ, subst, ◌≡◌, ◌≢◌, refl, ◌⊎◌, ◌++◌, String, Bool, true, false, Option, none, some, List, [],
  ◌∷◌, arith, ◌==◌, nat_eq, string_eq, if◌then◌else◌, Result, ok, err,
}
use cex_rs.Base.Int.{pos}
use cex_rs.Base.HashMap
use cex_rs.Base.HashMap.{get_or}
use cex_rs.Base.HashSet
use cex_rs.Base.HashSet.{contains}
use cex_rs.Base.Text.{to_lowercase, to_uppercase}
use cex_rs.Shared.Events.{ExecutionEvent, TradeExecuted, trade_executed}
use cex_rs.Shared.Ws.{WsClientMsg, WsServerMsg, subscribe, auth}
use cex_rs.Book.Types.{Trade, bid}
use cex_rs.Shared.Requests.{gtc}
use cex_rs.Engine.State.{EngineState, usd_mut, asset_mut, symbol_mut, new}
use cex_rs.Engine.Fill.{apply_fill, fill_fees}
use cex_rs.Engine.Order.{is_supported}
use cex_rs.Shared.Fees.{calc_maker_fee, calc_taker_fee}
use cex_rs.Engine.Order.Settle.{Order, trade_event}
use cex_rs.Gateway.Hub as Hub
use cex_rs.Gateway.Hub.{BroadcasterHub, broadcast_topic, authenticate}
use cex_rs.Gateway.Hub.Members.{is_of}
use cex_rs.Gateway.Hub.Valid.{IsValid, register-IsValid, new-IsValid, session_of}
use cex_rs.Gateway.Ledger.{Database, apply_event}
use cex_rs.Gateway.Ledger.Agrees.{Agrees, trade_entries-Agrees}
use cex_rs.Gateway.Ledger.Balanced.{IsBalanced, apply_event-IsBalanced}
use cex_rs.Gateway.Ledger.Worker.{
  ExecutionRecord, Worker, aborted, committed, load_checkpoint, finish_read,
}
use cex_rs.Gateway.Ledger.Worker.InOrder.{IsInOrder, Reach-IsInOrder}
use cex_rs.Gateway.Ledger.Worker.Once.{Stream, read, restart, here, next}
use cex_rs.Gateway.Listener.{forward}
use cex_rs.Gateway.Listener.Reaches.{Received, forward-Received}
use cex_rs.Gateway.Session.{
  text, close, format_topic, handle_auth, session_step, session_event, handle_text, handle_msg,
}
use cex_rs.Gateway.Session.Ended.{Forgets, session_event-Forgets, unregister-keeps_first_user}
use cex_rs.Gateway.Session.Grants.{Shows, session_event-grants}
use cex_rs.Gateway.Session.Reached.{Reach, Reach-IsValid, start, next as and_then, connect, event}

-- A trade with fees.
abbrev sold : TradeExecuted
sold = record {
  maker_order_id = 1;
  taker_order_id = 12;
  buyer_id = 7;
  seller_id = 8;
  market = "SOL_USD";
  price = 100;
  qty = 5;
  quote_amount = 500;
  maker_remaining_qty = 0;
  taker_remaining_qty = 0;
  buyer_fee = 2;
  seller_fee = 1;
}

abbrev empty_db : Database
empty_db = record { orders = []; trades = []; ledger_entries = []; last_stream_id = "0-0" }

apply_event-IsBalanced_example :
    IsBalanced (apply_event "u" (trade_executed sold) empty_db).ledger_entries
apply_event-IsBalanced_example =
    apply_event-IsBalanced "u" (trade_executed sold) empty_db
      (omega arith, omega arith, omega arith, omega arith) (λ currency. refl)

-- One record, and its event.
abbrev record_one : ExecutionRecord
record_one = record { id = "1-0"; payload = some (some "trade") }

abbrev decode_event : String → Option ExecutionEvent
decode_event s = some (trade_executed sold)

after : String → List ExecutionRecord
after id = if id == "0-0" then record_one ∷ [] else []

only_record :
    (r : ExecutionRecord) (rest : List ExecutionRecord)
    → record_one ∷ [] ≡ r ∷ rest
    → after r.id ≡ rest
unfolding after
only_record r rest e =
    let same : record_one ≡ r = cc (e) in
    let last : [] ≡ rest = cc (e) in subst (λ (x : ExecutionRecord). after x.id ≡ rest) same last

after-id :
    (id : String) (before rest : List ExecutionRecord) (r : ExecutionRecord)
    → after id ≡ before ++ r ∷ rest
    → after r.id ≡ rest
unfolding after
after-id id before rest r = either (id == "0-0") before
  where
    either :
        (b : Bool) (bs : List ExecutionRecord)
        → (if b then record_one ∷ [] else []) ≡ bs ++ r ∷ rest
        → after r.id ≡ rest
    either true [] e = only_record r rest e
    either true (x ∷ []) e = absurd (cc (e))
    either true (x ∷ y ∷ bs) e = absurd (cc (e))
    either false [] e = absurd (cc (e))
    either false (x ∷ bs) e = absurd (cc (e))

abbrev one_record : Stream
one_record = record { after = after; after-id = after-id }

abbrev worker : Worker
worker = record { db = empty_db; last_id = "0-0" }

abbrev worked : Worker
worked = finish_read decode_event committed ((record_one, "u") ∷ []) worker

-- A statement fails in the first transaction; the gateway is started again, and reads the record once
-- more.
Reach-IsInOrder_example : IsInOrder one_record decode_event empty_db 1 worked
unfolding after load_checkpoint finish_read
Reach-IsInOrder_example = Reach-IsInOrder one_record decode_event empty_db (
    next (next (next here (read aborted ((record_one, "u") ∷ []) [] refl refl)) restart)
      (read committed ((record_one, "u") ∷ []) [] refl refl))

-- The sale of 5 for 500 in the engine: the order and the trade.
abbrev bought : Order
bought = record {
  user_id = 7;
  asset = "sol";
  market = "SOL_USD";
  side = bid;
  side_text = "buy";
  qty = 5;
  time_in_force = gtc;
  queue_id = "q";
  identifier = "i";
}

abbrev filled : Trade
filled = record {
  maker_order_id = 1;
  taker_order_id = 12;
  buyer = 7;
  seller = 8;
  price = 100;
  qty = 5;
  taker_side = bid;
}

-- The buyer has locked 600 for the order, the seller 5.
abbrev funded : EngineState
funded =
    asset_mut 8 "sol" (λ b. record b { locked = 5 })
      (usd_mut 7 (λ b. record b { locked = 600 })
        (new (record { maker_fee_bps = 10; taker_fee_bps = 20 })))

trade_entries-Agrees_example :
    Agrees 7 "sol"
      (trade_event bought filled (apply_fill funded "sol" filled))
      funded
      (apply_fill funded "sol" filled).0
unfolding is_supported to_uppercase apply_fill fill_fees calc_maker_fee calc_taker_fee asset_mut
    symbol_mut usd_mut new
trade_entries-Agrees_example =
    trade_entries-Agrees bought filled funded refl refl 7
      (omega arith, omega arith, omega arith, omega arith) (omega arith) (omega arith) (omega arith)

-- A client that says what it wants in one word, and tokens that name their user.
abbrev decode_msg : String → Result WsClientMsg String
decode_msg s =
    if s == "trades"
    then ok (subscribe "Trades" (some "sol_usd"))
    else if s == "auth"
    then ok (auth "of 7")
    else err "expected value"

abbrev verify : String → Option ℕ
verify s = if s == "of 7" then some 7 else none

abbrev encode_msg : WsServerMsg → Option String
encode_msg m = some "payload"

abbrev hub_of_one : BroadcasterHub
hub_of_one = (Hub.register Hub.new).0

connected_hub : IsValid hub_of_one
connected_hub = register-IsValid Hub.new new-IsValid (unfold Hub.new in omega arith)

-- It has subscribed, and then it has authenticated.
abbrev listening_hub : BroadcasterHub
listening_hub = session_event decode_msg verify encode_msg 1 (text "trades") hub_of_one

abbrev private_hub : BroadcasterHub
private_hub = session_event decode_msg verify encode_msg 1 (text "auth") listening_hub

no_token : (t token : String) → text "trades" ≡ text t → decode_msg t ≢ ok (auth token)
no_token t token e =
    let same : "trades" ≡ t = cc (e) in
    subst (λ (x : String). decode_msg x ≢ ok (auth token)) same (λ d. absurd (cc (d)))

session_event-grants_example :
    (is_of 1 7 listening_hub ≡ true)
    ⊎ (◌≡◌ {A = ℕ} 1 1 × Shows decode_msg verify encode_msg 7 (text "auth"))
unfolding session_event session_step handle_text handle_msg handle_auth Hub.authenticate HashMap.get
    HashMap.insert Hub.new Hub.register Hub.subscribe HashSet.insert HashSet.contains
    Hub.send_to_client Hub.push format_topic to_lowercase to_uppercase
session_event-grants_example =
    session_event-grants decode_msg verify encode_msg 1 7 1 (text "auth") listening_hub refl

-- The connection, the subscription and the token, as a run of the hub.
to_private : Reach decode_msg verify encode_msg private_hub
unfolding session_event session_step handle_text handle_msg HashMap.get HashMap.insert Hub.new
    Hub.register Hub.subscribe Hub.send_to_client Hub.push format_topic to_lowercase to_uppercase
to_private =
    let listening =
      and_then (and_then start (connect (omega arith)))
        (event 1 (text "trades") refl (λ t token u e d v. absurd (no_token t token e d))) in
    and_then listening (event 1 (text "auth") refl (λ t token u e d v. inl refl))

Reach-IsValid_example : IsValid private_hub
Reach-IsValid_example = Reach-IsValid decode_msg verify encode_msg to_private

private_hub-IsValid : IsValid private_hub
private_hub-IsValid = Reach-IsValid decode_msg verify encode_msg to_private

session_event-Forgets_example :
    Forgets 1 private_hub (session_event decode_msg verify encode_msg 1 close private_hub)
session_event-Forgets_example =
    session_event-Forgets decode_msg verify encode_msg 1 private_hub close private_hub-IsValid
      (unfold session_step in refl)

forward-Received_example : Received "payload" (
    HashMap.get 1
      (forward encode_msg
        (pos 3)
        (trade_executed sold)
        (session_event decode_msg verify encode_msg 1 (text "trades") hub_of_one)).clients)
unfolding HashMap.get HashMap.insert Hub.new Hub.register to_lowercase to_uppercase
forward-Received_example =
    forward-Received decode_msg verify encode_msg hub_of_one connected_hub.well_formed 1 "trades"
      "Trades" "sol_usd" (pos 3) sold "payload" refl refl refl refl refl

unregister-keeps_first_user_example :
    let hub' = authenticate 1 9 (authenticate 1 7 hub_of_one) in
    (session_of 1 hub' ≡ some (some 9))
    × (is_of 1 7 hub' ≡ true)
    × (is_of 1 7 (Hub.unregister 1 hub') ≡ true)
unfolding HashMap.get HashMap.insert Hub.new Hub.register
unregister-keeps_first_user_example =
    unregister-keeps_first_user 1 7 9 hub_of_one refl (λ e. absurd (cc (e)))
