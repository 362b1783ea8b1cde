-- ===== src/Engine/Dispatch.antt =====
-- rs-engine/src/engine.rs: the dispatch of an event to its handler, the replay of the stream, and
-- the work of the event loop on the records it has read.
pub mod Returns
pub mod Replay
pub mod Counted
pub mod Total
pub mod Recovery
use cex_rs.Base.{
  ℕ, suc, String, Bool, true, false, List, [], ◌∷◌, ◌++◌, take, Option, none, some, leb,
  if◌then◌else◌, ◌==◌, string_eq, Outcome, done, ◌>>=◌,
}
use cex_rs.Shared.Requests.{
  SignupMsg, OnrampMsg, DepositMsg, BalanceQueryMsg, OrderMsg, CancelMsg, OrderbookQueryMsg,
  OpenOrdersQueryMsg, OrderStatusQueryMsg, ResetMsg,
}
use cex_rs.Engine.State.{EngineState}
use cex_rs.Engine.Outputs.{Output}
use cex_rs.Engine.Account.{
  handle_signup, handle_onramp, handle_deposit, handle_balance, handle_reset,
}
use cex_rs.Engine.Cancel.{handle_cancel}
use cex_rs.Engine.Order.{handle_order}
use cex_rs.Engine.Order.Market.{Floats}
use cex_rs.Engine.Queries.{handle_get_orderbook, handle_get_open_orders, handle_get_order_status}

-- `serde_json::from_str` at the types of messages; `none` is an error.
pub record Decoder (F : Type 0) : Type 0 where
  pub signup : String → Option SignupMsg
  pub onramp : String → Option OnrampMsg
  pub deposit : String → Option DepositMsg
  pub balance : String → Option BalanceQueryMsg
  pub order : String → Option (OrderMsg F)
  pub cancel : String → Option CancelMsg
  pub orderbook : String → Option OrderbookQueryMsg
  pub open_orders : String → Option OpenOrdersQueryMsg
  pub order_status : String → Option OrderStatusQueryMsg
  pub reset : String → Option ResetMsg

abbrev pub Effect : Type 0
Effect = Outcome (EngineState × List Output)

-- `if let Ok(msg) = .. { handler(msg) }`
abbrev pub on_message : {M : Type 0} → Option M → EngineState → (M → Effect) → Effect
on_message none s handler = done (s, [])
on_message (some msg) s handler = handler msg

-- A record of the stream. A field can be missing; one that is no text reads as the empty one.
pub record StreamRecord : Type 0 where
  pub id : String
  pub channel : Option (Option String)
  -- the field `data`
  pub payload : Option (Option String)

abbrev pub text_or_default : Option String → String
text_or_default none = ""
text_or_default (some s) = s

module _ (floats : Floats) (decode : Decoder floats.F) where
  unfoldable pub dispatch_event : EngineState → Bool → String → String → Effect
  dispatch_event s publisher channel payload =
      if channel == "new-signup"
      then on_message (decode.signup payload) s (λ msg. done (handle_signup publisher msg s))
      else if channel == "onramp"
      then on_message (decode.onramp payload) s (λ msg. done (handle_onramp publisher msg s))
      else if channel == "deposite"
      then on_message (decode.deposit payload) s (λ msg. done (handle_deposit publisher msg s))
      else if channel == "balance-request"
      then on_message (decode.balance payload) s (λ msg. done (s, handle_balance publisher msg s))
      else if channel == "incoming-order"
      then on_message (decode.order payload) s (λ msg. handle_order floats publisher msg s)
      else if channel == "cancel-order"
      then on_message (decode.cancel payload) s (λ msg. handle_cancel publisher msg s)
      else if channel == "get-orderbook"
      then on_message (decode.orderbook payload) s
          (λ msg. done (s, handle_get_orderbook publisher msg s))
      else if channel == "get-open-orders"
      then on_message (decode.open_orders payload) s
          (λ msg. done (s, handle_get_open_orders publisher msg s))
      else if channel == "order-status"
      then on_message (decode.order_status payload) s
          (λ msg. done (s, handle_get_order_status publisher msg s))
      else if channel == "reset"
      then on_message (decode.reset payload) s (λ msg. done (handle_reset publisher msg s))
      else done (s, [])

  -- The loop of `replay_events_since` over the records that `XRANGE` returned.
  unfoldable pub replay_events :
      List StreamRecord → EngineState × String → Outcome (EngineState × String)
  replay_events [] (s, current_id) = done (s, current_id)
  replay_events (r ∷ rs) (s, current_id) = elim r.channel [
    | none ↦ replay_events rs (s, r.id)
    | some channel ↦ elim r.payload [
      | none ↦ replay_events rs (s, r.id)
      | some payload ↦ do
        (s', outputs) ← dispatch_event s false (text_or_default channel) (text_or_default payload)
        replay_events rs (s', r.id)
    ]
  ]

-- The variables of the event loop, with what it has sent and done beside: the outputs, and the
-- snapshots in the database, the latest first. `save_snapshot` keeps three.
pub record EngineLoop : Type 0 where
  pub state : EngineState
  pub last_id : String
  pub events_since_snapshot : ℕ
  pub outputs : List Output
  pub snapshots : List (String × EngineState)

unfoldable pub count_event : Bool → EngineLoop → EngineLoop
count_event db l =
    if leb 1000 (suc l.events_since_snapshot)
    then record l {
      events_since_snapshot = 0;
      snapshots = if db then (l.last_id, l.state) ∷ take 2 l.snapshots else l.snapshots;
    }
    else record l { events_since_snapshot = suc l.events_since_snapshot }

-- After a reset: no snapshot stays, and the stream starts again.
unfoldable pub restart_stream : Bool → EngineLoop → EngineLoop
restart_stream db l = record l {
  last_id = "0-0";
  events_since_snapshot = 0;
  snapshots = if db then [] else l.snapshots;
}

module _ (floats : Floats) (decode : Decoder floats.F) where
  -- The loop of `run_engine_with_db` over the records that one `XREAD` returned. `db` says whether
  -- there is a database, whose writes succeed.
  unfoldable pub run_records : Bool → List StreamRecord → EngineLoop → Outcome EngineLoop
  run_records db [] l = done l
  run_records db (r ∷ rs) l = elim r.channel [
    | none ↦ run_records db rs (record l { last_id = r.id })
    | some channel ↦ elim r.payload [
      | none ↦ run_records db rs (record l { last_id = r.id })
      | some payload ↦ do
        (s', outputs) ←
            dispatch_event floats decode l.state true (text_or_default channel)
              (text_or_default payload)
        let l' : EngineLoop = record l {
          state = s';
          last_id = r.id;
          outputs = l.outputs ++ outputs;
        } in
            run_records db rs (
              if text_or_default channel == "reset"
              then restart_stream db l'
              else count_event db l')
    ]
  ]
