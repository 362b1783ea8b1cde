-- ===== src/Engine/Tests.antt =====
-- Runs of the engine, and the theorems about it at concrete states.
use cex_rs.Base.{
  refl, [], ◌∷◌, String, ◌>>=◌, ℕ, ◌≡◌, ◌-◌, ◌+◌, ◌*◌, ◌/◌, arith, true, none, some, List, done,
  nat_eq, string_eq, ◌==◌, ◌&&◌, if◌then◌else◌,
}
use cex_rs.Base.Int.{pos}
use cex_rs.Base.HashMap
use cex_rs.Shared.Fees.{FeeSchedule, from_env, rate_from}
use cex_rs.Base.Text.{parse_u64, parse_digits}
use cex_rs.Shared.Requests.{OrderMsg, CancelMsg, limit, gtc}
use cex_rs.Book.Types.{bid, Trade}
use cex_rs.Book.Tests.{two_asks, two_asks-IsWellFormed, two_asks-IsUncrossed}
use cex_rs.Book.State as Book
use cex_rs.Book.Orders.{rest_order}
use cex_rs.Engine.State.{EngineState, new, usd_mut, usd_of}
use cex_rs.Shared.Requests.{OnrampMsg, DepositMsg}
use cex_rs.Engine.Account.{handle_onramp, handle_deposit}
use cex_rs.Engine.Account.Totals.{balance_of, handle_onramp-adds, handle_deposit-adds}
use cex_rs.Engine.Outputs.{Output}
use cex_rs.Engine.Fill.{add_available, apply_fill}
use cex_rs.Engine.Fill.Totals.{SameTotals, Congruent, usd_total, asset_total}
use cex_rs.Engine.Fill.Conserved.{FairFees, apply_fill-SameTotals}
use cex_rs.Engine.Cancel.{handle_cancel}
use cex_rs.Engine.Cancel.Returns.{handle_cancel-returns}
use cex_rs.Engine.Dispatch.{
  Decoder, dispatch_event, StreamRecord, replay_events, EngineLoop, run_records,
}
use cex_rs.Engine.Dispatch.Replay.{replay_events-run_records}
use cex_rs.Engine.Dispatch.Total.{HasRoom, run_records-returns}
use cex_rs.Engine.Dispatch.Recovery.{Recovers, run_records-recovers}
use cex_rs.Book.View.Priced.{All}
use cex_rs.Engine.Dispatch.Returns.{IsHandled, new-IsReady, dispatch_event-returns}
use cex_rs.Engine.Order.{handle_order}
use cex_rs.Engine.Order.Arms.{handle_order-returns}
use cex_rs.Engine.Order.Market.{Floats}
use cex_rs.Engine.Order.Ready.{IsReady, usd_mut-IsReady}

program : Unit {0}
unfolding new Book.new usd_mut HashMap.get HashMap.insert rest_order
program = tt

-- Whole percentages, in place of `f64`.
abbrev pub percent : Floats
percent = record {
  F = ℕ;
  from_u64 = λ n. n;
  as_u64 = λ x. x;
  add = ◌+◌;
  sub = ◌-◌;
  mul = ◌*◌;
  div = ◌/◌;
  floor = λ x. x;
  ceil = λ x. x;
}

abbrev fees : FeeSchedule
fees = record { maker_fee_bps = 10; taker_fee_bps = 20 }

fees-FairFees : FairFees fees
fees-FairFees = record { maker = omega arith; taker = omega arith }

-- User 12 has USD, and two asks rest in the book of SOL.
abbrev pub market_state : EngineState
market_state =
    usd_mut 12 (add_available 5000)
      (record (new fees) { sol_orderbook = two_asks; next_order_id = 3 })

pub market_state-IsReady : IsReady market_state
unfolding program
market_state-IsReady =
    usd_mut-IsReady 12 (add_available 5000)
      (record (new fees) { sol_orderbook = two_asks; next_order_id = 3 })
      (record {
        sol = record {
          well_formed = two_asks-IsWellFormed;
          uncrossed = two_asks-IsUncrossed;
          unused = λ id g. ground arith;
        };
        btc = record {
          well_formed = (new-IsReady fees).btc.well_formed;
          uncrossed = (new-IsReady fees).btc.uncrossed;
          unused = λ id g. (new-IsReady fees).btc.unused id (omega arith);
        };
        eth = record {
          well_formed = (new-IsReady fees).eth.well_formed;
          uncrossed = (new-IsReady fees).eth.uncrossed;
          unused = λ id g. (new-IsReady fees).eth.unused id (omega arith);
        };
      })

abbrev buy : OrderMsg ℕ
buy = record {
  user_id = 12;
  asset = "SOL";
  side = "bid";
  order_type = limit;
  price = pos 100;
  qty = pos 20;
  slippage_pct = none;
  time_in_force = gtc;
  queue_id = "q";
  identifier = "1";
}

abbrev cancel : CancelMsg
cancel = record { user_id = 11; order_id = 2; queue_id = "q"; identifier = "2" }

handle_order-returns_example :
    (s' : EngineState) × (outputs : List Output) × (handle_order percent true buy market_state
      ≡ done (s', outputs))
    × IsReady s'
    × SameTotals market_state s'
unfolding program
handle_order-returns_example =
    handle_order-returns percent true buy market_state market_state-IsReady (omega arith)
      fees-FairFees

handle_cancel-returns_example :
    (s' : EngineState) × (outputs : List Output) × (handle_cancel true cancel market_state
      ≡ done (s', outputs))
    × IsReady s'
    × SameTotals market_state s'
handle_cancel-returns_example = handle_cancel-returns true cancel market_state market_state-IsReady

abbrev sale : Trade
sale = record {
  buyer = 12;
  seller = 10;
  price = 100;
  qty = 5;
  taker_order_id = 3;
  maker_order_id = 1;
  taker_side = bid;
}

apply_fill-SameTotals_example : SameTotals market_state (apply_fill market_state "sol" sale).0
unfolding program
apply_fill-SameTotals_example = apply_fill-SameTotals market_state "sol" sale fees-FairFees

-- Every text is the one order, or the one cancellation.
abbrev pub decode : Decoder ℕ
decode = record {
  signup = λ s. none;
  onramp = λ s. none;
  deposit = λ s. none;
  balance = λ s. none;
  order = λ s. some buy;
  cancel = λ s. some cancel;
  orderbook = λ s. none;
  open_orders = λ s. none;
  order_status = λ s. none;
  reset = λ s. none;
}

dispatch_event-returns_example :
    IsHandled (dispatch_event percent decode market_state true "incoming-order" "{}")
unfolding program
dispatch_event-returns_example =
    dispatch_event-returns percent decode market_state true "incoming-order" "{}"
      market_state-IsReady (omega arith)

abbrev pub record_of : String → String → StreamRecord
record_of id channel = record { id = id; channel = some (some channel); payload = some (some "{}") }

abbrev pub stream : List StreamRecord
stream = record_of "1-0" "incoming-order" ∷ record_of "2-0" "cancel-order" ∷ []

pub stream-HasRoom : HasRoom 2 market_state
unfolding program
stream-HasRoom = omega arith

abbrev pub live : EngineLoop
live = record {
  state = market_state;
  last_id = "0-0";
  events_since_snapshot = 0;
  outputs = [];
  snapshots = [];
}

replay_events-run_records_example :
    (replay_events percent decode stream (market_state, "0-0") >>= λ r. done r.0)
    ≡ (run_records percent decode true stream live >>= λ l. done l.state)
replay_events-run_records_example = replay_events-run_records percent decode true stream "0-0" live

abbrev onramp_msg : OnrampMsg
onramp_msg = record { queue_id = "q"; identifier = "onramp"; user_id = 12; qty = 700 }

handle_onramp-adds_example :
    Congruent
      (usd_total (handle_onramp true onramp_msg market_state).0)
      (usd_total market_state + 700)
    × ((u : ℕ)
        → usd_of u (handle_onramp true onramp_msg market_state).0
          ≡ (if u == 12 then add_available 700 (usd_of u market_state) else usd_of u market_state))
    × (handle_onramp true onramp_msg market_state).0.stock_balance ≡ market_state.stock_balance
handle_onramp-adds_example = handle_onramp-adds true onramp_msg market_state

abbrev deposit_msg : DepositMsg
deposit_msg = record {
  queue_id = "q";
  identifier = "deposit";
  user_id = 12;
  symbol = "sol";
  qty = 9;
}

handle_deposit-adds_example :
    Congruent
      (asset_total "sol" (handle_deposit true deposit_msg market_state).0)
      (asset_total "sol" market_state + 9)
    × ((u : ℕ) (symbol : String)
        → balance_of u symbol (handle_deposit true deposit_msg market_state).0 ≡ (
            if u == 12 && symbol == "sol"
            then add_available 9 (balance_of u symbol market_state)
            else balance_of u symbol market_state))
    × (handle_deposit true deposit_msg market_state).0.usd_balance ≡ market_state.usd_balance
handle_deposit-adds_example = handle_deposit-adds true deposit_msg market_state

run_records-returns_example :
    (l' : EngineLoop) × (last_id : String) × (run_records percent decode true stream live ≡ done l')
    × (replay_events percent decode stream (market_state, "0-0") ≡ done (l'.state, last_id))
    × IsReady l'.state
unfolding program
run_records-returns_example =
    run_records-returns percent decode true stream live "0-0" market_state-IsReady (omega arith)

-- The first record makes a thousand events.
abbrev pub nearly_due : EngineLoop
nearly_due = record live { events_since_snapshot = 999 }

run_records-recovers_example :
    (l' : EngineLoop) × (run_records percent decode true stream nearly_due ≡ done l')
    × All (Recovers percent decode stream l'.state) l'.snapshots
unfolding program
run_records-recovers_example =
    run_records-recovers percent decode true stream nearly_due market_state-IsReady (omega arith)
      refl

rates_of_env : from_env (some "+10") (some "12x") ≡ record { maker_fee_bps = 10; taker_fee_bps = 0 }
unfolding from_env rate_from parse_u64 parse_digits
rates_of_env = refl

rates_too_large :
    from_env none (some "18446744073709551616") ≡ record { maker_fee_bps = 0; taker_fee_bps = 0 }
unfolding from_env rate_from parse_u64 parse_digits
rates_too_large = refl
