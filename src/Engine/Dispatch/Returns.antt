-- ===== src/Engine/Dispatch/Returns.antt =====
-- Every event is handled, and leaves a state in which the next one can be.
use cex_rs.Base.{
  ◌≡◌, refl, Bool, true, false, String, Option, none, some, List, [], nat_eq, ◌==◌, string_eq,
  if◌then◌else◌, done,
}
use cex_rs.Base.HashMap
use cex_rs.Shared.Fees.{FeeSchedule}
use cex_rs.Shared.Requests.{SignupMsg, OnrampMsg, DepositMsg, ResetMsg}
use cex_rs.Book.State as Book
use cex_rs.Book.View.{resting, orders_of, flat}
use cex_rs.Book.Orders.Rest.{new-IsWellFormed, reset-IsWellFormed}
use cex_rs.Engine.State.{EngineState, new, reset, usd_mut, symbol_mut}
use cex_rs.Engine.Outputs.{Output}
use cex_rs.Engine.Account.{open_account, handle_signup, handle_onramp, handle_deposit, handle_reset}
use cex_rs.Engine.Cancel.Returns.{handle_cancel-returns}
use cex_rs.Engine.Dispatch.{Decoder, Effect, on_message, dispatch_event}
use cex_rs.Engine.Order.Market.{Floats}
use cex_rs.Engine.Order.Arms.{handle_order-Finishes}
use cex_rs.Engine.Order.Ready.{IsReady}
use cex_rs.Engine.Order.Returns.{HasNext}

pub new-IsReady : (fees : FeeSchedule) → IsReady (new fees)
unfolding new HashMap.get Book.new resting orders_of flat
new-IsReady fees = record {
  sol = record { well_formed = new-IsWellFormed "SOL-USDT"; uncrossed = tt; unused = λ id g. refl };
  btc = record { well_formed = new-IsWellFormed "BTC-USDT"; uncrossed = tt; unused = λ id g. refl };
  eth = record { well_formed = new-IsWellFormed "ETH-USDT"; uncrossed = tt; unused = λ id g. refl };
}

reset-IsReady : (s : EngineState) → IsReady (reset s)
unfolding reset HashMap.get Book.reset resting orders_of flat
reset-IsReady s = record {
  sol = record {
    well_formed = reset-IsWellFormed s.sol_orderbook;
    uncrossed = tt;
    unused = λ id g. refl;
  };
  btc = record {
    well_formed = reset-IsWellFormed s.btc_orderbook;
    uncrossed = tt;
    unused = λ id g. refl;
  };
  eth = record {
    well_formed = reset-IsWellFormed s.eth_orderbook;
    uncrossed = tt;
    unused = λ id g. refl;
  };
}

module _ (publisher : Bool) (s : EngineState) where
  signup-IsReady : (msg : SignupMsg) → IsReady s → IsReady (handle_signup publisher msg s).0
  unfolding handle_signup open_account
  signup-IsReady msg r = record { sol = r.sol; btc = r.btc; eth = r.eth }

  onramp-IsReady : (msg : OnrampMsg) → IsReady s → IsReady (handle_onramp publisher msg s).0
  unfolding handle_onramp usd_mut
  onramp-IsReady msg r = record { sol = r.sol; btc = r.btc; eth = r.eth }

  deposit-IsReady : (msg : DepositMsg) → IsReady s → IsReady (handle_deposit publisher msg s).0
  unfolding handle_deposit symbol_mut
  deposit-IsReady msg r = record { sol = r.sol; btc = r.btc; eth = r.eth }

  handle_reset-IsReady : (msg : ResetMsg) → IsReady (handle_reset publisher msg s).0
  unfolding handle_reset
  handle_reset-IsReady msg = reset-IsReady s

abbrev pub IsHandled : Effect → Type 0
IsHandled x = (s' : EngineState) × (outputs : List Output) × (x ≡ done (s', outputs)) × IsReady s'

if-IsHandled :
    (c : Bool) (x y : Effect) → IsHandled x → IsHandled y → IsHandled (if c then x else y)
if-IsHandled true x y a b = a
if-IsHandled false x y a b = b

on_message-IsHandled :
    {M : Type 0} (m : Option M) (s : EngineState) (handler : M → Effect)
    → IsReady s
    → ((msg : M) → IsHandled (handler msg))
    → IsHandled (on_message m s handler)
on_message-IsHandled none s handler r h = (s, [], refl, r)
on_message-IsHandled (some msg) s handler r h = h msg

-- From a state in which every book is consistent, does not cross and has none of the identifiers
-- that are yet to be given, and whose counter of identifiers plus one is below 2 ^ 64, any event on
-- any channel, malformed ones included, is handled without a panic, and the books of the state that
-- it leaves are such again.
pub dispatch_event-returns :
    (floats : Floats) (decode : Decoder floats.F) (s : EngineState) (publisher : Bool)
    (channel payload : String)
    → IsReady s
    → HasNext s
    → IsHandled (dispatch_event floats decode s publisher channel payload)
unfolding dispatch_event
dispatch_event-returns floats decode s publisher channel payload r room =
    if-IsHandled (channel == "new-signup") _ _
      (on_message-IsHandled (decode.signup payload) s _ r
        (λ msg. (_, _, refl, signup-IsReady publisher s msg r)))
      (if-IsHandled (channel == "onramp") _ _
        (on_message-IsHandled (decode.onramp payload) s _ r
          (λ msg. (_, _, refl, onramp-IsReady publisher s msg r)))
        (if-IsHandled (channel == "deposite") _ _
          (on_message-IsHandled (decode.deposit payload) s _ r
            (λ msg. (_, _, refl, deposit-IsReady publisher s msg r)))
          (if-IsHandled (channel == "balance-request") _ _
            (on_message-IsHandled (decode.balance payload) s _ r (λ msg. (s, _, refl, r)))
            (if-IsHandled (channel == "incoming-order") _ _
              (on_message-IsHandled (decode.order payload) s _ r
                (λ msg. handle_order-Finishes floats publisher msg s r room))
              (if-IsHandled (channel == "cancel-order") _ _
                (on_message-IsHandled (decode.cancel payload) s _ r (λ msg.
                  let (s', outputs, e, r', t) = handle_cancel-returns publisher msg s r in
                  (s', outputs, e, r')))
                (if-IsHandled (channel == "get-orderbook") _ _
                  (on_message-IsHandled (decode.orderbook payload) s _ r (λ msg. (s, _, refl, r)))
                  (if-IsHandled (channel == "get-open-orders") _ _
                    (on_message-IsHandled (decode.open_orders payload) s _ r
                      (λ msg. (s, _, refl, r)))
                    (if-IsHandled (channel == "order-status") _ _
                      (on_message-IsHandled (decode.order_status payload) s _ r
                        (λ msg. (s, _, refl, r)))
                      (if-IsHandled (channel == "reset") _ _
                        (on_message-IsHandled (decode.reset payload) s _ r
                          (λ msg. (_, _, refl, handle_reset-IsReady publisher s msg)))
                        (s, [], refl, r))))))))))
