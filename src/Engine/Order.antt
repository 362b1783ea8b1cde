-- ===== src/Engine/Order.antt =====
-- `handle_order` of rs-engine/src/handlers/order.rs.
pub mod Settle
pub mod Limit
pub mod Market
pub mod Kept
pub mod Placed
pub mod Conserved
pub mod Next
pub mod Counted
pub mod Ready
pub mod Returns
pub mod Arms
pub mod Silent
use cex_rs.Base.{
  ℕ, String, Bool, true, false, not, ◌||◌, List, [], ◌∷◌, ◌++◌, Option, none, some, if◌then◌else◌,
  ◌==◌, string_eq, Outcome, done, ◌>>=◌,
}
use cex_rs.Base.Int.{ℤ, is_pos, to_u64}
use cex_rs.Base.Text.{to_lowercase, to_uppercase, concat}
use cex_rs.Shared.Requests.{OrderMsg, limit, market}
use cex_rs.Book.Types.{Side, bid, ask}
use cex_rs.Engine.State.{EngineState}
use cex_rs.Engine.Outputs.{Output, reply_error}
use cex_rs.Engine.Order.Settle.{Handled, Order, refuse, depth_update}
use cex_rs.Engine.Order.Limit.{limit_order}
use cex_rs.Engine.Order.Market.{Floats, market_sell, market_buy}

unfoldable pub is_supported : String → Bool
is_supported asset = asset == "sol" || asset == "btc" || asset == "eth"

unfoldable pub parse_side : String → Option Side
parse_side s = if s == "bid" then some bid else if s == "ask" then some ask else none

module _ (floats : Floats) where
  -- The request once it is valid.
  abbrev pub request : String → Side → OrderMsg floats.F → Order
  request asset side msg = record {
    user_id = msg.user_id;
    asset = asset;
    market = concat (to_uppercase asset) "_USD";
    side = side;
    side_text = msg.side;
    qty = to_u64 msg.qty;
    time_in_force = msg.time_in_force;
    queue_id = msg.queue_id;
    identifier = msg.identifier;
  }

  -- The three `match` arms, and what follows them unless they return early.
  unfoldable pub place_order :
      Bool → OrderMsg floats.F → Order → EngineState → Outcome (EngineState × List Output)
  place_order publisher msg o s =
      let placed : Outcome Handled = elim msg.order_type [
        | limit ↦ limit_order publisher o msg.price s
        | market ↦ elim o.side [
          | ask ↦ market_sell floats publisher o msg.price msg.slippage_pct s
          | bid ↦ market_buy floats publisher o msg.price msg.slippage_pct s
        ]
      ] in
      do
        h ← placed
        done (
          h.state,
          (if h.returned
              then h.outputs
              else h.outputs ++ depth_update publisher o.asset o.market h.state),
        )

  unfoldable pub handle_order :
      Bool → OrderMsg floats.F → EngineState → Outcome (EngineState × List Output)
  handle_order publisher msg s =
      let asset = to_lowercase msg.asset in
      if not (is_supported asset)
      then done (
        s,
        reply_error publisher msg.queue_id msg.identifier "Supported assets are SOL, BTC, ETH" 400,
      )
      else elim (parse_side msg.side) [
        | none ↦
            done
              (s, reply_error publisher msg.queue_id msg.identifier "side must be bid or ask" 400)
        | some side ↦
            if not (is_pos msg.qty)
            then done (
              s,
              reply_error publisher msg.queue_id msg.identifier "qty must be a positive number" 400,
            )
            else place_order publisher msg (request asset side msg) s
      ]
