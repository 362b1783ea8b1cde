-- ===== src/Engine/Order/Limit.antt =====
-- The arm of `handle_order` for limit orders.
use cex_rs.Base.{
  ℕ, ◌-◌, ◌/◌, max, String, Bool, false, not, List, ◌++◌, Option, none, some, if◌then◌else◌,
  Outcome, done, ◌>>=◌, expect, expect_ok,
}
use cex_rs.Base.Int.{ℤ, is_pos, to_u64}
use cex_rs.Base.Word.{add64, sub64, mul64}
use cex_rs.Base.Text.{to_uppercase, concat}
use cex_rs.Shared.Fees.{FeeSchedule, calc_maker_fee}
use cex_rs.Shared.Events.{order_created}
use cex_rs.Book.Types.{bid, ask, OrderAccepted, MatchResult}
use cex_rs.Book.Orders.{add_order_with_id, is_gtc}
use cex_rs.Engine.State.{EngineState, get_orderbook, set_orderbook, next_order_id}
use cex_rs.Engine.Outputs.{Output, emit_execution}
use cex_rs.Engine.Order.Settle.{
  Order, Handled, refuse, reply_status, lock_usd, lock_asset, unlock_usd, unlock_asset, Settlement,
  settle_results, unsettled, fill_status,
}

-- `price * qty` and the fee at the higher rate.
unfoldable pub total_lock : FeeSchedule → ℕ → ℕ → ℕ
total_lock fees price qty =
    let cost = mul64 price qty in
    let fee_rate = max fees.taker_fee_bps fees.maker_fee_bps in
    add64 cost (mul64 cost fee_rate / 10000)

-- Lock funds upfront: the state, and what is missing.
unfoldable pub lock_order : Order → ℕ → EngineState → EngineState × Option String
lock_order o price s = elim o.side [
  | bid ↦
      let (s', locked) = lock_usd o.user_id (total_lock s.fee_schedule price o.qty) s in
      (s', if locked then none else some "Insufficient USD")
  | ask ↦
      let (s', locked) = lock_asset o.user_id o.asset o.qty s in
      (s', if locked then none else some (concat "Insufficient " (to_uppercase o.asset)))
]

-- What the resting part of a bid keeps locked.
unfoldable pub needed_locked : FeeSchedule → Option OrderAccepted → ℕ
needed_locked fees none = 0
needed_locked fees (some acc) =
    let resting_cost = mul64 acc.price acc.remaining_qty in
    add64 resting_cost (calc_maker_fee fees resting_cost)

-- Give back what the order does not need. Subtraction saturates here as in the code.
unfoldable pub reconcile : Order → ℕ → Settlement → EngineState
reconcile o locked r = elim o.side [
  | bid ↦
      unlock_usd o.user_id (locked - r.spent - needed_locked r.state.fee_schedule r.resting_order)
        r.state
  | ask ↦
      if not (is_gtc o.time_in_force)
      then unlock_asset o.user_id o.asset (sub64 o.qty r.filled_qty) r.state
      else r.state
]

-- The event of a resting order, and the reply.
unfoldable pub answer_limit : Bool → Order → Settlement → List Output
answer_limit publisher o r = elim r.resting_order [
  | none ↦ reply_status publisher o none (fill_status r.filled_qty o.qty)
  | some acc ↦
      emit_execution publisher (
        order_created (record {
          order_id = acc.order_id;
          user_id = acc.user_id;
          market = o.market;
          side = o.side_text;
          price = acc.price;
          original_qty = o.qty;
          remaining_qty = acc.remaining_qty;
          status = "open";
        }))
      ++ reply_status publisher o (some acc.order_id) "open"
]

-- Place the order in its book: the state and the results.
unfoldable pub place_limit : Order → ℕ → EngineState → Outcome (EngineState × List MatchResult)
place_limit o price s =
    let s1 = (next_order_id s).0 in
    let order_id = (next_order_id s).1 in
    do
      book ← expect (get_orderbook o.asset s1)
      (book', added) ← add_order_with_id order_id o.user_id o.side price o.qty o.time_in_force book
      results ← expect_ok added
      done (set_orderbook o.asset book' s1, results)

unfoldable pub limit_order : Bool → Order → ℤ → EngineState → Outcome Handled
limit_order publisher o price s =
    if not (is_pos price)
    then done (refuse publisher o "price must be positive for limit orders" s)
    else let amount = total_lock s.fee_schedule (to_u64 price) o.qty in
      let (s1, missing) = lock_order o (to_u64 price) s in
      elim missing [
        | some error ↦ done (refuse publisher o error s1)
        | none ↦ do
          (s2, results) ← place_limit o (to_u64 price) s1
          let r = settle_results publisher o results (unsettled s2)
          done (record {
            state = reconcile o amount r;
            outputs = r.outputs ++ answer_limit publisher o r;
            returned = false;
          })
      ]
