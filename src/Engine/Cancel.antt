-- ===== src/Engine/Cancel.antt =====
-- `handle_cancel` of rs-engine/src/handlers/order.rs.
pub mod Returns
use cex_rs.Base.{
  ℕ, String, Bool, List, ◌++◌, none, some, Outcome, done, panic, ◌>>=◌, Result, ok, err,
}
use cex_rs.Base.Word.{add64, mul64}
use cex_rs.Base.Text.{to_uppercase, concat}
use cex_rs.Shared.Requests.{CancelMsg}
use cex_rs.Shared.Fees.{calc_maker_fee}
use cex_rs.Shared.Events.{order_cancelled}
use cex_rs.Book.Types.{
  bid, ask, OrderCancelled, OrderbookError, invalid_price, invalid_quantity, order_not_found,
  not_order_owner,
}
use cex_rs.Book.State.{Orderbook, get_order}
use cex_rs.Book.Orders.{cancel_order}
use cex_rs.Engine.State.{EngineState, usd_mut, asset_mut}
use cex_rs.Engine.Outputs.{Output, reply, cancel_reply, reply_cancel_error, emit_execution}
use cex_rs.Engine.Fill.{unlock}
use cex_rs.Engine.Order.Settle.{depth_update}

-- What cancelling has found: the state, and the order with the asset it was for.
abbrev pub Found : Type 0
Found = EngineState × Result (OrderCancelled × String) OrderbookError

-- One arm of the `if let Ok(c)` chain. `otherwise` is the rest of the chain, on the state that
-- the attempt leaves.
abbrev pub or_cancel :
    Outcome (Orderbook × Result OrderCancelled OrderbookError)
    → String
    → (Orderbook → EngineState)
    → (EngineState → Outcome Found)
    → Outcome Found
or_cancel attempt asset write otherwise = do
  (book, res) ← attempt
  elim res [ ok c ↦ done (write book, ok (c, asset)) | err e ↦ otherwise (write book) ]

-- `exists_other_user`: the error when no book has cancelled the order.
unfoldable pub cancel_error : EngineState → ℕ → OrderbookError
cancel_error s order_id = elim (get_order s.sol_orderbook order_id) [
  | some o ↦ not_order_owner
  | none ↦ elim (get_order s.btc_orderbook order_id) [
    | some o ↦ not_order_owner
    | none ↦ elim (get_order s.eth_orderbook order_id) [
      | some o ↦ not_order_owner
      | none ↦ order_not_found
    ]
  ]
]

unfoldable pub cancel_eth : ℕ → ℕ → EngineState → Outcome Found
cancel_eth order_id user_id s =
    or_cancel (cancel_order order_id user_id s.eth_orderbook) "eth"
      (λ b. record s { eth_orderbook = b }) (λ s'. done (s', err (cancel_error s' order_id)))

unfoldable pub cancel_btc : ℕ → ℕ → EngineState → Outcome Found
cancel_btc order_id user_id s =
    or_cancel (cancel_order order_id user_id s.btc_orderbook) "btc"
      (λ b. record s { btc_orderbook = b }) (cancel_eth order_id user_id)

unfoldable pub find_and_cancel : ℕ → ℕ → EngineState → Outcome Found
find_and_cancel order_id user_id s =
    or_cancel (cancel_order order_id user_id s.sol_orderbook) "sol"
      (λ b. record s { sol_orderbook = b }) (cancel_btc order_id user_id)

-- Refund the locked funds of the remaining quantity.
unfoldable pub refund_cancelled : OrderCancelled → String → EngineState → EngineState
refund_cancelled c asset s = elim c.side [
  | bid ↦
      let cost = mul64 c.price c.remaining_qty in
      usd_mut c.user_id (unlock (add64 cost (calc_maker_fee s.fee_schedule cost))) s
  | ask ↦ asset_mut c.user_id asset (unlock c.remaining_qty) s
]

unfoldable pub answer_cancel :
    Bool → CancelMsg → OrderCancelled → String → EngineState → List Output
answer_cancel publisher msg c asset s =
    emit_execution publisher (
      order_cancelled
        (record { order_id = c.order_id; user_id = c.user_id; remaining_qty = c.remaining_qty }))
    ++ depth_update publisher asset (concat (to_uppercase asset) "_USD") s
    ++ reply publisher msg.queue_id (
        cancel_reply (record {
          identifier = msg.identifier;
          order_id = some c.order_id;
          remaining_qty = some c.remaining_qty;
          message = some "Order cancelled";
          error = none;
        }))

-- What the handler does with it. `Err(_) => unreachable!(..)` is a panic.
unfoldable pub finish_cancel : Bool → CancelMsg → Found → Outcome (EngineState × List Output)
finish_cancel publisher msg (s, ok (c, asset)) =
    let s' = refund_cancelled c asset s in done (s', answer_cancel publisher msg c asset s')
finish_cancel publisher msg (s, err order_not_found) =
    done (s, reply_cancel_error publisher msg.queue_id msg.identifier "Open order not found")
finish_cancel publisher msg (s, err not_order_owner) =
    done (s, reply_cancel_error publisher msg.queue_id msg.identifier "Not order owner")
finish_cancel publisher msg (s, err invalid_price) = panic
finish_cancel publisher msg (s, err invalid_quantity) = panic

unfoldable pub handle_cancel : Bool → CancelMsg → EngineState → Outcome (EngineState × List Output)
handle_cancel publisher msg s =
    find_and_cancel msg.order_id msg.user_id s >>= finish_cancel publisher msg
