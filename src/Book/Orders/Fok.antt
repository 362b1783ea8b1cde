-- ===== src/Book/Orders/Fok.antt =====
-- FOK orders: all or nothing.
use cex_rs.Base.{
  ℕ, ◌<◌, ◌≡◌, refl, ◌∙◌, ◌≢◌, none, List, [], arith, leb, nat_eq, if◌then◌else◌, done, ok,
  Bool-cases, inl, inr,
}
use cex_rs.Base.HashMap
use cex_rs.Base.HashMap.{HashMap}
use cex_rs.Base.Word.{u64_mod}
use cex_rs.Shared.Requests.{fok}
use cex_rs.Book.Types.{Side, MatchResult}
use cex_rs.Book.State.{Orderbook, opposite}
use cex_rs.Book.Matching.{limit_crosses}
use cex_rs.Book.Orders.{add_order_with_id, bump_order_id}
use cex_rs.Book.View.{resting}
use cex_rs.Book.WellFormed.{IsWellFormed}
use cex_rs.Book.Priority.Amounts.{available, traded, fill_queue-traded, fill_queue-available}
use cex_rs.Book.Orders.Limit.{limit_match, add_order_with_id-fill_queue, add_order_with_id-killed}
use cex_rs.Book.Orders.Market.{taker}
use cex_rs.Book.Orders.Available.{can_fill_quantity-available}

-- On a well-formed book that offers less than 2 ^ 64 within the price, a FOK order with a price and a
-- quantity other than 0 and an identifier that no order of the book has is filled as a whole when
-- the book offers its quantity, and its own side stays as it is; otherwise it changes only the
-- counter, and trades nothing.
pub add_order_with_id-fok :
    (order_id user_id : ℕ) (side : Side) (price qty : ℕ) (b : Orderbook)
    → IsWellFormed b
    → HashMap.get order_id b.orders ≡ none
    → price ≢ 0
    → qty ≢ 0
    → available (limit_crosses side price) (resting (opposite side) b) < u64_mod
    → (c : Orderbook) × (results : List MatchResult) × (add_order_with_id order_id user_id side
          price qty fok b
        ≡ done (c, ok results))
      × (if leb qty (available (limit_crosses side price) (resting (opposite side) b))
          then (traded results ≡ qty) × (resting side c ≡ resting side b)
          else (results ≡ []) × (c ≡ bump_order_id order_id b))
add_order_with_id-fok order_id user_id side price qty b w fresh priced positive small =
    let scanned = can_fill_quantity-available b side price qty w small in
    let offered = available (limit_crosses side price) (resting (opposite side) b) in
    elim (Bool-cases (leb qty offered)) [
      | inr short ↦ (
        bump_order_id order_id b,
        [],
        add_order_with_id-killed order_id user_id side price qty fok b priced positive
            (rw (scanned, short)),
        rw short (refl, refl),
      )
      | inl enough ↦
          let m = limit_match order_id user_id side price qty b in
          let (c, run, other, own, w') =
            add_order_with_id-fill_queue order_id user_id side price qty fok b w fresh priced
              positive (rw (scanned, enough)) in
          let left : m.remaining_qty ≡ 0 = ground (
            arith,
            enough,
            fill_queue-available (taker order_id user_id side) (limit_crosses side price) qty
                (resting (opposite side) b),
          ) in
          (
            c,
            m.trades,
            run ∙ rw left,
            rw enough (
              omega (
                arith,
                left,
                fill_queue-traded (taker order_id user_id side) (limit_crosses side price) qty
                    (resting (opposite side) b),
              ),
              own ∙ rw left,
            ),
          )
    ]
