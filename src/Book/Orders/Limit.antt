-- ===== src/Book/Orders/Limit.antt =====
-- `add_order_with_id` on a well-formed book.
use cex_rs.Base.{
  ℕ, ◌≡◌, refl, ap, ◌∙◌, ◌≢◌, ◌⊎◌, Bool, true, false, not, ◌&&◌, none, [], ◌∷◌, ◌++◌, arith,
  nat_beq, nat_eq, ltb, if◌then◌else◌, done, ok, err, Bool-cases, inl, inr,
}
use cex_rs.Base.HashMap
use cex_rs.Shared.Requests.{TimeInForce}
use cex_rs.Book.Types.{
  Side, bid, ask, Order, MatchResult, order_accepted, invalid_price, invalid_quantity,
}
use cex_rs.Book.State.{Orderbook, opposite}
use cex_rs.Book.Matching.{Progress, limit_crosses}
use cex_rs.Book.Orders.{
  bump_order_id, add_order_with_id, rest_unfilled, rest_order, is_fok, is_gtc, can_fill_quantity,
}
use cex_rs.Book.Orders.Enqueue.{enqueue}
use cex_rs.Book.Orders.Enqueue.Rested.{rest_order-enqueue}
use cex_rs.Book.Orders.Market.{taker, matched, Leaves}
use cex_rs.Book.Orders.Rest.{rest_order-rested, orders-rested, rest_order-IsWellFormed}
use cex_rs.Book.View.{resting}
use cex_rs.Book.WellFormed.{IsWellFormed}
use cex_rs.Book.Priority.{Matched, fill_queue}

-- A limit order without a price or a quantity is an error, which names the price first. It changes
-- only the counter.
pub add_order_with_id-invalid :
    (order_id user_id : ℕ) (side : Side) (price qty : ℕ) (time_in_force : TimeInForce)
    (b : Orderbook)
    → (price ≡ 0) ⊎ (qty ≡ 0)
    → add_order_with_id order_id user_id side price qty time_in_force b
      ≡ done (
        bump_order_id order_id b,
        err (if nat_beq price 0 then invalid_price else invalid_quantity),
      )
unfolding add_order_with_id
add_order_with_id-invalid order_id user_id side price qty time_in_force b h = ground arith

-- The new order as it rests.
abbrev pub remainder : ℕ → ℕ → Side → ℕ → ℕ → Order
remainder order_id user_id side price qty = record {
  order_id = order_id;
  user_id = user_id;
  side = side;
  price = price;
  remaining_qty = qty;
}

abbrev pub accepted : Order → MatchResult
accepted o = order_accepted (record {
  order_id = o.order_id;
  user_id = o.user_id;
  side = o.side;
  price = o.price;
  remaining_qty = o.remaining_qty;
})

-- What matching leaves of a limit order.
abbrev pub limit_match : ℕ → ℕ → Side → ℕ → ℕ → Orderbook → Matched
limit_match order_id user_id side price qty b =
    fill_queue (taker order_id user_id side) (limit_crosses side price) qty
      (resting (opposite side) b)

-- Does something of the order stay in the book?
abbrev pub rests : TimeInForce → Matched → Bool
rests time_in_force m = ltb 0 m.remaining_qty && is_gtc time_in_force

can_fill_quantity-bump :
    (order_id : ℕ) (side : Side) (price qty : ℕ) (b : Orderbook)
    → can_fill_quantity (bump_order_id order_id b) side price qty
      ≡ can_fill_quantity b side price qty
unfolding can_fill_quantity bump_order_id
can_fill_quantity-bump order_id bid price qty b = refl
can_fill_quantity-bump order_id ask price qty b = refl

get-rest_order :
    (o : Order) (b : Orderbook) (j : ℕ)
    → j ≢ o.order_id
    → HashMap.get j (rest_order o b).orders ≡ HashMap.get j b.orders
get-rest_order o b j ne =
    ap (λ (c : Orderbook). HashMap.get j c.orders) (rest_order-rested o.side o b refl)
    ∙ ap (HashMap.get j) (orders-rested o.side o b)
    ∙ HashMap.get-insert j o.order_id o b.orders
    ∙ ground arith

module _ (order_id user_id : ℕ) (side : Side) (price : ℕ) (time_in_force : TimeInForce)
    (b : Orderbook) (fresh : HashMap.get order_id b.orders ≡ none) where
  abbrev pub OnlyAdds : Orderbook → Type 0
  OnlyAdds c =
      (j : ℕ) → j ≢ order_id → HashMap.get j b.orders ≡ none → HashMap.get j c.orders ≡ none

  -- What `rest_unfilled` leaves of a run of the loops.
  abbrev Rests : ℕ → Matched → Progress → Type 0
  Rests qty m q =
      let o = remainder order_id user_id side price m.remaining_qty in
      (c : Orderbook) × (rest_unfilled (taker order_id user_id side) price time_in_force q
        ≡ (c, ok (if rests time_in_force m then m.trades ++ accepted o ∷ [] else m.trades)))
      × (resting (opposite side) c ≡ m.queue)
      × (resting side c
          ≡ (if rests time_in_force m then enqueue side o (resting side b) else resting side b))
      × OnlyAdds c
      × IsWellFormed c

  rest_unfilled-Rests :
      (qty : ℕ) (q : Progress)
      → Leaves (taker order_id user_id side) (limit_crosses side price) qty b q
      → Rests qty (limit_match order_id user_id side price qty b) q
  unfolding rest_unfilled
  rest_unfilled-Rests qty q left =
      let m = limit_match order_id user_id side price qty b in
      let o = remainder order_id user_id side price q.remaining_qty in
      elim (Bool-cases (ltb 0 q.remaining_qty && is_gtc time_in_force)) [
        | inl stays ↦
            let (own, other) =
              rest_order-enqueue o q.book left.well_formed (left.none_added order_id fresh) in
            (
              rest_order o q.book,
              rw (← left.remaining_qty, ← left.results, stays),
              other ∙ left.other_side,
              rw (← left.remaining_qty, stays, own, left.same_side),
              λ j ne h. get-rest_order o q.book j ne ∙ left.none_added j h,
              rest_order-IsWellFormed o q.book left.well_formed (left.none_added order_id fresh)
                  (ground arith),
            )
        | inr leaves ↦ (
          q.book,
          rw (← left.remaining_qty, ← left.results, leaves),
          left.other_side,
          rw (← left.remaining_qty, leaves, left.same_side),
          λ j ne h. left.none_added j h,
          left.well_formed,
        )
      ]

-- A limit order that is not killed ends, and adds no other order to the book.
pub add_order_with_id-ends :
    (order_id user_id : ℕ) (side : Side) (price qty : ℕ) (time_in_force : TimeInForce)
    (b : Orderbook)
    → IsWellFormed b
    → HashMap.get order_id b.orders ≡ none
    → price ≢ 0
    → qty ≢ 0
    → is_fok time_in_force && not (can_fill_quantity b side price qty) ≡ false
    → let m = limit_match order_id user_id side price qty b in
      let o = remainder order_id user_id side price m.remaining_qty in
      (c : Orderbook) × (add_order_with_id order_id user_id side price qty time_in_force b
        ≡ done (c, ok (if rests time_in_force m then m.trades ++ accepted o ∷ [] else m.trades)))
      × (resting (opposite side) c ≡ m.queue)
      × (resting side c
          ≡ (if rests time_in_force m then enqueue side o (resting side b) else resting side b))
      × ((j : ℕ) → j ≢ order_id → HashMap.get j b.orders ≡ none → HashMap.get j c.orders ≡ none)
      × IsWellFormed c
unfolding add_order_with_id
add_order_with_id-ends order_id user_id side price qty time_in_force b w fresh priced positive
      passes =
    let (q, ends, left) = matched order_id user_id side (limit_crosses side price) qty b w in
    let (c, rested, other, own, adds, w') =
      rest_unfilled-Rests order_id user_id side price time_in_force b fresh qty q left in
    let some_price : nat_beq price 0 ≡ false = ground arith in
    let some_qty : nat_beq qty 0 ≡ false = ground arith in
    (
      c,
      rw (
        some_price,
        some_qty,
        can_fill_quantity-bump order_id side price qty b,
        passes,
        ends,
        rested,
      ),
      other,
      own,
      adds,
      w',
    )

-- On a well-formed book, a limit order with a fresh identifier, a price and a quantity that are
-- not zero ends without a panic, unless it is a FOK order that cannot be filled. Its trades and
-- the orders that stay on the other side are those of matching in price-time priority within its
-- price. Only what is left of a GTC order comes to rest: behind every order of its side whose
-- price is at least as good. The book stays well-formed.
pub add_order_with_id-fill_queue :
    (order_id user_id : ℕ) (side : Side) (price qty : ℕ) (time_in_force : TimeInForce)
    (b : Orderbook)
    → IsWellFormed b
    → HashMap.get order_id b.orders ≡ none
    → price ≢ 0
    → qty ≢ 0
    → is_fok time_in_force && not (can_fill_quantity b side price qty) ≡ false
    → let m = limit_match order_id user_id side price qty b in
      let o = remainder order_id user_id side price m.remaining_qty in
      (c : Orderbook) × (add_order_with_id order_id user_id side price qty time_in_force b
        ≡ done (c, ok (if rests time_in_force m then m.trades ++ accepted o ∷ [] else m.trades)))
      × (resting (opposite side) c ≡ m.queue)
      × (resting side c
          ≡ (if rests time_in_force m then enqueue side o (resting side b) else resting side b))
      × IsWellFormed c
add_order_with_id-fill_queue order_id user_id side price qty time_in_force b w fresh priced positive
      passes =
    let (c, run, other, own, adds, w') =
      add_order_with_id-ends order_id user_id side price qty time_in_force b w fresh priced positive
        passes in
    (c, run, other, own, w')

-- A FOK order that cannot be filled changes only the counter.
pub add_order_with_id-killed :
    (order_id user_id : ℕ) (side : Side) (price qty : ℕ) (time_in_force : TimeInForce)
    (b : Orderbook)
    → price ≢ 0
    → qty ≢ 0
    → is_fok time_in_force && not (can_fill_quantity b side price qty) ≡ true
    → add_order_with_id order_id user_id side price qty time_in_force b
      ≡ done (bump_order_id order_id b, ok [])
unfolding add_order_with_id
add_order_with_id-killed order_id user_id side price qty time_in_force b priced positive fails =
    let some_price : nat_beq price 0 ≡ false = ground arith in
    let some_qty : nat_beq qty 0 ≡ false = ground arith in
    rw (some_price, some_qty, can_fill_quantity-bump order_id side price qty b, fails)
