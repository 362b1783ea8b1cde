-- ===== src/Book/Priority/Amounts.antt =====
-- How much matching in price-time priority trades, and at what cost.
use cex_rs.Base.{
  ℕ, ◌+◌, ◌-◌, ◌≡◌, Bool, true, false, List, [], ◌∷◌, arith, nat_beq, leb, nat_eq, Bool-cases, inl,
  inr,
}
use cex_rs.Book.Types.{bid, ask, Order, MatchResult, trade, order_accepted}
use cex_rs.Book.Matching.{Taker, make_trade}
use cex_rs.Book.Priority.{
  fill_queue, fill_queue-idle, fill_queue-refused, fill_queue-full, fill_queue-partial,
}

-- The quantity that changes hands.
unfoldable pub traded : List MatchResult → ℕ
traded [] = 0
traded (trade t ∷ results) = t.qty + traded results
traded (order_accepted acc ∷ results) = traded results

-- All that rests.
abbrev pub sum_qty : List Order → ℕ
sum_qty [] = 0
sum_qty (o ∷ os) = o.remaining_qty + sum_qty os

-- Every trade is at a price that suits.
abbrev pub IsWithin : (ℕ → Bool) → List MatchResult → Type 0
IsWithin crosses [] = Unit {0}
IsWithin crosses (trade t ∷ results) = (crosses t.price ≡ true) × IsWithin crosses results
IsWithin crosses (order_accepted a ∷ results) = IsWithin crosses results

-- What is offered before the first order whose price does not suit.
unfoldable pub available : (ℕ → Bool) → List Order → ℕ
available crosses [] = 0
available crosses (o ∷ queue) =
    let rest = available crosses queue in
    elim (crosses o.price) [ true ↦ o.remaining_qty + rest | false ↦ 0 ]

module _ (t : Taker) (crosses : ℕ → Bool) where
  pub fill_queue-traded :
      (qty : ℕ) (queue : List Order)
      → traded (fill_queue t crosses qty queue).trades
          + (fill_queue t crosses qty queue).remaining_qty
        ≡ qty
  unfolding traded fill_queue
  fill_queue-traded qty [] = omega arith
  fill_queue-traded qty (o ∷ queue) =
      ground (arith, fill_queue-traded (qty - o.remaining_qty) queue)

  pub fill_queue-available :
      (qty : ℕ) (queue : List Order)
      → (fill_queue t crosses qty queue).remaining_qty ≡ qty - available crosses queue
  unfolding available fill_queue
  fill_queue-available qty [] = omega arith
  fill_queue-available qty (o ∷ queue) =
      ground (arith, fill_queue-available (qty - o.remaining_qty) queue)

  pub fill_queue-sum_qty :
      (qty : ℕ) (queue : List Order)
      → sum_qty (fill_queue t crosses qty queue).queue
          + traded (fill_queue t crosses qty queue).trades
        ≡ sum_qty queue
  unfolding traded fill_queue
  fill_queue-sum_qty qty [] = omega arith
  fill_queue-sum_qty qty (o ∷ queue) =
      ground (arith, fill_queue-sum_qty (qty - o.remaining_qty) queue)

  trade_with-suits :
      (o : Order) (n : ℕ)
      → crosses o.price ≡ true
      → crosses (make_trade t o.price o.order_id o n).price ≡ true
  trade_with-suits o n h =
      elim t.side
        as (λ u. crosses (make_trade (record t { side = u }) o.price o.order_id o n).price ≡ true) [
          | bid ↦ h
          | ask ↦ h
        ]

  pub fill_queue-IsWithin :
      (qty : ℕ) (queue : List Order) → IsWithin crosses (fill_queue t crosses qty queue).trades
  unfolding fill_queue
  fill_queue-IsWithin qty [] = tt
  fill_queue-IsWithin qty (o ∷ queue) = elim (Bool-cases (nat_beq qty 0)) [
    | inl idle ↦ rw (fill_queue-idle t crosses qty o queue idle) tt
    | inr wanted ↦ elim (Bool-cases (crosses o.price)) [
      | inr refused ↦ rw (fill_queue-refused t crosses qty o queue refused) tt
      | inl suits ↦ elim (Bool-cases (leb o.remaining_qty qty)) [
        | inl all ↦ rw (fill_queue-full t crosses qty o queue wanted suits (ground arith)) (
          trade_with-suits o o.remaining_qty suits,
          fill_queue-IsWithin (qty - o.remaining_qty) queue,
        )
        | inr part ↦
            rw (fill_queue-partial t crosses qty o queue wanted suits (ground arith))
              (trade_with-suits o qty suits, tt)
      ]
    ]
  ]
