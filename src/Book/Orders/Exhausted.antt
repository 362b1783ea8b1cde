-- ===== src/Book/Orders/Exhausted.antt =====
-- What matching leaves of the other side.
use cex_rs.Base.{
  ℕ, ◌-◌, ◌≡◌, ◌≢◌, Bool, false, List, [], ◌∷◌, arith, nat_beq, nat_eq, leb, Bool-cases, inl, inr,
}
use cex_rs.Book.Types.{Side, Order}
use cex_rs.Book.Matching.{Taker}
use cex_rs.Book.Orders.Enqueue.{ahead, enqueue}
use cex_rs.Book.Resting.BestFirst.{NoWorse, IsBestFirst}
use cex_rs.Book.View.Priced.{All, All-map}
use cex_rs.Book.Priority.{
  fill_queue, fill_queue-idle, fill_queue-refused, fill_queue-full, fill_queue-partial,
}

module _ (t : Taker) (crosses : ℕ → Bool) where
  -- What stays has the prices that were there.
  pub fill_queue-All :
      (P : ℕ → Type 0) (qty : ℕ) (queue : List Order)
      → All (λ o. P o.price) queue
      → All (λ o. P o.price) (fill_queue t crosses qty queue).queue
  unfolding fill_queue
  fill_queue-All P qty [] a = tt
  fill_queue-All P qty (o ∷ queue) a = elim (Bool-cases (nat_beq qty 0)) [
    | inl idle ↦ rw (fill_queue-idle t crosses qty o queue idle) a
    | inr wanted ↦ elim (Bool-cases (crosses o.price)) [
      | inr refused ↦ rw (fill_queue-refused t crosses qty o queue refused) a
      | inl suits ↦ elim (Bool-cases (leb o.remaining_qty qty)) [
        | inl all ↦
            rw (fill_queue-full t crosses qty o queue wanted suits (ground arith))
              (fill_queue-All P (qty - o.remaining_qty) queue a.1)
        | inr part ↦ rw (fill_queue-partial t crosses qty o queue wanted suits (ground arith)) a
      ]
    ]
  ]

  -- When something is left, nothing that suits stays.
  pub fill_queue-exhausted :
      (s : Side) (qty : ℕ) (queue : List Order)
      → ((p q : ℕ) → NoWorse s p q → crosses p ≡ false → crosses q ≡ false)
      → IsBestFirst s queue
      → (fill_queue t crosses qty queue).remaining_qty ≢ 0
      → All (λ o. crosses o.price ≡ false) (fill_queue t crosses qty queue).queue
  unfolding fill_queue
  fill_queue-exhausted s qty [] mono f left = tt
  fill_queue-exhausted s qty (o ∷ queue) mono f left = elim (Bool-cases (nat_beq qty 0)) [
    | inl idle ↦ absurd (ground (arith, fill_queue-idle t crosses qty o queue idle))
    | inr wanted ↦ elim (Bool-cases (crosses o.price)) [
      | inr refused ↦
          rw (fill_queue-refused t crosses qty o queue refused)
            (refused, All-map _ _ queue (λ x w. mono o.price x.price w refused) f.0)
      | inl suits ↦ elim (Bool-cases (leb o.remaining_qty qty)) [
        | inl all ↦
            let e = fill_queue-full t crosses qty o queue wanted suits (ground arith) in
            rw e (
              fill_queue-exhausted s (qty - o.remaining_qty) queue mono f.1
                (λ z. left (ground (arith, e, z))))
        | inr part ↦
            let e = fill_queue-partial t crosses qty o queue wanted suits (ground arith) in
            absurd (left (ground (arith, e)))
      ]
    ]
  ]

pub enqueue-All :
    (P : ℕ → Type 0) (s : Side) (o : Order) (queue : List Order)
    → P o.price
    → All (λ x. P x.price) queue
    → All (λ x. P x.price) (enqueue s o queue)
unfolding enqueue
enqueue-All P s o [] p a = (p, tt)
enqueue-All P s o (x ∷ queue) p a = elim (Bool-cases (ahead s x.price o.price)) [
  | inl yes_ahead ↦ rw yes_ahead (a.0, enqueue-All P s o queue p a.1)
  | inr behind ↦ rw behind (p, a)
]
