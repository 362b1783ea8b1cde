-- ===== src/Book/Orders/Cancel/Twice.antt =====
-- Cancellations after a cancellation.
use native.Mathlib.Decide.{ℕ_discrete}
use cex_rs.Base.{
  ℕ, ◌≡◌, ◌↔◌, refl, sym, ap, ◌∙◌, subst, ◌≢◌, none, some, arith, nat_eq, nat_beq, if◌then◌else◌,
  done, ok, err, Option-cases, inl, inr,
}
use cex_rs.Base.HashMap
use cex_rs.Book.Types.{Order, OrderCancelled, OrderbookError, order_not_found, not_order_owner}
use cex_rs.Book.State.{Orderbook}
use cex_rs.Book.Orders.{cancel_order}
use cex_rs.Book.Orders.Cancel.Result.{refusal, cancel_order-refused, cancel_order-owned}
use cex_rs.Book.WellFormed.{IsWellFormed}

-- A refusal has the error that the map gives.
same_error :
    (order_id user_id : ℕ) (b : Orderbook) (e f : OrderbookError)
    → refusal (HashMap.get order_id b.orders) user_id ≡ some f
    → cancel_order order_id user_id b ≡ done (b, err e)
    → refusal (HashMap.get order_id b.orders) user_id ≡ some e
same_error order_id user_id b e f r h = cc (r, h, cancel_order-refused order_id user_id b f r)

-- An error means that the map has no order of that user under the identifier.
refused-refusal :
    (order_id user_id : ℕ) (b : Orderbook) (e : OrderbookError)
    → IsWellFormed b
    → cancel_order order_id user_id b ≡ done (b, err e)
    → refusal (HashMap.get order_id b.orders) user_id ≡ some e
refused-refusal order_id user_id b e w h = elim (Option-cases (HashMap.get order_id b.orders)) [
  | inl n ↦ same_error order_id user_id b e order_not_found (rw n refl) h
  | inr (o, p) ↦ elim (ℕ_discrete o.user_id user_id) [
    | yes owner ↦
        let (c, run, left, orders, w') = cancel_order-owned order_id user_id o b w p owner in
        absurd (cc (h, run))
    | no ne ↦ same_error order_id user_id b e not_order_owner (rw p (ground (arith, ne))) h
  ]
]

-- Only the owner's cancellation of an order of the map succeeds.
accepted-owner :
    (order_id user_id : ℕ) (b c : Orderbook) (x : OrderCancelled)
    → cancel_order order_id user_id b ≡ done (c, ok x)
    → (o : Order) × (HashMap.get order_id b.orders ≡ some o) × (o.user_id ≡ user_id)
accepted-owner order_id user_id b c x h = elim (Option-cases (HashMap.get order_id b.orders)) [
  | inl n ↦ absurd (cc (h, cancel_order-refused order_id user_id b order_not_found (rw n refl)))
  | inr (o, p) ↦ elim (ℕ_discrete o.user_id user_id) [
    | yes owner ↦ (o, p, owner)
    | no ne ↦ absurd (
        cc (h, cancel_order-refused order_id user_id b not_order_owner (rw p (ground (arith, ne)))))
  ]
]

-- On a well-formed book an order is cancelled once: after a cancellation that succeeded, every other
-- one under that identifier, whoever asks for it, is refused as that of an unknown order and changes
-- nothing. Under any other identifier a user is refused after it exactly when they were before it,
-- with the same error.
pub cancel_order-once :
    (order_id user_id : ℕ) (b c : Orderbook) (x : OrderCancelled)
    → IsWellFormed b
    → cancel_order order_id user_id b ≡ done (c, ok x)
    → ((u : ℕ) → cancel_order order_id u c ≡ done (c, err order_not_found))
      × ((j u : ℕ) (e : OrderbookError)
          → j ≢ order_id
          → (cancel_order j u b ≡ done (b, err e)) ↔ (cancel_order j u c ≡ done (c, err e)))
cancel_order-once order_id user_id b c x w h =
    let (o, present, owner) = accepted-owner order_id user_id b c x h in
    let (c', run, left, orders, w') = cancel_order-owned order_id user_id o b w present owner in
    let same : c' ≡ c = cc (run, h) in
    let left_in : (j : ℕ)
        → HashMap.get j c.orders ≡ (if nat_beq j order_id then none else HashMap.get j b.orders) =
      subst
        (λ (d : Orderbook).
          (j : ℕ)
          → HashMap.get j d.orders ≡ (if nat_beq j order_id then none else HashMap.get j b.orders))
        same orders in
    let kept : (j : ℕ) → j ≢ order_id → HashMap.get j c.orders ≡ HashMap.get j b.orders =
      λ j ne. left_in j ∙ ground (arith, ne) in
    let gone : HashMap.get order_id c.orders ≡ none = left_in order_id ∙ ground (arith) in
    (
      λ u. cancel_order-refused order_id u c order_not_found (ap (λ p. refusal p u) gone),
      λ j u e ne. (
        λ r.
            cancel_order-refused j u c e
              (ap (λ p. refusal p u) (kept j ne) ∙ refused-refusal j u b e w r),
        λ r. cancel_order-refused j u b e (
            ap (λ p. refusal p u) (sym (kept j ne))
            ∙ refused-refusal j u c e (subst IsWellFormed same w') r),
      ),
    )
