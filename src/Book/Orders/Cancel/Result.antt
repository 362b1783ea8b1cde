-- ===== src/Book/Orders/Cancel/Result.antt =====
-- The branches of `cancel_order`.
use mathlib.Core.List.{reverse-append}
use native.Mathlib.Decide.{ℕ_discrete}
use cex_rs.Base.{
  ℕ, ◌≡◌, refl, ap, ◌∙◌, sym, ◌≢◌, Option, none, some, List, [], ◌∷◌, ◌++◌, reverse, arith, nat_eq,
  ◌==◌, nat_beq, if◌then◌else◌, is_empty, count, done, Result, ok, err, Option-cases, inl, inr,
}
use cex_rs.Base.HashMap
use cex_rs.Base.HashMap.{HashMap}
use cex_rs.Base.BTreeMap
use cex_rs.Base.BTreeMap.Slot.{slot}
use cex_rs.Book.Types.{
  Side, bid, ask, Order, OrderCancelled, OrderbookError, order_not_found, not_order_owner,
}
use cex_rs.Book.State.{PriceLevel, Orderbook, levels, best_first}
use cex_rs.Book.Loop.{NoneAdded}
use cex_rs.Book.Orders.{remove_order, unlink, cancel_order}
use cex_rs.Book.Orders.Cancel.{
  pulled, unlinked, unlinked-Removed, others, orders_of-remove, same_view, reverse_slot,
  Slot-levels,
}
use cex_rs.Book.Orders.Spread.{IsUncrossed, others-AreApart}
use cex_rs.Book.View.{flat, orders_of, resting}
use cex_rs.Book.WellFormed.{IsWellFormed, side_beq_iff, Removed-IsWellFormed}

-- What is left of a cancelled order.
abbrev pub cancelled : Order → OrderCancelled
cancelled o = record {
  order_id = o.order_id;
  user_id = o.user_id;
  side = o.side;
  price = o.price;
  remaining_qty = o.remaining_qty;
}

-- The error of a cancellation, by what the map has under the identifier.
abbrev pub refusal : Option Order → ℕ → Option OrderbookError
refusal none user_id = some order_not_found
refusal (some o) user_id = if o.user_id == user_id then none else some not_order_owner

-- An unknown order and one of another user are refused, each with its error, and the book stays as
-- it is.
pub cancel_order-refused :
    (order_id user_id : ℕ) (b : Orderbook) (e : OrderbookError)
    → refusal (HashMap.get order_id b.orders) user_id ≡ some e
    → cancel_order order_id user_id b ≡ done (b, err e)
unfolding cancel_order
cancel_order-refused order_id user_id b e h = ground arith

module _ (id : ℕ) (b : Orderbook) (w : IsWellFormed b) (o : Order)
    (present : HashMap.get id b.orders ≡ some o) where
  -- The level of the order.
  level_stands :
      (l : PriceLevel) × (BTreeMap.get o.price (levels o.side b) ≡ some l) × (count id l.orders ≢ 0)
  level_stands = elim (Option-cases (BTreeMap.get o.price (levels o.side b))) [
    | inl e ↦ absurd (ground (arith, w.indexed o.side o.price id, side_beq_iff o.side o.side))
    | inr (l, e) ↦ (l, e, ground (arith, w.indexed o.side o.price id, side_beq_iff o.side o.side))
  ]

  module _ (p : ℕ) (queue rest : List ℕ)
      (unseen : (orders : HashMap ℕ Order)
        → HashMap.get id orders ≡ none
        → orders_of orders rest ≡ orders_of orders queue) where
    gone : HashMap.get id (HashMap.remove id b.orders) ≡ none
    gone = HashMap.get-remove id id b.orders ∙ ground arith

    -- The levels without the order show the same orders, once it is out of the map.
    unlinked-view :
        (s u : Side)
        → BTreeMap.get p (levels s b) ≡ some (record { orders = queue })
        → resting u (unlinked s p id rest b)
          ≡ orders_of (HashMap.remove id b.orders) (flat (best_first u b))
    unfolding resting
    unlinked-view bid ask stands = refl
    unlinked-view ask bid stands = refl
    unlinked-view ask ask stands =
        let r = slot p (record { orders = queue }) b.asks (w.sorted ask) stands in
        let O = HashMap.remove id b.orders in
        ap (λ m. orders_of O (flat m)) (Slot-levels p queue rest b.asks r)
        ∙ same_view O p queue r.lower r.upper rest (unseen O gone)
        ∙ ap (λ m. orders_of O (flat m)) (sym r.split)
    unlinked-view bid bid stands =
        let r = slot p (record { orders = queue }) b.bids (w.sorted bid) stands in
        let O = HashMap.remove id b.orders in
        ap (λ m. orders_of O (flat (reverse m))) (Slot-levels p queue rest b.bids r)
        ∙ ap (λ m. orders_of O (flat m)) (flipped r.lower r.upper rest)
        ∙ same_view O p queue (reverse r.upper) (reverse r.lower) rest (unseen O gone)
        ∙ ap (λ m. orders_of O (flat m)) (sym (ap reverse r.split ∙ reverse_slot r.lower r.upper _))
      where
        flipped :
            (lower upper : List (ℕ × PriceLevel)) (ids : List ℕ)
            → reverse (
                if is_empty ids
                then lower ++ upper
                else lower ++ (p, record { orders = ids }) ∷ upper)
              ≡ (if is_empty ids
                  then reverse upper ++ reverse lower
                  else reverse upper ++ (p, record { orders = ids }) ∷ reverse lower)
        flipped lower upper [] = reverse-append lower upper
        flipped lower upper (x ∷ xs) = reverse_slot lower upper (p, record { orders = x ∷ xs })

unlink-unlinked :
    (s : Side) (o : Order) (b : Orderbook) (l : PriceLevel) (rest : List ℕ)
    → BTreeMap.get o.price (levels s b) ≡ some l
    → remove_order o.order_id l.orders ≡ some rest
    → unlink (record o { side = s }) (record b { orders = HashMap.remove o.order_id b.orders })
      ≡ done (unlinked s o.price o.order_id rest b)
unfolding unlink
unlink-unlinked bid o b l rest e f = rw (e, f)
unlink-unlinked ask o b l rest e f = rw (e, f)

-- The owner's cancellation ends, and takes the order out of the map.
pub cancel_order-owned :
    (order_id user_id : ℕ) (o : Order) (b : Orderbook)
    → IsWellFormed b
    → HashMap.get order_id b.orders ≡ some o
    → o.user_id ≡ user_id
    → (c : Orderbook) × (cancel_order order_id user_id b ≡ done (c, ok (cancelled o)))
      × ((u : Side) → resting u c ≡ others order_id (resting u b))
      × ((j : ℕ)
          → HashMap.get j c.orders ≡ (if nat_beq j order_id then none else HashMap.get j b.orders))
      × IsWellFormed c
unfolding cancel_order resting
cancel_order-owned order_id user_id o b w present owner =
    let (l, stands, counted) = level_stands order_id b w o present in
    let r = pulled order_id l.orders counted in
    let q = unlinked-Removed o.price order_id b w o.side r.left in
    (
      unlinked o.side o.price order_id r.left b,
      rw
          (
            present,
            cancel_order,
            unlink-unlinked o.side (record o { order_id = order_id }) b l r.left stands r.removed,
          )
          (ground arith),
      λ u.
          unlinked-view order_id b w o present o.price l.orders r.left r.unseen o.side u stands
          ∙ orders_of-remove order_id b.orders (flat (best_first u b)) (λ j x e. (w.live j x e).1),
      q.orders,
      Removed-IsWellFormed o.side o.price order_id l.orders r.left b _ o w present stands r.counts
          q,
    )

-- On a well-formed book the owner of a resting order can cancel it, without a panic. The result
-- names what was left of it; both sides keep all other orders as they stand, and the book stays
-- well-formed.
pub cancel_order-others :
    (order_id user_id : ℕ) (o : Order) (b : Orderbook)
    → IsWellFormed b
    → HashMap.get order_id b.orders ≡ some o
    → o.user_id ≡ user_id
    → (c : Orderbook) × (cancel_order order_id user_id b ≡ done (c, ok (cancelled o)))
      × ((u : Side) → resting u c ≡ others order_id (resting u b))
      × IsWellFormed c
cancel_order-others order_id user_id o b w present owner =
    let (c, run, left, orders, w') = cancel_order-owned order_id user_id o b w present owner in
    (c, run, left, w')

kept-IsUncrossed :
    (id : ℕ) (b c : Orderbook)
    → IsUncrossed b
    → ((u : Side) → resting u c ≡ others id (resting u b))
    → IsUncrossed c
kept-IsUncrossed id b c u kept =
    rw (kept bid, kept ask) (others-AreApart id bid (resting bid b) (resting ask b) u)

-- Whatever it is asked, `cancel_order` ends with one of its two errors or with an order.
pub cancel_order-ends :
    (order_id user_id : ℕ) (b : Orderbook)
    → IsWellFormed b
    → IsUncrossed b
    → (c : Orderbook) × (res : Result OrderCancelled OrderbookError) × (cancel_order order_id
          user_id b
        ≡ done (c, res))
      × NoneAdded b c
      × IsUncrossed c
      × IsWellFormed c
cancel_order-ends order_id user_id b w u = elim (Option-cases (HashMap.get order_id b.orders)) [
  | inl e ↦ (
    b,
    err order_not_found,
    cancel_order-refused order_id user_id b order_not_found (rw e),
    λ j h. h,
    u,
    w,
  )
  | inr (o, e) ↦ elim (ℕ_discrete o.user_id user_id) [
    | yes owner ↦
        let (c, run, kept, orders, w') = cancel_order-owned order_id user_id o b w e owner in
        (
          c,
          ok (cancelled o),
          run,
          λ j h. orders j ∙ ground (arith, h),
          kept-IsUncrossed order_id b c u kept,
          w',
        )
    | no ne ↦ (
      b,
      err not_order_owner,
      cancel_order-refused order_id user_id b not_order_owner (ground (arith, e)),
      λ j h. h,
      u,
      w,
    )
  ]
]
