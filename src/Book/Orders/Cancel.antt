-- ===== src/Book/Orders/Cancel.antt =====
-- `cancel_order`: every branch, and what it leaves of a well-formed book.
pub mod Result
pub mod Twice
use mathlib.Core.List.{reverse-append, reverse-cons, append_assoc}
use cex_rs.Base.{
  ℕ, ◌+◌, ◌<◌, ◌≡◌, refl, ap, ◌∙◌, sym, subst, ◌≢◌, Bool, true, false, not, ◌&&◌, Option, none,
  some, List, [], ◌∷◌, ◌++◌, reverse, arith, nat_beq, nat_eq, ◌==◌, if◌then◌else◌, is_empty, select,
  count, done, ok, err, ◌>>=◌, expect, Option-cases, Bool-cases, inl, inr,
}
use cex_rs.Base.HashMap
use cex_rs.Base.HashMap.{HashMap}
use cex_rs.Base.BTreeMap
use cex_rs.Base.BTreeMap.{BTreeMap}
use cex_rs.Base.BTreeMap.Slot.{Slot, slot}
use cex_rs.Base.BTreeMap.Sorted.{IsSorted, insert-IsSorted, remove-IsSorted}
use cex_rs.Book.Types.{Side, bid, ask, Order, OrderCancelled, order_not_found, not_order_owner}
use cex_rs.Book.State.{PriceLevel, Orderbook, levels, set_levels, best_first, opposite}
use cex_rs.Book.Best.{Levels}
use cex_rs.Book.Orders.{remove_order, unlink, cancel_order}
use cex_rs.Book.View.{flat, queue_at, orders_of, resting}
use cex_rs.Book.View.Priced.{orders_of-append, orders-flat-append}
use cex_rs.Book.WellFormed.{
  IsWellFormed, holds, side_beq, side_beq_iff, level_of, Removed, Removed-IsWellFormed,
}

-- An order that stands in a queue is taken out of it, once.
record Pulled (id : ℕ) (xs : List ℕ) : Type 0 where
  left : List ℕ
  removed : remove_order id xs ≡ some left
  counts : (j : ℕ) → count j xs ≡ count j left + (if nat_beq j id then 1 else 0)
  unseen :
      (orders : HashMap ℕ Order)
      → HashMap.get id orders ≡ none
      → orders_of orders left ≡ orders_of orders xs

pulled : (id : ℕ) (xs : List ℕ) → count id xs ≢ 0 → Pulled id xs
unfolding remove_order orders_of
pulled id [] h = absurd (h refl)
pulled id (x ∷ xs) h = elim (Bool-cases (nat_beq x id)) [
  | inl e ↦ record {
    left = xs;
    removed = ground arith;
    counts = λ j. ground arith;
    unseen = λ orders gone. ground arith;
  }
  | inr e ↦
      let r = pulled id xs (ground arith) in
      record {
        left = x ∷ r.left;
        removed = ground (arith, r.removed);
        counts = λ j. ground (arith, r.counts j);
        unseen = λ orders gone. ground (arith, r.unseen orders gone);
      }
]

-- The book without the order, whose queue `rest` remains.
abbrev unlinked : Side → ℕ → ℕ → List ℕ → Orderbook → Orderbook
unlinked s p id rest b =
    let m = BTreeMap.insert p (record { orders = rest }) (levels s b) in
    set_levels s (if is_empty rest then BTreeMap.remove p m else m)
      (record b { orders = HashMap.remove id b.orders })

module _ (p id : ℕ) (b : Orderbook) (w : IsWellFormed b) where
  kept-IsSorted :
      (rest : List ℕ) (m : BTreeMap PriceLevel)
      → IsSorted m
      → IsSorted (
          if is_empty rest
          then BTreeMap.remove p (BTreeMap.insert p (record { orders = rest }) m)
          else BTreeMap.insert p (record { orders = rest }) m)
  kept-IsSorted [] m s = remove-IsSorted _ p (insert-IsSorted m p _ s)
  kept-IsSorted (x ∷ xs) m s = insert-IsSorted m p _ s

  kept-level :
      (rest : List ℕ) (m : BTreeMap PriceLevel) (q : ℕ)
      → BTreeMap.get q (
          if is_empty rest
          then BTreeMap.remove p (BTreeMap.insert p (record { orders = rest }) m)
          else BTreeMap.insert p (record { orders = rest }) m)
        ≡ (if nat_beq q p then level_of rest else BTreeMap.get q m)
  kept-level [] m q = simp (BTreeMap.get-remove, BTreeMap.get-insert) (ground arith)
  kept-level (x ∷ xs) m q = BTreeMap.get-insert q p _ m

  unlinked-Removed : (s : Side) (rest : List ℕ) → Removed s p id rest b (unlinked s p id rest b)
  unlinked-Removed bid rest = record {
    sorted = λ u. elim u as (λ v. IsSorted (levels v (unlinked bid p id rest b))) [
      | bid ↦ kept-IsSorted rest b.bids (w.sorted bid)
      | ask ↦ w.sorted ask
    ];
    level = λ u q.
        elim u
          as (λ v. BTreeMap.get q (levels v (unlinked bid p id rest b)) ≡ (
            if side_beq v bid && nat_beq q p then level_of rest else BTreeMap.get q (levels v b))) [
              | bid ↦ kept-level rest b.bids q
              | ask ↦ refl
            ];
    orders = λ j. HashMap.get-remove j id b.orders;
  }
  unlinked-Removed ask rest = record {
    sorted = λ u. elim u as (λ v. IsSorted (levels v (unlinked ask p id rest b))) [
      | bid ↦ w.sorted bid
      | ask ↦ kept-IsSorted rest b.asks (w.sorted ask)
    ];
    level = λ u q.
        elim u
          as (λ v. BTreeMap.get q (levels v (unlinked ask p id rest b)) ≡ (
            if side_beq v ask && nat_beq q p then level_of rest else BTreeMap.get q (levels v b))) [
              | bid ↦ refl
              | ask ↦ kept-level rest b.asks q
            ];
    orders = λ j. HashMap.get-remove j id b.orders;
  }

-- All orders but one.
abbrev pub others : ℕ → List Order → List Order
others id = select (λ x. not (x.order_id == id))

orders_of-remove :
    (id : ℕ) (orders : HashMap ℕ Order) (ids : List ℕ)
    → ((j : ℕ) (x : Order) → HashMap.get j orders ≡ some x → x.order_id ≡ j)
    → orders_of (HashMap.remove id orders) ids ≡ others id (orders_of orders ids)
unfolding orders_of
orders_of-remove id orders [] filed = refl
orders_of-remove id orders (j ∷ ids) filed = elim (Option-cases (HashMap.get j orders)) [
  | inl e ↦ ground (arith, HashMap.get-remove j id orders, orders_of-remove id orders ids filed)
  | inr (x, e) ↦
      ground
        (arith, HashMap.get-remove j id orders, orders_of-remove id orders ids filed, filed j x e)
]

module _ (orders : HashMap ℕ Order) (p : ℕ) (queue : List ℕ) where
  around_level :
      (front back : Levels) (ids : List ℕ)
      → orders_of orders (flat (front ++ (p, record { orders = ids }) ∷ back))
        ≡ orders_of orders (flat front) ++ (orders_of orders ids ++ orders_of orders (flat back))
  unfolding flat
  around_level front back ids =
      orders-flat-append orders front ((p, record { orders = ids }) ∷ back)
      ∙ ap (◌++◌ (orders_of orders (flat front))) (orders_of-append orders ids (flat back))

  -- A queue that names the same orders, or none, makes no difference.
  same_view :
      (front back : Levels) (rest : List ℕ)
      → orders_of orders rest ≡ orders_of orders queue
      → orders_of orders (
          flat (
            if is_empty rest then front ++ back else front ++ (p, record { orders = rest }) ∷ back))
        ≡ orders_of orders (flat (front ++ (p, record { orders = queue }) ∷ back))
  unfolding orders_of
  same_view front back [] e =
      orders-flat-append orders front back ∙ rw (around_level front back queue, ← e)
  same_view front back (x ∷ xs) e =
      around_level front back (x ∷ xs)
      ∙ ap (λ os. orders_of orders (flat front) ++ (os ++ orders_of orders (flat back))) e
      ∙ sym (around_level front back queue)

reverse_slot :
    (lower upper : Levels) (x : ℕ × PriceLevel)
    → reverse (lower ++ x ∷ upper) ≡ reverse upper ++ x ∷ reverse lower
reverse_slot lower upper x =
    rw (reverse-append lower (x ∷ upper), reverse-cons x upper, append_assoc)

reverse_if :
    (c : Bool) (m n : Levels) → reverse (if c then m else n) ≡ (if c then reverse m else reverse n)
reverse_if true m n = refl
reverse_if false m n = refl

Slot-levels :
    (p : ℕ) (queue rest : List ℕ) (m : BTreeMap PriceLevel)
    → (r : Slot p (record { orders = queue }) m)
    → (if is_empty rest
        then BTreeMap.remove p (BTreeMap.insert p (record { orders = rest }) m)
        else BTreeMap.insert p (record { orders = rest }) m)
      ≡ (if is_empty rest
          then r.lower ++ r.upper
          else r.lower ++ (p, record { orders = rest }) ∷ r.upper)
Slot-levels p queue [] m r = r.remove_is _
Slot-levels p queue (x ∷ xs) m r = r.insert_is _
