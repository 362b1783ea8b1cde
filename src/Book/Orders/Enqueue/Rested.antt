-- ===== src/Book/Orders/Enqueue/Rested.antt =====
-- What rests after `rest_order`.
use mathlib.Core.List.{append_assoc, reverse-append, reverse-cons}
use cex_rs.Base.{
  ℕ, ◌≡◌, refl, ap, ◌∙◌, sym, subst, ◌≢◌, true, false, none, some, ◌∷◌, ◌++◌, reverse, arith,
  nat_eq, leb, count,
}
use cex_rs.Base.HashMap
use cex_rs.Book.Types.{Side, bid, ask, Order}
use cex_rs.Book.State.{Orderbook, PriceLevel, best_first, opposite}
use cex_rs.Book.Best.{Levels}
use cex_rs.Book.Orders.{rest_order}
use cex_rs.Book.Orders.Enqueue.{enqueue, around}
use cex_rs.Book.Orders.Enqueue.Sandwich.{enqueue-view}
use cex_rs.Book.Orders.Rest.{rested, rest_order-rested}
use cex_rs.Book.Resting.{orders_of_frame, count_absent}
use cex_rs.Book.View.{flat, orders_of, resting}
use cex_rs.Book.Resting.BestFirst.{best_first-IsPriced}
use cex_rs.Book.View.Priced.{All, All-map, All-reverse, IsPriced}
use cex_rs.Book.WellFormed.{IsWellFormed}

-- The walk from the other end.
reverse_around :
    (lower middle upper : Levels)
    → reverse middle ≡ middle
    → reverse (lower ++ middle ++ upper) ≡ reverse upper ++ middle ++ reverse lower
reverse_around lower middle upper e =
    rw (reverse-append (lower ++ middle) upper, reverse-append lower middle, e, append_assoc)

reverse_pushed :
    (lower upper : Levels) (x : ℕ × PriceLevel)
    → reverse (lower ++ x ∷ upper) ≡ reverse upper ++ x ∷ reverse lower
reverse_pushed lower upper x =
    rw (reverse-append lower (x ∷ upper), reverse-cons x upper, append_assoc)

module _ (o : Order) (b : Orderbook) (w : IsWellFormed b)
    (fresh : HashMap.get o.order_id b.orders ≡ none) where
  added : HashMap.get o.order_id (HashMap.insert o.order_id o b.orders) ≡ some o
  added = HashMap.get-insert o.order_id o.order_id o b.orders ∙ ground arith

  kept :
      (j : ℕ)
      → j ≢ o.order_id
      → HashMap.get j (HashMap.insert o.order_id o b.orders) ≡ HashMap.get j b.orders
  kept j ne = HashMap.get-insert j o.order_id o b.orders ∙ ground arith

  resting-rested : (s : Side) → resting s (rested s o b) ≡ enqueue s o (resting s b)
  unfolding resting
  resting-rested ask =
      let r = around o.price o.order_id b.asks (w.sorted ask) in
      ap (λ n. orders_of (HashMap.insert o.order_id o b.orders) (flat n)) r.pushed
      ∙ enqueue-view b.orders (HashMap.insert o.order_id o b.orders) ask o added kept r.lower
          r.middle r.upper r.old r.middle_ids
          (subst (All (IsPriced b.orders)) r.split (best_first-IsPriced ask b w))
          (ap (λ n. count o.order_id (flat n)) (sym r.split)
            ∙ count_absent ask b o.order_id w fresh)
          (All-map _ (λ x. leb x.0 o.price ≡ true) r.lower (λ x h. ground arith) r.below) r.at
          (All-map _ (λ x. leb x.0 o.price ≡ false) r.upper (λ x h. ground arith) r.above)
      ∙ ap (λ n. enqueue ask o (orders_of b.orders (flat n))) (sym r.split)
  resting-rested bid =
      let r = around o.price o.order_id b.bids (w.sorted bid) in
      let split : reverse b.bids ≡ reverse r.upper ++ r.middle ++ reverse r.lower =
        ap reverse r.split ∙ reverse_around r.lower r.middle r.upper r.middle_reversed in
      ap (λ n. orders_of (HashMap.insert o.order_id o b.orders) (flat n))
        (ap reverse r.pushed ∙ reverse_pushed r.lower r.upper _)
      ∙ enqueue-view b.orders (HashMap.insert o.order_id o b.orders) bid o added kept
          (reverse r.upper) r.middle (reverse r.lower) r.old r.middle_ids
          (subst (All (IsPriced b.orders)) split (best_first-IsPriced bid b w))
          (ap (λ n. count o.order_id (flat n)) (sym split) ∙ count_absent bid b o.order_id w fresh)
          (All-reverse _ r.upper
            (All-map _ (λ x. leb o.price x.0 ≡ true) r.upper (λ x h. ground arith) r.above))
          r.at
          (All-reverse _ r.lower
            (All-map _ (λ x. leb o.price x.0 ≡ false) r.lower (λ x h. ground arith) r.below))
      ∙ ap (λ n. enqueue bid o (orders_of b.orders (flat n))) (sym split)

  resting-rested_other : (s u : Side) → u ≢ s → resting u (rested s o b) ≡ resting u b
  unfolding resting
  resting-rested_other bid bid ne = absurd (ne refl)
  resting-rested_other ask ask ne = absurd (ne refl)
  resting-rested_other bid ask ne =
      orders_of_frame o.order_id b.orders _ (flat (best_first ask b)) kept
        (count_absent ask b o.order_id w fresh)
  resting-rested_other ask bid ne =
      orders_of_frame o.order_id b.orders _ (flat (best_first bid b)) kept
        (count_absent bid b o.order_id w fresh)

opposite-ne-own : (s : Side) → opposite s ≢ s
opposite-ne-own bid e = cc
opposite-ne-own ask e = cc

-- On a well-formed book, an order with a fresh identifier comes to rest behind every order of its
-- side whose price is at least as good, and before all others; the other side stays.
pub rest_order-enqueue :
    (o : Order) (b : Orderbook)
    → IsWellFormed b
    → HashMap.get o.order_id b.orders ≡ none
    → (resting o.side (rest_order o b) ≡ enqueue o.side o (resting o.side b))
      × (resting (opposite o.side) (rest_order o b) ≡ resting (opposite o.side) b)
rest_order-enqueue o b w fresh = (
  ap (resting o.side) (rest_order-rested o.side o b refl) ∙ resting-rested o b w fresh o.side,
  ap (resting (opposite o.side)) (rest_order-rested o.side o b refl)
      ∙ resting-rested_other o b w fresh o.side (opposite o.side) (opposite-ne-own o.side),
)
