-- ===== src/Book/Orders/Enqueue/Sandwich.antt =====
-- A new order between the levels ahead of it and those behind.
use mathlib.Core.List.{append_assoc}
use cex_rs.Base.{
  ℕ, ◌≡◌, refl, ap, ◌∙◌, ◌≢◌, true, false, some, List, [], ◌∷◌, ◌++◌, arith, nat_eq, count,
}
use cex_rs.Base.HashMap
use cex_rs.Base.HashMap.{HashMap}
use cex_rs.Book.Types.{Side, bid, ask, Order}
use cex_rs.Book.State.{PriceLevel}
use cex_rs.Book.Best.{Levels}
use cex_rs.Book.View.{flat, count-flat-append, orders_of}
use cex_rs.Book.View.Priced.{
  All, All-append, orders_of-append, orders-flat-append, IsPriced, prices-flat,
}
use cex_rs.Book.Resting.{orders_of_frame}
use cex_rs.Book.Orders.Enqueue.{ahead, enqueue, enqueue_behind, enqueue_before}

pub flat-append : (m n : Levels) → flat (m ++ n) ≡ flat m ++ flat n
unfolding flat
flat-append [] n = refl
flat-append ((p, l) ∷ m) n = rw (flat-append m n, append_assoc)

All-split : (P : ℕ × PriceLevel → Type 0) (xs ys : Levels) → All P (xs ++ ys) → All P xs × All P ys
All-split P [] ys a = (tt, a)
All-split P (x ∷ xs) ys a = let (b, c) = All-split P xs ys a.1 in ((a.0, b), c)

module _ (orders orders' : HashMap ℕ Order) (s : Side) (o : Order)
    (added : HashMap.get o.order_id orders' ≡ some o)
    (kept : (j : ℕ) → j ≢ o.order_id → HashMap.get j orders' ≡ HashMap.get j orders) where
  abbrev view : Levels → List Order
  view m = orders_of orders (flat m)

  same : (ids : List ℕ) → count o.order_id ids ≡ 0 → orders_of orders' ids ≡ orders_of orders ids
  same ids h = orders_of_frame o.order_id orders orders' ids kept h

  single : orders_of orders' (o.order_id ∷ []) ≡ o ∷ []
  unfolding orders_of
  single = ground arith

  ahead_same : (p : ℕ) → p ≡ o.price → ahead s p o.price ≡ true
  ahead_same p e = elim s as (λ u. ahead u p o.price ≡ true) [
    | bid ↦ ground arith
    | ask ↦ ground arith
  ]

  All-map : (m : Levels) → All (λ x. x.0 ≡ o.price) m → All (λ x. ahead s x.0 o.price ≡ true) m
  All-map [] a = tt
  All-map (x ∷ m) a = (ahead_same x.0 a.0, All-map m a.1)

  module _ (front middle back : Levels) (old : List ℕ) (middle_ids : flat middle ≡ old)
      (priced : All (IsPriced orders) (front ++ middle ++ back))
      (absent : count o.order_id (flat (front ++ middle ++ back)) ≡ 0)
      (first : All (λ x. ahead s x.0 o.price ≡ true) front)
      (equal : All (λ x. x.0 ≡ o.price) middle)
      (last : All (λ x. ahead s x.0 o.price ≡ false) back) where
    counts :
        (count o.order_id (flat front) ≡ 0)
        × (count o.order_id old ≡ 0)
        × (count o.order_id (flat back) ≡ 0)
    counts = omega (
      arith,
      count-flat-append o.order_id (front ++ middle) back,
      count-flat-append o.order_id front middle,
      ap (count o.order_id) middle_ids,
    )

    prices :
        All (λ x. ahead s x.price o.price ≡ true) (view front ++ view middle)
        × All (λ x. ahead s x.price o.price ≡ false) (view back)
    prices =
        let (fm, b) = All-split (IsPriced orders) (front ++ middle) back priced in
        let (f, m) = All-split (IsPriced orders) front middle fm in
        (
          All-append (λ x. ahead s x.price o.price ≡ true) (view front) (view middle)
              (prices-flat orders (λ p. ahead s p o.price ≡ true) front f first)
              (prices-flat orders (λ p. ahead s p o.price ≡ true) middle m (All-map middle equal)),
          prices-flat orders (λ p. ahead s p o.price ≡ false) back b last,
        )

    enqueued :
        enqueue s o (view (front ++ middle ++ back)) ≡ view front ++ view middle ++ o ∷ view back
    enqueued =
        ap (enqueue s o) (
          orders-flat-append orders (front ++ middle) back
          ∙ ap (λ os. os ++ view back) (orders-flat-append orders front middle))
        ∙ enqueue_behind s o (view front ++ view middle) (view back) prices.0
        ∙ ap (◌++◌ (view front ++ view middle)) (enqueue_before s o (view back) prices.1)

    pub enqueue-view :
        orders_of orders'
          (flat (front ++ (o.price, record { orders = old ++ o.order_id ∷ [] }) ∷ back))
        ≡ enqueue s o (view (front ++ middle ++ back))
    unfolding flat
    enqueue-view =
        rw
          (
            enqueued,
            flat-append front ((o.price, record { orders = old ++ o.order_id ∷ [] }) ∷ back),
            orders_of-append orders' (flat front) ((old ++ o.order_id ∷ []) ++ flat back),
            orders_of-append orders' (old ++ o.order_id ∷ []) (flat back),
            orders_of-append orders' old (o.order_id ∷ []),
            same (flat front) counts.0,
            same old counts.1,
            same (flat back) counts.2,
            single,
            middle_ids,
          )
          (simp append_assoc)
