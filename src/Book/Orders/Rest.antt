-- ===== src/Book/Orders/Rest.antt =====
-- Resting an order keeps the book consistent.
use cex_rs.Base.{
  ℕ, ◌<◌, ◌≡◌, refl, ap, ◌∙◌, ◌≢◌, ◌&&◌, none, some, List, [], ◌∷◌, ◌++◌, arith, nat_beq, nat_eq,
  if◌then◌else◌, count, count-append, String,
}
use cex_rs.Base.HashMap
use cex_rs.Base.BTreeMap
use cex_rs.Base.BTreeMap.{BTreeMap}
use cex_rs.Base.BTreeMap.Sorted.{IsSorted, insert-IsSorted}
use cex_rs.Book.Types.{Side, bid, ask, Order}
use cex_rs.Book.State.{PriceLevel, Orderbook, levels, set_levels, new, reset}
use cex_rs.Book.Orders.{push_back, rest_order}
use cex_rs.Book.View.{queue_at}
use cex_rs.Book.WellFormed.{IsWellFormed, holds, side_beq, side_beq_iff}

empty-IsWellFormed : (b : Orderbook) → b.bids ≡ [] → b.asks ≡ [] → b.orders ≡ [] → IsWellFormed b
unfolding BTreeMap.get HashMap.get
empty-IsWellFormed b no_bids no_asks no_orders = record {
  sorted =
      λ s. elim s as (λ u. IsSorted (levels u b)) [ bid ↦ rw no_bids tt | ask ↦ rw no_asks tt ];
  full = λ s p l. elim s as (λ u. BTreeMap.get p (levels u b) ≡ some l → l.orders ≢ []) [
    | bid ↦ λ e. absurd (ground arith)
    | ask ↦ λ e. absurd (ground arith)
  ];
  indexed = λ s p id.
      elim s as (λ u. count id (queue_at p (levels u b)) ≡ holds u p (HashMap.get id b.orders)) [
        | bid ↦ rw (no_bids, no_orders)
        | ask ↦ rw (no_asks, no_orders)
      ];
  live = λ id o e. absurd (ground arith);
}

pub new-IsWellFormed : (symbol : String) → IsWellFormed (new symbol)
unfolding new
new-IsWellFormed symbol = empty-IsWellFormed (new symbol) refl refl refl

pub reset-IsWellFormed : (b : Orderbook) → IsWellFormed (reset b)
unfolding reset
reset-IsWellFormed b = empty-IsWellFormed (reset b) refl refl refl

push_back-IsSorted : (p id : ℕ) (m : BTreeMap PriceLevel) → IsSorted m → IsSorted (push_back p id m)
unfolding push_back
push_back-IsSorted p id m s = ground (
  arith,
  insert-IsSorted m p (record { orders = id ∷ [] }) s,
  insert-IsSorted m p (record { orders = queue_at p m ++ id ∷ [] }) s,
)

get-push_back :
    (q p id : ℕ) (m : BTreeMap PriceLevel)
    → BTreeMap.get q (push_back p id m) ≡ (
        if nat_beq q p
        then some (record { orders = queue_at p m ++ id ∷ [] })
        else BTreeMap.get q m)
unfolding push_back
get-push_back q p id m = ground (
  arith,
  BTreeMap.get-insert q p (record { orders = id ∷ [] }) m,
  BTreeMap.get-insert q p (record { orders = queue_at p m ++ id ∷ [] }) m,
)

snoc-ne-nil : (xs : List ℕ) (x : ℕ) → xs ++ x ∷ [] ≢ []
snoc-ne-nil [] x e = cc
snoc-ne-nil (y ∷ ys) x e = cc

-- `rest_order` with the side as an argument of its own.
abbrev pub rested : Side → Order → Orderbook → Orderbook
rested s o b =
    set_levels s (push_back o.price o.order_id (levels s b))
      (record b { orders = HashMap.insert o.order_id o b.orders })

pub rest_order-rested :
    (s : Side) (o : Order) (b : Orderbook) → o.side ≡ s → rest_order o b ≡ rested s o b
unfolding rest_order
rest_order-rested s o b e = ap (λ u. rested u o b) e

levels-rested :
    (s u : Side) (q : ℕ) (o : Order) (b : Orderbook)
    → BTreeMap.get q (levels u (rested s o b)) ≡ (
        if side_beq u s && nat_beq q o.price
        then some (record { orders = queue_at o.price (levels s b) ++ o.order_id ∷ [] })
        else BTreeMap.get q (levels u b))
levels-rested bid bid q o b = get-push_back q o.price o.order_id b.bids
levels-rested ask ask q o b = get-push_back q o.price o.order_id b.asks
levels-rested bid ask q o b = refl
levels-rested ask bid q o b = refl

pub orders-rested :
    (s : Side) (o : Order) (b : Orderbook)
    → (rested s o b).orders ≡ HashMap.insert o.order_id o b.orders
orders-rested bid o b = refl
orders-rested ask o b = refl

IsSorted-rested :
    (s u : Side) (o : Order) (b : Orderbook) → IsWellFormed b → IsSorted (levels u (rested s o b))
IsSorted-rested bid bid o b w = push_back-IsSorted o.price o.order_id b.bids (w.sorted bid)
IsSorted-rested ask ask o b w = push_back-IsSorted o.price o.order_id b.asks (w.sorted ask)
IsSorted-rested bid ask o b w = w.sorted ask
IsSorted-rested ask bid o b w = w.sorted bid

module _ (s : Side) (o : Order) (b : Orderbook) (w : IsWellFormed b)
    (fresh : HashMap.get o.order_id b.orders ≡ none) (side : o.side ≡ s)
    (left : 0 < o.remaining_qty) where
  lookup_rested :
      (j : ℕ)
      → HashMap.get j (rested s o b).orders
        ≡ (if nat_beq j o.order_id then some o else HashMap.get j b.orders)
  lookup_rested j =
      ap (HashMap.get j) (orders-rested s o b) ∙ HashMap.get-insert j o.order_id o b.orders

  queue_rested :
      (u : Side) (q : ℕ)
      → queue_at q (levels u (rested s o b)) ≡ (
          if side_beq u s && nat_beq q o.price
          then queue_at o.price (levels s b) ++ o.order_id ∷ []
          else queue_at q (levels u b))
  queue_rested u q = ground (arith, levels-rested s u q o b)

  full_rested :
      (u : Side) (q : ℕ) (l : PriceLevel)
      → BTreeMap.get q (levels u (rested s o b)) ≡ some l
      → l.orders ≢ []
  full_rested u q l e = ground (
    arith,
    levels-rested s u q o b,
    w.full u q l,
    snoc-ne-nil (queue_at o.price (levels s b)) o.order_id,
  )

  indexed_rested :
      (u : Side) (q j : ℕ)
      → count j (queue_at q (levels u (rested s o b)))
        ≡ holds u q (HashMap.get j (rested s o b).orders)
  indexed_rested u q j =
      rw (queue_rested u q, lookup_rested j)
        (ground (
          arith,
          count-append j (queue_at o.price (levels s b)) (o.order_id ∷ []),
          w.indexed u q j,
          w.indexed s o.price j,
          side_beq_iff u s,
          side_beq_iff u o.side,
        ))

  rested-IsWellFormed : IsWellFormed (rested s o b)
  rested-IsWellFormed = record {
    sorted = λ u. IsSorted-rested s u o b w;
    full = full_rested;
    indexed = indexed_rested;
    live = λ j x e. ground (arith, lookup_rested j, w.live j x);
  }

-- A new order with something left comes to rest in a consistent book.
pub rest_order-IsWellFormed :
    (o : Order) (b : Orderbook)
    → IsWellFormed b
    → HashMap.get o.order_id b.orders ≡ none
    → 0 < o.remaining_qty
    → IsWellFormed (rest_order o b)
unfolding rest_order
rest_order-IsWellFormed o b w fresh left = rested-IsWellFormed o.side o b w fresh refl left
