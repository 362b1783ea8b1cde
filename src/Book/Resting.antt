-- ===== src/Book/Resting.antt =====
-- How the orders at rest change when the maker at the front is filled.
pub mod Front
pub mod BestFirst
use cex_rs.Base.{
  ℕ, suc, ◌+◌, ◌-◌, ◌<◌, ◌≡◌, refl, ap, ◌∙◌, sym, ◌≢◌, Option, none, some, List, [], ◌∷◌, ◌++◌,
  arith, nat_beq, nat_eq, count, length, length-append,
}
use cex_rs.Base.HashMap
use cex_rs.Base.HashMap.{HashMap}
use cex_rs.Base.BTreeMap
use cex_rs.Base.BTreeMap.Sorted.{insert-IsSorted}
use cex_rs.Book.Types.{Side, bid, ask, Order}
use cex_rs.Book.State.{PriceLevel, Orderbook, levels, set_levels, opposite, best_first}
use cex_rs.Book.Matching.{fill_maker, resting_count}
use cex_rs.Book.Best.{Levels, Top, top}
use cex_rs.Book.View.{
  flat, queue_at, orders_of, resting, count-flat_at, count-flat-reverse, length-flat-reverse,
  resting_count-flat,
}
use cex_rs.Book.WellFormed.{IsWellFormed, holds, side_beq_iff}
use cex_rs.Book.Fill.{popped, taken}

-- Only the orders that a list names matter.
pub orders_of_frame :
    (id : ℕ) (orders orders' : HashMap ℕ Order) (ids : List ℕ)
    → ((j : ℕ) → j ≢ id → HashMap.get j orders' ≡ HashMap.get j orders)
    → count id ids ≡ 0
    → orders_of orders' ids ≡ orders_of orders ids
unfolding orders_of
orders_of_frame id orders orders' [] same h = refl
orders_of_frame id orders orders' (x ∷ xs) same h =
    ground (arith, orders_of_frame id orders orders' xs same, same x)

count-best_first :
    (id : ℕ) (s : Side) (b : Orderbook)
    → count id (flat (best_first s b)) ≡ count id (flat (levels s b))
count-best_first id bid b = count-flat-reverse id b.bids
count-best_first id ask b = refl

pub length-best_first :
    (s : Side) (b : Orderbook) → length (flat (best_first s b)) ≡ resting_count (levels s b)
length-best_first bid b = length-flat-reverse b.bids ∙ sym (resting_count-flat b.bids)
length-best_first ask b = sym (resting_count-flat b.asks)

-- An order of side `s` stands once among the levels of its side, and not on the other.
pub count_own :
    (s : Side) (b : Orderbook) (id : ℕ) (o : Order)
    → IsWellFormed b
    → HashMap.get id b.orders ≡ some o
    → o.side ≡ s
    → count id (flat (best_first s b)) ≡ 1
count_own s b id o w e side =
    count-best_first id s b
    ∙ count-flat_at id o.price (levels s b) (w.sorted s) (λ q ne. ground (arith, w.indexed s q id))
    ∙ ground (arith, w.indexed s o.price id, side_beq_iff s o.side)

pub count_other :
    (s u : Side) (b : Orderbook) (id : ℕ) (o : Order)
    → IsWellFormed b
    → HashMap.get id b.orders ≡ some o
    → o.side ≡ s
    → u ≢ s
    → count id (flat (best_first u b)) ≡ 0
count_other s u b id o w e side ne =
    count-best_first id u b
    ∙ count-flat_at id 0 (levels u b) (w.sorted u)
        (λ q nz. ground (arith, w.indexed u q id, side_beq_iff u o.side))
    ∙ ground (arith, w.indexed u 0 id, side_beq_iff u o.side)

-- An order that the map does not have stands nowhere.
pub count_absent :
    (u : Side) (b : Orderbook) (id : ℕ)
    → IsWellFormed b
    → HashMap.get id b.orders ≡ none
    → count id (flat (best_first u b)) ≡ 0
count_absent u b id w e =
    count-best_first id u b
    ∙ count-flat_at id 0 (levels u b) (w.sorted u) (λ q nz. ground (arith, w.indexed u q id, e))
    ∙ ground (arith, w.indexed u 0 id, e)

-- The levels of a side after its front order has left.
pub best_first-taken :
    (s : Side) (b : Orderbook) (price id : ℕ) (ids : List ℕ) (m : Levels) (fill_qty : ℕ) (o : Order)
    → IsWellFormed b
    → best_first s b ≡ (price, record { orders = id ∷ ids }) ∷ m
    → best_first s (taken s price id ids fill_qty o b)
      ≡ (elim ids [ [] ↦ m | x ∷ xs ↦ (price, record { orders = x ∷ xs }) ∷ m ])
best_first-taken bid b price id (x ∷ xs) m fill_qty o w e =
    (top bid b price _ m (w.sorted bid) e).insert_is _
best_first-taken ask b price id (x ∷ xs) m fill_qty o w e =
    (top ask b price _ m (w.sorted ask) e).insert_is _
best_first-taken bid b price id [] m fill_qty o w e =
    let c = set_levels bid (BTreeMap.insert price (record { orders = [] }) b.bids) b in
    (top bid c price _ m (insert-IsSorted b.bids price _ (w.sorted bid))
      ((top bid b price _ m (w.sorted bid) e).insert_is _)).remove_is
best_first-taken ask b price id [] m fill_qty o w e =
    let c = set_levels ask (BTreeMap.insert price (record { orders = [] }) b.asks) b in
    (top ask c price _ m (insert-IsSorted b.asks price _ (w.sorted ask))
      ((top ask b price _ m (w.sorted ask) e).insert_is _)).remove_is
