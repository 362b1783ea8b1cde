-- ===== src/Book/Resting/BestFirst.antt =====
-- The orders of a side stand with the best price first.
use mathlib.Core.List.{reverse-cons}
use cex_rs.Base.{ℕ, ◌≤◌, ◌≡◌, sym, subst, List, [], ◌∷◌, ◌++◌, reverse, arith, nat_eq}
use cex_rs.Base.HashMap.{HashMap}
use cex_rs.Base.BTreeMap.{BTreeMap}
use cex_rs.Base.BTreeMap.Sorted.{IsSorted, Above}
use cex_rs.Book.Types.{Side, bid, ask, Order}
use cex_rs.Book.State.{PriceLevel, Orderbook, levels, best_first}
use cex_rs.Book.Best.{Levels}
use cex_rs.Book.View.{flat, orders_of, resting}
use cex_rs.Book.View.Priced.{
  All, All-append, All-map, All-reverse, IsPriced, levels-IsPriced, orders_of-append, prices-flat,
}
use cex_rs.Book.WellFormed.{IsWellFormed}

-- Is a price `p` at least as good for its side as a price `q`?
abbrev pub NoWorse : Side → ℕ → ℕ → Type 0
NoWorse bid p q = q ≤ p
NoWorse ask p q = p ≤ q

abbrev pub IsBestFirst : Side → List Order → Type 0
IsBestFirst s [] = Unit {0}
IsBestFirst s (o ∷ os) = All (λ x. NoWorse s o.price x.price) os × IsBestFirst s os

-- The same of the keys of levels.
abbrev IsOrdered : Side → Levels → Type 0
IsOrdered s [] = Unit {0}
IsOrdered s (x ∷ m) = All (λ y. NoWorse s x.0 y.0) m × IsOrdered s m

Above-All : (s : Side) (p : ℕ) (m : BTreeMap PriceLevel) → Above p m → All (λ x. p ≤ x.0) m
Above-All s p [] a = tt
Above-All s p ((q, l) ∷ m) a = (omega arith, Above-All s p m a.1)

IsSorted-IsOrdered : (m : BTreeMap PriceLevel) → IsSorted m → IsOrdered ask m
IsSorted-IsOrdered [] s = tt
IsSorted-IsOrdered ((p, l) ∷ m) s = (Above-All ask p m s.0, IsSorted-IsOrdered m s.1)

IsOrdered-snoc :
    (m : Levels) (x : ℕ × PriceLevel)
    → All (λ y. x.0 ≤ y.0) m
    → IsOrdered bid m
    → IsOrdered bid (m ++ x ∷ [])
IsOrdered-snoc [] x a o = (tt, tt)
IsOrdered-snoc (y ∷ m) x a o = (All-append _ m (x ∷ []) o.0 (a.0, tt), IsOrdered-snoc m x a.1 o.1)

IsOrdered-reverse : (m : BTreeMap PriceLevel) → IsSorted m → IsOrdered bid (reverse m)
IsOrdered-reverse [] s = tt
IsOrdered-reverse ((p, l) ∷ m) s = subst (IsOrdered bid) (sym (reverse-cons (p, l) m)) (
    IsOrdered-snoc (reverse m) (p, l) (All-reverse _ m (Above-All bid p m s.0))
      (IsOrdered-reverse m s.1))

best_first-IsOrdered : (s : Side) (b : Orderbook) → IsWellFormed b → IsOrdered s (best_first s b)
best_first-IsOrdered bid b w = IsOrdered-reverse b.bids (w.sorted bid)
best_first-IsOrdered ask b w = IsSorted-IsOrdered b.asks (w.sorted ask)

NoWorse-refl : (s : Side) (p q : ℕ) → p ≡ q → NoWorse s p q
NoWorse-refl bid p q e = omega arith
NoWorse-refl ask p q e = omega arith

-- A level before worse ones.
IsBestFirst-level :
    (s : Side) (p : ℕ) (os queue : List Order)
    → All (λ o. o.price ≡ p) os
    → All (λ o. NoWorse s p o.price) queue
    → IsBestFirst s queue
    → IsBestFirst s (os ++ queue)
IsBestFirst-level s p [] queue a w f = f
IsBestFirst-level s p (o ∷ os) queue a w f = (
  All-append _ os queue
      (All-map (λ x. x.price ≡ p) _ os (λ x e. NoWorse-refl s o.price x.price (omega arith)) a.1)
      (subst (λ n. All (λ x. NoWorse s n x.price) queue) (sym a.0) w),
  IsBestFirst-level s p os queue a.1 w f,
)

flat-IsBestFirst :
    (s : Side) (orders : HashMap ℕ Order) (m : Levels)
    → All (IsPriced orders) m
    → IsOrdered s m
    → IsBestFirst s (orders_of orders (flat m))
unfolding flat orders_of
flat-IsBestFirst s orders [] priced ordered = tt
flat-IsBestFirst s orders ((p, l) ∷ m) priced ordered =
    subst (IsBestFirst s) (sym (orders_of-append orders l.orders (flat m))) (
      IsBestFirst-level s p (orders_of orders l.orders) (orders_of orders (flat m)) priced.0
        (prices-flat orders (NoWorse s p) m priced.1 ordered.0)
        (flat-IsBestFirst s orders m priced.1 ordered.1))

levels_of-IsPriced :
    (u : Side) (b : Orderbook) → IsWellFormed b → All (IsPriced b.orders) (levels u b)
levels_of-IsPriced u b w =
    levels-IsPriced b.orders (levels u b) (w.sorted u)
      (λ p id o ne e. ground (arith, w.indexed u p id))

pub best_first-IsPriced :
    (u : Side) (b : Orderbook) → IsWellFormed b → All (IsPriced b.orders) (best_first u b)
best_first-IsPriced bid b w = All-reverse (IsPriced b.orders) b.bids (levels_of-IsPriced bid b w)
best_first-IsPriced ask b w = levels_of-IsPriced ask b w

-- On a well-formed book, the orders of a side stand in `resting` with the best price first.
pub resting-IsBestFirst : (s : Side) (b : Orderbook) → IsWellFormed b → IsBestFirst s (resting s b)
unfolding resting
resting-IsBestFirst s b w =
    flat-IsBestFirst s b.orders (best_first s b) (best_first-IsPriced s b w)
      (best_first-IsOrdered s b w)
