-- ===== src/Book/View/Flat.antt =====
-- The identifiers that stand in a list of levels.
use mathlib.Core.List.{reverse-cons}
use cex_rs.Base.{
  ℕ, ◌+◌, ◌≢◌, ◌≡◌, refl, ap, none, some, List, [], ◌∷◌, ◌++◌, reverse, arith, length, count,
  length-append, count-append,
}
use cex_rs.Base.BTreeMap
use cex_rs.Base.BTreeMap.{BTreeMap}
use cex_rs.Base.BTreeMap.Sorted.{IsSorted, get_below}
use cex_rs.Book.State.{PriceLevel}
use cex_rs.Book.Matching.{resting_count}

unfoldable pub flat : List (ℕ × PriceLevel) → List ℕ
flat [] = []
flat ((price, level) ∷ m) = level.orders ++ flat m

-- The queue at a price, empty where there is no level.
abbrev pub queue_at : ℕ → BTreeMap PriceLevel → List ℕ
queue_at p m = elim (BTreeMap.get p m) [ none ↦ [] | some level ↦ level.orders ]

pub resting_count-flat : (m : BTreeMap PriceLevel) → resting_count m ≡ length (flat m)
unfolding flat
resting_count-flat [] = refl
resting_count-flat ((p, l) ∷ m) =
    omega (arith, resting_count-flat m, length-append l.orders (flat m))

pub length-flat-append :
    (m n : List (ℕ × PriceLevel)) → length (flat (m ++ n)) ≡ length (flat m) + length (flat n)
unfolding flat
length-flat-append [] n = omega arith
length-flat-append ((p, l) ∷ m) n = omega (
  arith,
  length-flat-append m n,
  length-append l.orders (flat (m ++ n)),
  length-append l.orders (flat m),
)

pub count-flat-append :
    (a : ℕ) (m n : List (ℕ × PriceLevel))
    → count a (flat (m ++ n)) ≡ count a (flat m) + count a (flat n)
unfolding flat
count-flat-append a [] n = omega arith
count-flat-append a ((p, l) ∷ m) n = omega (
  arith,
  count-flat-append a m n,
  count-append a l.orders (flat (m ++ n)),
  count-append a l.orders (flat m),
)

-- Neither depends on the direction of the walk.
pub length-flat-reverse : (m : List (ℕ × PriceLevel)) → length (flat (reverse m)) ≡ length (flat m)
unfolding flat
length-flat-reverse [] = refl
length-flat-reverse ((p, l) ∷ m) = omega (
  arith,
  ap (λ (n : List (ℕ × PriceLevel)). length (flat n)) (reverse-cons (p, l) m),
  length-flat-append (reverse m) ((p, l) ∷ []),
  length-append l.orders [],
  length-append l.orders (flat m),
  length-flat-reverse m,
)

pub count-flat-reverse :
    (a : ℕ) (m : List (ℕ × PriceLevel)) → count a (flat (reverse m)) ≡ count a (flat m)
unfolding flat
count-flat-reverse a [] = refl
count-flat-reverse a ((p, l) ∷ m) = omega (
  arith,
  ap (λ (n : List (ℕ × PriceLevel)). count a (flat n)) (reverse-cons (p, l) m),
  count-flat-append a (reverse m) ((p, l) ∷ []),
  count-append a l.orders [],
  count-append a l.orders (flat m),
  count-flat-reverse a m,
)

-- A number that stands in no other queue than the one at `p` stands in the levels as often as
-- in that queue.
pub count-flat_at :
    (a p : ℕ) (m : BTreeMap PriceLevel)
    → IsSorted m
    → ((q : ℕ) → q ≢ p → count a (queue_at q m) ≡ 0)
    → count a (flat m) ≡ count a (queue_at p m)
unfolding flat BTreeMap.get
count-flat_at a p [] s h = refl
count-flat_at a p ((q, l) ∷ m) s h = ground (
  arith,
  count-flat_at a p m s.1 (λ r ne. ground (arith, h r ne, get_below m r)),
  count-append a l.orders (flat m),
  get_below m p,
  h q,
)
