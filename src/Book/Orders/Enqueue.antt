-- ===== src/Book/Orders/Enqueue.antt =====
-- Where a new order comes to stand: behind all orders of its side whose price is at least as good.
pub mod Sandwich
pub mod Rested
use mathlib.Core.List.{append_assoc, append-nil, reverse-append, reverse-cons}
use native.Mathlib.Decide.{dec_lt}
use cex_rs.Base.{
  ℕ, suc, ◌+◌, ◌<◌, ◌≡◌, refl, ap, ◌∙◌, sym, subst, ◌≢◌, Bool, true, false, Option, none, some,
  List, [], ◌∷◌, ◌++◌, reverse, arith, nat_beq, nat_eq, leb, if◌then◌else◌, count, count-append,
  Option-cases, inl, inr,
}
use cex_rs.Base.HashMap
use cex_rs.Base.HashMap.{HashMap}
use cex_rs.Base.BTreeMap
use cex_rs.Base.BTreeMap.{BTreeMap}
use cex_rs.Base.BTreeMap.Sorted.{IsSorted, Above, Above-mono, get_below}
use cex_rs.Book.Types.{Side, bid, ask, Order}
use cex_rs.Book.State.{PriceLevel, Orderbook, levels, opposite, best_first, set_levels}
use cex_rs.Book.Best.{Levels}
use cex_rs.Book.Orders.{push_back, rest_order}
use cex_rs.Book.View.{flat, queue_at, orders_of, resting}
use cex_rs.Book.View.Priced.{
  All, All-append, All-reverse, orders_of-append, orders-flat-append, IsPriced, levels-IsPriced,
  prices-flat,
}

-- Does an order at price `p` trade before a later one at price `q`?
abbrev pub ahead : Side → ℕ → ℕ → Bool
ahead bid p q = leb q p
ahead ask p q = leb p q

unfoldable pub enqueue : Side → Order → List Order → List Order
enqueue s o [] = o ∷ []
enqueue s o (x ∷ queue) = if ahead s x.price o.price then x ∷ enqueue s o queue else o ∷ x ∷ queue

pub enqueue_behind :
    (s : Side) (o : Order) (xs ys : List Order)
    → All (λ x. ahead s x.price o.price ≡ true) xs
    → enqueue s o (xs ++ ys) ≡ xs ++ enqueue s o ys
unfolding enqueue
enqueue_behind s o [] ys a = refl
enqueue_behind s o (x ∷ xs) ys a = rw (a.0, enqueue_behind s o xs ys a.1)

pub enqueue_before :
    (s : Side) (o : Order) (ys : List Order)
    → All (λ x. ahead s x.price o.price ≡ false) ys
    → enqueue s o ys ≡ o ∷ ys
unfolding enqueue
enqueue_before s o [] a = refl
enqueue_before s o (y ∷ ys) a = rw a.0

-- The levels below, at and above a price.
pub record Around (p id : ℕ) (m : BTreeMap PriceLevel) : Type 0 where
  pub lower : Levels
  pub middle : Levels
  pub upper : Levels
  pub old : List ℕ
  pub below : All (λ x. x.0 < p) lower
  pub at : All (λ x. x.0 ≡ p) middle
  pub above : All (λ x. p < x.0) upper
  pub split : m ≡ lower ++ middle ++ upper
  pub middle_ids : flat middle ≡ old
  pub middle_reversed : reverse middle ≡ middle
  pub pushed : push_back p id m ≡ lower ++ (p, record { orders = old ++ id ∷ [] }) ∷ upper

Above-All : (p : ℕ) (m : BTreeMap PriceLevel) → Above p m → All (λ x. p < x.0) m
Above-All p [] a = tt
Above-All p ((q, l) ∷ m) a = (a.0, Above-All p m a.1)

push_back-Above :
    (p id : ℕ) (m : BTreeMap PriceLevel)
    → Above p m
    → push_back p id m ≡ (p, record { orders = id ∷ [] }) ∷ m
unfolding push_back BTreeMap.get BTreeMap.insert
push_back-Above p id [] a = refl
push_back-Above p id ((q, l) ∷ m) a = ground (arith, get_below m p a.1)

push_back_at :
    (p id : ℕ) (l : PriceLevel) (m : BTreeMap PriceLevel)
    → push_back p id ((p, l) ∷ m) ≡ (p, record { orders = l.orders ++ id ∷ [] }) ∷ m
unfolding push_back BTreeMap.get BTreeMap.insert
push_back_at p id l m = ground arith

push_back_below :
    (p q id : ℕ) (l : PriceLevel) (m : BTreeMap PriceLevel)
    → q < p
    → push_back p id ((q, l) ∷ m) ≡ (q, l) ∷ push_back p id m
unfolding push_back BTreeMap.get BTreeMap.insert
push_back_below p q id l m h = ground arith

pub around : (p id : ℕ) (m : BTreeMap PriceLevel) → IsSorted m → Around p id m
unfolding flat
around p id [] s = record {
  lower = [];
  middle = [];
  upper = [];
  old = [];
  below = tt;
  at = tt;
  above = tt;
  split = refl;
  middle_ids = refl;
  middle_reversed = refl;
  pushed = push_back-Above p id [] tt;
}
around p id ((q, l) ∷ m) s = elim (dec_lt p q) [
  | yes lt ↦ record {
    lower = [];
    middle = [];
    upper = (q, l) ∷ m;
    old = [];
    below = tt;
    at = tt;
    above = (lt, Above-All p m (Above-mono m p q lt s.0));
    split = refl;
    middle_ids = refl;
    middle_reversed = refl;
    pushed = push_back-Above p id ((q, l) ∷ m) (lt, Above-mono m p q lt s.0);
  }
  | no ge ↦ elim (dec_lt q p) [
    | yes gt ↦
        let r = around p id m s.1 in
        record {
          lower = (q, l) ∷ r.lower;
          middle = r.middle;
          upper = r.upper;
          old = r.old;
          below = (gt, r.below);
          at = r.at;
          above = r.above;
          split = ap (◌∷◌ (q, l)) r.split;
          middle_ids = r.middle_ids;
          middle_reversed = r.middle_reversed;
          pushed = push_back_below p q id l m gt ∙ ap (◌∷◌ (q, l)) r.pushed;
        }
    | no le ↦
        let e : q ≡ p = omega arith in
        record {
          lower = [];
          middle = (q, l) ∷ [];
          upper = m;
          old = l.orders;
          below = tt;
          at = (e, tt);
          above = subst (λ n. All (λ x. n < x.0) m) e (Above-All q m s.0);
          split = refl;
          middle_ids = append-nil l.orders;
          middle_reversed = refl;
          pushed = rw e (push_back_at p id l m);
        }
  ]
]
