-- ===== src/Book/Best.antt =====
-- The level at the top of a side: what reading, writing and removing it do.
use mathlib.Core.List.{reverse-cons, reverse-reverse}
use cex_rs.Base.{ℕ, ◌≡◌, sym, ap, ◌∙◌, Option, some, List, [], ◌∷◌, ◌++◌, reverse, arith, subst}
use cex_rs.Base.BTreeMap
use cex_rs.Base.BTreeMap.{BTreeMap}
use cex_rs.Base.BTreeMap.Sorted.{
  IsSorted, last_key-append, get-last, insert-last, remove-last, remove_below,
}
use cex_rs.Book.Types.{Side, bid, ask}
use cex_rs.Book.State.{PriceLevel, Orderbook, levels, set_levels, best_first, best_bid, best_ask}

-- The best price of a side.
abbrev pub best : Side → Orderbook → Option ℕ
best bid b = best_bid b
best ask b = best_ask b

abbrev pub Levels : Type 0
Levels = List (ℕ × PriceLevel)

-- What holds of a map whose levels begin, from the best price on, with `l` at `p`.
pub record Top (s : Side) (b : Orderbook) (p : ℕ) (l : PriceLevel) (rest : Levels) : Type 0 where
  pub best_is : best s b ≡ some p
  pub get_is : BTreeMap.get p (levels s b) ≡ some l
  pub insert_is :
      (l' : PriceLevel)
      → best_first s (set_levels s (BTreeMap.insert p l' (levels s b)) b) ≡ (p, l') ∷ rest
  pub remove_is : best_first s (set_levels s (BTreeMap.remove p (levels s b)) b) ≡ rest

reverse_of :
    (m : Levels) (x : ℕ × PriceLevel) (rest : Levels)
    → reverse m ≡ x ∷ rest
    → m ≡ reverse rest ++ x ∷ []
reverse_of m x rest h = sym (reverse-reverse m) ∙ ap reverse h ∙ reverse-cons x rest

reverse_snoc : (m : Levels) (x : ℕ × PriceLevel) → reverse (reverse m ++ x ∷ []) ≡ x ∷ m
reverse_snoc m x = sym (ap reverse (reverse-cons x m)) ∙ reverse-reverse (x ∷ m)

pub top :
    (s : Side) (b : Orderbook) (p : ℕ) (l : PriceLevel) (rest : Levels)
    → IsSorted (levels s b)
    → best_first s b ≡ (p, l) ∷ rest
    → Top s b p l rest
unfolding best_bid best_ask BTreeMap.first_key BTreeMap.get BTreeMap.insert BTreeMap.remove
top ask b p l rest s h =
    let s' : IsSorted ((p, l) ∷ rest) = subst IsSorted h s in
    record {
      best_is = rw h;
      get_is = rw h (ground arith);
      insert_is = λ l'. rw h (ground arith);
      remove_is = rw h (ground (arith, remove_below rest p s'.0));
    }
top bid b p l rest s h =
    let e = reverse_of b.bids (p, l) rest h in
    let s' : IsSorted (reverse rest ++ (p, l) ∷ []) = subst IsSorted e s in
    record {
      best_is = rw e (last_key-append (reverse rest) p l);
      get_is = rw e (get-last (reverse rest) p l s');
      insert_is = λ l'. rw (e, insert-last (reverse rest) p l l' s') (reverse_snoc rest (p, l'));
      remove_is = rw (e, remove-last (reverse rest) p l s') (reverse-reverse rest);
    }
