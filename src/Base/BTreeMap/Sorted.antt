-- ===== src/Base/BTreeMap/Sorted.antt =====
-- Ascending keys: kept by the operations, and what they do at the two ends of the map.
use Prim.Native.Nat.{ℕ, ◌<◌}
use mathlib.Core.Path.{◌≡◌, refl}
use mathlib.Core.List.{[], ◌∷◌, ◌++◌}
use mathlib.Core.Option.{some, none}
use native.Mathlib.Omega.{arith}
use cex_rs.Base.BTreeMap.{BTreeMap, get, insert, remove, last_key}

-- Every key lies above `p`.
abbrev pub Above : {V : Type 0} → ℕ → BTreeMap V → Type 0
Above p [] = Unit {0}
Above p ((q, v) ∷ m) = (p < q) × Above p m

abbrev pub IsSorted : {V : Type 0} → BTreeMap V → Type 0
IsSorted [] = Unit {0}
IsSorted ((p, v) ∷ m) = Above p m × IsSorted m

module _ {V : Type 0} where
  pub Above-mono : (m : BTreeMap V) (p q : ℕ) → p < q → Above q m → Above p m
  Above-mono [] p q h a = tt
  Above-mono ((r, v) ∷ m) p q h a = (omega arith, Above-mono m p q h a.1)

  insert-Above : (m : BTreeMap V) (p q : ℕ) (v : V) → q < p → Above q m → Above q (insert p v m)
  unfolding insert
  insert-Above [] p q v h a = (h, tt)
  insert-Above ((r, w) ∷ m) p q v h a = ground (arith, insert-Above m p q v h a.1)

  pub insert-IsSorted : (m : BTreeMap V) (p : ℕ) (v : V) → IsSorted m → IsSorted (insert p v m)
  unfolding insert
  insert-IsSorted [] p v s = (tt, tt)
  insert-IsSorted ((q, w) ∷ m) p v s =
      ground (arith, insert-IsSorted m p v s.1, insert-Above m p q v, Above-mono m p q)

  remove-Above : (m : BTreeMap V) (p q : ℕ) → Above q m → Above q (remove p m)
  unfolding remove
  remove-Above [] p q a = tt
  remove-Above ((r, w) ∷ m) p q a = ground (arith, remove-Above m p q a.1)

  pub remove-IsSorted : (m : BTreeMap V) (p : ℕ) → IsSorted m → IsSorted (remove p m)
  unfolding remove
  remove-IsSorted [] p s = tt
  remove-IsSorted ((q, w) ∷ m) p s = ground (arith, remove-IsSorted m p s.1, remove-Above m p q s.0)

  pub get_below : (m : BTreeMap V) (p : ℕ) → Above p m → get p m ≡ none
  unfolding get
  get_below [] p a = refl
  get_below ((q, v) ∷ m) p a = ground (arith, get_below m p a.1)

  pub remove_below : (m : BTreeMap V) (p : ℕ) → Above p m → remove p m ≡ m
  unfolding remove
  remove_below [] p a = refl
  remove_below ((q, v) ∷ m) p a = ground (arith, remove_below m p a.1)

  -- A map's last key is above the others.
  pub Above-last : (m : BTreeMap V) (p q : ℕ) (v : V) → Above q (m ++ (p, v) ∷ []) → q < p
  Above-last [] p q v a = a.0
  Above-last ((r, w) ∷ m) p q v a = Above-last m p q v a.1

  pub last_key-append : (m : BTreeMap V) (p : ℕ) (v : V) → last_key (m ++ (p, v) ∷ []) ≡ some p
  unfolding last_key
  last_key-append [] p v = refl
  last_key-append (x ∷ []) p v = refl
  last_key-append (x ∷ y ∷ m) p v = last_key-append (y ∷ m) p v

  pub get-last :
      (m : BTreeMap V) (p : ℕ) (v : V)
      → IsSorted (m ++ (p, v) ∷ [])
      → get p (m ++ (p, v) ∷ []) ≡ some v
  unfolding get
  get-last [] p v s = ground arith
  get-last ((q, w) ∷ m) p v s = ground (arith, Above-last m p q v s.0, get-last m p v s.1)

  pub insert-last :
      (m : BTreeMap V) (p : ℕ) (v v' : V)
      → IsSorted (m ++ (p, v) ∷ [])
      → insert p v' (m ++ (p, v) ∷ []) ≡ m ++ (p, v') ∷ []
  unfolding insert
  insert-last [] p v v' s = ground arith
  insert-last ((q, w) ∷ m) p v v' s =
      ground (arith, Above-last m p q v s.0, insert-last m p v v' s.1)

  pub remove-last :
      (m : BTreeMap V) (p : ℕ) (v : V)
      → IsSorted (m ++ (p, v) ∷ [])
      → remove p (m ++ (p, v) ∷ []) ≡ m
  unfolding remove
  remove-last [] p v s = ground arith
  remove-last ((q, w) ∷ m) p v s = ground (arith, Above-last m p q v s.0, remove-last m p v s.1)
