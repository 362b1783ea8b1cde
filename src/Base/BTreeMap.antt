-- ===== src/Base/BTreeMap.antt =====
-- `std::collections::BTreeMap` with `u64` keys, as a list in ascending order of its keys.
pub mod Sorted
pub mod Slot
use Prim.Native.Nat.{ℕ, suc, ◌<◌, ◌≤◌}
use mathlib.Core.Path.{◌≡◌, refl, ap}
use mathlib.Core.Bool.{Bool, true, false}
use mathlib.Core.List.{List, [], ◌∷◌, ◌++◌, reverse}
use mathlib.Core.Option.{Option, none, some}
use native.Mathlib.Omega.{arith}
use cex_rs.Base.Tests.{ltb, nat_beq, if◌then◌else◌}

abbrev pub BTreeMap : Type 0 → Type 0
BTreeMap V = List (ℕ × V)

module _ {V : Type 0} where
  unfoldable pub get : ℕ → BTreeMap V → Option V
  get p [] = none
  get p ((q, v) ∷ m) = if nat_beq p q then some v else get p m

  unfoldable pub insert : ℕ → V → BTreeMap V → BTreeMap V
  insert p v [] = (p, v) ∷ []
  insert p v ((q, w) ∷ m) =
      if nat_beq p q
      then (p, v) ∷ m
      else if ltb p q
      then (p, v) ∷ (q, w) ∷ m
      else (q, w) ∷ insert p v m

  unfoldable pub remove : ℕ → BTreeMap V → BTreeMap V
  remove p [] = []
  remove p ((q, w) ∷ m) = let rest = remove p m in if nat_beq p q then rest else (q, w) ∷ rest

  unfoldable pub first_key : BTreeMap V → Option ℕ
  first_key [] = none
  first_key ((p, v) ∷ m) = some p

  unfoldable pub last_key : BTreeMap V → Option ℕ
  last_key [] = none
  last_key ((p, v) ∷ []) = some p
  last_key ((p, v) ∷ x ∷ m) = last_key (x ∷ m)

  pub get-insert :
      (j p : ℕ) (v : V) (m : BTreeMap V)
      → get j (insert p v m) ≡ (if nat_beq j p then some v else get j m)
  unfolding get insert
  get-insert j p v [] = refl
  get-insert j p v ((q, w) ∷ m) = ground (arith, get-insert j p v m)

  pub get-remove :
      (j p : ℕ) (m : BTreeMap V) → get j (remove p m) ≡ (if nat_beq j p then none else get j m)
  unfolding get remove
  get-remove j p [] = ground arith
  get-remove j p ((q, w) ∷ m) = ground (arith, get-remove j p m)
