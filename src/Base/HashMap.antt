-- ===== src/Base/HashMap.antt =====
-- `std::collections::HashMap` as an association list. The order of the entries stands for the
-- order of iteration, which Rust leaves open.
use mathlib.Core.Path.{◌≡◌, refl}
use mathlib.Core.List.{List, [], ◌∷◌, map}
use mathlib.Core.Option.{Option, none, some}
use native.Mathlib.Omega.{arith}
use cex_rs.Base.Tests.{Eq, ◌==◌, if◌then◌else◌}

abbrev pub HashMap : Type 0 → Type 0 → Type 0
HashMap K V = List (K × V)

module _ {K V : Type 0} ⦃e : Eq K⦄ where
  unfoldable pub get : K → HashMap K V → Option V
  get k [] = none
  get k ((j, v) ∷ m) = if k == j then some v else get k m

  -- `insert`: the old value of the key is replaced.
  unfoldable pub insert : K → V → HashMap K V → HashMap K V
  insert k v [] = (k, v) ∷ []
  insert k v ((j, w) ∷ m) = if k == j then (k, v) ∷ m else (j, w) ∷ insert k v m

  unfoldable pub remove : K → HashMap K V → HashMap K V
  remove k [] = []
  remove k ((j, w) ∷ m) = let rest = remove k m in if k == j then rest else (j, w) ∷ rest

  -- `get(..).cloned().unwrap_or(..)`, and the value behind `entry(..).or_insert(..)`.
  abbrev pub get_or : K → V → HashMap K V → V
  get_or k d m = elim (get k m) [ none ↦ d | some v ↦ v ]

  pub get-insert :
      (j k : K) (v : V) (m : HashMap K V)
      → get j (insert k v m) ≡ (if j == k then some v else get j m)
  unfolding get insert
  get-insert j k v [] = refl
  get-insert j k v ((i, w) ∷ m) =
      ground (arith, e.agree j k, e.agree k i, e.agree j i, get-insert j k v m)

  pub get-remove :
      (j k : K) (m : HashMap K V) → get j (remove k m) ≡ (if j == k then none else get j m)
  unfolding get remove
  get-remove j k [] = ground arith
  get-remove j k ((i, w) ∷ m) =
      ground (arith, e.agree j k, e.agree k i, e.agree j i, get-remove j k m)

abbrev pub values : {K V : Type 0} → HashMap K V → List V
values = map (λ e. e.1)

-- No key stands twice, as in a map that is built by `insert` and `remove`.
module _ {K V : Type 0} ⦃e : Eq K⦄ where
  abbrev pub IsMap : HashMap K V → Type 0
  IsMap [] = Unit {0}
  IsMap ((k, v) ∷ m) = (get k m ≡ none) × IsMap m

  pub insert-IsMap : (k : K) (v : V) (m : HashMap K V) → IsMap m → IsMap (insert k v m)
  unfolding get insert
  insert-IsMap k v [] h = (refl, tt)
  insert-IsMap k v ((j, w) ∷ m) h =
      ground (arith, get-insert j k v m, e.agree j k, e.agree k j, insert-IsMap k v m h.1)

  pub remove-IsMap : (k : K) (m : HashMap K V) → IsMap m → IsMap (remove k m)
  unfolding get remove
  remove-IsMap k [] h = tt
  remove-IsMap k ((j, w) ∷ m) h = ground (arith, get-remove j k m, remove-IsMap k m h.1)
