-- ===== src/Base/HashSet.antt =====
-- `std::collections::HashSet<u64>` as a list. The order stands for the order of iteration, which
-- Rust leaves open.
use Prim.Native.Nat.{ℕ}
use mathlib.Core.Path.{◌≡◌, refl}
use mathlib.Core.Bool.{Bool, false, ◌||◌, ◌&&◌, not}
use mathlib.Core.List.{List, [], ◌∷◌, ◌++◌}
use native.Mathlib.Omega.{arith}
use cex_rs.Base.Tests.{nat_beq, if◌then◌else◌}

abbrev pub HashSet : Type 0
HashSet = List ℕ

unfoldable pub contains : ℕ → HashSet → Bool
contains k [] = false
contains k (x ∷ xs) = nat_beq k x || contains k xs

unfoldable pub insert : ℕ → HashSet → HashSet
insert k xs = if contains k xs then xs else xs ++ k ∷ []

unfoldable pub remove : ℕ → HashSet → HashSet
remove k [] = []
remove k (x ∷ xs) = let rest = remove k xs in if nat_beq k x then rest else x ∷ rest

-- No element stands twice.
abbrev pub IsDistinct : HashSet → Type 0
IsDistinct [] = Unit {0}
IsDistinct (x ∷ xs) = (contains x xs ≡ false) × IsDistinct xs

pub contains-append :
    (j : ℕ) (xs ys : HashSet) → contains j (xs ++ ys) ≡ contains j xs || contains j ys
unfolding contains
contains-append j [] ys = refl
contains-append j (x ∷ xs) ys = ground (arith, contains-append j xs ys)

pub contains-insert :
    (j k : ℕ) (xs : HashSet) → contains j (insert k xs) ≡ nat_beq j k || contains j xs
unfolding insert contains
contains-insert j k xs = ground (arith, contains-append j xs (k ∷ []))

pub contains-remove :
    (j k : ℕ) (xs : HashSet) → contains j (remove k xs) ≡ not (nat_beq j k) && contains j xs
unfolding remove contains
contains-remove j k [] = ground arith
contains-remove j k (x ∷ xs) = ground (arith, contains-remove j k xs)

snoc-IsDistinct :
    (k : ℕ) (xs : HashSet) → contains k xs ≡ false → IsDistinct xs → IsDistinct (xs ++ k ∷ [])
unfolding contains
snoc-IsDistinct k [] n s = (refl, tt)
snoc-IsDistinct k (x ∷ xs) n s = ground (arith, contains-append x xs (k ∷ []), snoc-IsDistinct k xs)

pub insert-IsDistinct : (k : ℕ) (xs : HashSet) → IsDistinct xs → IsDistinct (insert k xs)
unfolding insert
insert-IsDistinct k xs s = ground (arith, snoc-IsDistinct k xs)

pub remove-IsDistinct : (k : ℕ) (xs : HashSet) → IsDistinct xs → IsDistinct (remove k xs)
unfolding remove
remove-IsDistinct k [] s = tt
remove-IsDistinct k (x ∷ xs) s = ground (arith, contains-remove x k xs, remove-IsDistinct k xs s.1)
