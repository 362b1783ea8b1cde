-- ===== src/Base/Int.antt =====
-- `i64` values: integers over the native numbers. `negsuc n` is -(n + 1).
use Prim.Native.Nat.{ℕ, zero, suc, ◌-◌, ◌<◌}
use mathlib.Core.Path.{◌≡◌}
use mathlib.Core.Bool.{Bool, true, false}
use native.Mathlib.Omega.{arith}
use cex_rs.Base.Tests.{ltb, nat_beq, if◌then◌else◌}

pub data ℤ : Type 0 where
  pos : ℕ → ℤ
  negsuc : ℕ → ℤ

-- `x > 0`
abbrev pub is_pos : ℤ → Bool
is_pos (pos zero) = false
is_pos (pos (suc n)) = true
is_pos (negsuc n) = false

-- `x as u64` at a value that is not negative.
abbrev pub to_u64 : ℤ → ℕ
to_u64 (pos n) = n
to_u64 (negsuc n) = 0

-- `n as i64` of a `u64`: the same 64 bits.
unfoldable pub to_i64 : ℕ → ℤ
to_i64 n = if ltb n 9223372036854775808 then pos n else negsuc (18446744073709551615 - n)

-- `-x` of an `i64`, which keeps the least value.
unfoldable pub neg : ℤ → ℤ
neg (pos zero) = pos zero
neg (pos (suc n)) = negsuc n
neg (negsuc n) = if nat_beq n 9223372036854775807 then negsuc n else pos (suc n)

-- The amount that is credited, and the amount that is debited.
abbrev pub pos_part : ℤ → ℕ
pos_part (pos n) = n
pos_part (negsuc n) = 0

abbrev pub neg_part : ℤ → ℕ
neg_part (pos n) = 0
neg_part (negsuc n) = suc n

-- Half of the `u64` values are values of `i64`.
abbrev pub i64_bound : ℕ
i64_bound = 9223372036854775808

pub pos_part-to_i64 : (n : ℕ) → n < i64_bound → pos_part (to_i64 n) ≡ n
unfolding to_i64
pos_part-to_i64 n h = ground arith

pub neg_part-to_i64 : (n : ℕ) → n < i64_bound → neg_part (to_i64 n) ≡ 0
unfolding to_i64
neg_part-to_i64 n h = ground arith

pub pos_part-neg : (x : ℤ) → neg_part x ≡ 0 → pos_part (neg x) ≡ 0
unfolding neg
pos_part-neg (pos zero) h = omega arith
pos_part-neg (pos (suc n)) h = omega arith
pos_part-neg (negsuc n) h = absurd (omega arith)

pub neg_part-neg : (x : ℤ) → neg_part x ≡ 0 → neg_part (neg x) ≡ pos_part x
unfolding neg
neg_part-neg (pos zero) h = omega arith
neg_part-neg (pos (suc n)) h = omega arith
neg_part-neg (negsuc n) h = absurd (omega arith)
