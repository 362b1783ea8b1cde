-- ===== src/Base/Results.antt =====
-- What a run of Rust code comes to: a value, a panic (a failed `expect`), or, in the model only,
-- a loop whose fuel ran out.
use mathlib.Core.Option.{Option, none, some}

pub data Outcome {ℓ} (A : Type ℓ) : Type ℓ where
  done : A → Outcome A
  panic : Outcome A
  hang : Outcome A

infixl 5 ◌>>=◌
abbrev pub ◌>>=◌ {ℓ κ} : {A : Type ℓ} {B : Type κ} → Outcome A → (A → Outcome B) → Outcome B
done a >>= f = f a
panic >>= f = panic
hang >>= f = hang

-- `Option::expect`.
abbrev pub expect {ℓ} : {A : Type ℓ} → Option A → Outcome A
expect none = panic
expect (some a) = done a

pub data Result {ℓ κ} (A : Type ℓ) (E : Type κ) : Type (ℓ ⊔ κ) where
  ok : A → Result A E
  err : E → Result A E

-- `Result::expect`.
abbrev pub expect_ok {ℓ κ} : {A : Type ℓ} {E : Type κ} → Result A E → Outcome A
expect_ok (ok a) = done a
expect_ok (err e) = panic
