-- ===== src/Base/Trim.antt =====
-- Texts: `str::trim` and `str::trim_start_matches`.
use Prim.Native.Char.{Char, code}
use Prim.Native.Nat.{ℕ, zero, suc}
use Prim.Native.String.{String, count}
use Prim.Native.String.append
use Prim.Native.String.count
use mathlib.Core.Path.{◌≡◌, refl, ◌∙◌}
use mathlib.Core.Bool.{Bool, true, false, ◌&&◌, ◌||◌}
use mathlib.Core.Option.{Option, none, some}
use native.Mathlib.Omega.{arith}
use cex_rs.Base.Text.{concat}
use cex_rs.Base.Tests.{leb, nat_beq, if◌then◌else◌}

-- `char::is_whitespace`: the code points with the property `White_Space`.
unfoldable pub is_whitespace : ℕ → Bool
is_whitespace c =
    (leb 9 c && leb c 13)
    || nat_beq c 32
    || nat_beq c 133
    || nat_beq c 160
    || nat_beq c 5760
    || (leb 8192 c && leb c 8202)
    || nat_beq c 8232
    || nat_beq c 8233
    || nat_beq c 8239
    || nat_beq c 8287
    || nat_beq c 12288

unfoldable pub any : (ℕ → Bool) → String → Bool
any p String.[] = false
any p (String.◌∷◌ c s) = p (code c) || any p s

abbrev pub is_blank : String → Bool
is_blank String.[] = true
is_blank (String.◌∷◌ c s) = false

unfoldable pub trim_start : String → String
trim_start String.[] = ""
trim_start (String.◌∷◌ c s) =
    let rest = trim_start s in if is_whitespace (code c) then rest else String.◌∷◌ c s

unfoldable pub trim_end : String → String
trim_end String.[] = ""
trim_end (String.◌∷◌ c s) =
    let rest = trim_end s in
    if is_blank rest && is_whitespace (code c) then "" else String.◌∷◌ c rest

unfoldable pub trim : String → String
trim s = trim_end (trim_start s)

unfoldable pub strip_prefix : String → String → Option String
strip_prefix String.[] s = some s
strip_prefix (String.◌∷◌ a prefix) String.[] = none
strip_prefix (String.◌∷◌ a prefix) (String.◌∷◌ c s) =
    let rest = strip_prefix prefix s in if nat_beq (code a) (code c) then rest else none

-- The prefix goes as often as it stands there. Each round takes a character at least, where the
-- prefix has one.
unfoldable pub strip_all : ℕ → String → String → String
strip_all zero prefix s = s
strip_all (suc fuel) prefix s = elim (strip_prefix prefix s) [
  | none ↦ s
  | some rest ↦ strip_all fuel prefix rest
]

unfoldable pub trim_start_matches : String → String → String
trim_start_matches prefix s = strip_all (count s) prefix s

pub trim_start-plain : (s : String) → any is_whitespace s ≡ false → trim_start s ≡ s
unfolding trim_start any
trim_start-plain String.[] h = refl
trim_start-plain (String.◌∷◌ c s) h = ground (arith)

pub trim_end-plain : (s : String) → any is_whitespace s ≡ false → trim_end s ≡ s
unfolding trim_end any
trim_end-plain String.[] h = refl
trim_end-plain (String.◌∷◌ c s) h = ground (arith, trim_end-plain s)

pub strip_prefix-append : (p s : String) → strip_prefix p (concat p s) ≡ some s
unfolding strip_prefix
strip_prefix-append String.[] s = rw append.nil
strip_prefix-append (String.◌∷◌ a p) s = rw (append.cons) (ground (arith, strip_prefix-append p s))

-- A prefix with a white space is not one of a text without.
pub strip_prefix-plain :
    (p s : String)
    → any is_whitespace p ≡ true
    → any is_whitespace s ≡ false
    → strip_prefix p s ≡ none
unfolding strip_prefix any
strip_prefix-plain String.[] s hp hs = absurd (cc)
strip_prefix-plain (String.◌∷◌ a p) String.[] hp hs = refl
strip_prefix-plain (String.◌∷◌ a p) (String.◌∷◌ c s) hp hs = ground (arith, strip_prefix-plain p s)

strip_all-none : (n : ℕ) (p s : String) → strip_prefix p s ≡ none → strip_all n p s ≡ s
unfolding strip_all
strip_all-none zero p s h = refl
strip_all-none (suc n) p s h = ground (arith, h)

strip_all-some :
    (n : ℕ) (p s rest : String)
    → strip_prefix p s ≡ some rest
    → strip_all (suc n) p s ≡ strip_all n p rest
unfolding strip_all
strip_all-some n p s rest h = ground (arith, h)

-- A prefix that stands once is taken away once.
trim_start_matches-append :
    (a : Char) (p s : String)
    → strip_prefix (String.◌∷◌ a p) s ≡ none
    → trim_start_matches (String.◌∷◌ a p) (concat (String.◌∷◌ a p) s) ≡ s
unfolding trim_start_matches strip_all
trim_start_matches-append a p s h =
    let counted : count (concat (String.◌∷◌ a p) s) ≡ suc (count (concat p s)) =
      rw (append.cons, count.cons) in
    rw counted (
      strip_all-some (count (concat p s)) _ _ s (strip_prefix-append (String.◌∷◌ a p) s)
      ∙ strip_all-none (count (concat p s)) _ s h)

-- A text without a white space stands behind the prefix as it is.
pub trim-trim_start_matches :
    (a : Char) (p s : String)
    → any is_whitespace (String.◌∷◌ a p) ≡ true
    → any is_whitespace s ≡ false
    → trim (trim_start_matches (String.◌∷◌ a p) (concat (String.◌∷◌ a p) s)) ≡ s
unfolding trim
trim-trim_start_matches a p s hp hs = rw (
  trim_start_matches-append a p s (strip_prefix-plain _ s hp hs),
  trim_start-plain s hs,
  trim_end-plain s hs,
)
