-- ===== src/Base/Text.antt =====
-- Texts: `str::to_lowercase` and `str::to_uppercase` on the ASCII letters. Other characters stay:
-- the program compares the results with ASCII texts only.
use Prim.Native.Char.{Char, code}
use Prim.Native.String.{String, ◌++◌}
use mathlib.Core.Bool.{Bool, true, false, ◌&&◌}
use mathlib.Core.Option.{Option, none, some}
use Prim.Native.Nat.{ℕ, zero, suc, ◌+◌, ◌-◌, ◌*◌, ◌/◌, ◌%◌}
use cex_rs.Base.Tests.{ltb, leb, nat_beq, if◌then◌else◌}

-- The character of `to` at the place of `c` in `from`, and `c` itself where there is none.
unfoldable pub translate : String → String → Char → Char
translate String.[] to c = c
translate (String.◌∷◌ a from) String.[] c = c
translate (String.◌∷◌ a from) (String.◌∷◌ b to) c =
    if nat_beq (code a) (code c) then b else translate from to c

unfoldable pub to_lowercase : String → String
unfolding translate
to_lowercase String.[] = ""
to_lowercase (String.◌∷◌ c s) =
    String.◌∷◌ (translate "ABCDEFGHIJKLMNOPQRSTUVWXYZ" "abcdefghijklmnopqrstuvwxyz" c)
      (to_lowercase s)

unfoldable pub to_uppercase : String → String
unfolding translate
to_uppercase String.[] = ""
to_uppercase (String.◌∷◌ c s) =
    String.◌∷◌ (translate "abcdefghijklmnopqrstuvwxyz" "ABCDEFGHIJKLMNOPQRSTUVWXYZ" c)
      (to_uppercase s)

abbrev pub concat : String → String → String
concat s t = s ++ t

-- `s.split(sep).next()`, which always gives a part: what stands before the first `sep`.
unfoldable pub split_first : ℕ → String → String
split_first sep String.[] = ""
split_first sep (String.◌∷◌ c s) =
    let rest = split_first sep s in if nat_beq (code c) sep then "" else String.◌∷◌ c rest

-- The digit of a number below 10.
unfoldable pub digit : ℕ → String
digit zero = "0"
digit (suc zero) = "1"
digit (suc (suc zero)) = "2"
digit (suc (suc (suc zero))) = "3"
digit (suc (suc (suc (suc zero)))) = "4"
digit (suc (suc (suc (suc (suc zero))))) = "5"
digit (suc (suc (suc (suc (suc (suc zero)))))) = "6"
digit (suc (suc (suc (suc (suc (suc (suc zero))))))) = "7"
digit (suc (suc (suc (suc (suc (suc (suc (suc zero)))))))) = "8"
digit (suc (suc (suc (suc (suc (suc (suc (suc (suc n))))))))) = "9"

unfoldable pub to_digits : ℕ → ℕ → String
unfolding digit
to_digits zero n = digit (n % 10)
to_digits (suc more) n =
    let front = to_digits more (n / 10) in
    if ltb n 10 then digit (n % 10) else front ++ digit (n % 10)

-- `to_string` of a `u64`, which has at most 20 digits.
unfoldable pub to_string : ℕ → String
unfolding to_digits
to_string = to_digits 19

-- `s.starts_with(prefix)`
unfoldable pub starts_with : String → String → Bool
starts_with String.[] s = true
starts_with (String.◌∷◌ a prefix) String.[] = false
starts_with (String.◌∷◌ a prefix) (String.◌∷◌ c s) =
    let rest = starts_with prefix s in if nat_beq (code a) (code c) then rest else false

-- The number that a text of digits goes on from `acc` to, where it stays below 2 ^ 64.
unfoldable pub parse_digits : ℕ → String → Option ℕ
parse_digits acc String.[] = some acc
parse_digits acc (String.◌∷◌ c s) =
    let next = acc * 10 + (code c - 48) in
    let rest = parse_digits next s in
    if leb 48 (code c) && leb (code c) 57 && ltb next 18446744073709551616 then rest else none

-- `s.parse::<u64>().ok()`: digits, and one `+` before them if any.
unfoldable pub parse_u64 : String → Option ℕ
parse_u64 String.[] = none
parse_u64 (String.◌∷◌ c String.[]) = parse_digits 0 (String.◌∷◌ c String.[])
parse_u64 (String.◌∷◌ c (String.◌∷◌ d s)) =
    if nat_beq (code c) 43
    then parse_digits 0 (String.◌∷◌ d s)
    else parse_digits 0 (String.◌∷◌ c (String.◌∷◌ d s))
