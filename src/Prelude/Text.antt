-- ===== src/Prelude/Text.antt =====
-- Go's strings: concatenation, decimal printing, and the bytes that the program walks.
use Prim.Native.Nat.{ℕ, zero, suc, ◌+◌, ◌/◌, ◌%◌, ◌^◌}
use Prim.Native.Char.{code}
use Prim.Native.String.{String}
use Prim.Native.String.{slice, ◌++◌ as append_text, compare as compare_text}
use mathlib.Core.Bool.{Bool}
use mathlib.Core.List.{List, [], ◌∷◌}
use text.Mathlib.Text.{is_lt}
use vyomm.Prelude.Tests.{ltb, if◌then◌else◌}

-- `a + b` on strings.
abbrev pub concat : String → String → String
concat a b = append_text a b

-- The runes of a text, as `range` visits them.
abbrev pub codes : String → List ℕ
codes String.[] = []
codes (String.◌∷◌ c s) = code c ∷ codes s

-- `a < b` on strings.
abbrev pub text_ltb : String → String → Bool
text_ltb a b = is_lt (compare_text a b)

-- `string('0' + d)`.
abbrev pub digit_text : ℕ → String
digit_text d = slice "0123456789" d (d + 1)

-- The decimal digits of a number, most significant first, by `fuel` divisions at most.
unfoldable pub digits_text : ℕ → ℕ → String
digits_text zero n = ""
digits_text (suc fuel) n =
    let front = digits_text fuel (n / 10) in
    if ltb n 10 then digit_text n else concat front (digit_text (n % 10))

-- `%d` of a number that is not negative: 20 digits hold every 64-bit number.
unfoldable pub decimal : ℕ → String
unfolding digits_text
decimal n = digits_text 20 n

-- The zeros that fill a number up to `suc w` digits.
unfoldable pub leading_zeros : ℕ → ℕ → String
leading_zeros zero n = ""
leading_zeros (suc w) n =
    let rest = leading_zeros w n in if ltb n (10 ^ suc w) then concat "0" rest else rest

-- `%02d` of a number that is not negative.
unfoldable pub decimal_02 : ℕ → String
unfolding decimal leading_zeros
decimal_02 n = concat (leading_zeros 1 n) (decimal n)

-- `%06d` of a number that is not negative.
unfoldable pub decimal_06 : ℕ → String
unfolding decimal leading_zeros
decimal_06 n = concat (leading_zeros 5 n) (decimal n)
