-- ===== src/GoInt.antt =====
-- Signed integers over the native numbers, with the wrap-around of Go's 64-bit `int` and `int64`.
use vyomm.Prelude.{ℕ, zero, suc, ◌+◌, ◌-◌, ◌/◌, ◌%◌, ◌^◌, ◌≤◌, String, Bool, ltb, if◌then◌else◌}
use vyomm.Prelude.Text.{concat, decimal}

-- `negsuc n` is -(n + 1).
pub data ℤ : Type 0 where
  pos : ℕ → ℤ
  negsuc : ℕ → ℤ

abbrev pub pos_part : ℤ → ℕ
pos_part (pos n) = n
pos_part (negsuc n) = 0

abbrev pub neg_part : ℤ → ℕ
neg_part (pos n) = 0
neg_part (negsuc n) = suc n

abbrev pub neg : ℕ → ℤ
neg zero = pos 0
neg (suc n) = negsuc n

infix 50 ◌≤ℤ◌
abbrev pub ◌≤ℤ◌ : ℤ → ℤ → Type 0
a ≤ℤ b = pos_part a + neg_part b ≤ pos_part b + neg_part a

abbrev pub ltb_ℤ : ℤ → ℤ → Bool
ltb_ℤ a b = ltb (pos_part a + neg_part b) (pos_part b + neg_part a)

-- Go's `a / k` for a positive k: it truncates towards zero.
unfoldable pub quot : ℤ → ℕ → ℤ
quot (pos n) k = pos (n / k)
quot (negsuc n) k = neg (suc n / k)

-- The signed reading of a 64-bit pattern.
unfoldable pub signed64 : ℕ → ℤ
signed64 p =
    if ltb (p % 2 ^ 64) (2 ^ 63) then pos (p % 2 ^ 64) else negsuc (2 ^ 64 - 1 - p % 2 ^ 64)

-- `%d`
unfoldable pub show_ℤ : ℤ → String
show_ℤ (pos n) = decimal n
show_ℤ (negsuc n) = concat "-" (decimal (suc n))
