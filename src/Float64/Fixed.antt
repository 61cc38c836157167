-- ===== src/Float64/Fixed.antt =====
-- Signed thousandths with a NaN: a concrete `float64` at which the models run.
use vyomm.Prelude.{
  ℕ, zero, suc, ◌≡◌, ◌≤◌, ◌+◌, ◌-◌, ◌*◌, ◌/◌, ◌^◌, Bool, false, arith, ltb, leb, eqb, if◌then◌else◌,
}
use vyomm.Float64.{Float64, IsOrdered, HasDecimals}

-- `val a b` is a - b thousandths.
pub data Fixed : Type 0 where
  nan : Fixed
  val : ℕ → ℕ → Fixed

-- One of the two parts is 0.
abbrev norm : Fixed → Fixed
norm nan = nan
norm (val a b) = val (a - b) (b - a)

abbrev compare_by : (ℕ → ℕ → Bool) → Fixed → Fixed → Bool
compare_by f (val a b) (val c d) = f (a + d) (c + b)
compare_by f _ _ = false

abbrev add : Fixed → Fixed → Fixed
add (val a b) (val c d) = norm (val (a + c) (b + d))
add _ _ = nan

abbrev sub : Fixed → Fixed → Fixed
sub (val a b) (val c d) = norm (val (a + d) (b + c))
sub _ _ = nan

abbrev mul_norm : Fixed → Fixed → Fixed
mul_norm (val a b) (val c d) = val ((a * c + b * d) / 1000) ((a * d + b * c) / 1000)
mul_norm _ _ = nan

-- A quotient by 0 is not a number here.
abbrev div_norm : Fixed → Fixed → Fixed
div_norm (val a b) (val c d) =
    if eqb (c + d) 0
    then nan
    else val ((a * 1000) / c + (b * 1000) / d) ((a * 1000) / d + (b * 1000) / c)
div_norm _ _ = nan

abbrev trunc_norm : Fixed → Fixed
trunc_norm nan = nan
trunc_norm (val a b) = val ((a / 1000) * 1000) ((b / 1000) * 1000)

abbrev round_norm : Fixed → Fixed
round_norm nan = nan
round_norm (val a b) = val (((a + 500) / 1000) * 1000) (((b + 500) / 1000) * 1000)

abbrev pick : (ℕ → ℕ → Bool) → Fixed → Fixed → Fixed
pick f (val a b) (val c d) = if f (a + d) (c + b) then val c d else val a b
pick f _ _ = nan

instance abbrev pub fixed_float : Float64 Fixed
fixed_float = record {
  dec = λ n k. val ((n * 1000) / (10 ^ k)) 0;
  of_int = λ n. val (n * 1000) 0;
  lt = compare_by ltb;
  le = compare_by leb;
  eq = compare_by eqb;
  add = add;
  sub = sub;
  mul = λ x y. mul_norm (norm x) (norm y);
  div = λ x y. div_norm (norm x) (norm y);
  trunc = λ x. trunc_norm (norm x);
  max = pick leb;
  min = pick (λ a b. leb b a);
  round = λ x. round_norm (norm x);
}

-- The laws of `IsOrdered` can be met.
pub Fixed-IsOrdered : IsOrdered Fixed
Fixed-IsOrdered = ground arith

tenths_ltb :
    (n k m j : ℕ)
    → k ≤ 1
    → j ≤ 1
    → ltb ((n * 1000) / (10 ^ k) + 0) ((m * 1000) / (10 ^ j) + 0) ≡ ltb (n * 10 ^ j) (m * 10 ^ k)
tenths_ltb n zero m zero lk lj = ground arith
tenths_ltb n (suc zero) m zero lk lj = ground arith
tenths_ltb n zero m (suc zero) lk lj = ground arith
tenths_ltb n (suc zero) m (suc zero) lk lj = ground arith
tenths_ltb n (suc (suc k)) m j lk lj = absurd (omega arith)
tenths_ltb n k m (suc (suc j)) lk lj = absurd (omega arith)

-- The laws of `HasDecimals` can be met.
pub Fixed-HasDecimals : HasDecimals Fixed
Fixed-HasDecimals = record {
  dec_lt = λ n k m j lk lj ln lm l. rw (tenths_ltb n k m j lk lj) (ground (arith, l));
  dec_not_lt = λ n k m j lk lj ln lm l. rw (tenths_ltb n k m j lk lj) (ground (arith, l));
  add_int = λ n m ln lm. ground arith;
}
