-- ===== src/Float64.antt =====
-- The `float64` operations of the Go code, as an interface; a NaN is a value that is not `<=` itself.
pub mod Fixed
use vyomm.Prelude.{ℕ, ◌+◌, ◌*◌, ◌^◌, ◌<◌, ◌≤◌, ◌≡◌, ◌⊎◌, Bool, true, false, not}

-- `dec n k` is the constant n / 10^k, `of_int` the conversion of an integer (of a length, a counter),
-- `trunc` is `float64(int(x))`, and `max`, `min`, `round` are those of package math.
pub record Float64 (F : Type 0) : Type 0 where
  pub dec : ℕ → ℕ → F
  pub of_int : ℕ → F
  pub lt : F → F → Bool
  pub le : F → F → Bool
  pub eq : F → F → Bool
  pub add : F → F → F
  pub sub : F → F → F
  pub mul : F → F → F
  pub div : F → F → F
  pub trunc : F → F
  pub max : F → F → F
  pub min : F → F → F
  pub round : F → F

infixl 65 ◌+F◌ ◌-F◌
infixl 70 ◌*F◌ ◌/F◌
infix 50 ◌<F◌ ◌≤F◌ ◌>F◌ ◌≥F◌
abbrev pub ◌+F◌ : {F : Type 0} ⦃fl : Float64 F⦄ → F → F → F
◌+F◌ ⦃fl⦄ = fl.add

abbrev pub ◌-F◌ : {F : Type 0} ⦃fl : Float64 F⦄ → F → F → F
◌-F◌ ⦃fl⦄ = fl.sub

abbrev pub ◌*F◌ : {F : Type 0} ⦃fl : Float64 F⦄ → F → F → F
◌*F◌ ⦃fl⦄ = fl.mul

abbrev pub ◌/F◌ : {F : Type 0} ⦃fl : Float64 F⦄ → F → F → F
◌/F◌ ⦃fl⦄ = fl.div

abbrev pub ◌<F◌ : {F : Type 0} ⦃fl : Float64 F⦄ → F → F → Bool
◌<F◌ ⦃fl⦄ = fl.lt

abbrev pub ◌≤F◌ : {F : Type 0} ⦃fl : Float64 F⦄ → F → F → Bool
◌≤F◌ ⦃fl⦄ = fl.le

-- `x > y` is `y < x`, and `x >= y` is `y <= x`, also at a NaN.
abbrev pub ◌>F◌ : {F : Type 0} ⦃fl : Float64 F⦄ → F → F → Bool
◌>F◌ ⦃fl⦄ x y = fl.lt y x

abbrev pub ◌≥F◌ : {F : Type 0} ⦃fl : Float64 F⦄ → F → F → Bool
◌≥F◌ ⦃fl⦄ x y = fl.le y x

-- The constant n.
abbrev pub int : {F : Type 0} ⦃fl : Float64 F⦄ → ℕ → F
int ⦃fl⦄ n = fl.dec n 0

abbrev pub IsNumber : {F : Type 0} ⦃fl : Float64 F⦄ → F → Type 0
IsNumber ⦃fl⦄ x = fl.le x x ≡ true

-- What the theorems use of IEEE 754: comparisons with a NaN are false, and away from it `<=` is a
-- total order of which `<` is the strict part.
pub record IsOrdered (F : Type 0) ⦃fl : Float64 F⦄ : Type 0 where
  pub nan_left : (x y : F) → fl.le x x ≡ false → (fl.le x y ≡ false) × (fl.lt x y ≡ false)
  pub nan_right : (x y : F) → fl.le y y ≡ false → (fl.le x y ≡ false) × (fl.lt x y ≡ false)
  pub lt_le : (x y : F) → IsNumber x → IsNumber y → fl.lt x y ≡ not (fl.le y x)
  pub le_total : (x y : F) → IsNumber x → IsNumber y → (fl.le x y ≡ true) ⊎ (fl.le y x ≡ true)
  pub le_trans : (x y z : F) → fl.le x y ≡ true → fl.le y z ≡ true → fl.le x z ≡ true
  pub dec_number : (n k : ℕ) → IsNumber (fl.dec n k)
  pub int_le : (n m : ℕ) → n ≤ m → fl.le (fl.dec n 0) (fl.dec m 0) ≡ true
  pub le_max_left : (x y : F) → IsNumber x → IsNumber y → fl.le x (fl.max x y) ≡ true

-- What the theorems use of short constants, which are kept apart and in order, and of the sum of a
-- small constant and a small integer, which is exact.
pub record HasDecimals (F : Type 0) ⦃fl : Float64 F⦄ : Type 0 where
  pub dec_lt :
      (n k m j : ℕ)
      → k ≤ 1
      → j ≤ 1
      → n < 10 ^ 12
      → m < 10 ^ 12
      → n * 10 ^ j < m * 10 ^ k
      → fl.lt (fl.dec n k) (fl.dec m j) ≡ true
  pub dec_not_lt :
      (n k m j : ℕ)
      → k ≤ 1
      → j ≤ 1
      → n < 10 ^ 12
      → m < 10 ^ 12
      → m * 10 ^ k ≤ n * 10 ^ j
      → fl.lt (fl.dec n k) (fl.dec m j) ≡ false
  pub add_int :
      (n m : ℕ) → n < 10 ^ 12 → m < 10 ^ 12 → fl.add (fl.dec n 0) (fl.of_int m) ≡ fl.dec (n + m) 0
