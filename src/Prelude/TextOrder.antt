-- ===== src/Prelude/TextOrder.antt =====
-- The order of Go's strings.
use Prim.Native.Nat.{ℕ, Ordering, compare as compare_ℕ}
use Prim.Native.Char.{code}
use Prim.Native.String.compare
use Prim.Native.String.{String, compare, then as later}
use mathlib.Core.Path.{◌≡◌, refl, sym, ap, ◌∙◌}
use mathlib.Core.Bool.{Bool, true, false}
use mathlib.Core.List.{List, [], ◌∷◌}
use native.Mathlib.Omega.{arith}
use text.Mathlib.Text.{is_lt}
use vyomm.Prelude.Tests.{ltb, eqb, if◌then◌else◌}
use vyomm.Prelude.Text.{codes, text_ltb}

-- The lexicographic order of lists of runes.
abbrev lexicographic : List ℕ → List ℕ → Bool
lexicographic [] [] = false
lexicographic [] (d ∷ t) = true
lexicographic (c ∷ s) [] = false
lexicographic (c ∷ s) (d ∷ t) =
    let rest = lexicographic s t in if ltb c d then true else if eqb c d then rest else false

is_lt-then :
    (c d : ℕ) (o : Ordering)
    → is_lt (later (compare_ℕ c d) o)
      ≡ (if ltb c d then true else if eqb c d then is_lt o else false)
is_lt-then c d o = ground arith

text_ltb-codes : (s t : String) → text_ltb s t ≡ lexicographic (codes s) (codes t)
text_ltb-codes String.[] String.[] = refl
text_ltb-codes String.[] (String.◌∷◌ d t) = ap is_lt (compare.nil-cons d t)
text_ltb-codes (String.◌∷◌ c s) String.[] = ap is_lt (compare.cons-nil c s)
text_ltb-codes (String.◌∷◌ c s) (String.◌∷◌ d t) =
    ap is_lt (compare.cons-cons c d s t)
    ∙ is_lt-then (code c) (code d) (compare s t)
    ∙ rw (text_ltb-codes s t) refl

lexicographic_asym : (s t : List ℕ) → lexicographic s t ≡ true → lexicographic t s ≡ false
lexicographic_asym [] [] h = refl
lexicographic_asym [] (d ∷ t) h = refl
lexicographic_asym (c ∷ s) [] h = cc
lexicographic_asym (c ∷ s) (d ∷ t) h = ground (arith, lexicographic_asym s t)

pub text_ltb_asym : (s t : String) → text_ltb s t ≡ true → text_ltb t s ≡ false
text_ltb_asym s t h =
    text_ltb-codes t s ∙ lexicographic_asym (codes s) (codes t) (sym (text_ltb-codes s t) ∙ h)

lexicographic_trans :
    (s t u : List ℕ)
    → lexicographic t s ≡ false
    → lexicographic u t ≡ false
    → lexicographic u s ≡ false
lexicographic_trans [] [] u h g = g
lexicographic_trans [] (d ∷ t) [] h g = refl
lexicographic_trans [] (d ∷ t) (e ∷ u) h g = refl
lexicographic_trans (c ∷ s) [] u h g = cc
lexicographic_trans (c ∷ s) (d ∷ t) [] h g = cc
lexicographic_trans (c ∷ s) (d ∷ t) (e ∷ u) h g = ground (arith, lexicographic_trans s t u)

-- A text that is not below another, which is not below a third, is not below the third.
pub text_ltb_trans :
    (s t u : String) → text_ltb t s ≡ false → text_ltb u t ≡ false → text_ltb u s ≡ false
text_ltb_trans s t u h g =
    text_ltb-codes u s
    ∙ lexicographic_trans (codes s) (codes t) (codes u) (sym (text_ltb-codes t s) ∙ h)
        (sym (text_ltb-codes u t) ∙ g)
