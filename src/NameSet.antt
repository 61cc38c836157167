-- ===== src/NameSet.antt =====
-- Go's `map[string]bool` used as a set: `true` at the listed keys, and nothing else is stored.
use vyomm.Prelude.{
  ℕ, zero, suc, String, ◌≡◌, refl, Bool, false, ◌||◌, List, [], ◌∷◌, ◌++◌, arith, ◌==◌, eq_iff,
  take,
}

-- `seen[v]`
unfoldable pub contains : List String → String → Bool
contains [] v = false
contains (x ∷ xs) v = x == v || contains xs v

abbrev pub IsDistinct : List String → Type 0
IsDistinct [] = Unit
IsDistinct (x ∷ xs) = (contains xs x ≡ false) × IsDistinct xs

pub contains-append :
    (xs ys : List String) (v : String) → contains (xs ++ ys) v ≡ (contains xs v || contains ys v)
unfolding contains
contains-append [] ys v = refl
contains-append (x ∷ xs) ys v = ground (arith, contains-append xs ys v)

pub IsDistinct-snoc :
    (xs : List String) (v : String)
    → IsDistinct xs
    → contains xs v ≡ false
    → IsDistinct (xs ++ (v ∷ []))
unfolding contains
IsDistinct-snoc [] v d h = (refl, tt)
IsDistinct-snoc (x ∷ xs) v d h = (
  ground (arith, contains-append xs (v ∷ []) x, eq_iff v x, eq_iff x v),
  IsDistinct-snoc xs v d.1 (ground arith),
)

contains-take :
    (n : ℕ) (xs : List String) (v : String) → contains xs v ≡ false → contains (take n xs) v ≡ false
unfolding contains
contains-take zero xs v h = refl
contains-take (suc n) [] v h = refl
contains-take (suc n) (x ∷ xs) v h = ground (arith, contains-take n xs v)

pub IsDistinct-take : (n : ℕ) (xs : List String) → IsDistinct xs → IsDistinct (take n xs)
IsDistinct-take zero xs d = tt
IsDistinct-take (suc n) [] d = tt
IsDistinct-take (suc n) (x ∷ xs) d = (contains-take n xs x d.0, IsDistinct-take n xs d.1)
