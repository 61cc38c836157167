-- ===== src/Prelude/Sorting.antt =====
-- Sorting by a text.
use mathlib.Core.List.Perm
use Prim.Native.String.{String}
use mathlib.Core.Path.{◌≡◌}
use mathlib.Core.Logic.{inl, inr}
use mathlib.Core.Bool.{false}
use mathlib.Core.List.{List, [], ◌∷◌, Perm}
use vyomm.Prelude.Tests.{Bool-cases, if◌then◌else◌}
use vyomm.Prelude.Lists.{All}
use vyomm.Prelude.Text.{text_ltb}
use vyomm.Prelude.TextOrder.{text_ltb_asym, text_ltb_trans}

module _ {ℓ} {A : Type ℓ} (key : A → String) where
  -- `sort.Slice` by a text key: an element stays behind those that are below it.
  unfoldable pub insert_by : A → List A → List A
  insert_by d [] = d ∷ []
  insert_by d (x ∷ xs) =
      let rest = insert_by d xs in if text_ltb (key x) (key d) then x ∷ rest else d ∷ x ∷ xs

  unfoldable pub sort_by : List A → List A
  unfolding insert_by
  sort_by [] = []
  sort_by (d ∷ ds) = insert_by d (sort_by ds)

  -- No element's key is below an earlier one's.
  abbrev pub IsSortedBy : List A → Type 0
  IsSortedBy [] = Unit
  IsSortedBy (x ∷ xs) = All (λ y. text_ltb (key y) (key x) ≡ false) xs × IsSortedBy xs

  All-insert :
      (s : String) (d : A) (xs : List A)
      → text_ltb (key d) s ≡ false
      → All (λ y. text_ltb (key y) s ≡ false) xs
      → All (λ y. text_ltb (key y) s ≡ false) (insert_by d xs)
  unfolding insert_by
  All-insert s d [] h p = (h, tt)
  All-insert s d (x ∷ xs) h p = elim (Bool-cases (text_ltb (key x) (key d))) [
    | inl e ↦ rw e (p.0, All-insert s d xs h p.1)
    | inr e ↦ rw e (h, p)
  ]

  All-above :
      (s t : String) (xs : List A)
      → text_ltb t s ≡ false
      → All (λ y. text_ltb (key y) t ≡ false) xs
      → All (λ y. text_ltb (key y) s ≡ false) xs
  All-above s t [] h p = tt
  All-above s t (x ∷ xs) h (q, p) = (text_ltb_trans s t (key x) h q, All-above s t xs h p)

  insert_by-IsSortedBy : (d : A) (xs : List A) → IsSortedBy xs → IsSortedBy (insert_by d xs)
  unfolding insert_by
  insert_by-IsSortedBy d [] p = (tt, tt)
  insert_by-IsSortedBy d (x ∷ xs) (q, p) = elim (Bool-cases (text_ltb (key x) (key d))) [
    | inl e ↦
        rw e
          (All-insert (key x) d xs (text_ltb_asym (key x) (key d) e) q, insert_by-IsSortedBy d xs p)
    | inr e ↦ rw e ((e, All-above (key d) (key x) xs e q), (q, p))
  ]

  pub sort_by-IsSortedBy : (xs : List A) → IsSortedBy (sort_by xs)
  unfolding sort_by
  sort_by-IsSortedBy [] = tt
  sort_by-IsSortedBy (x ∷ xs) = insert_by-IsSortedBy x (sort_by xs) (sort_by-IsSortedBy xs)

  insert_by-Perm : (d : A) (xs : List A) → Perm (insert_by d xs) (d ∷ xs)
  unfolding insert_by
  insert_by-Perm d [] = Perm.refl _
  insert_by-Perm d (x ∷ xs) = elim (Bool-cases (text_ltb (key x) (key d))) [
    | inl e ↦ rw e (Perm.trans (Perm.cons x (insert_by-Perm d xs)) (Perm.swap _ _ _))
    | inr e ↦ rw e (Perm.refl _)
  ]

  pub sort_by-Perm : (xs : List A) → Perm (sort_by xs) xs
  unfolding sort_by
  sort_by-Perm [] = Perm.refl _
  sort_by-Perm (x ∷ xs) = Perm.trans (insert_by-Perm x (sort_by xs)) (Perm.cons x (sort_by-Perm xs))
