-- ===== src/Incidents/Store/Listing.antt =====
-- What `List` returns, in whatever order the runtime visits the map.
use mathlib.Core.List.{reverse, reverse-append, append-nil, perm_middle, reverse_perm}
use mathlib.Core.List.Perm
use vyomm.Prelude.{◌≤◌, inl, inr, Bool-cases, List, [], ◌∷◌, ◌++◌, Perm, arith, All, All-append}
use vyomm.GoMap.{values}
use vyomm.GoTime.{Time, after}
use vyomm.Incidents.{Incident}
use vyomm.Incidents.Store.{Store, sift, sort_from, list_all}

module _ {F : Type 0} where
  -- Every element is at least as new as all that follow it.
  abbrev pub IsNewestFirst : List (Incident F) → Type 0
  IsNewestFirst [] = Unit
  IsNewestFirst (x ∷ xs) = All (λ y. y.created_at ≤ x.created_at) xs × IsNewestFirst xs

  -- No element is newer than any that follows it.
  abbrev IsNewestLast : List (Incident F) → Type 0
  IsNewestLast [] = Unit
  IsNewestLast (x ∷ rev) = All (λ y. x.created_at ≤ y.created_at) rev × IsNewestLast rev

  All-sift :
      (t : Time) (inc : Incident F) (rev : List (Incident F))
      → t ≤ inc.created_at
      → All (λ y. t ≤ y.created_at) rev
      → All (λ y. t ≤ y.created_at) (sift inc rev)
  unfolding sift
  All-sift t inc [] h p = (h, tt)
  All-sift t inc (x ∷ rev) h p = ground (arith, All-sift t inc rev h p.1)

  All-weaken :
      (t u : Time) (rev : List (Incident F))
      → t ≤ u
      → All (λ y. u ≤ y.created_at) rev
      → All (λ y. t ≤ y.created_at) rev
  All-weaken t u [] h p = tt
  All-weaken t u (x ∷ rev) h p = (omega arith, All-weaken t u rev h p.1)

  -- The accumulator holds the oldest last, so the newest of what is sorted stands deepest.
  sift-IsNewestLast :
      (inc : Incident F) (rev : List (Incident F)) → IsNewestLast rev → IsNewestLast (sift inc rev)
  unfolding sift
  sift-IsNewestLast inc [] p = (tt, tt)
  sift-IsNewestLast inc (x ∷ rev) p = elim (Bool-cases (after inc.created_at x.created_at)) [
    | inl e ↦ rw e (All-sift x.created_at inc rev (ground arith) p.0, sift-IsNewestLast inc rev p.1)
    | inr e ↦
        rw e ((ground arith, All-weaken inc.created_at x.created_at rev (ground arith) p.0), p)
  ]

  sort_from-IsNewestLast :
      (rev l : List (Incident F)) → IsNewestLast rev → IsNewestLast (sort_from rev l)
  unfolding sort_from
  sort_from-IsNewestLast rev [] p = p
  sort_from-IsNewestLast rev (x ∷ l) p =
      sort_from-IsNewestLast (sift x rev) l (sift-IsNewestLast x rev p)

  IsNewestFirst-snoc :
      (l : List (Incident F)) (x : Incident F)
      → All (λ y. x.created_at ≤ y.created_at) l
      → IsNewestFirst l
      → IsNewestFirst (l ++ (x ∷ []))
  IsNewestFirst-snoc [] x h p = (tt, tt)
  IsNewestFirst-snoc (y ∷ l) x h p = (
    All-append (λ z. z.created_at ≤ y.created_at) l (x ∷ []) p.0 (h.0, tt),
    IsNewestFirst-snoc l x h.1 p.1,
  )

  All-reverse :
      (t : Time) (l : List (Incident F))
      → All (λ y. t ≤ y.created_at) l
      → All (λ y. t ≤ y.created_at) (reverse l)
  All-reverse t [] h = tt
  All-reverse t (x ∷ l) h =
      rw (reverse-append (x ∷ []) l)
        (All-append (λ y. t ≤ y.created_at) (reverse l) (x ∷ []) (All-reverse t l h.1) (h.0, tt))

  reverse-IsNewestFirst : (l : List (Incident F)) → IsNewestLast l → IsNewestFirst (reverse l)
  reverse-IsNewestFirst [] p = tt
  reverse-IsNewestFirst (x ∷ l) p = rw (reverse-append (x ∷ []) l) (
      IsNewestFirst-snoc (reverse l) x (All-reverse x.created_at l p.0)
        (reverse-IsNewestFirst l p.1))

  sift-perm : (inc : Incident F) (rev : List (Incident F)) → Perm (sift inc rev) (inc ∷ rev)
  unfolding sift
  sift-perm inc [] = Perm.refl _
  sift-perm inc (x ∷ rev) = elim (Bool-cases (after inc.created_at x.created_at)) [
    | inl e ↦ rw e (Perm.trans (Perm.cons x (sift-perm inc rev)) (Perm.swap _ _ _))
    | inr e ↦ rw e (Perm.refl _)
  ]

  sort_from-perm : (rev l : List (Incident F)) → Perm (sort_from rev l) (rev ++ l)
  unfolding sort_from
  sort_from-perm rev [] = rw append-nil (Perm.refl rev)
  sort_from-perm rev (x ∷ l) =
      Perm.trans (sort_from-perm (sift x rev) l)
        (Perm.trans (Perm.append_right l (sift-perm x rev)) (Perm.symm (perm_middle rev l)))

  -- Whatever order the map is visited in, `List` returns all the stored incidents, each as often as
  -- it is stored, with the most recently created first.
  pub list_all-sorted :
      (visit : List (Incident F) → List (Incident F)) (s : Store F)
      → ((l : List (Incident F)) → Perm (visit l) l)
      → IsNewestFirst (list_all visit s) × Perm (list_all visit s) (values s.incidents)
  unfolding list_all
  list_all-sorted visit s shuffles =
      let l = visit (values s.incidents) in
      (
        reverse-IsNewestFirst (sort_from [] l) (sort_from-IsNewestLast [] l tt),
        Perm.trans (reverse_perm (sort_from [] l))
            (Perm.trans (sort_from-perm [] l) (shuffles (values s.incidents))),
      )
