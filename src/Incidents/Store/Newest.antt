-- ===== src/Incidents/Store/Newest.antt =====
-- What `Active` returns, in whatever order the runtime visits the map.
use mathlib.Core.List.{mem-cons_self, mem-cons_of_mem}
use mathlib.Core.List.Perm
use mathlib.Core.HLevel.{Π_prop, ¬_prop}
use native.Mathlib.Bridge.{le_prop}
use vyomm.Prelude.{
  ◌≤◌, ◌≡◌, ◌≢◌, refl, subst, inl, inr, ◌⊎◌, Bool-cases, Option, none, some, List, [], ◌∷◌, Mem,
  Perm, arith, ◌==◌, eq_iff, All, All-mem,
}
use vyomm.GoMap.{values}
use vyomm.GoTime.{after}
use vyomm.Incidents.{Incident, status_active}
use vyomm.Incidents.Store.{Store, prefer, active_from, active}

module _ {F : Type 0} where
  -- `found` is open, stands in the list, and no open incident of the list is newer.
  pub record IsNewestOpen (l : List (Incident F)) (found : Incident F) : Type 0 where
    pub stands : Mem found l
    pub is_active : found.status ≡ status_active
    pub newest :
        (x : Incident F) → Mem x l → x.status ≡ status_active → x.created_at ≤ found.created_at

  abbrev NotNewer : Incident F → Incident F → Type 0
  NotNewer found x = x.status ≡ status_active → x.created_at ≤ found.created_at

  -- What the loop of `Active` has found, given what it had found before.
  abbrev Found : Option (Incident F) → List (Incident F) → Option (Incident F) → Type 0
  Found latest l none = (latest ≡ none) × All (λ x. x.status ≢ status_active) l
  Found latest l (some r) =
      (r.status ≡ status_active)
      × ((latest ≡ some r) ⊎ Mem r l)
      × ((o : Incident F) → latest ≡ some o → o.created_at ≤ r.created_at)
      × All (NotNewer r) l

  abbrev AllOpen : Option (Incident F) → Type 0
  AllOpen latest = (o : Incident F) → latest ≡ some o → o.status ≡ status_active

  prefer-AllOpen :
      (latest : Option (Incident F)) (inc : Incident F)
      → AllOpen latest
      → AllOpen (prefer latest inc)
  unfolding prefer
  prefer-AllOpen none inc h o e = ground (arith, eq_iff inc.status status_active)
  prefer-AllOpen (some l) inc h o e = ground (arith, eq_iff inc.status status_active, h l refl)

  -- A round keeps what was found, or replaces it by the visited incident, which is then newer.
  prefer_cases :
      (latest : Option (Incident F)) (inc r : Incident F)
      → prefer latest inc ≡ some r
      → (latest ≡ some r) ⊎ (inc ≡ r)
  unfolding prefer
  prefer_cases none inc r e = inr (ground arith)
  prefer_cases (some l) inc r e = ground arith

  prefer_bounds :
      (latest : Option (Incident F)) (inc : Incident F)
      → AllOpen latest
      → (r : Incident F)
      → ((o : Incident F) → prefer latest inc ≡ some o → o.created_at ≤ r.created_at)
      → ((o : Incident F) → latest ≡ some o → o.created_at ≤ r.created_at) × NotNewer r inc
  unfolding prefer
  prefer_bounds none inc h r b =
      (λ o e. cc, λ a. b inc (ground (arith, eq_iff inc.status status_active)))
  prefer_bounds (some l) inc h r b = elim (Bool-cases (inc.status == status_active)) [
    | inl e ↦ elim (Bool-cases (after inc.created_at l.created_at)) [
      | inl f ↦ let top = b inc (ground arith) in (λ o p. ground (arith, top), λ a. top)
      | inr f ↦
          let top = b l (ground arith) in (λ o p. ground (arith, top), λ a. ground (arith, top))
    ]
    | inr e ↦
        let top = b l (ground arith) in
        (λ o p. ground (arith, top), λ a. ground (arith, eq_iff inc.status status_active))
  ]

  prefer-none :
      (latest : Option (Incident F)) (inc : Incident F)
      → prefer latest inc ≡ none
      → (latest ≡ none) × (inc.status ≢ status_active)
  unfolding prefer
  prefer-none none inc e = (refl, ground (arith, eq_iff inc.status status_active))
  prefer-none (some l) inc e = ground arith

  Found-step :
      (latest : Option (Incident F)) (inc : Incident F) (l : List (Incident F))
      (r : Option (Incident F))
      → AllOpen latest
      → Found (prefer latest inc) l r
      → Found latest (inc ∷ l) r
  Found-step latest inc l none h (e, rest) =
      let (before, shut) = prefer-none latest inc e in (before, (shut, rest))
  Found-step latest inc l (some r) h (a, from, bound, rest) =
      let (older, here) = prefer_bounds latest inc h r bound in
      (
        a,
        elim from [
          | inl e ↦ elim (prefer_cases latest inc r e) [
            | inl p ↦ inl p
            | inr p ↦ inr (subst (λ x. Mem x (inc ∷ l)) p mem-cons_self)
          ]
          | inr m ↦ inr (mem-cons_of_mem inc m)
        ],
        older,
        (here, rest),
      )

  active_from-Found :
      (latest : Option (Incident F)) (l : List (Incident F))
      → AllOpen latest
      → Found latest l (active_from latest l)
  unfolding active_from
  active_from-Found none [] h = (refl, tt)
  active_from-Found (some r) [] h = (h r refl, inl refl, λ o e. ground arith, tt)
  active_from-Found latest (inc ∷ l) h =
      Found-step latest inc l (active_from (prefer latest inc) l) h
        (active_from-Found (prefer latest inc) l (prefer-AllOpen latest inc h))

  -- Whatever order the map is visited in: if `Active` returns an incident, that is a stored open
  -- incident and no stored open incident was created later; if it returns none, no stored incident
  -- is open.
  pub active_newest :
      (visit : List (Incident F) → List (Incident F)) (s : Store F)
      → ((l : List (Incident F)) → Perm (visit l) l)
      → ((r : Incident F) → active visit s ≡ some r → IsNewestOpen (values s.incidents) r)
        × (active visit s ≡ none
            → (x : Incident F) → Mem x (values s.incidents)
            → x.status ≢ status_active)
  unfolding active
  active_newest visit s shuffles =
      let l = visit (values s.incidents) in
      let perm = shuffles (values s.incidents) in
      let found = active_from-Found none l (λ o e. cc) in
      (
        λ r e. newest_of l r perm (subst (Found none l) e found),
        λ e x m.
            All-mem (λ y. y.status ≢ status_active) (λ y. ¬_prop) l x
              (subst (Found none l) e found).1 ((Perm.mem_iff perm).1 m),
      )
    where
      newest_of :
          (l : List (Incident F)) (r : Incident F)
          → Perm l (values s.incidents)
          → Found none l (some r)
          → IsNewestOpen (values s.incidents) r
      newest_of l r perm (a, from, older, rest) = record {
        stands = elim from [ inl e ↦ cc | inr m ↦ (Perm.mem_iff perm).0 m ];
        is_active = a;
        newest = λ x m.
            All-mem (NotNewer r) (λ y. Π_prop λ _. le_prop) l x rest ((Perm.mem_iff perm).1 m);
      }
