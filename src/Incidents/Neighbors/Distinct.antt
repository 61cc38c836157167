-- ===== src/Incidents/Neighbors/Distinct.antt =====
-- `dedupe` and the neighbours that `resolveNeighbors` finds.
use mathlib.Core.List.{map-append}
use vyomm.Prelude.{
  ℕ, String, ◌≡◌, refl, sym, subst, ap, ◌∙◌, true, false, inl, inr, Bool-cases, Option, none, some,
  List, [], ◌∷◌, ◌++◌, map, arith, eq_iff, eq_refl, if◌then◌else◌,
}
use vyomm.NameSet.{contains, IsDistinct, contains-append, IsDistinct-snoc}
use vyomm.GoMap
use vyomm.GoMap.{GoMap, get-put, get-empty}
use vyomm.Telemetry.{DeviceTelemetry}
use vyomm.Incidents.Neighbors.{
  dedupe, dedupe_from, Search, accept, visit, visit_offsets, visit_prefixes, offsets, prefixes,
  resolve_neighbors, numeric_suffix, neighbor_name, candidate_index,
}

-- What `dedupe_from` keeps.
contains-dedupe_from :
    (seen vs : List String) (v : String)
    → contains (dedupe_from seen vs) v ≡ (if contains seen v then false else contains vs v)
unfolding dedupe_from contains
contains-dedupe_from seen [] v = ground arith
contains-dedupe_from seen (x ∷ vs) v =
    ground (arith, eq_iff x v, contains-dedupe_from seen vs v, contains-dedupe_from (x ∷ seen) vs v)

dedupe_from-IsDistinct : (seen vs : List String) → IsDistinct (dedupe_from seen vs)
unfolding dedupe_from contains
dedupe_from-IsDistinct seen [] = tt
dedupe_from-IsDistinct seen (x ∷ vs) = elim (Bool-cases (contains seen x)) [
  | inl e ↦ rw e (dedupe_from-IsDistinct seen vs)
  | inr e ↦ rw e (
    ground (arith, contains-dedupe_from (x ∷ seen) vs x, eq_refl x),
    dedupe_from-IsDistinct (x ∷ seen) vs,
  )
]

-- `dedupe` gives a list without repetitions that holds the same names.
dedupe_lem :
    (vs : List String)
    → IsDistinct (dedupe vs) × ((v : String) → contains (dedupe vs) v ≡ contains vs v)
unfolding dedupe contains
dedupe_lem vs = (dedupe_from-IsDistinct [] vs, λ v. contains-dedupe_from [] vs v)

-- On a list without repetitions it changes nothing.
pub dedupe_from-distinct :
    (seen vs : List String)
    → IsDistinct vs
    → ((v : String) → contains vs v ≡ true → contains seen v ≡ false)
    → dedupe_from seen vs ≡ vs
unfolding dedupe_from contains
dedupe_from-distinct seen [] d h = refl
dedupe_from-distinct seen (x ∷ vs) d h =
    rw (h x (ground (arith, eq_refl x)))
      (ap (◌∷◌ x) (dedupe_from-distinct (x ∷ seen) vs d.1 (λ v m. ground (arith, h v, eq_iff x v))))

module _ {F : Type 0} where
  abbrev pub hosts : List (DeviceTelemetry F) → List String
  hosts = map (λ n. n.hostname)

  -- Every device is stored under its own name.
  abbrev pub IsKeyed : GoMap (DeviceTelemetry F) → Type 0
  IsKeyed by_host =
      (k : String) (n : DeviceTelemetry F) → GoMap.get by_host k ≡ some n → n.hostname ≡ k

  module _ (d : DeviceTelemetry F) (by_host : GoMap (DeviceTelemetry F))
      (keyed : IsKeyed by_host) where
    -- The names found so far, that of the device first, are distinct and are those seen.
    record IsSearch (s : Search F) : Type 0 where
      distinct : IsDistinct (d.hostname ∷ hosts s.0)
      seen : (v : String) → contains s.1 v ≡ contains (d.hostname ∷ hosts s.0) v

    accept-IsSearch :
        (name : String) (o : Option (DeviceTelemetry F)) (s : Search F)
        → GoMap.get by_host name ≡ o
        → contains s.1 name ≡ false
        → IsSearch s
        → IsSearch (accept name o s)
    unfolding accept contains
    accept-IsSearch name none s e new v = v
    accept-IsSearch name (some n) s e new v =
        let own : n.hostname ≡ name = keyed name n e in
        let grown : hosts (s.0 ++ (n ∷ [])) ≡ hosts s.0 ++ (n.hostname ∷ []) =
          map-append (λ n. n.hostname) s.0 (n ∷ []) in
        let whole = d.hostname ∷ hosts s.0 in
        record {
          distinct =
              subst (λ l. IsDistinct (d.hostname ∷ l)) (sym grown)
                (IsDistinct-snoc whole n.hostname v.distinct
                  (subst (λ k. contains whole k ≡ false) (sym own) (sym (v.seen name) ∙ new)));
          seen = λ k.
              subst (λ l. contains (name ∷ s.1) k ≡ contains (d.hostname ∷ l) k) (sym grown)
                (ground (arith, v.seen k, contains-append (hosts s.0) (n.hostname ∷ []) k, own));
        }

    module _ (index : ℕ) where
      visit-IsSearch :
          (prefix : String) (offset : ℕ) (s : Search F)
          → IsSearch s
          → IsSearch (visit by_host index prefix offset s)
      unfolding visit
      visit-IsSearch prefix offset s v =
          let name = neighbor_name prefix (candidate_index index offset) in
          elim (Bool-cases (contains s.1 name)) [
            | inl e ↦ rw e v
            | inr e ↦ rw e (accept-IsSearch name (GoMap.get by_host name) s refl e v)
          ]

      visit_offsets-IsSearch :
          (prefix : String) (os : List ℕ) (s : Search F)
          → IsSearch s
          → IsSearch (visit_offsets by_host index prefix os s)
      unfolding visit_offsets
      visit_offsets-IsSearch prefix [] s v = v
      visit_offsets-IsSearch prefix (o ∷ os) s v =
          visit_offsets-IsSearch prefix os (visit by_host index prefix o s)
            (visit-IsSearch prefix o s v)

      visit_prefixes-IsSearch :
          (ps : List String) (s : Search F)
          → IsSearch s
          → IsSearch (visit_prefixes by_host index ps s)
      unfolding visit_prefixes
      visit_prefixes-IsSearch [] s v = v
      visit_prefixes-IsSearch (p ∷ ps) s v =
          visit_prefixes-IsSearch ps (visit_offsets by_host index p offsets s)
            (visit_offsets-IsSearch p offsets s v)

    -- The neighbours have different names, none of them the device's own.
    pub resolve_neighbors-IsDistinct : IsDistinct (d.hostname ∷ hosts (resolve_neighbors d by_host))
    unfolding resolve_neighbors
    resolve_neighbors-IsDistinct =
        let start : Search F = ([], d.hostname ∷ []) in
        (visit_prefixes-IsSearch (numeric_suffix d.hostname) prefixes start
          (record { distinct = (unfold contains in refl, tt); seen = λ v. refl })).distinct
