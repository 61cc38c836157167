-- ===== src/Incidents/Store/Refinement/Reporting.antt =====
-- An upsert is a report of the specification.
use vyomm.Prelude.{
  ◌-◌, String, ◌≡◌, refl, sym, subst, ap, ◌∙◌, Bool, true, false, inl, inr, Bool-cases,
  Option-cases, Option, none, some, [], ◌∷◌, ◌++◌, ◌==◌, eq_iff, eq_refl, length, last?, get_elem?,
  last?-get_elem?, last?-append_singleton,
}
use vyomm.GoMap
use vyomm.GoTime.{Time}
use vyomm.Incidents.{Incident, Candidate, status_active}
use vyomm.Incidents.Store.{
  Store, history, new_incident, latest_occurrence, create, upsert, upsert_with, is_open,
}
use vyomm.Incidents.Store.Wellformed.{IsValid}
use vyomm.Incidents.Store.Creation.{fresh_id, history-create, get-create}
use vyomm.Incidents.Store.Recurrence.{length-history_open}
use vyomm.Incidents.Store.Refinement.{
  reopened, ChangesAt, IsUnknown, SpecStep, upserted, create_next, keep_open, view,
}

module _ {F : Type 0} where
  module _ (sha1_hex : String → String) (s : Store F) (c : Candidate F) (now : Time)
      (valid : IsValid s) (fresh : GoMap.get s.incidents (fresh_id sha1_hex s c now) ≡ none) where
    abbrev made : Store F
    made = (create sha1_hex s c now).0

    -- Another fault's latest occurrence is not the created one.
    latest-create_other :
        (k : String)
        → (c.occurrence_key == k) ≡ false
        → latest_occurrence made k ≡ latest_occurrence s k
    unfolding latest_occurrence
    latest-create_other k e = elim (Option-cases (last? (history s k))) [
      | inl n ↦ rw (history-create sha1_hex s c now k, e, n, latest_occurrence) refl
      | inr (id, l) ↦
          let at : get_elem? (history s k) (length (history s k) - 1) ≡ some id =
            sym (last?-get_elem? (history s k)) ∙ l in
          let other : (fresh_id sha1_hex s c now == id) ≡ false =
            elim (Bool-cases (fresh_id sha1_hex s c now == id)) [
              | inl q ↦ absurd (
                  valid.present k (length (history s k) - 1) id at (
                    subst (λ x. GoMap.get s.incidents x ≡ none)
                      ((eq_iff (fresh_id sha1_hex s c now) id).0 q) fresh))
              | inr q ↦ q
            ] in
          rw
            (
              history-create sha1_hex s c now k,
              e,
              l,
              latest_occurrence,
              get-create sha1_hex s c now id,
              other,
            )
            refl
    ]

    latest-create_own : latest_occurrence made c.occurrence_key ≡ some (create sha1_hex s c now).1
    unfolding latest_occurrence
    latest-create_own =
        rw
          (
            history-create sha1_hex s c now c.occurrence_key,
            eq_refl c.occurrence_key,
            last?-append_singleton (history s c.occurrence_key) (fresh_id sha1_hex s c now),
            latest_occurrence,
            get-create sha1_hex s c now (fresh_id sha1_hex s c now),
            eq_refl (fresh_id sha1_hex s c now),
          )
          refl

    is_open-created : is_open (some (create sha1_hex s c now).1) ≡ true
    unfolding is_open create new_incident
    is_open-created = refl

    view-create :
        ChangesAt c.occurrence_key (reopened (fresh_id sha1_hex s c now)) (view s) (view made)
    view-create k = elim (Bool-cases (c.occurrence_key == k)) [
      | inl e ↦
          let own : c.occurrence_key ≡ k = (eq_iff c.occurrence_key k).0 e in
          rw e (
            subst (λ x. view made x ≡ reopened (fresh_id sha1_hex s c now) (view s x)) own
              (rw
                (
                  latest-create_own,
                  history-create sha1_hex s c now c.occurrence_key,
                  eq_refl c.occurrence_key,
                )
                (ap
                  (λ b. record {
                    issued = history s c.occurrence_key ++ (fresh_id sha1_hex s c now ∷ []);
                    open_now = b;
                  })
                  is_open-created)))
      | inr e ↦ rw (latest-create_other k e, history-create sha1_hex s c now k, e) refl
    ]

    -- The store and the answer of `Upsert`, as the specification sees them.
    abbrev Answers : Store F × Incident F × Bool → Type 0
    Answers (t, inc, created) =
        SpecStep (view s) (view t)
          (upserted c.occurrence_key inc.id inc.occurrence_sequence created)

    fresh-IsUnknown : IsUnknown (view s) (fresh_id sha1_hex s c now)
    fresh-IsUnknown k i at = valid.present k i (fresh_id sha1_hex s c now) at fresh

    create-Answers :
        is_open (latest_occurrence s c.occurrence_key) ≡ false
        → Answers (made, (create sha1_hex s c now).1, true)
    unfolding create new_incident
    create-Answers shut =
        create_next c.occurrence_key (fresh_id sha1_hex s c now) shut fresh-IsUnknown view-create

    kept-Answers :
        (id : String) (inc : Incident F)
        → last? (history s c.occurrence_key) ≡ some id
        → GoMap.get s.incidents id ≡ some inc
        → inc.status ≡ status_active
        → is_open (latest_occurrence s c.occurrence_key) ≡ true
        → Answers (s, inc, false)
    kept-Answers id inc l g a opened =
        let at : get_elem? (history s c.occurrence_key) (length (history s c.occurrence_key) - 1)
            ≡ some id =
          sym (last?-get_elem? (history s c.occurrence_key)) ∙ l in
        let o =
          valid.occurs c.occurrence_key (length (history s c.occurrence_key) - 1) id inc at g in
        let total : length (history s c.occurrence_key) ≡ inc.occurrence_sequence =
          subst (λ key. length (history s key) ≡ inc.occurrence_sequence) o.own_key
            (length-history_open s valid id inc g a) in
        subst (λ n. SpecStep (view s) (view s) (upserted c.occurrence_key inc.id n false)) total
          (keep_open c.occurrence_key inc.id opened (l ∙ ap some (sym o.own_id)) (λ k. refl))

    latest-cases :
        (latest : Option (Incident F))
        → latest_occurrence s c.occurrence_key ≡ latest
        → Answers (upsert_with sha1_hex s c now latest)
    unfolding latest_occurrence is_open
    latest-cases none e = create-Answers (rw e refl)
    latest-cases (some inc) e = elim (Bool-cases (inc.status == status_active)) [
      | inr shut ↦ rw shut (create-Answers (rw e shut))
      | inl opened ↦ elim (Option-cases (last? (history s c.occurrence_key))) [
        | inl n ↦ let q : none ≡ some inc = rw (n, latest_occurrence) at e in cc
        | inr (id, l) ↦ rw opened (
            kept-Answers id inc l (rw (l, latest_occurrence) at e)
              ((eq_iff inc.status status_active).0 opened) (rw e opened))
      ]
    ]

    -- An upsert is answered as the specification allows.
    pub upsert-SpecStep : Answers (upsert sha1_hex s c now)
    unfolding upsert
    upsert-SpecStep = latest-cases (latest_occurrence s c.occurrence_key) refl
