-- ===== src/Incidents/Store/Refinement/Settling.antt =====
-- A decision settles a fault, or changes nothing.
use mathlib.Core.Option
use vyomm.Prelude.{
  ◌-◌, String, ◌≡◌, ◌≢◌, refl, sym, subst, ap, ◌∙◌, true, false, inl, inr, Bool-cases, Option-cases,
  Bool, Option, none, some, arith, ◌==◌, eq_iff, eq_refl, length, last?, last?-get_elem?,
}
use vyomm.GoMap
use vyomm.GoTime.{Time}
use vyomm.Incidents.{Incident, status_active}
use vyomm.Incidents.Store.{Store, history, latest_occurrence, decide, decide_with, is_open}
use vyomm.Incidents.Store.Wellformed.{IsValid}
use vyomm.Incidents.Store.Steps.{get-decide, history-decide, decided, closed}
use vyomm.Incidents.Store.Recurrence.{open_last, latest_open}
use vyomm.Incidents.Store.Refinement.{
  settled, ChangesAt, IsUnknown, SpecStep, answered, settle, ignore, refuse, view,
}

module _ {F : Type 0} where
  module _ (s : Store F) (id status actor : String) (now : Time) (valid : IsValid s)
      (closing : status ≢ status_active) where
    abbrev pub after_decision : Store F
    after_decision = decided s id status actor now

    module _ (inc : Incident F) (found : GoMap.get s.incidents id ≡ some inc) where
      latest-decided_own :
          (k : String)
          → last? (history s k) ≡ some id
          → latest_occurrence after_decision k ≡ some (closed s id status actor now inc)
      unfolding latest_occurrence
      latest-decided_own k l =
          rw
            (
              history-decide s id status actor now k,
              l,
              latest_occurrence,
              get-decide s id status actor now inc found id,
              eq_refl id,
            )
            refl

      latest-decided_other :
          (k : String)
          → last? (history s k) ≢ some id
          → latest_occurrence after_decision k ≡ latest_occurrence s k
      unfolding latest_occurrence
      latest-decided_other k l = elim (Option-cases (last? (history s k))) [
        | inl n ↦ rw (history-decide s id status actor now k, n, latest_occurrence) refl
        | inr (j, n) ↦ elim (Bool-cases (id == j)) [
          | inl e ↦ absurd (l (n ∙ ap some (sym ((eq_iff id j).0 e))))
          | inr e ↦
              rw
                (
                  history-decide s id status actor now k,
                  n,
                  latest_occurrence,
                  get-decide s id status actor now inc found j,
                  e,
                )
                refl
        ]
      ]

      is_open-closed : is_open (some (closed s id status actor now inc)) ≡ false
      unfolding is_open
      is_open-closed = ground (arith, eq_iff status status_active)

      -- Only its own fault has the incident as its latest occurrence.
      last-own_key : (k : String) → last? (history s k) ≡ some id → inc.occurrence_key ≡ k
      last-own_key k l =
          (valid.occurs k (length (history s k) - 1) id inc
            (sym (last?-get_elem? (history s k)) ∙ l) found).own_key

      view-decide_open :
          inc.status ≡ status_active
          → ChangesAt inc.occurrence_key settled (view s) (view after_decision)
      view-decide_open a k = elim (Bool-cases (inc.occurrence_key == k)) [
        | inl e ↦
            let own : inc.occurrence_key ≡ k = (eq_iff inc.occurrence_key k).0 e in
            rw e (
              subst (λ x. view after_decision x ≡ settled (view s x)) own
                (rw
                  (
                    latest-decided_own inc.occurrence_key (open_last s valid id inc found a),
                    history-decide s id status actor now inc.occurrence_key,
                    is_open-closed,
                  )
                  refl))
        | inr e ↦
            let apart : last? (history s k) ≢ some id =
              λ l. let q = (eq_iff inc.occurrence_key k).1 (last-own_key k l) in cc in
            rw (latest-decided_other k apart, history-decide s id status actor now k, e) refl
      ]

      was_closed :
          inc.status ≢ status_active
          → (k : String) → last? (history s k) ≡ some id
          → is_open (latest_occurrence s k) ≡ false
      unfolding latest_occurrence is_open
      was_closed a k l =
          rw (l, latest_occurrence, found) (ground (arith, eq_iff inc.status status_active))

      view-decide_closed :
          inc.status ≢ status_active → (k : String) → view after_decision k ≡ view s k
      view-decide_closed a k = elim (Option-cases (last? (history s k))) [
        | inl n ↦ rw (latest-decided_other k (λ l. cc), history-decide s id status actor now k) refl
        | inr (j, n) ↦ elim (Bool-cases (j == id)) [
          | inl e ↦
              let l : last? (history s k) ≡ some id = n ∙ ap some ((eq_iff j id).0 e) in
              rw
                (
                  latest-decided_own k l,
                  history-decide s id status actor now k,
                  is_open-closed,
                  was_closed a k l,
                )
                refl
          | inr e ↦
              let apart : last? (history s k) ≢ some id = λ l. ground (arith, eq_iff j id) in
              rw (latest-decided_other k apart, history-decide s id status actor now k) refl
        ]
      ]

    opened :
        (inc : Incident F)
        → GoMap.get s.incidents id ≡ some inc
        → inc.status ≡ status_active
        → is_open (latest_occurrence s inc.occurrence_key) ≡ true
    unfolding is_open
    opened inc g a = rw (latest_open s valid id inc g a) ((eq_iff inc.status status_active).1 a)

    -- The store and the answer of `Decide`, as the specification sees them.
    abbrev Answers : Store F × Option (Incident F × Bool) → Type 0
    Answers (t, found) = SpecStep (view s) (view t) (answered id (Option.map (λ x. x.1) found))

    none-IsUnknown : GoMap.get s.incidents id ≡ none → IsUnknown (view s) id
    none-IsUnknown g k i at = valid.present k i id at g

    decide-found :
        (inc : Incident F)
        → GoMap.get s.incidents id ≡ some inc
        → decide s id status actor now
          ≡ (after_decision, some (closed s id status actor now inc, inc.status == status_active))
    unfolding decide
    decide-found inc g = rw (g, after_decision, decided, decide_with) refl

    decide-none : GoMap.get s.incidents id ≡ none → decide s id status actor now ≡ (s, none)
    unfolding decide
    decide-none g = rw (g, decide_with) refl

    -- A decision is answered as the specification allows.
    pub decide-SpecStep : Answers (decide s id status actor now)
    decide-SpecStep = elim (Option-cases (GoMap.get s.incidents id)) [
      | inl g ↦ subst Answers (sym (decide-none g)) (refuse id (none-IsUnknown g) (λ k. refl))
      | inr (inc, g) ↦
          subst Answers (sym (decide-found inc g))
            (elim (Bool-cases (inc.status == status_active)) [
              | inl e ↦
                  let a = (eq_iff inc.status status_active).0 e in
                  rw e (
                    settle inc.occurrence_key id (opened inc g a) (open_last s valid id inc g a)
                      (view-decide_open inc g a))
              | inr e ↦
                  let a : inc.status ≢ status_active =
                    λ q. let r = (eq_iff inc.status status_active).1 q in cc in
                  rw e (
                    ignore inc.occurrence_key id (inc.occurrence_sequence - 1)
                      (valid.listed id inc g).1 (was_closed inc g a) (view-decide_closed inc g a))
            ])
    ]
