-- ===== src/Incidents/Store/Recurrence.antt =====
-- Deduplication of an open fault, recurrence of a closed one, and at most one open incident per fault.
use vyomm.Prelude.{
  suc, ◌+◌, ◌-◌, ◌<◌, String, ◌≡◌, ◌≢◌, refl, sym, subst, ap, ◌∙◌, true, false, inl, inr,
  Option-cases, none, some, [], ◌∷◌, ◌++◌, arith, ◌==◌, eq_iff, eq_refl, length, last?, get_elem?,
  get_elem?-lt, last?-get_elem?,
}
use vyomm.GoMap
use vyomm.GoTime.{Time}
use vyomm.Incidents.{Incident, Candidate, status_active}
use vyomm.Incidents.Store.{
  Store, new_store, history, latest_occurrence, create, new_incident, upsert, decide, is_open,
}
use vyomm.Incidents.Store.Wellformed.{IsValid, new_store-IsValid}
use vyomm.Incidents.Store.Creation.{fresh_id, history-create}
use vyomm.Incidents.Store.Steps.{
  upsert-IsValid, decide-IsValid, get-decide, history-decide, decided, closed,
}

module _ {F : Type 0} where
  -- What the mutex of the store lets happen, one operation at a time: an upsert whose created ID is
  -- not in use, and a decision that closes an incident.
  pub data Step (sha1_hex : String → String) (s t : Store F) : Type 0 where
    upsert_step :
        (c : Candidate F) (now : Time)
        → GoMap.get s.incidents (fresh_id sha1_hex s c now) ≡ none
        → t ≡ (upsert sha1_hex s c now).0
        → Step sha1_hex s t
    decide_step :
        (id status actor : String) (now : Time)
        → status ≢ status_active
        → t ≡ (decide s id status actor now).0
        → Step sha1_hex s t

  pub data Reach (sha1_hex : String → String) (s : Store F) : Store F → Type 0 where
    here : Reach sha1_hex s s
    next : {t u : Store F} → Reach sha1_hex s t → Step sha1_hex t u → Reach sha1_hex s u

  Step-IsValid :
      (sha1_hex : String → String) (s t : Store F) → Step sha1_hex s t → IsValid s → IsValid t
  Step-IsValid sha1_hex s t (upsert_step c now fresh e) v =
      subst IsValid (sym e) (upsert-IsValid sha1_hex s c now v fresh)
  Step-IsValid sha1_hex s t (decide_step id status actor now closing e) v =
      subst IsValid (sym e) (decide-IsValid s id status actor now v closing)

  -- Every store that operations reach from a well-formed one is well formed.
  pub Reach-IsValid :
      (sha1_hex : String → String) {s t : Store F} → IsValid s → Reach sha1_hex s t → IsValid t
  Reach-IsValid sha1_hex v here = v
  Reach-IsValid sha1_hex v (next {t = t} {u = u} r st) =
      Step-IsValid sha1_hex t u st (Reach-IsValid sha1_hex v r)

  module _ (s : Store F) (valid : IsValid s) where
    -- An open incident is the latest of its history.
    pub open_last :
        (id : String) (inc : Incident F)
        → GoMap.get s.incidents id ≡ some inc
        → inc.status ≡ status_active
        → last? (history s inc.occurrence_key) ≡ some id
    open_last id inc g a =
        let (pos, at) = valid.listed id inc g in
        let o = valid.occurs inc.occurrence_key (inc.occurrence_sequence - 1) id inc at g in
        let lt = get_elem?-lt (history s inc.occurrence_key) (inc.occurrence_sequence - 1) id at in
        let le : ¬ (suc (inc.occurrence_sequence - 1) < length (history s inc.occurrence_key)) =
          λ h. o.closed h a in
        last?-get_elem? (history s inc.occurrence_key)
        ∙ ap (get_elem? (history s inc.occurrence_key)) {y = inc.occurrence_sequence - 1}
            (omega arith)
        ∙ at

    one_open :
        (i j : String) (a b : Incident F)
        → GoMap.get s.incidents i ≡ some a
        → GoMap.get s.incidents j ≡ some b
        → a.status ≡ status_active
        → b.status ≡ status_active
        → a.occurrence_key ≡ b.occurrence_key
        → i ≡ j
    one_open i j a b ga gb oa ob k = cc (open_last i a ga oa, open_last j b gb ob)

    pub latest_open :
        (id : String) (inc : Incident F)
        → GoMap.get s.incidents id ≡ some inc
        → inc.status ≡ status_active
        → latest_occurrence s inc.occurrence_key ≡ some inc
    unfolding latest_occurrence
    latest_open id inc g a = rw (open_last id inc g a, latest_occurrence) g

    -- As many occurrences as the open one's number.
    pub length-history_open :
        (id : String) (inc : Incident F)
        → GoMap.get s.incidents id ≡ some inc
        → inc.status ≡ status_active
        → length (history s inc.occurrence_key) ≡ inc.occurrence_sequence
    length-history_open id inc g a =
        let (pos, at) = valid.listed id inc g in
        let o = valid.occurs inc.occurrence_key (inc.occurrence_sequence - 1) id inc at g in
        let lt = get_elem?-lt (history s inc.occurrence_key) (inc.occurrence_sequence - 1) id at in
        let le : ¬ (suc (inc.occurrence_sequence - 1) < length (history s inc.occurrence_key)) =
          λ h. o.closed h a in
        omega arith

    -- After a decision the latest occurrence is the closed one.
    latest-decide :
        (id status actor : String) (now : Time) (inc : Incident F)
        → GoMap.get s.incidents id ≡ some inc
        → inc.status ≡ status_active
        → latest_occurrence (decided s id status actor now) inc.occurrence_key
          ≡ some (closed s id status actor now inc)
    unfolding latest_occurrence
    latest-decide id status actor now inc g a =
        rw
          (
            history-decide s id status actor now inc.occurrence_key,
            open_last id inc g a,
            latest_occurrence,
            get-decide s id status actor now inc g id,
            eq_refl id,
          )
          refl

  -- An open fault is answered with its incident, and nothing changes.
  pub upsert_keeps :
      (sha1_hex : String → String) (s : Store F) (c : Candidate F) (now : Time)
      → is_open (latest_occurrence s c.occurrence_key) ≡ true
      → (last : Incident F) × (upsert sha1_hex s c now ≡ (s, last, false))
  unfolding upsert is_open
  upsert_keeps sha1_hex s c now e = elim (Option-cases (latest_occurrence s c.occurrence_key)) [
    | inl l ↦ let f : false ≡ true = subst (λ o. is_open o ≡ true) l e in cc
    | inr (last, l) ↦
        let f : (last.status == status_active) ≡ true = subst (λ o. is_open o ≡ true) l e in
        (last, rw (l, upsert, f) refl)
  ]

  pub upsert_creates :
      (sha1_hex : String → String) (s : Store F) (c : Candidate F) (now : Time)
      → is_open (latest_occurrence s c.occurrence_key) ≡ false
      → upsert sha1_hex s c now ≡ ((create sha1_hex s c now).0, (create sha1_hex s c now).1, true)
  unfolding upsert is_open
  upsert_creates sha1_hex s c now h = ground arith

  create-facts :
      (sha1_hex : String → String) (s : Store F) (c : Candidate F) (now : Time)
      → let (after, new) = create sha1_hex s c now in
        (new.status ≡ status_active)
        × (new.occurrence_sequence ≡ length (history s c.occurrence_key) + 1)
        × (history after c.occurrence_key ≡ history s c.occurrence_key ++ (new.id ∷ []))
  create-facts sha1_hex s c now = (
    unfold create new_incident in refl,
    unfold create new_incident in refl,
    rw (history-create sha1_hex s c now c.occurrence_key, eq_refl) refl,
  )

  -- In every store that is reached from the empty one by upserts whose created ID is not in use and by
  -- decisions with another status than `active`, two open incidents of the same occurrence key are the
  -- same incident.
  pub reachable_one_open :
      (sha1_hex : String → String) {s : Store F} (i j : String) (a b : Incident F)
      → Reach sha1_hex new_store s
      → GoMap.get s.incidents i ≡ some a
      → GoMap.get s.incidents j ≡ some b
      → a.status ≡ status_active
      → b.status ≡ status_active
      → a.occurrence_key ≡ b.occurrence_key
      → i ≡ j
  reachable_one_open sha1_hex {s} i j a b r =
      one_open s (Reach-IsValid sha1_hex new_store-IsValid r) i j a b

  -- In a well-formed store a candidate whose fault has an open incident changes nothing: the open
  -- incident is returned, and nothing is created.
  pub upsert_open :
      (sha1_hex : String → String) (s : Store F) (c : Candidate F) (now : Time) (id : String)
      (inc : Incident F)
      → IsValid s
      → GoMap.get s.incidents id ≡ some inc
      → inc.status ≡ status_active
      → inc.occurrence_key ≡ c.occurrence_key
      → upsert sha1_hex s c now ≡ (s, inc, false)
  unfolding upsert
  upsert_open sha1_hex s c now id inc v g a k =
      let latest : latest_occurrence s c.occurrence_key ≡ some inc =
        subst (λ key. latest_occurrence s key ≡ some inc) k (latest_open s v id inc g a) in
      ground (arith, latest, eq_iff inc.status status_active)

  -- In a well-formed store, once the open incident of a fault is given another status than `active` by
  -- a decision, the next candidate of that fault creates a new open incident: its sequence number is
  -- one more, and its ID is added to the end of the fault's history.
  pub upsert_recurs :
      (sha1_hex : String → String) (s : Store F) (c : Candidate F) (id : String) (inc : Incident F)
      (status actor : String) (now later : Time)
      → IsValid s
      → GoMap.get s.incidents id ≡ some inc
      → inc.status ≡ status_active
      → inc.occurrence_key ≡ c.occurrence_key
      → status ≢ status_active
      → let decided = (decide s id status actor now).0 in
        let (after, new, created) = upsert sha1_hex decided c later in
        (created ≡ true)
        × (new.status ≡ status_active)
        × (new.occurrence_sequence ≡ inc.occurrence_sequence + 1)
        × (history after c.occurrence_key ≡ history s c.occurrence_key ++ (new.id ∷ []))
  upsert_recurs sha1_hex s c id inc status actor now later v g a k closing =
      let s' = decided s id status actor now in
      let latest : latest_occurrence s' c.occurrence_key ≡ some (closed s id status actor now inc) =
        subst (λ key. latest_occurrence s' key ≡ some (closed s id status actor now inc)) k
          (latest-decide s v id status actor now inc g a) in
      let shut : is_open (latest_occurrence s' c.occurrence_key) ≡ false =
        ap is_open latest ∙ (unfold is_open in ground (arith, eq_iff status status_active)) in
      let (active, numbered, recorded) = create-facts sha1_hex s' c later in
      let before = history-decide s id status actor now c.occurrence_key in
      let total : length (history s c.occurrence_key) ≡ inc.occurrence_sequence =
        ap (λ key. length (history s key)) (sym k) ∙ length-history_open s v id inc g a in
      rw (upsert_creates sha1_hex s' c later shut) (
        refl,
        active,
        omega (arith, ap length before),
        recorded ∙ ap (λ l. l ++ ((create sha1_hex s' c later).1.id ∷ [])) before,
      )
