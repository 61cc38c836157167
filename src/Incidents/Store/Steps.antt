-- ===== src/Incidents/Store/Steps.antt =====
-- `Upsert` and `Decide` as steps of the store, and what holds in every state that they reach.
use vyomm.Prelude.{
  ℕ, ◌-◌, ◌<◌, String, ◌≡◌, ◌≢◌, refl, sym, subst, true, false, inl, inr, Bool-cases, Option-cases,
  none, some, List, [], ◌∷◌, ◌++◌, arith, ◌==◌, eq_iff, if◌then◌else◌, length, get_elem?,
  last?-append_singleton,
}
use vyomm.GoMap
use vyomm.GoMap.{map_laws}
use vyomm.GoTime.{Time}
use vyomm.Incidents.{Incident, Decision, Candidate, status_active}
use vyomm.Incidents.Store.{
  Store, or_nil, history, decisions_of, latest_occurrence, create, upsert, decide, decide_with,
  is_open,
}
use vyomm.Incidents.Store.Wellformed.{status_after, IsOccurrence, IsValid}
use vyomm.Incidents.Store.Creation.{fresh_id, create-IsValid}

module _ {F : Type 0} where
  -- An upsert changes nothing while the latest occurrence is open, and creates one otherwise.
  pub upsert-eq :
      (sha1_hex : String → String) (s : Store F) (c : Candidate F) (now : Time)
      → (upsert sha1_hex s c now).0 ≡ (
          if is_open (latest_occurrence s c.occurrence_key) then s else (create sha1_hex s c now).0)
  unfolding upsert is_open
  upsert-eq sha1_hex s c now = ground arith

  -- A store that is well formed stays so under `Upsert`, if the ID that the digest gives a created
  -- occurrence is not in use.
  pub upsert-IsValid :
      (sha1_hex : String → String) (s : Store F) (c : Candidate F) (now : Time)
      → IsValid s
      → GoMap.get s.incidents (fresh_id sha1_hex s c now) ≡ none
      → IsValid (upsert sha1_hex s c now).0
  upsert-IsValid sha1_hex s c now v fresh =
      elim (Bool-cases (is_open (latest_occurrence s c.occurrence_key))) [
        | inl e ↦ rw (upsert-eq sha1_hex s c now, e) v
        | inr e ↦ rw (upsert-eq sha1_hex s c now, e) (create-IsValid sha1_hex s c now v fresh e)
      ]

  module _ (s : Store F) (id status actor : String) (now : Time) where
    abbrev pub decided : Store F
    decided = (decide s id status actor now).0

    abbrev entry : Decision
    entry = record { incident_id = id; status = status; actor = actor; decided_at = now }

    -- The incident that `Decide` writes back.
    abbrev pub closed : Incident F → Incident F
    closed inc = record inc { status = status; updated_at = now }

    pub history-decide : (key : String) → history decided key ≡ history s key
    unfolding decide history
    history-decide key = ground arith

    pub get-decide :
        (existing : Incident F)
        → GoMap.get s.incidents id ≡ some existing
        → (j : String)
        → GoMap.get decided.incidents j
          ≡ (if id == j then some (closed existing) else GoMap.get s.incidents j)
    unfolding decide
    get-decide existing g j = rw (g, decided, decide_with) (simp map_laws refl)

    decisions-decide :
        (existing : Incident F)
        → GoMap.get s.incidents id ≡ some existing
        → (j : String)
        → decisions_of decided j
          ≡ (if id == j then decisions_of s id ++ (entry ∷ []) else decisions_of s j)
    unfolding decide decisions_of or_nil
    decisions-decide existing g j = rw (g, decided, decide_with) (simp map_laws (ground arith))

    pub decide_missing : GoMap.get s.incidents id ≡ none → decided ≡ s
    unfolding decide
    decide_missing g = rw (g, decided, decide_with) refl

    status_after-append : (ds : List Decision) → status_after (ds ++ (entry ∷ [])) ≡ status
    status_after-append ds = rw (last?-append_singleton ds entry, status_after) refl

    module _ (existing : Incident F) (found : GoMap.get s.incidents id ≡ some existing)
        (valid : IsValid s) (closing : status ≢ status_active) where
      get-kept :
          (j : String) (inc : Incident F)
          → (id == j) ≡ false
          → GoMap.get decided.incidents j ≡ some inc
          → GoMap.get s.incidents j ≡ some inc
      get-kept j inc e g = ground (arith, get-decide existing found j)

      get-closed :
          (j : String) (inc : Incident F)
          → (id == j) ≡ true
          → GoMap.get decided.incidents j ≡ some inc
          → inc ≡ closed existing
      get-closed j inc e g = ground (arith, get-decide existing found j)

      found_at : (j : String) → (id == j) ≡ true → GoMap.get s.incidents j ≡ some existing
      found_at j e = subst (λ k. GoMap.get s.incidents k ≡ some existing) ((eq_iff id j).0 e) found

      decide-occurs :
          (key : String) (i : ℕ) (j : String) (inc : Incident F)
          → get_elem? (history s key) i ≡ some j
          → GoMap.get decided.incidents j ≡ some inc
          → IsOccurrence key i (length (history s key)) j inc
      decide-occurs key i j inc h g = elim (Bool-cases (id == j)) [
        | inl e ↦
            let o = valid.occurs key i j existing h (found_at j e) in
            subst (IsOccurrence key i (length (history s key)) j) (sym (get-closed j inc e g))
              (record {
                own_id = o.own_id;
                own_key = o.own_key;
                numbered = o.numbered;
                closed = λ _. closing;
              })
        | inr e ↦ valid.occurs key i j inc h (get-kept j inc e g)
      ]

      decide-listed :
          (j : String) (inc : Incident F)
          → GoMap.get decided.incidents j ≡ some inc
          → (0 < inc.occurrence_sequence)
            × (get_elem? (history s inc.occurrence_key) (inc.occurrence_sequence - 1) ≡ some j)
      decide-listed j inc g = elim (Bool-cases (id == j)) [
        | inl e ↦
            subst
              (λ x.
                (0 < x.occurrence_sequence)
                × (get_elem? (history s x.occurrence_key) (x.occurrence_sequence - 1) ≡ some j))
              (sym (get-closed j inc e g)) (valid.listed j existing (found_at j e))
        | inr e ↦ valid.listed j inc (get-kept j inc e g)
      ]

      decide-audited :
          (j : String) (inc : Incident F)
          → GoMap.get decided.incidents j ≡ some inc
          → inc.status ≡ status_after (decisions_of decided j)
      decide-audited j inc g = ground (
        arith,
        decisions-decide existing found j,
        get-closed j inc,
        get-kept j inc,
        status_after-append (decisions_of s id),
        valid.audited j inc,
      )

      decide-no_orphans :
          (j : String) → GoMap.get decided.incidents j ≡ none → decisions_of decided j ≡ []
      decide-no_orphans j g = ground (
        arith,
        decisions-decide existing found j,
        get-decide existing found j,
        valid.no_orphans j,
      )

      decide-present :
          (key : String) (i : ℕ) (j : String)
          → get_elem? (history s key) i ≡ some j
          → GoMap.get decided.incidents j ≢ none
      decide-present key i j h =
          ground (arith, get-decide existing found j, valid.present key i j h)

      found-IsValid : IsValid decided
      found-IsValid = record {
        present = λ key i j h.
            decide-present key i j (subst (λ l. get_elem? l i ≡ some j) (history-decide key) h);
        occurs = λ key i j inc h g.
            subst (λ l. IsOccurrence key i (length l) j inc) (sym (history-decide key))
              (decide-occurs key i j inc
                (subst (λ l. get_elem? l i ≡ some j) (history-decide key) h) g);
        listed = λ j inc g.
            subst
              (λ l.
                (0 < inc.occurrence_sequence)
                × (get_elem? l (inc.occurrence_sequence - 1) ≡ some j))
              (sym (history-decide inc.occurrence_key)) (decide-listed j inc g);
        audited = decide-audited;
        no_orphans = decide-no_orphans;
      }

    -- A store that is well formed stays so under `Decide` with any status but `active`, whether the
    -- incident is known or not.
    pub decide-IsValid : IsValid s → status ≢ status_active → IsValid decided
    decide-IsValid v closing = elim (Option-cases (GoMap.get s.incidents id)) [
      | inl e ↦ subst IsValid (sym (decide_missing e)) v
      | inr (existing, e) ↦ found-IsValid existing e v closing
    ]
