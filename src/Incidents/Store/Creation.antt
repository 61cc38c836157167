-- ===== src/Incidents/Store/Creation.antt =====
-- That a created occurrence keeps the incident store well formed.
use vyomm.Prelude.{
  ℕ, suc, ◌+◌, ◌-◌, ◌<◌, String, ◌≡◌, ◌≢◌, refl, sym, ◌∙◌, subst, ap, false, inl, inr, Bool-cases,
  none, some, List, [], ◌∷◌, ◌++◌, arith, ◌==◌, eq_iff, eq_refl, ltb, if◌then◌else◌, length,
  get_elem?, get_elem?-append_singleton, get_elem?-lt, last?-get_elem?, length-append,
}
use native.Mathlib.Decide.{ℕ_discrete}
use vyomm.GoMap
use vyomm.GoMap.{map_laws}
use vyomm.GoTime.{Time}
use vyomm.Incidents.{Incident, Candidate, status_active}
use vyomm.Incidents.Store.{
  Store, or_nil, history, decisions_of, new_incident, latest_occurrence, create, is_open,
}
use vyomm.Incidents.Store.Wellformed.{IsOccurrence, IsValid, status_after}

module _ {F : Type 0} where
  module _ (sha1_hex : String → String) (s : Store F) (c : Candidate F) (now : Time) where
    abbrev pub fresh_id : String
    fresh_id = (create sha1_hex s c now).1.id

    pub history-create :
        (key : String)
        → history (create sha1_hex s c now).0 key ≡ (
            if c.occurrence_key == key
            then history s c.occurrence_key ++ (fresh_id ∷ [])
            else history s key)
    unfolding create history or_nil
    history-create key = simp map_laws (ground arith)

    pub get-create :
        (id : String)
        → GoMap.get (create sha1_hex s c now).0.incidents id
          ≡ (if fresh_id == id then some (create sha1_hex s c now).1 else GoMap.get s.incidents id)
    unfolding create
    get-create id = simp map_laws refl

    decisions-create :
        (id : String) → decisions_of (create sha1_hex s c now).0 id ≡ decisions_of s id
    unfolding create decisions_of
    decisions-create id = refl

    module _ (valid : IsValid s) (fresh : GoMap.get s.incidents fresh_id ≡ none)
        (open_none : is_open (latest_occurrence s c.occurrence_key) ≡ false) where
      abbrev past : List String
      past = history s c.occurrence_key

      abbrev made : Store F
      made = (create sha1_hex s c now).0

      pub past-ne-fresh :
          (key : String) (i : ℕ) (id : String)
          → get_elem? (history s key) i ≡ some id
          → id ≢ fresh_id
      past-ne-fresh key i id h e = valid.present key i id h (rw e fresh)

      -- The last occurrence so far is closed.
      past_closed :
          (i : ℕ) (id : String) (inc : Incident F)
          → suc i ≡ length past
          → get_elem? past i ≡ some id
          → GoMap.get s.incidents id ≡ some inc
          → inc.status ≢ status_active
      unfolding latest_occurrence is_open
      past_closed i id inc n h g = ground (
        arith,
        eq_iff inc.status status_active,
        last?-get_elem? past,
        ap (get_elem? past) {x = length past - 1} {y = i} (omega arith),
      )

      create-present :
          (key : String) (i : ℕ) (id : String)
          → get_elem? (history made key) i ≡ some id
          → GoMap.get made.incidents id ≢ none
      create-present key i id h = ground (
        arith,
        history-create key,
        get-create id,
        get_elem?-append_singleton past fresh_id i,
        eq_iff fresh_id id,
        valid.present key i id,
        valid.present c.occurrence_key i id,
      )

      fresh_own : (create sha1_hex s c now).1.occurrence_sequence ≡ length past + 1
      unfolding create new_incident
      fresh_own = refl

      fresh_key : (create sha1_hex s c now).1.occurrence_key ≡ c.occurrence_key
      unfolding create new_incident
      fresh_key = refl

      fresh_status : (create sha1_hex s c now).1.status ≡ status_active
      unfolding create new_incident
      fresh_status = refl

      -- An occurrence from before keeps its place; the last one is closed by `open_none`.
      past-IsOccurrence :
          (i : ℕ) (id : String) (inc : Incident F)
          → get_elem? past i ≡ some id
          → GoMap.get s.incidents id ≡ some inc
          → IsOccurrence c.occurrence_key i (length past + 1) id inc
      past-IsOccurrence i id inc h g =
          let o = valid.occurs c.occurrence_key i id inc h g in
          record {
            own_id = o.own_id;
            own_key = o.own_key;
            numbered = o.numbered;
            closed = λ lt. elim (ℕ_discrete (suc i) (length past)) [
              | yes e ↦ past_closed i id inc e h g
              | no e ↦ o.closed (omega arith)
            ];
          }

      create-occurs-own :
          (i : ℕ) (id : String) (inc : Incident F)
          → get_elem? (past ++ (fresh_id ∷ [])) i ≡ some id
          → GoMap.get made.incidents id ≡ some inc
          → IsOccurrence c.occurrence_key i (length past + 1) id inc
      create-occurs-own i id inc h g = elim (Bool-cases (ltb i (length past))) [
        | inl lt ↦
            let old : get_elem? past i ≡ some id =
              ground (arith, get_elem?-append_singleton past fresh_id i) in
            past-IsOccurrence i id inc old (
              ground
                (arith, get-create id, eq_iff fresh_id id, valid.present c.occurrence_key i id old))
        | inr ge ↦
            let same : fresh_id ≡ id = ground (arith, get_elem?-append_singleton past fresh_id i) in
            let made_it : (create sha1_hex s c now).1 ≡ inc =
              ground (arith, get-create id, eq_iff fresh_id id) in
            let at_end : i ≡ length past =
              ground (arith, get_elem?-append_singleton past fresh_id i) in
            record {
              own_id = cc;
              own_key = cc (fresh_key);
              numbered = ground (arith, fresh_own);
              closed = λ lt. absurd (omega arith);
            }
      ]

      create-occurs :
          (key : String) (i : ℕ) (id : String) (inc : Incident F)
          → get_elem? (history made key) i ≡ some id
          → GoMap.get made.incidents id ≡ some inc
          → IsOccurrence key i (length (history made key)) id inc
      create-occurs key i id inc h g = elim (Bool-cases (c.occurrence_key == key)) [
        | inl e ↦
            let same : c.occurrence_key ≡ key = (eq_iff c.occurrence_key key).0 e in
            let mine : history made c.occurrence_key ≡ past ++ (fresh_id ∷ []) =
              rw (history-create c.occurrence_key, eq_refl) refl in
            let h' : get_elem? (past ++ (fresh_id ∷ [])) i ≡ some id =
              subst (λ l. get_elem? l i ≡ some id) (ap (history made) (sym same) ∙ mine) h in
            subst (λ k. IsOccurrence k i (length (history made k)) id inc) same
              (rw (mine, length-append) (create-occurs-own i id inc h' g))
        | inr e ↦
            let before : history made key ≡ history s key = rw (history-create key, e) refl in
            let h' : get_elem? (history s key) i ≡ some id = rw (← before) h in
            let old : GoMap.get s.incidents id ≡ some inc =
              ground (arith, get-create id, eq_iff fresh_id id, past-ne-fresh key i id h') in
            rw before (valid.occurs key i id inc h' old)
      ]

      create-listed :
          (id : String) (inc : Incident F)
          → GoMap.get made.incidents id ≡ some inc
          → (0 < inc.occurrence_sequence)
            × (get_elem? (history made inc.occurrence_key) (inc.occurrence_sequence - 1) ≡ some id)
      create-listed id inc g = ground (
        arith,
        get-create id,
        eq_iff fresh_id id,
        fresh_key,
        fresh_own,
        history-create inc.occurrence_key,
        eq_iff c.occurrence_key inc.occurrence_key,
        get_elem?-append_singleton past fresh_id (inc.occurrence_sequence - 1),
        get_elem?-lt past (inc.occurrence_sequence - 1) id,
        valid.listed id inc,
      )

      create-audited :
          (id : String) (inc : Incident F)
          → GoMap.get made.incidents id ≡ some inc
          → inc.status ≡ status_after (decisions_of made id)
      create-audited id inc g = ground (
        arith,
        get-create id,
        eq_iff fresh_id id,
        fresh_status,
        decisions-create id,
        valid.no_orphans id,
        valid.audited id inc,
      )

      create-no_orphans :
          (id : String) → GoMap.get made.incidents id ≡ none → decisions_of made id ≡ []
      create-no_orphans id g =
          ground (arith, get-create id, decisions-create id, valid.no_orphans id)

      pub create-IsValid : IsValid made
      create-IsValid = record {
        present = create-present;
        occurs = create-occurs;
        listed = create-listed;
        audited = create-audited;
        no_orphans = create-no_orphans;
      }
