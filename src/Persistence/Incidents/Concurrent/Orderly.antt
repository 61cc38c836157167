-- ===== src/Persistence/Incidents/Concurrent/Orderly.antt =====
-- The incidents table mirrors memory after calls of several callers that write in order.
use mathlib.Core.Option
use vyomm.Prelude.{
  String, ◌≡◌, refl, sym, subst, ap, ◌∙◌, Bool, false, inl, inr, Bool-cases, Option-cases, none,
  some, List, [], ◌∷◌, ◌++◌, ◌==◌, eq_iff, All,
}
use vyomm.GoMap
use vyomm.GoTime.{Time}
use vyomm.Incidents.{Incident, Candidate}
use vyomm.Incidents.Store.{create, new_incident, decide, decide_with, is_open, latest_occurrence}
use vyomm.Incidents.Store.Creation.{fresh_id, get-create}
use vyomm.Incidents.Store.Steps.{get-decide, decided, closed}
use vyomm.Persistence.{Store}
use vyomm.Persistence.Ingest.{Faults, Codec}
use vyomm.Persistence.Incidents.{row_of_incident}
use vyomm.Persistence.Incidents.Rows.{row_at, row_for, Mirrors}
use vyomm.Incidents.Store.Recurrence.{upsert_keeps, upsert_creates}
use vyomm.Persistence.Incidents.Concurrent.{
  Pending, inserting, deciding, Shared, id_of, run_pending, begin_upsert, begin_decide, CallStep,
  upsert_begins, decide_begins, call_ends, Interleaves, alone, joined, IsOrderlyStep, IsOrderly,
}
use vyomm.Persistence.Incidents.Concurrent.Effects.{
  row_after, row_after-append, row_after_exchange, run_pending-effect,
}

module _ {F : Type 0} where
  -- Memory keeps each incident under its own ID.
  abbrev pub IsOwn : Store F → Type 0
  IsOwn s =
      (id : String) (inc : Incident F) → GoMap.get s.incidents.incidents id ≡ some inc → inc.id ≡ id

module _ {F : Type 0} (codec : Codec F) where
  -- The table will mirror memory once the unwritten calls have written.
  record Tracks (a : Shared F) : Type 0 where
    own : IsOwn a.store
    rows :
        (id : String)
        → row_after codec a.pending id (row_at a.store.db.incidents id)
          ≡ Option.map (row_for codec) (GoMap.get a.store.incidents.incidents id)

  module _ (sha1_hex : String → String) (a : Shared F) (c : Candidate F) (now : Time)
      (t : Tracks a) where
    abbrev made : Incident F
    made = (create sha1_hex a.store.incidents c now).1

    abbrev after_create : Shared F
    after_create = record {
      store = record a.store { incidents = (create sha1_hex a.store.incidents c now).0 };
      pending = a.pending ++ (inserting made ∷ []);
    }

    made-id : made.id ≡ fresh_id sha1_hex a.store.incidents c now
    unfolding create new_incident
    made-id = refl

    create-IsOwn : IsOwn after_create.store
    create-IsOwn id inc g = elim (Bool-cases (fresh_id sha1_hex a.store.incidents c now == id)) [
      | inl e ↦
          let q : some made ≡ some inc =
            sym (get-create sha1_hex a.store.incidents c now id ∙ rw e refl) ∙ g in
          ap (λ o. elim o [ none ↦ id | some x ↦ x.id ]) (sym q)
          ∙ made-id
          ∙ (eq_iff (fresh_id sha1_hex a.store.incidents c now) id).0 e
      | inr e ↦ t.own id inc (sym (get-create sha1_hex a.store.incidents c now id ∙ rw e refl) ∙ g)
    ]

    create-rows :
        (id : String)
        → row_after codec after_create.pending id (row_at a.store.db.incidents id)
          ≡ Option.map (row_for codec) (GoMap.get after_create.store.incidents.incidents id)
    create-rows id =
        rw
          (
            row_after-append codec a.pending (inserting made) id (row_at a.store.db.incidents id),
            t.rows id,
            get-create sha1_hex a.store.incidents c now id,
            made-id,
          )
          (elim (Bool-cases (fresh_id sha1_hex a.store.incidents c now == id)) [
            | inl e ↦ rw e refl
            | inr e ↦ rw e refl
          ])

  module _ (a : Shared F) (id status actor : String) (now : Time) (inc : Incident F)
      (found : GoMap.get a.store.incidents.incidents id ≡ some inc) (t : Tracks a) where
    abbrev done : Incident F
    done = closed a.store.incidents id status actor now inc

    abbrev after_decide : Shared F
    after_decide = record {
      store = record a.store { incidents = decided a.store.incidents id status actor now };
      pending = a.pending ++ (deciding done status actor now ∷ []);
    }

    decide-IsOwn : IsOwn after_decide.store
    decide-IsOwn j x g = elim (Bool-cases (id == j)) [
      | inl e ↦
          let q : some done ≡ some x =
            sym (get-decide a.store.incidents id status actor now inc found j ∙ rw e refl) ∙ g in
          ap (λ o. elim o [ none ↦ j | some y ↦ y.id ]) (sym q)
          ∙ t.own id inc found
          ∙ (eq_iff id j).0 e
      | inr e ↦
          t.own j x
            (sym (get-decide a.store.incidents id status actor now inc found j ∙ rw e refl) ∙ g)
    ]

    decide-rows :
        (j : String)
        → row_after codec after_decide.pending j (row_at a.store.db.incidents j)
          ≡ Option.map (row_for codec) (GoMap.get after_decide.store.incidents.incidents j)
    unfolding row_of_incident
    decide-rows j =
        rw
          (
            row_after-append codec a.pending (deciding done status actor now) j
                (row_at a.store.db.incidents j),
            t.rows j,
            get-decide a.store.incidents id status actor now inc found j,
            t.own id inc found,
          )
          (elim (Bool-cases (id == j)) [
            | inl e ↦
                let at_j : GoMap.get a.store.incidents.incidents j ≡ some inc =
                  subst (λ x. GoMap.get a.store.incidents.incidents x ≡ some inc)
                    ((eq_iff id j).0 e) found in
                rw (e, at_j, t.own id inc found) refl
            | inr e ↦ rw e refl
          ])

  begin_upsert-Tracks :
      (sha1_hex : String → String) (a : Shared F) (c : Candidate F) (now : Time)
      → Tracks a
      → Tracks (begin_upsert sha1_hex a c now)
  unfolding begin_upsert
  begin_upsert-Tracks sha1_hex a c now t =
      elim (Bool-cases (is_open (latest_occurrence a.store.incidents c.occurrence_key))) [
        | inl e ↦
            let (last, q) = upsert_keeps sha1_hex a.store.incidents c now e in
            let same : begin_upsert sha1_hex a c now ≡ a = rw (q, begin_upsert) refl in
            subst Tracks (sym same) t
        | inr e ↦
            let q = upsert_creates sha1_hex a.store.incidents c now e in
            let same : begin_upsert sha1_hex a c now ≡ after_create sha1_hex a c now t =
              rw (q, begin_upsert) refl in
            subst Tracks (sym same) (record {
              own = create-IsOwn sha1_hex a c now t;
              rows = create-rows sha1_hex a c now t;
            })
      ]

  begin_decide-Tracks :
      (a : Shared F) (id status actor : String) (now : Time)
      → Tracks a
      → Tracks (begin_decide a id status actor now)
  unfolding begin_decide decide
  begin_decide-Tracks a id status actor now t =
      elim (Option-cases (GoMap.get a.store.incidents.incidents id)) [
        | inl g ↦
            let same : begin_decide a id status actor now ≡ a =
              rw (g, begin_decide, decide, decide_with) refl in
            subst Tracks (sym same) t
        | inr (inc, g) ↦
            let same : begin_decide a id status actor now
                ≡ after_decide a id status actor now inc g t =
              rw (g, begin_decide, decided, decide_with) refl in
            subst Tracks (sym same) (record {
              own = decide-IsOwn a id status actor now inc g t;
              rows = decide-rows a id status actor now inc g t;
            })
      ]

  call_ends-Tracks :
      (exec_ok : Bool) (faults : Faults) (a : Shared F) (before after : List (Pending F))
      (w : Pending F)
      → a.pending ≡ before ++ (w ∷ after)
      → (run_pending codec exec_ok faults w a.store.db).1 ≡ none
      → All (λ v. (id_of v == id_of w) ≡ false) before
      → Tracks a
      → Tracks (record {
        store = record a.store { db = (run_pending codec exec_ok faults w a.store.db).0 };
        pending = before ++ after;
      })
  call_ends-Tracks exec_ok faults a before after w p ok apart t = record {
    own = t.own;
    rows = λ id.
        ap (row_after codec (before ++ after) id)
          (run_pending-effect codec exec_ok faults w a.store.db id ok)
        ∙ sym (row_after_exchange codec before after w id (row_at a.store.db.incidents id) apart)
        ∙ ap (λ ws. row_after codec ws id (row_at a.store.db.incidents id)) (sym p)
        ∙ t.rows id;
  }

  module _ (sha1_hex : String → String) where
    CallStep-Tracks :
        (a b : Shared F) (st : CallStep sha1_hex codec a b)
        → IsOrderlyStep sha1_hex codec a b st
        → Tracks a
        → Tracks b
    CallStep-Tracks a b (upsert_begins c now e) o t =
        subst Tracks (sym e) (begin_upsert-Tracks sha1_hex a c now t)
    CallStep-Tracks a b (decide_begins id status actor now e) o t =
        subst Tracks (sym e) (begin_decide-Tracks a id status actor now t)
    CallStep-Tracks a b (call_ends exec_ok faults before after w p e) (ok, apart) t =
        subst Tracks (sym e) (call_ends-Tracks exec_ok faults a before after w p ok apart t)

    Interleaves-Tracks :
        {a b : Shared F} (r : Interleaves sha1_hex codec a b)
        → IsOrderly sha1_hex codec r
        → Tracks a
        → Tracks b
    Interleaves-Tracks alone o t = t
    Interleaves-Tracks (joined {b = b} {c = c} r st) (o, os) t =
        CallStep-Tracks b c st o (Interleaves-Tracks r os t)

    -- Callers may be between memory and table in any number and order: once all have written, the
    -- incidents table holds for each ID exactly the incident that memory holds, with its latest status
    -- and times, if it did so before, memory kept each incident under its own ID, every statement
    -- succeeded, and those on the same incident ran in the order in which memory was changed.
    pub Interleaves-Mirrors :
        {a b : Shared F} (r : Interleaves sha1_hex codec a b)
        → a.pending ≡ []
        → IsOwn a.store
        → Mirrors codec a.store
        → IsOrderly sha1_hex codec r
        → b.pending ≡ []
        → Mirrors codec b.store
    Interleaves-Mirrors {a} {b} r idle own mirrors orderly done id =
        let t : Tracks b =
          Interleaves-Tracks r orderly (record { own = own; rows = λ id. rw idle (mirrors id) }) in
        sym (ap (λ ws. row_after codec ws id (row_at b.store.db.incidents id)) done) ∙ t.rows id
