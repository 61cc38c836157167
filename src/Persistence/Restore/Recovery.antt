-- ===== src/Persistence/Restore/Recovery.antt =====
-- The incidents of a new process are those that the table mirrored.
use mathlib.Core.Option
use vyomm.Prelude.{
  String, ◌≡◌, refl, sym, subst, ap, ◌∙◌, true, false, inl, inr, Bool-cases, Option-cases, Option,
  none, some, List, [], ◌∷◌, ◌++◌, arith, ◌==◌, eq_iff,
}
use vyomm.GoMap
use vyomm.GoMap.{GoMap, get-put, get-empty}
use vyomm.GoTime.{Time, Duration, rfc3339, before_by}
use vyomm.Telemetry.{DeviceTelemetry}
use vyomm.Incidents.{Incident, Decision}
use vyomm.Incidents.Store.{new_store, history, restore, restore_incidents, restore_decisions}
use vyomm.Incidents.Store.{Store as IncidentStore}
use vyomm.Persistence.{Store, append_all, append_history}
use vyomm.Persistence.Tables.{IncidentRow, select_from}
use vyomm.Persistence.Ingest.{Codec, scan_failed}
use vyomm.Persistence.Incidents.Rows.{row_at, row_for, Mirrors}
use vyomm.Persistence.Restore.{
  Sql, restore_rows, incident_of_row, incidents_of_rows, decisions_of_rows, restore_state,
  new_store_on,
}
use vyomm.Persistence.Restore.Restart.{
  to_second, incident_row_roundtrip, blank, restore_rows-Decodes,
}

module _ {F : Type 0} where
  -- No two rows have the same ID, as the primary key says.
  abbrev pub AreKeyed : List (IncidentRow F) → Type 0
  AreKeyed [] = Unit
  AreKeyed (r ∷ rs) = (row_at rs r.id ≡ none) × AreKeyed rs

  -- An ORDER BY only reorders the rows: their IDs stay different, and each ID keeps its row.
  pub record KeepsRows (order : List (IncidentRow F) → List (IncidentRow F)) : Type 0 where
    pub keyed : (rows : List (IncidentRow F)) → AreKeyed rows → AreKeyed (order rows)
    pub same :
        (rows : List (IncidentRow F)) (id : String)
        → AreKeyed rows
        → row_at (order rows) id ≡ row_at rows id

  -- The names of an incident's devices come back from their JSON.
  abbrev pub IsFaithful : Codec F → Incident F → Type 0
  IsFaithful codec inc =
      (text : String) × (codec.marshal_names inc.affected_devices ≡ some text)
      × (codec.unmarshal_names text ≡ some inc.affected_devices)

  -- An incident whose times are cut to the second.
  abbrev pub cut : Incident F → Incident F
  cut inc = record inc {
    created_at = to_second inc.created_at;
    updated_at = to_second inc.updated_at;
  }

  -- What a row of an ID stands for, or else what was there.
  abbrev decoded : Codec F → Option (Incident F) → Option (IncidentRow F) → Option (Incident F)
  decoded codec before none = before
  decoded codec before (some r) = incident_of_row codec r

  incident_of_row-id :
      (codec : Codec F) (r : IncidentRow F) (inc : Incident F)
      → incident_of_row codec r ≡ some inc
      → inc.id ≡ r.id
  unfolding incident_of_row
  incident_of_row-id codec r inc h =
      ap (λ o. elim o [ none ↦ r.id | some y ↦ y.id ]) (sym h)
      ∙ elim (Option-cases (codec.unmarshal_names r.affected_devices)) [
        | inl e ↦ rw (e, incident_of_row) refl
        | inr (names, e) ↦ rw (e, incident_of_row) refl
      ]

  abbrev entered : IncidentStore F → Incident F → IncidentStore F
  entered s inc = record s {
    incidents = GoMap.put s.incidents inc.id inc;
    by_occurrence =
        GoMap.put s.by_occurrence inc.occurrence_key
          (history s inc.occurrence_key ++ (inc.id ∷ []));
  }

  entered-decoded :
      (codec : Codec F) (r : IncidentRow F) (rows : List (IncidentRow F)) (inc : Incident F)
      (s : IncidentStore F) (id : String)
      → row_at rows r.id ≡ none
      → incident_of_row codec r ≡ some inc
      → decoded codec (GoMap.get (entered s inc).incidents id) (row_at rows id)
        ≡ decoded codec (GoMap.get s.incidents id) (row_at (r ∷ rows) id)
  entered-decoded codec r rows inc s id apart e =
      let own = incident_of_row-id codec r inc e in
      elim (Bool-cases (r.id == id)) [
        | inl same ↦
            let gone : row_at rows id ≡ none =
              subst (λ x. row_at rows x ≡ none) ((eq_iff r.id id).0 same) apart in
            let found : (inc.id == id) ≡ true = subst (λ x. (x == id) ≡ true) (sym own) same in
            rw (get-put s.incidents inc.id id inc, found, gone, same) (sym e)
        | inr other ↦
            let found : (inc.id == id) ≡ false = subst (λ x. (x == id) ≡ false) (sym own) other in
            rw (get-put s.incidents inc.id id inc, found, other) refl
      ]

  restore_incidents-get :
      (codec : Codec F) (rows : List (IncidentRow F)) (incs : List (Incident F))
      (s : IncidentStore F) (id : String)
      → AreKeyed rows
      → incidents_of_rows codec rows ≡ some incs
      → GoMap.get (restore_incidents s incs).incidents id
        ≡ decoded codec (GoMap.get s.incidents id) (row_at rows id)
  unfolding restore_incidents incidents_of_rows
  restore_incidents-get codec [] incs s id k h =
      let q : [] ≡ incs = ap (λ o. elim o [ none ↦ incs | some x ↦ x ]) h in
      subst (λ x. GoMap.get (restore_incidents s x).incidents id ≡ GoMap.get s.incidents id) q refl
  restore_incidents-get codec (r ∷ rows) incs s id (apart, k) h =
      elim (Option-cases (incident_of_row codec r)) [
        | inl e ↦
            let q : incidents_of_rows codec (r ∷ rows) ≡ none = rw (e, incidents_of_rows) refl in
            let z = sym q ∙ h in cc
        | inr (inc, e) ↦ elim (Option-cases (incidents_of_rows codec rows)) [
          | inl e' ↦
              let q : incidents_of_rows codec (r ∷ rows) ≡ none =
                rw (e, e', incidents_of_rows) refl in
              let z = sym q ∙ h in cc
          | inr (later, e') ↦
              let q : incidents_of_rows codec (r ∷ rows) ≡ some (inc ∷ later) =
                rw (e, e', incidents_of_rows) refl in
              let all : inc ∷ later ≡ incs =
                ap (λ o. elim o [ none ↦ incs | some x ↦ x ]) (sym q ∙ h) in
              subst
                (λ x.
                  GoMap.get (restore_incidents s x).incidents id
                  ≡ decoded codec (GoMap.get s.incidents id) (row_at (r ∷ rows) id))
                all
                (restore_incidents-get codec rows later (entered s inc) id k e'
                  ∙ entered-decoded codec r rows inc s id apart e)
        ]
      ]

  restore_decisions-incidents :
      (s : IncidentStore F) (entries : List (String × List Decision))
      → (restore_decisions s entries).incidents ≡ s.incidents
  unfolding restore_decisions
  restore_decisions-incidents s [] = refl
  restore_decisions-incidents s ((id, ds) ∷ rest) =
      restore_decisions-incidents (record s { decisions = GoMap.put s.decisions id ds }) rest

  append_all-kept :
      (s : Store F) (ds : List (DeviceTelemetry F))
      → ((append_all s ds).db ≡ s.db) × ((append_all s ds).incidents ≡ s.incidents)
  unfolding append_all append_history
  append_all-kept s [] = (refl, refl)
  append_all-kept s (d ∷ ds) = append_all-kept (append_history s d) ds

  restore-get :
      (codec : Codec F) (rows : List (IncidentRow F)) (incs : List (Incident F))
      (ds : GoMap (List Decision)) (id : String)
      → AreKeyed rows
      → incidents_of_rows codec rows ≡ some incs
      → GoMap.get (restore new_store incs ds).incidents id ≡ decoded codec none (row_at rows id)
  unfolding restore new_store
  restore-get codec rows incs ds id k h =
      ap (λ m. GoMap.get m id)
        (restore_decisions-incidents (restore_incidents new_store incs) ds.entries)
      ∙ restore_incidents-get codec rows incs new_store id k h
      ∙ rw (get-empty id) refl

  row_for-decoded :
      (codec : Codec F) (o : Option (Incident F))
      → ((inc : Incident F) → o ≡ some inc → IsFaithful codec inc)
      → decoded codec none (Option.map (row_for codec) o) ≡ Option.map cut o
  row_for-decoded codec none ok = refl
  row_for-decoded codec (some inc) ok =
      let (text, marshals, unmarshals) = ok inc refl in
      rw marshals (incident_row_roundtrip codec inc text unmarshals)

  -- If a process starts from a database whose incidents table mirrors the memory of another one, its
  -- memory holds for each ID the incident that the other one holds, with its times cut to the second;
  -- the JSON of each one's device names has to decode to them, and ORDER BY to keep the rows.
  pub new_store_on-recovers :
      (sql : Sql F) (codec : Codec F) (retention : Duration) (now : Time) (before after : Store F)
      → ((id : String) (inc : Incident F)
          → GoMap.get before.incidents.incidents id ≡ some inc
          → IsFaithful codec inc)
      → KeepsRows sql.by_occurrence
      → AreKeyed before.db.incidents
      → Mirrors codec before
      → new_store_on sql codec before.db retention now ≡ inl after
      → (id : String)
      → GoMap.get after.incidents.incidents id
        ≡ Option.map cut (GoMap.get before.incidents.incidents id)
  unfolding new_store_on restore_state
  new_store_on-recovers sql codec retention now before after ok order k v h id =
      let rows =
        sql.by_observed_at (select_from (rfc3339 (before_by now retention)) before.db.telemetry) in
      elim (Option-cases (restore_rows codec (blank before.db retention) rows)) [
        | inl e ↦ absurd (ground arith)
        | inr (t, e) ↦
            let (ds, _, same) = restore_rows-Decodes codec (blank before.db retention) t rows e in
            let (db, memory) = append_all-kept (blank before.db retention) ds in
            let table : t.db.incidents ≡ before.db.incidents =
              ap (λ x. x.db.incidents) same ∙ ap (λ x. x.incidents) db in
            let empty : t.incidents ≡ new_store = ap (λ x. x.incidents) same ∙ memory in
            let ds' = decisions_of_rows GoMap.empty (sql.by_decided_at t.db.decisions) in
            elim (Option-cases (incidents_of_rows codec (sql.by_occurrence t.db.incidents))) [
              | inl n ↦
                  let q : new_store_on sql codec before.db retention now ≡ inr scan_failed =
                    rw (e, n, restore_state) refl in
                  let z = sym q ∙ h in cc
              | inr (incs, n) ↦
                  let made : new_store_on sql codec before.db retention now
                      ≡ inl (record t { incidents = restore t.incidents incs ds' }) =
                    rw (e, n, restore_state) refl in
                  let held : after.incidents ≡ restore t.incidents incs ds' =
                    ap (λ x. elim x [ inl y ↦ y.incidents | inr _ ↦ after.incidents ])
                      (sym h ∙ made) in
                  let read : incidents_of_rows codec (sql.by_occurrence before.db.incidents)
                      ≡ some incs =
                    subst (λ x. incidents_of_rows codec (sql.by_occurrence x) ≡ some incs) table
                      n in
                  ap (λ m. GoMap.get m.incidents id) (held ∙ ap (λ m. restore m incs ds') empty)
                  ∙ restore-get codec (sql.by_occurrence before.db.incidents) incs ds' id
                      (order.keyed before.db.incidents k) read
                  ∙ ap (decoded codec none) (order.same before.db.incidents id k ∙ v id)
                  ∙ row_for-decoded codec (GoMap.get before.incidents.incidents id) (ok id)
            ]
      ]
