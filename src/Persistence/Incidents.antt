-- ===== src/Persistence/Incidents.antt =====
-- `UpsertIncident`, `DecideIncident` and the methods that pass through to the incident store.
pub mod Writes
pub mod Rows
pub mod Concurrent
use vyomm.Prelude.{
  ℕ, String, Bool, true, false, not, ◌&&◌, Option, none, some, List, [], ◌∷◌, ◌++◌, if◌then◌else◌,
}
use vyomm.GoTime.{Time, rfc3339}
use vyomm.Incidents.{Incident, Decision, Candidate}
use vyomm.Incidents.Store as Memory
use vyomm.Persistence.{Store}
use vyomm.Persistence.Tables.{IncidentRow, Database, insert_incident, update_status}
use vyomm.Persistence.Ingest.{
  Faults, Codec, StoreError, begin_failed, commit_failed, marshal_failed, insert_failed,
  update_failed, decision_failed, not_found,
}

module _ {F : Type 0} where
  -- The parameters of the INSERT.
  unfoldable pub row_of_incident : String → Incident F → IncidentRow F
  row_of_incident affected inc = record {
    id = inc.id;
    occurrence_key = inc.occurrence_key;
    occurrence_sequence = inc.occurrence_sequence;
    severity = inc.severity;
    affected_devices = affected;
    root_cause = inc.root_cause;
    status = inc.status;
    created_at = rfc3339 inc.created_at;
    updated_at = rfc3339 inc.updated_at;
    confidence = inc.confidence;
    predicted_sla_breach_minutes = inc.predicted_sla_breach_minutes;
    recommended_action = inc.recommended_action;
  }

  -- The statement after a created incident: the new rows, or the error.
  unfoldable pub write_incident :
      Codec F → Bool → List (IncidentRow F) → Incident F → List (IncidentRow F) × Option StoreError
  write_incident codec exec_ok rows inc = elim (codec.marshal_names inc.affected_devices) [
    | none ↦ (rows, some (marshal_failed inc.id))
    | some affected ↦
        if not exec_ok
        then (rows, some (insert_failed inc.id))
        else elim (insert_incident rows (row_of_incident affected inc)) [
          | none ↦ (rows, some (insert_failed inc.id))
          | some rows' ↦ (rows', none)
        ]
  ]

  -- The first half of `UpsertIncident`: the incident store, which its own mutex guards.
  abbrev pub remember_upsert :
      (String → String) → Store F → Candidate F → Time → Store F × Incident F × Bool
  remember_upsert sha1_hex s c now =
      let (incidents, inc, created) = Memory.upsert sha1_hex s.incidents c now in
      (record s { incidents = incidents }, inc, created)

  -- `UpsertIncident` of one caller, where no other call comes between its halves, which no lock holds
  -- together: the new store, the incident, `created`, and the error.
  unfoldable pub upsert_incident :
      (String → String)
      → Codec F
      → Bool
      → Store F
      → Candidate F
      → Time
      → Store F × Incident F × Bool × Option StoreError
  upsert_incident sha1_hex codec exec_ok s c now =
      let (s', inc, created) = remember_upsert sha1_hex s c now in
      let (rows, error) = write_incident codec exec_ok s'.db.incidents inc in
      if not created
      then (s', inc, false, none)
      else (record s' { db = record s'.db { incidents = rows } }, inc, true, error)

  -- The transaction of `DecideIncident`: the tables after it, and the error.
  unfoldable pub write_decision :
      Faults → Database F → Incident F → String → String → Time → Database F × Option StoreError
  write_decision faults db inc status actor now =
      if not faults.begin_ok
      then (db, some begin_failed)
      else if not (faults.exec_ok 0)
      then (db, some update_failed)
      else if not (faults.exec_ok 1)
      then (db, some decision_failed)
      else if not faults.commit_ok
      then (db, some commit_failed)
      else (
        record db {
          incidents = update_status inc.status (rfc3339 inc.updated_at) inc.id db.incidents;
          decisions =
              db.decisions
              ++ (record {
                incident_id = inc.id;
                status = status;
                actor = actor;
                decided_at = rfc3339 now;
              }
                  ∷ []);
        },
        none,
      )

  -- The first half of `DecideIncident`: the incident store, which its own mutex guards.
  abbrev pub remember_decision :
      Store F → String → String → String → Time → Store F × Option (Incident F × Bool)
  remember_decision s id status actor now =
      let (incidents, found) = Memory.decide s.incidents id status actor now in
      (record s { incidents = incidents }, found)

  -- `DecideIncident` of one caller, where no other call comes between its halves, which no lock holds
  -- together: the new store, the incident with `wasActive` (none with `not_found`), and the error.
  unfoldable pub decide_incident :
      Faults
      → Store F
      → String
      → String
      → String
      → Time
      → Store F × Option (Incident F × Bool) × Option StoreError
  decide_incident faults s id status actor now =
      let (s', found) = remember_decision s id status actor now in
      elim found [
        | none ↦ (s, none, some not_found)
        | some (inc, was_active) ↦
            let (db, error) = write_decision faults s'.db inc status actor now in
            (record s' { db = db }, some (inc, was_active), error)
      ]

  unfoldable pub active_incident :
      (List (Incident F) → List (Incident F)) → Store F → Option (Incident F)
  active_incident visit s = Memory.active visit s.incidents

  unfoldable pub list_incidents :
      (List (Incident F) → List (Incident F)) → Store F → List (Incident F)
  list_incidents visit s = Memory.list_all visit s.incidents

  unfoldable pub decisions : Store F → String → List Decision
  decisions s id = Memory.decisions_of s.incidents id
