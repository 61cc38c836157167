-- ===== src/Persistence/Restore.antt =====
-- `restore` and `NewStore`: the state of a new process from the tables.
pub mod Restart
pub mod Recovery
use vyomm.Prelude.{
  ℕ, String, Bool, true, false, not, ◌⊎◌, inl, inr, Option, none, some, List, [], ◌∷◌, ◌++◌,
  if◌then◌else◌,
}
use vyomm.GoMap
use vyomm.GoMap.{GoMap}
use vyomm.GoTime.{Time, Duration, Stamp, rfc3339, parse_rfc3339, before_by}
use vyomm.Telemetry.{DeviceTelemetry}
use vyomm.Incidents.{Incident, Decision}
use vyomm.Incidents.Store.{new_store, or_nil, restore}
use vyomm.Persistence.{Store, append_history}
use vyomm.Persistence.Tables.{TelemetryRow, IncidentRow, DecisionRow, Database, select_from}
use vyomm.Persistence.Ingest.{Codec, StoreError, query_failed, scan_failed}

-- ORDER BY of the three queries; SQL leaves the order of equal rows open.
pub record Sql (F : Type 0) : Type 0 where
  pub by_observed_at : List TelemetryRow → List TelemetryRow
  pub by_occurrence : List (IncidentRow F) → List (IncidentRow F)
  pub by_decided_at : List DecisionRow → List DecisionRow

-- The loop over the decision rows.
unfoldable pub decisions_of_rows : GoMap (List Decision) → List DecisionRow → GoMap (List Decision)
decisions_of_rows m [] = m
decisions_of_rows m (r ∷ rs) =
    let d : Decision = record {
      incident_id = r.incident_id;
      status = r.status;
      actor = r.actor;
      decided_at = parse_rfc3339 r.decided_at;
    } in
    decisions_of_rows (GoMap.put m r.incident_id (or_nil (GoMap.get m r.incident_id) ++ (d ∷ [])))
      rs

module _ {F : Type 0} where
  -- The loop over the telemetry rows.
  unfoldable pub restore_rows : Codec F → Store F → List TelemetryRow → Option (Store F)
  restore_rows codec s [] = some s
  restore_rows codec s (r ∷ rs) = elim (codec.unmarshal_device r.payload) [
    | none ↦ none
    | some d ↦ restore_rows codec (append_history s d) rs
  ]

  -- One round of the loop over the incident rows.
  unfoldable pub incident_of_row : Codec F → IncidentRow F → Option (Incident F)
  incident_of_row codec r = elim (codec.unmarshal_names r.affected_devices) [
    | none ↦ none
    | some affected ↦ some (record {
      id = r.id;
      occurrence_key = r.occurrence_key;
      occurrence_sequence = r.occurrence_sequence;
      severity = r.severity;
      affected_devices = affected;
      root_cause = r.root_cause;
      status = r.status;
      created_at = parse_rfc3339 r.created_at;
      updated_at = parse_rfc3339 r.updated_at;
      confidence = r.confidence;
      predicted_sla_breach_minutes = r.predicted_sla_breach_minutes;
      recommended_action = r.recommended_action;
    })
  ]

  unfoldable pub incidents_of_rows : Codec F → List (IncidentRow F) → Option (List (Incident F))
  incidents_of_rows codec [] = some []
  incidents_of_rows codec (r ∷ rs) = elim (incident_of_row codec r) [
    | none ↦ none
    | some inc ↦ elim (incidents_of_rows codec rs) [ none ↦ none | some incs ↦ some (inc ∷ incs) ]
  ]

  -- `restore`, where the queries succeed; a row that does not decode ends it with an error.
  unfoldable pub restore_state : Sql F → Codec F → Store F → Time → Store F ⊎ StoreError
  restore_state sql codec s now =
      let cutoff = rfc3339 (before_by now s.retention) in
      elim (restore_rows codec s (sql.by_observed_at (select_from cutoff s.db.telemetry))) [
        | none ↦ inr scan_failed
        | some s' ↦ elim (incidents_of_rows codec (sql.by_occurrence s'.db.incidents)) [
          | none ↦ inr scan_failed
          | some incs ↦ inl (record s' {
            incidents =
                restore s'.incidents incs
                  (decisions_of_rows GoMap.empty (sql.by_decided_at s'.db.decisions));
          })
        ]
      ]

  -- `NewStore` on the tables that an opened database holds.
  unfoldable pub new_store_on :
      Sql F → Codec F → Database F → Duration → Time → Store F ⊎ StoreError
  new_store_on sql codec db retention now =
      restore_state sql codec
        (record {
          db = db;
          retention = retention;
          latest = GoMap.empty;
          history = GoMap.empty;
          incidents = new_store;
          anomalies = [];
        })
        now
