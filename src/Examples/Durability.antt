-- ===== src/Examples/Durability.antt =====
-- The durable store on the samples: ingest, prune, upsert, decide and restart.
use vyomm.Prelude.{
  ℕ, ◌≤◌, ◌+◌, String, ◌≡◌, inl, refl, true, false, none, some, List, [], ◌∷◌, ◌++◌, arith, length,
  All,
}
use vyomm.GoMap
use vyomm.GoInt.{pos}
use vyomm.GoTime.{Stamp, hour, rfc3339, before_by}
use vyomm.Float64.Fixed.{Fixed, val, fixed_float}
use vyomm.Telemetry.{DeviceTelemetry}
use vyomm.Detection.{detect, check_all, check_device, checks}
use vyomm.Detection.Window.{in_window}
use vyomm.Incidents.{Incident, status_active}
use vyomm.Incidents.Store.{upsert, decide, restore, new_store}
use vyomm.Persistence.{
  Store, append_history, history_of, keep_last, max_history_per_device, record_anomalies,
  anomaly_ids, max_anomalies,
}
use vyomm.Persistence.Tables.{Database, TelemetryRow, select_from}
use vyomm.Persistence.Cache.{IsCached, of_host}
use vyomm.Persistence.Cache.Anomalies.{IsBuffer, record_same_window}
use vyomm.Persistence.Ingest.{ingest, prune, StoreError, not_found}
use vyomm.Persistence.Ingest.Accounting.{Divides, AreRowsOf, ingest_accounts, ingest_atomic}
use vyomm.Persistence.Ingest.Pruning.{prune_lem}
use vyomm.Persistence.Incidents.{upsert_incident, decide_incident}
use vyomm.Persistence.Incidents.Writes.{upsert_incident_cases, decide_incident_cases}
use vyomm.Persistence.Restore.{
  Sql, incidents_of_rows, decisions_of_rows, restore_rows, restore_state, new_store_on,
}
use vyomm.Persistence.Restore.Restart.{Decodes, restart, blank-IsCached}
use vyomm.Examples.Samples.{
  start, hot_router, batch, plain_digest, no_faults, name_codec, blank_store, empty_database,
  congested,
}

blank_store-IsCached : IsCached blank_store
blank_store-IsCached = blank-IsCached empty_database (pos hour)

ingest_accounts_example :
    let (after, r, e) = ingest name_codec no_faults blank_store batch "run-1" start in
    (r.accepted + r.rejected ≡ length batch)
    × (r.rejected ≡ length r.errors)
    × (e ≡ none → Divides batch r.valid_devices r.errors)
ingest_accounts_example = ingest_accounts name_codec no_faults blank_store batch "run-1" start

ingest_atomic_example :
    let (after, r, e) = ingest name_codec no_faults blank_store batch "run-1" start in
    ((x : StoreError) → e ≡ some x → after ≡ blank_store)
    × (e ≡ none
        → ((rows : List TelemetryRow) × AreRowsOf name_codec "run-1" start r.valid_devices rows
            × (after.db.telemetry ≡ blank_store.db.telemetry ++ rows))
          × IsCached after
          × ((h : String)
              → history_of after h
                ≡ keep_last max_history_per_device
                    (history_of blank_store h ++ of_host h r.valid_devices)))
ingest_atomic_example =
    ingest_atomic name_codec no_faults blank_store batch "run-1" start blank_store-IsCached

abbrev row : Stamp → TelemetryRow
row t = record {
  hostname = "rtr-01";
  role = "router";
  payload = "rtr-01";
  observed_at = t;
  run_id = "run-1";
  created_at = t;
}

abbrev two_rows : Store Fixed
two_rows = record blank_store {
  db = record empty_database { telemetry = row 7 ∷ row (rfc3339 start) ∷ [] };
}

prune_lem_example :
    let cutoff = rfc3339 (before_by start two_rows.retention) in
    let (after, n) = prune true true two_rows start in
    All (λ r. cutoff ≤ r.observed_at) after.db.telemetry
    × ((later : Stamp)
        → cutoff ≤ later
        → select_from later after.db.telemetry ≡ select_from later two_rows.db.telemetry)
    × ((removed : ℕ)
        → n ≡ inl removed
        → removed + length after.db.telemetry ≡ length two_rows.db.telemetry)
prune_lem_example = prune_lem two_rows start

empty-IsBuffer : IsBuffer blank_store.anomalies
unfolding anomaly_ids
empty-IsBuffer = record { bounded = omega arith; distinct = tt }

has_room :
    length blank_store.anomalies + length (detect plain_digest (in_window 5000 1) batch)
    ≤ max_anomalies
unfolding detect check_all checks check_device
has_room = omega arith

record_same_window_example :
    let once = record_anomalies blank_store (detect plain_digest (in_window 5000 1) batch) in
    record_anomalies once (detect plain_digest (in_window 5000 9) batch) ≡ once
record_same_window_example =
    record_same_window plain_digest blank_store batch 5000 1 9 empty-IsBuffer has_room (omega arith)
      (omega arith)

upsert_incident_cases_example :
    let (after, inc, created, error) =
      upsert_incident plain_digest name_codec false blank_store congested start in
    (after.incidents ≡ (upsert plain_digest blank_store.incidents congested start).0)
    × (inc ≡ (upsert plain_digest blank_store.incidents congested start).1)
    × (created ≡ (upsert plain_digest blank_store.incidents congested start).2)
    × (created ≡ false → (after.db ≡ blank_store.db) × (error ≡ none))
    × ((e : StoreError) → error ≡ some e → (after.db ≡ blank_store.db) × (created ≡ true))
upsert_incident_cases_example =
    upsert_incident_cases plain_digest name_codec false blank_store congested start

decide_incident_cases_example :
    let (after, found, error) =
      decide_incident no_faults blank_store "INC-1" "resolved" "operator" start in
    (GoMap.get blank_store.incidents.incidents "INC-1" ≡ none
      → (after ≡ blank_store) × (found ≡ none) × (error ≡ some not_found))
    × ((inc : Incident Fixed)
        → GoMap.get blank_store.incidents.incidents "INC-1" ≡ some inc
        → (after.incidents ≡ (decide blank_store.incidents "INC-1" "resolved" "operator" start).0)
          × (found ≡ (decide blank_store.incidents "INC-1" "resolved" "operator" start).1)
          × ((e : StoreError) → error ≡ some e → after.db ≡ blank_store.db))
decide_incident_cases_example =
    decide_incident_cases no_faults blank_store "INC-1" "resolved" "operator" start

abbrev stored_incident : Incident Fixed
stored_incident = record {
  id = "INC-1";
  occurrence_key = "Memory Leak:rtr-01";
  occurrence_sequence = 1;
  severity = "high";
  affected_devices = "rtr-01" ∷ [];
  root_cause = "Memory Leak";
  status = status_active;
  created_at = start + 5;
  updated_at = start + 6;
  confidence = val 900 0;
  predicted_sla_breach_minutes = 22;
  recommended_action = "Fail over services.";
}

abbrev as_inserted : Sql Fixed
as_inserted = record { by_observed_at = λ l. l; by_occurrence = λ l. l; by_decided_at = λ l. l }

abbrev saved : Database Fixed
saved = record empty_database { telemetry = row 7 ∷ row (rfc3339 start) ∷ [] }

abbrev restarted : Store Fixed
restarted = record (append_history (record blank_store { db = saved }) hot_router) {
  incidents = restore new_store [] GoMap.empty;
}

saved-restarted : new_store_on as_inserted name_codec saved (pos hour) start ≡ inl restarted
unfolding new_store_on restore_state restore_rows incidents_of_rows decisions_of_rows select_from
    rfc3339 before_by append_history
saved-restarted = refl

restart_example :
    (ds : List (DeviceTelemetry Fixed)) × Decodes name_codec
      (select_from (rfc3339 (before_by start (pos hour))) saved.telemetry)
      ds
    × IsCached restarted
    × ((h : String) → history_of restarted h ≡ keep_last max_history_per_device (of_host h ds))
restart_example = restart as_inserted name_codec saved (pos hour) start restarted saved-restarted
