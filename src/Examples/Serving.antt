-- ===== src/Examples/Serving.antt =====
-- A configuration, and a server that answers requests.
use vyomm.Prelude.{
  ◌<◌, String, ◌≡◌, ◌≢◌, inl, refl, true, false, Option, none, some, [], ◌∷◌, Mem, arith, ◌==◌,
  if◌then◌else◌,
}
use vyomm.GoInt.{pos}
use vyomm.GoMap
use vyomm.GoStrings.{atoi}
use vyomm.GoTime.{hour, before_by}
use vyomm.Float64.Fixed.{Fixed, val, fixed_float, Fixed-IsOrdered}
use vyomm.Telemetry.{DeviceTelemetry, validate, role_valid, status_valid, out_of_percent}
use vyomm.Incidents.{Incident, status_active, status_resolved}
use vyomm.Config.{Config, Lookup, load, setting, read_hours, text_or, key_or_empty, hours_duration}
use vyomm.Config.Usable.{IsUsable, load-IsUsable}
use vyomm.Config.Retention.{retention_overflow}
use vyomm.Persistence.{anomaly_ids}
use vyomm.Persistence.Cache.{IsCached}
use vyomm.Persistence.Restore.Restart.{blank-IsCached}
use vyomm.Persistence.Ingest.{Faults, ingest, ingest_rows, validate_batch}
use vyomm.Api.{Server, status_code, handle_decide, handle_ingest, riskiest_among, risk_score}
use vyomm.Api.Decisions.{handle_decide_failed, handle_ingest_errors}
use vyomm.Api.Ingesting.{IsConsistent, handle_ingest-IsConsistent}
use vyomm.Api.Riskiest.{AreBelow, riskiest_among_lem}
use vyomm.Examples.Samples.{
  start, hot_router, quiet_firewall, batch, plain_digest, no_faults, name_codec, blank_store,
  empty_database,
}

abbrev pub environment : Lookup
environment key = if key == "VYOMM_TELEMETRY_RETENTION_HOURS" then some "48" else none

abbrev pub same_case : String → String
same_case text = text

abbrev pub one_half : String → Option Fixed
one_half text = some (val 500 0)

abbrev pub configured : Config Fixed
configured = record {
  environment_mode = "trial";
  llm_api_key = "";
  llm_base_url = "https://api.groq.com/openai/v1";
  llm_model = "llama-3.3-70b-versatile";
  sqlite_path = "./data/vyomm.db";
  telemetry_retention_hours = pos 48;
  api_addr = ":8080";
  cors_allowed_origins = "http://localhost:5173" ∷ "http://localhost:8080" ∷ [];
  otel_exporter_endpoint = "http://localhost:4318";
  otel_traces_sample_ratio = val 200 0;
  log_level = "info";
}

pub environment-configured : load same_case one_half environment ≡ inl configured
unfolding load setting read_hours text_or key_or_empty atoi
environment-configured = refl

load-IsUsable_example : IsUsable configured
load-IsUsable_example =
    load-IsUsable same_case one_half environment configured (refl, refl) environment-configured

retention_overflow_example : start < before_by start (hours_duration (pos 3_000_000))
retention_overflow_example = retention_overflow 3_000_000 start (omega arith) (omega arith)

abbrev leak : Incident Fixed
leak = record {
  id = "INC-1";
  occurrence_key = "Memory Leak:rtr-01";
  occurrence_sequence = 1;
  severity = "high";
  affected_devices = "rtr-01" ∷ [];
  root_cause = "Memory Leak";
  status = status_active;
  created_at = start;
  updated_at = start;
  confidence = val 900 0;
  predicted_sla_breach_minutes = 22;
  recommended_action = "Fail over services.";
}

abbrev leaking : Server Fixed
leaking = record {
  store = record blank_store {
    incidents = record blank_store.incidents { incidents = GoMap.put GoMap.empty "INC-1" leak };
  };
  metrics = none;
}

leak-get : GoMap.get leaking.store.incidents.incidents "INC-1" ≡ some leak
unfolding GoMap.get GoMap.put GoMap.empty
leak-get = refl

abbrev locked : Faults
locked = record no_faults { begin_ok = false }

handle_decide_failed_example :
    let (after, answer) =
      handle_decide locked leaking "INC-1" (some (status_resolved, "operator")) start in
    (status_code answer ≡ 404)
    × (GoMap.get after.store.incidents.incidents "INC-1"
        ≡ some (record leak { status = status_resolved; updated_at = start }))
    × (after.metrics ≡ leaking.metrics)
handle_decide_failed_example =
    handle_decide_failed locked leaking "INC-1" status_resolved "operator" start leak refl
      (inl refl) leak-get

abbrev idle : Server Fixed
idle = record { store = blank_store; metrics = none }

idle-IsCached : IsCached idle.store
idle-IsCached = blank-IsCached empty_database (pos hour)

ingest_refused :
    status_code
      (handle_ingest plain_digest name_codec locked
        (λ _. true)
        idle
        (some ("run-1", batch))
        start).1
    ≢ 200
unfolding handle_ingest ingest status_code ingest_rows validate_batch validate role_valid
    status_valid out_of_percent
ingest_refused h = absurd (omega arith)

handle_ingest_errors_example :
    (handle_ingest plain_digest name_codec locked (λ _. true) idle (some ("run-1", batch)) start).0
    ≡ idle
handle_ingest_errors_example =
    handle_ingest_errors plain_digest name_codec locked (λ _. true) idle (some ("run-1", batch))
      start idle-IsCached ingest_refused

idle-IsConsistent : IsConsistent idle.store
unfolding anomaly_ids
idle-IsConsistent = record {
  cached = idle-IsCached;
  buffered = record { bounded = omega arith; distinct = tt };
}

handle_ingest-IsConsistent_example :
    IsConsistent
      (handle_ingest plain_digest name_codec no_faults
        (λ _. true)
        idle
        (some ("run-1", batch))
        start).0.store
handle_ingest-IsConsistent_example =
    handle_ingest-IsConsistent plain_digest name_codec no_faults (λ _. true) idle
      (some ("run-1", batch)) start idle-IsConsistent

riskiest_among_lem_example :
    (r : DeviceTelemetry Fixed) × (riskiest_among (quiet_firewall ∷ hot_router ∷ []) ≡ r.hostname)
    × Mem r (quiet_firewall ∷ hot_router ∷ [])
    × AreBelow Fixed-IsOrdered r (quiet_firewall ∷ hot_router ∷ [])
unfolding risk_score
riskiest_among_lem_example =
    riskiest_among_lem Fixed-IsOrdered quiet_firewall (hot_router ∷ []) (refl, (refl, tt))
