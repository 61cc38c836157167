-- ===== src/Examples/Samples.antt =====
-- The samples, stores and parameters of the examples.
use vyomm.Prelude.{ℕ, zero, suc, ◌+◌, ◌*◌, String, true, Option, some, List, [], ◌∷◌}
use vyomm.Float64.Fixed.{Fixed, val}
use vyomm.GoInt.{pos}
use vyomm.GoMap
use vyomm.GoTime.{Time, second, hour, unix_epoch}
use vyomm.Telemetry.{
  DeviceTelemetry, role_router, role_firewall, status_healthy, status_critical, source_synthetic,
  mode_trial,
}
use vyomm.Incidents.{Candidate}
use vyomm.Incidents.Store.{new_store}
use vyomm.Persistence.{Store}
use vyomm.Persistence.Tables.{Database}
use vyomm.Persistence.Ingest.{Faults, Codec}

abbrev pub start : Time
start = (unix_epoch + 1000) * second

abbrev pub quiet_firewall : DeviceTelemetry Fixed
quiet_firewall = record {
  hostname = "fw-01";
  role = role_firewall;
  cpu_percent = val 30_000 0;
  memory_percent = val 40_000 0;
  bandwidth_percent = val 20_000 0;
  temperature_c = val 45_000 0;
  latency_ms = val 12_000 0;
  packet_loss_percent = val 100 0;
  uptime_seconds = pos 3600;
  status = status_healthy;
  observed_at = start;
  source = source_synthetic;
  mode = mode_trial;
}

abbrev pub hot_router : DeviceTelemetry Fixed
hot_router = record quiet_firewall {
  hostname = "rtr-01";
  role = role_router;
  cpu_percent = val 98_000 0;
  latency_ms = val 130_000 0;
  packet_loss_percent = val 6_500 0;
  status = status_critical;
}

abbrev pub nameless : DeviceTelemetry Fixed
nameless = record quiet_firewall { hostname = "" }

abbrev pub batch : List (DeviceTelemetry Fixed)
batch = hot_router ∷ quiet_firewall ∷ nameless ∷ []

abbrev pub repeat : ℕ → DeviceTelemetry Fixed → List (DeviceTelemetry Fixed)
repeat zero d = []
repeat (suc n) d = d ∷ repeat n d

-- A stand-in for the SHA-1 digest that repeats the text.
abbrev pub plain_digest : String → String
plain_digest text = text

abbrev pub empty_database : Database Fixed
empty_database = record { telemetry = []; incidents = []; decisions = [] }

abbrev pub no_faults : Faults
no_faults = record { begin_ok = true; prepare_ok = true; exec_ok = λ _. true; commit_ok = true }

-- A codec whose texts are the device names.
abbrev decode_device : String → Option (DeviceTelemetry Fixed)
decode_device text = some (record hot_router { hostname = text })

abbrev pub name_codec : Codec Fixed
name_codec = record {
  marshal_device = λ d. some d.hostname;
  unmarshal_device = decode_device;
  marshal_names = λ _. some "rtr-01";
  unmarshal_names = λ text. some (text ∷ []);
}

abbrev pub blank_store : Store Fixed
blank_store = record {
  db = empty_database;
  retention = pos hour;
  latest = GoMap.empty;
  history = GoMap.empty;
  incidents = new_store;
  anomalies = [];
}

abbrev pub congested : Candidate Fixed
congested = record {
  occurrence_key = "Congestion Incident:rtr-01";
  root_cause = "Congestion Incident";
  severity = "critical";
  affected_devices = "rtr-01" ∷ "fw-01" ∷ [];
  confidence = val 960 0;
  sla_breach_minutes = 22;
  recommended_action = "Drain traffic from the affected path and apply QoS shaping.";
}
