-- ===== src/Api.antt =====
-- internal/api/handlers.go: the handlers that change state, and the default device of a forecast.
pub mod Decisions
pub mod Riskiest
pub mod Ingesting
pub mod Reading
pub mod Health
pub mod Gauge
pub mod Serving
pub mod Errors
pub mod Routing
use vyomm.Prelude.{
  ℕ, zero, suc, ◌+◌, String, Bool, true, false, not, ◌&&◌, ◌||◌, inl, inr, Option, none, some, List,
  [], ◌∷◌, ◌==◌, ltb, eqb, if◌then◌else◌,
}
use vyomm.Float64.{Float64, ◌+F◌, ◌*F◌, ◌>F◌, int}
use vyomm.GoInt.{ℤ, pos, negsuc, neg}
use vyomm.GoMap
use vyomm.GoMap.{GoMap}
use vyomm.GoTime.{Time}
use vyomm.Telemetry.{DeviceTelemetry, ValidationError}
use vyomm.Detection.{Anomaly, detect}
use vyomm.Incidents.{Incident, Candidate, status_resolved, status_ignored}
use vyomm.Incidents.Rules.{correlate}
use vyomm.Persistence.{Store, record_anomalies, latest_devices}
use vyomm.Persistence.Ingest.{Faults, Codec, StoreError, ingest}
use vyomm.Persistence.Incidents.{upsert_incident, decide_incident}

-- The collectors that handlers change, by severity where they are; the mode label is the server's. Of
-- the requests it holds each counted label triple, method, route and status class, newest first.
pub record Metrics : Type 0 where
  pub records_received : ℕ
  pub ingestion_errors : ℕ
  pub incidents_active : GoMap ℤ
  pub incidents_resolved : GoMap ℕ
  pub incidents_recurred : ℕ
  pub http_requests : List (String × String × String)

-- The store, and the metrics if the server has any.
pub record Server (F : Type 0) : Type 0 where
  pub store : Store F
  pub metrics : Option Metrics

-- The answers of the two handlers, with their status codes.
pub data Answer (F : Type 0) : Type 0 where
  ingested : ℕ → ℕ → List (String × ValidationError F) → Answer F
  decided : Incident F → Answer F
  invalid_request invalid_status incident_not_found ingest_failed : Answer F

unfoldable pub status_code : {F : Type 0} → Answer F → ℕ
status_code (ingested _ _ _) = 200
status_code (decided _) = 200
status_code invalid_request = 400
status_code invalid_status = 400
status_code incident_not_found = 404
status_code ingest_failed = 500

abbrev pub gauge_of : GoMap ℤ → String → ℤ
gauge_of m severity = elim (GoMap.get m severity) [ none ↦ pos 0 | some n ↦ n ]

abbrev pub counter_of : GoMap ℕ → String → ℕ
counter_of m severity = elim (GoMap.get m severity) [ none ↦ 0 | some n ↦ n ]

abbrev pub inc_ℤ : ℤ → ℤ
inc_ℤ (pos n) = pos (suc n)
inc_ℤ (negsuc n) = neg n

abbrev pub dec_ℤ : ℤ → ℤ
dec_ℤ (pos zero) = negsuc 0
dec_ℤ (pos (suc n)) = pos n
dec_ℤ (negsuc n) = negsuc (suc n)

-- `TelemetryRecordsReceived` and `TelemetryIngestionErrors`; adding 0 is adding nothing.
unfoldable pub count_ingest : ℕ → ℕ → Metrics → Metrics
count_ingest accepted rejected m = record m {
  records_received = m.records_received + accepted;
  ingestion_errors = m.ingestion_errors + rejected;
}

-- What a created incident does to the metrics.
unfoldable pub count_created : String → ℕ → Metrics → Metrics
count_created severity sequence m = record m {
  incidents_active =
      GoMap.put m.incidents_active severity (inc_ℤ (gauge_of m.incidents_active severity));
  incidents_recurred = m.incidents_recurred + (if ltb 1 sequence then 1 else 0);
}

-- What a decision does to the metrics.
unfoldable pub count_decided : String → String → Bool → Metrics → Metrics
count_decided status severity was_active m = record m {
  incidents_active =
      if was_active
      then GoMap.put m.incidents_active severity (dec_ℤ (gauge_of m.incidents_active severity))
      else m.incidents_active;
  incidents_resolved =
      if status == status_resolved
      then GoMap.put m.incidents_resolved severity (counter_of m.incidents_resolved severity + 1)
      else m.incidents_resolved;
}

-- `if s.Metrics != nil { … }`
unfoldable pub observe : (Metrics → Metrics) → Option Metrics → Option Metrics
observe f none = none
observe f (some m) = some (f m)

module _ {F : Type 0} where
  -- One round of the loop of `correlateIncidents`.
  unfoldable pub open_incident :
      (String → String) → Codec F → Bool → Server F → Candidate F → Time → Server F
  unfolding observe count_created
  open_incident sha1_hex codec exec_ok s c now =
      let (store, inc, created, error) = upsert_incident sha1_hex codec exec_ok s.store c now in
      let counted = observe (count_created c.severity inc.occurrence_sequence) s.metrics in
      elim error [
        | some _ ↦ record s { store = store }
        | none ↦ record s { store = store; metrics = if created then counted else s.metrics }
      ]

  -- The loop; `exec_ok` is asked by the number of the candidate.
  unfoldable pub open_incidents :
      (String → String) → Codec F → (ℕ → Bool) → ℕ → Server F → List (Candidate F) → Time → Server F
  open_incidents sha1_hex codec exec_ok n s [] now = s
  open_incidents sha1_hex codec exec_ok n s (c ∷ cs) now =
      open_incidents sha1_hex codec exec_ok (suc n)
        (open_incident sha1_hex codec (exec_ok n) s c now) cs now

  -- `handleDecideIncident`; the request is none where the body does not decode, and else the status
  -- and the actor.
  unfoldable pub handle_decide :
      Faults → Server F → String → Option (String × String) → Time → Server F × Answer F
  unfolding observe count_decided
  handle_decide faults s id none now = (s, invalid_request)
  handle_decide faults s id (some (status, actor)) now =
      let (store, found, error) = decide_incident faults s.store id status actor now in
      if not (status == status_resolved) && not (status == status_ignored)
      then (s, invalid_status)
      else elim error [
        | some _ ↦ (record s { store = store }, incident_not_found)
        | none ↦ elim found [
          | none ↦ (record s { store = store }, incident_not_found)
          | some (updated, was_active) ↦ (
            record s {
              store = store;
              metrics = observe (count_decided status updated.severity was_active) s.metrics;
            },
            decided updated,
          )
        ]
      ]

  module _ ⦃fl : Float64 F⦄ where
    open fl use {dec}

    unfoldable pub detect_anomalies :
        (String → String) → Server F → List (DeviceTelemetry F) → Time → Server F
    detect_anomalies sha1_hex s devices now = record s {
      store = record_anomalies s.store (detect sha1_hex now devices);
    }

    unfoldable pub correlate_incidents :
        (String → String)
        → Codec F
        → (ℕ → Bool)
        → Server F
        → List (DeviceTelemetry F)
        → Time
        → Server F
    unfolding open_incidents
    correlate_incidents sha1_hex codec exec_ok s valid now =
        open_incidents sha1_hex codec exec_ok 0 s (correlate valid) now

    -- `handleIngestTelemetry`; the request is none where the body does not decode, and else the run
    -- ID and the devices.
    unfoldable pub handle_ingest :
        (String → String)
        → Codec F
        → Faults
        → (ℕ → Bool)
        → Server F
        → Option (String × List (DeviceTelemetry F))
        → Time
        → Server F × Answer F
    unfolding detect_anomalies correlate_incidents observe count_ingest
    handle_ingest sha1_hex codec faults exec_ok s none now = (s, invalid_request)
    handle_ingest sha1_hex codec faults exec_ok s (some (run_id, devices)) now =
        let (store, r, error) = ingest codec faults s.store devices run_id now in
        let stored : Server F = record s {
          store = store;
          metrics = observe (count_ingest r.accepted r.rejected) s.metrics;
        } in
        let detected = detect_anomalies sha1_hex stored r.valid_devices now in
        let correlated = correlate_incidents sha1_hex codec exec_ok detected r.valid_devices now in
        elim error [
          | some _ ↦ (record s { store = store }, ingest_failed)
          | none ↦ (correlated, ingested r.accepted r.rejected r.errors)
        ]

    unfoldable pub risk_score : DeviceTelemetry F → F
    risk_score d =
        d.cpu_percent *F dec 35 2
        +F d.latency_ms *F dec 25 2
        +F d.packet_loss_percent *F int 8
        +F d.memory_percent *F dec 2 1

    -- The loop of `riskiestDevice`: the best device so far, and the others.
    unfoldable pub riskiest_of : DeviceTelemetry F → List (DeviceTelemetry F) → DeviceTelemetry F
    unfolding risk_score
    riskiest_of best [] = best
    riskiest_of best (d ∷ ds) = riskiest_of (if risk_score d >F risk_score best then d else best) ds

    unfoldable pub riskiest_among : List (DeviceTelemetry F) → String
    unfolding riskiest_of
    riskiest_among [] = ""
    riskiest_among (d ∷ ds) = (riskiest_of d ds).hostname

    unfoldable pub riskiest_device : Server F → String
    unfolding riskiest_among
    riskiest_device s = riskiest_among (latest_devices s.store)
