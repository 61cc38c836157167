-- ===== src/Api/Reading.antt =====
-- internal/api/dto.go and internal/api/handlers.go: the transfer objects and the handlers that read.
pub mod Labels
use vyomm.Prelude.{
  ℕ, zero, suc, ◌+◌, ◌/◌, ◌%◌, ◌^◌, String, Bool, true, false, not, ◌||◌, Option, none, some, List,
  [], ◌∷◌, map, ◌==◌, eqb, if◌then◌else◌,
}
use vyomm.Prelude.Text.{concat, digit_text}
use vyomm.Float64.{Float64}
use vyomm.GoInt.{ℤ, pos, negsuc}
use vyomm.GoTime.{Time, Stamp, rfc3339}
use vyomm.Telemetry.{DeviceTelemetry, Value, new_value, source_computed}
use vyomm.Detection.{Anomaly}
use vyomm.Forecast.{Point, ForecastResult, build}
use vyomm.Incidents.{Incident, Decision}
use vyomm.Persistence.{Store, history_of}
use vyomm.Persistence.Incidents.{active_incident, list_incidents, decisions}
use vyomm.Runbooks.{Document, RunbookResult, retrieve}
use vyomm.Api.{Server, riskiest_device}

-- The loop of `itoa`, which puts digits in front, in a buffer of `room` bytes.
unfoldable pub itoa_loop : ℕ → ℕ → String → String
itoa_loop zero n text = text
itoa_loop (suc room) n text =
    let more = itoa_loop room (n / 10) (concat (digit_text (n % 10)) text) in
    if eqb n 0 then text else more

-- The least number has no negation, so that the loop does not run.
unfoldable pub itoa : ℤ → String
unfolding itoa_loop
itoa (pos n) = if eqb n 0 then "0" else itoa_loop 20 n ""
itoa (negsuc n) = if eqb (n + 1) (2 ^ 63) then "-" else concat "-" (itoa_loop 20 (n + 1) "")

unfoldable pub format_label : ℤ → String
unfolding itoa
format_label minutes = concat "+" (concat (itoa minutes) "m")

pub record ForecastPointDto (F : Type 0) : Type 0 where
  pub label : String
  pub cpu_percent : F
  pub latency_ms : F
  pub packet_loss_percent : F

-- `observed_at` is an RFC 3339 text.
pub record ProvenanceDto (F : Type 0) : Type 0 where
  pub value : Option F
  pub unit : String
  pub source : String
  pub mode : String
  pub observed_at : Stamp
  pub run_id : String
  pub unavailable_reason : String

pub record ForecastDto (F : Type 0) : Type 0 where
  pub device : String
  pub method : String
  pub horizon_mins : ℕ
  pub current_trend : String
  pub confidence : ProvenanceDto F
  pub risk_level : String
  pub points : List (ForecastPointDto F)

pub record AnomalyDto (F : Type 0) : Type 0 where
  pub id : String
  pub device : String
  pub signal : String
  pub score : F
  pub severity : String
  pub detected_at : Stamp

pub record IncidentDto (F : Type 0) : Type 0 where
  pub id : String
  pub occurrence_key : String
  pub occurrence_sequence : ℕ
  pub severity : String
  pub affected_devices : List String
  pub root_cause : String
  pub status : String
  pub created_at : Stamp
  pub updated_at : Stamp
  pub confidence : F
  pub predicted_sla_breach_minutes : ℕ
  pub recommended_action : String

pub record IncidentsList (F : Type 0) : Type 0 where
  pub active : Option (IncidentDto F)
  pub items : List (IncidentDto F)

pub record DecisionDto : Type 0 where
  pub status : String
  pub actor : String
  pub decided_at : Stamp

pub record RunbookDto : Type 0 where
  pub title : String
  pub source : String
  pub content : String
  pub match_method_used : String

unfoldable pub to_decision_dto : Decision → DecisionDto
to_decision_dto d = record { status = d.status; actor = d.actor; decided_at = rfc3339 d.decided_at }

unfoldable pub to_runbook_dto : RunbookResult → RunbookDto
to_runbook_dto r = record {
  title = r.title;
  source = r.source;
  content = r.content;
  match_method_used = r.match_method_used;
}

-- `handleRunbook`; the library is none where the server has none.
unfoldable pub handle_runbook :
    (String → String) → Option (List Document) → String → List RunbookDto
handle_runbook to_lower none query = []
handle_runbook to_lower (some docs) query =
    let asked = if query == "" then "network incident" else query in
    map to_runbook_dto (retrieve to_lower docs asked (pos 2))

module _ {F : Type 0} where
  unfoldable pub to_provenance_dto : Value F → ProvenanceDto F
  to_provenance_dto v = record {
    value = v.value;
    unit = v.unit;
    source = v.source;
    mode = v.mode;
    observed_at = rfc3339 v.observed_at;
    run_id = v.run_id;
    unavailable_reason = v.unavailable_reason;
  }

  unfoldable pub to_point_dto : Point F → ForecastPointDto F
  to_point_dto p = record {
    label = format_label (pos p.label_minutes);
    cpu_percent = p.cpu_percent;
    latency_ms = p.latency_ms;
    packet_loss_percent = p.packet_loss_percent;
  }

  unfoldable pub to_forecast_dto : ForecastResult F → String → String → Time → ForecastDto F
  unfolding to_point_dto
  to_forecast_dto r mode run_id now = record {
    device = r.device;
    method = r.method;
    horizon_mins = r.horizon_mins;
    current_trend = r.current_trend;
    confidence =
        to_provenance_dto (new_value r.confidence "percent" source_computed mode now run_id);
    risk_level = r.risk_level;
    points = map to_point_dto r.points;
  }

  unfoldable pub to_anomaly_dto : Anomaly F → AnomalyDto F
  to_anomaly_dto a = record {
    id = a.id;
    device = a.device;
    signal = a.signal;
    score = a.score;
    severity = a.severity;
    detected_at = rfc3339 a.detected_at;
  }

  unfoldable pub to_incident_dto : Incident F → IncidentDto F
  to_incident_dto i = record {
    id = i.id;
    occurrence_key = i.occurrence_key;
    occurrence_sequence = i.occurrence_sequence;
    severity = i.severity;
    affected_devices = i.affected_devices;
    root_cause = i.root_cause;
    status = i.status;
    created_at = rfc3339 i.created_at;
    updated_at = rfc3339 i.updated_at;
    confidence = i.confidence;
    predicted_sla_breach_minutes = i.predicted_sla_breach_minutes;
    recommended_action = i.recommended_action;
  }

  unfoldable pub handle_anomalies : Server F → List (AnomalyDto F)
  handle_anomalies s = map to_anomaly_dto s.store.anomalies

  -- `visit` is the order in which the runtime visits the map.
  unfoldable pub handle_list_incidents :
      (List (Incident F) → List (Incident F)) → Server F → IncidentsList F
  handle_list_incidents visit s = record {
    active = elim (active_incident visit s.store) [
      | none ↦ none
      | some inc ↦ some (to_incident_dto inc)
    ];
    items = map to_incident_dto (list_incidents visit s.store);
  }

  unfoldable pub handle_decisions : Server F → String → List DecisionDto
  handle_decisions s id = map to_decision_dto (decisions s.store id)

  -- `handleForecast`, with the mode and the run ID of the server.
  unfoldable pub handle_forecast :
      ⦃fl : Float64 F⦄ → Server F → String → String → String → Time → ForecastDto F
  unfolding to_forecast_dto
  handle_forecast s device mode run_id now =
      let selected = if device == "" then riskiest_device s else device in
      let history = if selected == "" then [] else history_of s.store selected in
      to_forecast_dto (build selected history) mode run_id now
