-- ===== src/Api/Routing.antt =====
-- internal/api/server.go: the routing table, the CORS policy and the counting of requests.
pub mod Policy
pub mod Counting
pub mod Labels
pub mod Mux
pub mod Failures
use vyomm.Prelude.{
  ℕ, ◌/◌, String, Bool, true, false, not, ◌&&◌, Option, none, some, List, [], ◌∷◌, ◌++◌, ◌==◌,
  if◌then◌else◌,
}
use vyomm.Prelude.Text.{concat, decimal}
use vyomm.NameSet.{contains}
use vyomm.Float64.{Float64}
use vyomm.GoInt.{pos}
use vyomm.GoTime.{Time, Stamp, rfc3339}
use vyomm.Telemetry.{DeviceTelemetry}
use vyomm.Config.{Config}
use vyomm.Incidents.{Incident}
use vyomm.Persistence.{latest_devices}
use vyomm.Persistence.Ingest.{Faults, Codec}
use vyomm.Runbooks.{Document}
use vyomm.Api.{Server, Metrics, Answer, status_code, observe, handle_ingest, handle_decide}
use vyomm.Api.Errors.{ErrorBody, write_error, answer_error}
use vyomm.Api.Health.{HealthDto, handle_health}
use vyomm.Api.Reading.{
  ForecastDto, AnomalyDto, IncidentsList, DecisionDto, RunbookDto, itoa, handle_anomalies,
  handle_decisions, handle_forecast, handle_list_incidents, handle_runbook,
}

-- The handlers of the table.
pub data Handler : Type 0 where
  health ingest_telemetry get_telemetry get_forecast get_anomalies list_incidents decide_incident
        get_decisions get_runbook list_scenarios run_scenario scenario_run serve_metrics :
      Handler

-- The handler that `withMetrics` does not wrap.
abbrev pub is_metrics : Handler → Bool
is_metrics serve_metrics = true
is_metrics _ = false

-- A registered pattern, the route label of its metrics, and its handler.
pub record Route : Type 0 where
  pub pattern : String
  pub label : String
  pub handler : Handler

unfoldable pub api_routes : List Route
api_routes =
    record { pattern = "GET /healthz"; label = "/healthz"; handler = health }
    ∷ record {
      pattern = "POST /api/v1/telemetry";
      label = "/api/v1/telemetry";
      handler = ingest_telemetry;
    }
    ∷ record {
      pattern = "GET /api/v1/telemetry";
      label = "/api/v1/telemetry";
      handler = get_telemetry;
    }
    ∷ record {
      pattern = "GET /api/v1/forecast";
      label = "/api/v1/forecast";
      handler = get_forecast;
    }
    ∷ record {
      pattern = "GET /api/v1/anomalies";
      label = "/api/v1/anomalies";
      handler = get_anomalies;
    }
    ∷ record {
      pattern = "GET /api/v1/incidents";
      label = "/api/v1/incidents";
      handler = list_incidents;
    }
    ∷ record {
      pattern = "POST /api/v1/incidents/{id}/decision";
      label = "/api/v1/incidents/{id}/decision";
      handler = decide_incident;
    }
    ∷ record {
      pattern = "GET /api/v1/incidents/{id}/decisions";
      label = "/api/v1/incidents/{id}/decisions";
      handler = get_decisions;
    }
    ∷ record { pattern = "GET /api/v1/runbook"; label = "/api/v1/runbook"; handler = get_runbook }
    ∷ record {
      pattern = "GET /api/v1/scenarios";
      label = "/api/v1/scenarios";
      handler = list_scenarios;
    }
    ∷ record {
      pattern = "POST /api/v1/scenarios/{name}/run";
      label = "/api/v1/scenarios/{name}/run";
      handler = run_scenario;
    }
    ∷ record {
      pattern = "GET /api/v1/scenarios/runs/{run_id}";
      label = "/api/v1/scenarios/runs/{run_id}";
      handler = scenario_run;
    }
    ∷ []

-- The table of a server: the metrics have a route, with no label, where there are metrics.
unfoldable pub routes_of : Option Metrics → List Route
unfolding api_routes
routes_of none = api_routes
routes_of (some _) =
    api_routes ++ (record { pattern = "GET /metrics"; label = ""; handler = serve_metrics } ∷ [])

-- What handlers read of a request; a body is none where it does not decode, and then the decoder
-- has a message.
pub record Request (F : Type 0) : Type 0 where
  pub method : String
  pub path : String
  pub origin : String
  pub query : String → String
  pub telemetry_body : Option (String × List (DeviceTelemetry F))
  pub decision_body : Option (String × String)
  pub decode_error : String

-- The fields of `Server` that no handler changes, and what is outside the program: the digest, the
-- JSON codec, strings.ToLower, the order of map visits, the status that promhttp's handler writes,
-- and the choice of a route by http.ServeMux, with the path value that the pattern binds, or the
-- status of its own refusal.
pub record Setting (F : Type 0) : Type 0 where
  pub config : Config F
  pub runbooks : Option (List Document)
  pub version : String
  pub run_id : String
  pub otel_status : String
  pub sha1_hex : String → String
  pub codec : Codec F
  pub to_lower : String → String
  pub visit : List (Incident F) → List (Incident F)
  pub pick : List Route → String → String → Option (Route × String)
  pub refusal : String → String → ℕ
  pub scrape_status : Server F → ℕ

-- What happens outside while a request is served; `random` has the bytes of rand.Read.
pub record Moment : Type 0 where
  pub now : Time
  pub faults : Faults
  pub exec_ok : ℕ → Bool
  pub ping : Option Bool
  pub random : Option (List ℕ)

-- `telemetryGetResponse`
pub record TelemetryList (F : Type 0) : Type 0 where
  pub devices : List (DeviceTelemetry F)
  pub server_time : Stamp
  pub mode : String

pub data Body (F : Type 0) : Type 0 where
  no_body metrics_text no_scenarios refused : Body F
  failed : ErrorBody → Body F
  checked : HealthDto → Body F
  answered : Answer F → Body F
  telemetry : TelemetryList F → Body F
  forecast : ForecastDto F → Body F
  anomalies : List (AnomalyDto F) → Body F
  incidents : IncidentsList F → Body F
  decisions : List DecisionDto → Body F
  runbooks : List RunbookDto → Body F

pub record Response (F : Type 0) : Type 0 where
  pub status : ℕ
  pub headers : List (String × String)
  pub body : Body F

-- `strconv.Itoa(rec.status/100) + "xx"`
unfoldable pub status_class : ℕ → String
unfolding itoa
status_class status = concat (itoa (pos (status / 100))) "xx"

-- What `withMetrics` counts of a request.
unfoldable pub count_request : String → String → ℕ → Metrics → Metrics
unfolding status_class
count_request method label status m = record m {
  http_requests = (method, label, status_class status) ∷ m.http_requests;
}

-- The headers of `withCORS`.
unfoldable pub cors_headers : List String → String → List (String × String)
cors_headers allowed origin =
    if not (origin == "") && contains allowed origin
    then ("Access-Control-Allow-Origin", origin)
      ∷ ("Vary", "Origin")
      ∷ ("Access-Control-Allow-Methods", "GET, POST, OPTIONS")
      ∷ ("Access-Control-Allow-Headers", "Content-Type")
      ∷ []
    else []

-- The body of an answer, or of its error.
unfoldable pub body_of : {F : Type 0} → Request F → String → Moment → Answer F → Body F
unfolding answer_error
body_of r value m answer = elim (answer_error m.random r.decode_error value answer) [
  | none ↦ answered answer
  | some error ↦ failed error
]

unfoldable pub handle_get_telemetry : {F : Type 0} → Config F → Server F → Time → TelemetryList F
handle_get_telemetry config s now = record {
  devices = latest_devices s.store;
  server_time = rfc3339 now;
  mode = config.environment_mode;
}

unfoldable pub handle_run_scenario : Option (List ℕ) → ErrorBody
handle_run_scenario random =
    write_error random "not_implemented"
      "scenario execution is not implemented yet (internal/scenarios pending)"

unfoldable pub handle_scenario_run : Option (List ℕ) → ErrorBody
handle_scenario_run random =
    write_error random "not_implemented"
      "scenario run lookup is not implemented yet (internal/scenarios pending)"

module _ {F : Type 0} ⦃fl : Float64 F⦄ (env : Setting F) where
  -- A handler at a request and the path value of its pattern: the server after it, the status code
  -- that it writes, and the body.
  unfoldable pub handle : Handler → Request F → String → Moment → Server F → Server F × ℕ × Body F
  handle health r value m s =
      let (code, body) = handle_health env.config m.ping env.otel_status env.version env.run_id in
      (s, code, checked body)
  handle ingest_telemetry r value m s =
      let (s', answer) =
        handle_ingest env.sha1_hex env.codec m.faults m.exec_ok s r.telemetry_body m.now in
      (s', status_code answer, body_of r value m answer)
  handle get_telemetry r value m s = (s, 200, telemetry (handle_get_telemetry env.config s m.now))
  handle get_forecast r value m s = (
    s,
    200,
    forecast (handle_forecast s (r.query "device") env.config.environment_mode env.run_id m.now),
  )
  handle get_anomalies r value m s = (s, 200, anomalies (handle_anomalies s))
  handle list_incidents r value m s = (s, 200, incidents (handle_list_incidents env.visit s))
  handle decide_incident r value m s =
      let (s', answer) = handle_decide m.faults s value r.decision_body m.now in
      (s', status_code answer, body_of r value m answer)
  handle get_decisions r value m s = (s, 200, decisions (handle_decisions s value))
  handle get_runbook r value m s =
      (s, 200, runbooks (handle_runbook env.to_lower env.runbooks (r.query "query")))
  handle list_scenarios r value m s = (s, 200, no_scenarios)
  handle run_scenario r value m s = (s, 501, failed (handle_run_scenario m.random))
  handle scenario_run r value m s = (s, 501, failed (handle_scenario_run m.random))
  handle serve_metrics r value m s = (s, env.scrape_status s, metrics_text)

  -- `withMetrics`, where the route has it.
  unfoldable pub counted : Handler → String → String → ℕ → Server F → Server F
  unfolding observe count_request
  counted h method label status s =
      if is_metrics h
      then s
      else record s { metrics = observe (count_request method label status) s.metrics }

  -- The route that the multiplexer picks, or its refusal.
  unfoldable pub dispatch :
      Option (Route × String) → Request F → Moment → Server F → Server F × ℕ × Body F
  dispatch none r m s = (s, env.refusal r.method r.path, refused)
  dispatch (some (route, value)) r m s =
      let (s', status, body) = handle route.handler r value m s in
      (counted route.handler r.method route.label status s', status, body)

  -- The whole of `NewMux`'s handler: `withCORS` around the multiplexer.
  unfoldable pub serve : Request F → Moment → Server F → Server F × Response F
  unfolding cors_headers routes_of
  serve r m s =
      let headers = cors_headers env.config.cors_allowed_origins r.origin in
      let (s', status, body) = dispatch (env.pick (routes_of s.metrics) r.method r.path) r m s in
      if r.method == "OPTIONS"
      then (s, record { status = 204; headers = headers; body = no_body })
      else (s', record { status = status; headers = headers; body = body })
