-- ===== src/Api/Routing/Failures.antt =====
-- internal/api: which responses carry an error body.
use vyomm.Prelude.{◌≤◌, String, ◌≡◌, ◌≢◌, ◌↔◌, refl, Bool, true, false, arith, ltb}
use vyomm.Float64.{Float64}
use vyomm.Api.{Server, Answer, status_code, handle_ingest, handle_decide}
use vyomm.Api.Errors.{answer_error}
use vyomm.Api.Routing.{
  Handler, Request, Setting, Moment, Body, body_of, handle, failed, health, ingest_telemetry,
  get_telemetry, get_forecast, get_anomalies, list_incidents, decide_incident, get_decisions,
  get_runbook, list_scenarios, run_scenario, scenario_run, serve_metrics,
}

module _ {F : Type 0} where
  abbrev pub is_failed : Body F → Bool
  is_failed (failed error) = true
  is_failed _ = false

  body_of-failed :
      (r : Request F) (value : String) (m : Moment) (a : Answer F)
      → is_failed (body_of r value m a) ≡ ltb 399 (status_code a)
  unfolding body_of answer_error status_code
  body_of-failed r value m a = ground arith

  answer-failed :
      (r : Request F) (value : String) (m : Moment) (a : Answer F)
      → (is_failed (body_of r value m a) ≡ true) ↔ (400 ≤ status_code a)
  answer-failed r value m a = ground (arith, body_of-failed r value m a)

  module _ ⦃fl : Float64 F⦄ (env : Setting F) where
    -- A handler of the program other than the health check, so not the one of promhttp either, writes
    -- an error body exactly with a status of 400 or above.
    pub handle-failed :
        (h : Handler) (r : Request F) (value : String) (m : Moment) (s : Server F)
        → h ≢ health
        → h ≢ serve_metrics
        → let (_, status, body) = handle env h r value m s in
          (is_failed body ≡ true) ↔ (400 ≤ status)
    unfolding handle
    handle-failed health r value m s other own = absurd (other refl)
    handle-failed ingest_telemetry r value m s other own =
        answer-failed r value m
          (handle_ingest env.sha1_hex env.codec m.faults m.exec_ok s r.telemetry_body m.now).1
    handle-failed decide_incident r value m s other own =
        answer-failed r value m (handle_decide m.faults s value r.decision_body m.now).1
    handle-failed get_telemetry r value m s other own = ground arith
    handle-failed get_forecast r value m s other own = ground arith
    handle-failed get_anomalies r value m s other own = ground arith
    handle-failed list_incidents r value m s other own = ground arith
    handle-failed get_decisions r value m s other own = ground arith
    handle-failed get_runbook r value m s other own = ground arith
    handle-failed list_scenarios r value m s other own = ground arith
    handle-failed run_scenario r value m s other own = ground arith
    handle-failed scenario_run r value m s other own = ground arith
    handle-failed serve_metrics r value m s other own = absurd (own refl)
