-- ===== src/Api/Routing/Counting.antt =====
-- internal/api/server.go: what withMetrics adds to the request metrics.
use vyomm.Prelude.{
  ℕ, suc, String, ◌≡◌, refl, ◌∙◌, Bool, not, ◌&&◌, inl, inr, Bool-cases, Option-cases, Option, none,
  some, List, [], ◌∷◌, arith, ◌==◌, if◌then◌else◌,
}
use vyomm.Float64.{Float64}
use vyomm.GoTime.{Time}
use vyomm.Telemetry.{DeviceTelemetry}
use vyomm.Incidents.{Candidate, status_resolved, status_ignored}
use vyomm.Persistence.Ingest.{Faults, Codec, ingest}
use vyomm.Persistence.Incidents.{upsert_incident}
use vyomm.Persistence.Incidents.{decide_incident as decide_stored}
use vyomm.Incidents.Rules.{correlate}
use vyomm.Api.Serving.{detected}
use vyomm.Api.{
  Server, Metrics, observe, count_ingest, count_created, count_decided, open_incident,
  open_incidents, detect_anomalies, correlate_incidents, handle_ingest, handle_decide,
}
use vyomm.Api.Routing.{
  Handler, is_metrics, Route, Request, Setting, Moment, routes_of, handle, counted, dispatch, serve,
  status_class, count_request, health, ingest_telemetry, get_telemetry, get_forecast, get_anomalies,
  list_incidents, decide_incident, get_decisions, get_runbook, list_scenarios, run_scenario,
  scenario_run, serve_metrics,
}

-- The requests that the metrics of a server count, if it has metrics.
abbrev pub requests_of : Option Metrics → Option (List (String × String × String))
requests_of none = none
requests_of (some m) = some m.http_requests

-- One more counted request, if there are metrics.
abbrev pub one_more :
    String × String × String
    → Option (List (String × String × String))
    → Option (List (String × String × String))
one_more entry none = none
one_more entry (some entries) = some (entry ∷ entries)

observe-requests :
    (f : Metrics → Metrics) (m : Option Metrics)
    → ((x : Metrics) → (f x).http_requests ≡ x.http_requests)
    → requests_of (observe f m) ≡ requests_of m
unfolding observe
observe-requests f none same = refl
observe-requests f (some x) same = rw (same x) refl

observe-count_request :
    (method label : String) (status : ℕ) (m : Option Metrics)
    → requests_of (observe (count_request method label status) m)
      ≡ one_more (method, label, status_class status) (requests_of m)
unfolding observe count_request
observe-count_request method label status none = refl
observe-count_request method label status (some m) = refl

-- What a picked route adds to the counted requests.
abbrev pub counted_by :
    String
    → Option (Route × String)
    → ℕ
    → Option (List (String × String × String))
    → Option (List (String × String × String))
counted_by method none status entries = entries
counted_by method (some (route, value)) status entries =
    if is_metrics route.handler
    then entries
    else one_more (method, route.label, status_class status) entries

module _ {F : Type 0} where
  open_incident-requests :
      (sha1_hex : String → String) (codec : Codec F) (exec_ok : Bool) (s : Server F)
      (c : Candidate F) (now : Time)
      → requests_of (open_incident sha1_hex codec exec_ok s c now).metrics ≡ requests_of s.metrics
  unfolding open_incident count_created
  open_incident-requests sha1_hex codec exec_ok s c now =
      let r = upsert_incident sha1_hex codec exec_ok s.store c now in
      ground (
        arith,
        observe-requests (count_created c.severity r.1.occurrence_sequence) s.metrics (λ x. refl),
      )

  open_incidents-requests :
      (sha1_hex : String → String) (codec : Codec F) (exec_ok : ℕ → Bool) (n : ℕ) (s : Server F)
      (cs : List (Candidate F)) (now : Time)
      → requests_of (open_incidents sha1_hex codec exec_ok n s cs now).metrics
        ≡ requests_of s.metrics
  unfolding open_incidents
  open_incidents-requests sha1_hex codec exec_ok n s [] now = refl
  open_incidents-requests sha1_hex codec exec_ok n s (c ∷ cs) now =
      open_incidents-requests sha1_hex codec exec_ok (suc n)
        (open_incident sha1_hex codec (exec_ok n) s c now) cs now
      ∙ open_incident-requests sha1_hex codec (exec_ok n) s c now

  handle_decide-requests :
      (faults : Faults) (s : Server F) (id : String) (request : Option (String × String))
      (now : Time)
      → requests_of (handle_decide faults s id request now).0.metrics ≡ requests_of s.metrics
  unfolding handle_decide count_decided
  handle_decide-requests faults s id none now = refl
  handle_decide-requests faults s id (some (status, actor)) now =
      let r = decide_stored faults s.store id status actor now in
      elim (Bool-cases (not (status == status_resolved) && not (status == status_ignored))) [
        | inl e ↦ rw (e, handle_decide) refl
        | inr e ↦ elim (Option-cases r.2) [
          | inr (x, failed) ↦ rw (e, failed, handle_decide) refl
          | inl done ↦ elim (Option-cases r.1) [
            | inl missing ↦ rw (e, done, missing, handle_decide) refl
            | inr ((updated, was_active), found) ↦
                rw (e, done, found, handle_decide)
                  (observe-requests (count_decided status updated.severity was_active) s.metrics
                    (λ x. refl))
          ]
        ]
      ]

  module _ ⦃fl : Float64 F⦄ where
    handle_ingest-requests :
        (sha1_hex : String → String) (codec : Codec F) (faults : Faults) (exec_ok : ℕ → Bool)
        (s : Server F) (request : Option (String × List (DeviceTelemetry F))) (now : Time)
        → requests_of (handle_ingest sha1_hex codec faults exec_ok s request now).0.metrics
          ≡ requests_of s.metrics
    unfolding handle_ingest correlate_incidents detect_anomalies count_ingest
    handle_ingest-requests sha1_hex codec faults exec_ok s none now = refl
    handle_ingest-requests sha1_hex codec faults exec_ok s (some (run_id, devices)) now =
        let (store, r, error) = ingest codec faults s.store devices run_id now in
        let counted = observe-requests (count_ingest r.accepted r.rejected) s.metrics (λ x. refl) in
        elim (Option-cases error) [
          | inl e ↦
              rw (e, handle_ingest)
                (open_incidents-requests sha1_hex codec exec_ok 0
                    (detected sha1_hex codec faults s devices run_id now)
                    (correlate r.valid_devices) now
                  ∙ counted)
          | inr (x, e) ↦ rw (e, handle_ingest) refl
        ]

    module _ (env : Setting F) where
      handle-requests :
          (h : Handler) (r : Request F) (value : String) (m : Moment) (s : Server F)
          → requests_of (handle env h r value m s).0.metrics ≡ requests_of s.metrics
      unfolding handle
      handle-requests ingest_telemetry r value m s =
          handle_ingest-requests env.sha1_hex env.codec m.faults m.exec_ok s r.telemetry_body m.now
      handle-requests decide_incident r value m s =
          handle_decide-requests m.faults s value r.decision_body m.now
      handle-requests health r value m s = refl
      handle-requests get_telemetry r value m s = refl
      handle-requests get_forecast r value m s = refl
      handle-requests get_anomalies r value m s = refl
      handle-requests list_incidents r value m s = refl
      handle-requests get_decisions r value m s = refl
      handle-requests get_runbook r value m s = refl
      handle-requests list_scenarios r value m s = refl
      handle-requests run_scenario r value m s = refl
      handle-requests scenario_run r value m s = refl
      handle-requests serve_metrics r value m s = refl

      counted-requests :
          (h : Handler) (method label : String) (status : ℕ) (s : Server F)
          → requests_of (counted env h method label status s).metrics ≡ (
              if is_metrics h
              then requests_of s.metrics
              else one_more (method, label, status_class status) (requests_of s.metrics))
      unfolding counted
      counted-requests h method label status s =
          ground (arith, observe-count_request method label status s.metrics)

      dispatch-requests :
          (r : Request F) (m : Moment) (s : Server F) (picked : Option (Route × String))
          → requests_of (dispatch env picked r m s).0.metrics
            ≡ counted_by r.method picked (dispatch env picked r m s).1 (requests_of s.metrics)
      unfolding dispatch
      dispatch-requests r m s none = refl
      dispatch-requests r m s (some (route, value)) =
          let (after, status, _) = handle env route.handler r value m s in
          ground (
            arith,
            counted-requests route.handler r.method route.label status after,
            handle-requests route.handler r value m s,
          )

      -- A request that is not an OPTIONS request, and that the multiplexer gives to a route other than
      -- that of the metrics, adds one entry to the counted requests of a server with metrics: its
      -- method, the label of the route and the class of the response's status. No other request adds an
      -- entry, and no request takes one away.
      pub serve-requests :
          (r : Request F) (m : Moment) (s : Server F)
          → requests_of (serve env r m s).0.metrics ≡ (
              if r.method == "OPTIONS"
              then requests_of s.metrics
              else counted_by r.method
                  (env.pick (routes_of s.metrics) r.method r.path)
                  (serve env r m s).1.status
                  (requests_of s.metrics))
      unfolding serve
      serve-requests r m s =
          let added = dispatch-requests r m s (env.pick (routes_of s.metrics) r.method r.path) in
          elim (Bool-cases (r.method == "OPTIONS")) [
            | inl e ↦ rw (e, serve) refl
            | inr e ↦ rw (e, serve) added
          ]
