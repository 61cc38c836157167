-- ===== src/Examples/Requests.antt =====
-- A server with metrics at HTTP requests, and its gauges.
use vyomm.Prelude.{◌≤◌, subst, ◌∷◌, ◌≡◌, ◌≢◌, ◌↔◌, refl, true, false, none, some, [], Mem, eq_iff}
use vyomm.GoMap
use vyomm.Float64.Fixed.{Fixed, fixed_float}
use vyomm.Incidents.{status_resolved}
use vyomm.NameSet.{contains}
use vyomm.Prelude.Text.{decimal, decimal_02, digits_text, leading_zeros}
use vyomm.Telemetry.{validate, role_valid, status_valid, out_of_percent}
use vyomm.Persistence.{record_anomalies, append_all, append_history}
use vyomm.Persistence.Ingest.{ingest, ingest_rows, validate_batch}
use vyomm.Persistence.Tables.{insert_incident, has_incident}
use vyomm.Persistence.Incidents.{upsert_incident, write_incident}
use vyomm.Incidents.Neighbors.{
  resolve_neighbors, visit, visit_offsets, visit_prefixes, accept, numeric_suffix, suffix_loop,
  neighbor_name, candidate_index, dedupe, dedupe_from,
}
use vyomm.Incidents.Rules.{
  correlate, correlate_from, index_hosts, match_rules, rules, congestion, firewall_saturation,
  memory_leak, packet_loss_degradation, switch_overheating, bgp_edge_instability, max_latency,
  max_loss, candidate_of, affected_devices,
}
use vyomm.Incidents.Store.{
  new_store, create, new_incident, upsert, latest_occurrence, history, or_nil,
}
use vyomm.Api.{Server, Metrics, handle_decide, handle_ingest}
use vyomm.Api.Gauge.{IsCounted}
use vyomm.Api.Serving.{
  IsFaultless, IsRecorded, ingest_step, Serves, decide_step, started, served, Serves-IsCounted,
}
use vyomm.Api.Routing.Failures.{is_failed, handle-failed}
use vyomm.Api.Routing.{
  run_scenario, health, serve_metrics, handle, Setting, Request, Moment, routes_of, serve,
}
use vyomm.Api.Routing.Mux.{pick_first, pick_first-IsMux}
use vyomm.Api.Routing.Policy.{header, serve-safe, serve-origin}
use vyomm.Api.Routing.Counting.{requests_of, counted_by, serve-requests}
use vyomm.Api.Routing.Labels.{AreKnown, serve-AreKnown}
use vyomm.Examples.Samples.{hot_router, start, plain_digest, no_faults, name_codec, blank_store}
use vyomm.Examples.Serving.{configured, same_case}

abbrev no_metrics : Metrics
no_metrics = record {
  records_received = 0;
  ingestion_errors = 0;
  incidents_active = GoMap.empty;
  incidents_resolved = GoMap.empty;
  incidents_recurred = 0;
  http_requests = [];
}

abbrev fresh : Server Fixed
fresh = record { store = blank_store; metrics = some no_metrics }

abbrev setting : Setting Fixed
setting = record {
  config = configured;
  runbooks = some [];
  version = "dev";
  run_id = "run-1";
  otel_status = "disabled";
  sha1_hex = plain_digest;
  codec = name_codec;
  to_lower = same_case;
  visit = λ incidents. incidents;
  pick = pick_first;
  refusal = λ method path. 404;
  scrape_status = λ s. 200;
}

abbrev asked : Request Fixed
asked = record {
  method = "GET";
  path = "/api/v1/anomalies";
  origin = "http://localhost:5173";
  query = λ name. "";
  telemetry_body = none;
  decision_body = none;
  decode_error = "EOF";
}

abbrev moment : Moment
moment = record {
  now = start;
  faults = no_faults;
  exec_ok = λ n. true;
  ping = some true;
  random = none;
}

get_is_safe : asked.method ≢ "POST"
get_is_safe h = let q : false ≡ true = (eq_iff "GET" "POST").1 h in cc

serve-safe_example : (serve setting asked moment fresh).0.store ≡ fresh.store
serve-safe_example = serve-safe setting asked moment fresh pick_first-IsMux get_is_safe

serve-origin_example :
    (header "Access-Control-Allow-Origin" (serve setting asked moment fresh).1.headers
      ≡ some "http://localhost:5173")
    ↔ (("http://localhost:5173" ≡ asked.origin)
        × (asked.origin ≢ "")
        × Mem asked.origin configured.cors_allowed_origins)
serve-origin_example = serve-origin setting asked moment fresh "http://localhost:5173"

serve-requests_example :
    requests_of (serve setting asked moment fresh).0.metrics
    ≡ counted_by "GET"
        (pick_first (routes_of fresh.metrics) "GET" "/api/v1/anomalies")
        (serve setting asked moment fresh).1.status
        (some [])
serve-requests_example = serve-requests setting asked moment fresh

serve-AreKnown_example : AreKnown (requests_of (serve setting asked moment fresh).0.metrics)
serve-AreKnown_example = serve-AreKnown setting asked moment fresh pick_first-IsMux tt

fresh-IsCounted : IsCounted fresh
unfolding GoMap.get GoMap.empty new_store
fresh-IsCounted = (no_metrics, refl, λ severity. refl)

run_is_no_health : run_scenario ≢ health
run_is_no_health h = subst (λ x. elim x [ run_scenario ↦ Unit | _ ↦ ⊥ ]) h tt

run_is_not_metrics : run_scenario ≢ serve_metrics
run_is_not_metrics h = subst (λ x. elim x [ run_scenario ↦ Unit | _ ↦ ⊥ ]) h tt

handle-failed_example :
    let (_, status, body) = handle setting run_scenario asked "cpu" moment fresh in
    (is_failed body ≡ true) ↔ (400 ≤ status)
handle-failed_example =
    handle-failed setting run_scenario asked "cpu" moment fresh run_is_no_health run_is_not_metrics

abbrev congested_server : Server Fixed
congested_server =
    (handle_ingest plain_digest name_codec no_faults (λ n. true) fresh
      (some ("run-1", hot_router ∷ [])) start).0

recorded :
    IsRecorded plain_digest name_codec no_faults
      (λ n. true)
      fresh
      (some ("run-1", hot_router ∷ []))
      start
unfolding ingest ingest_rows validate_batch validate role_valid status_valid out_of_percent
    correlate correlate_from match_rules rules congestion firewall_saturation memory_leak
    packet_loss_degradation switch_overheating bgp_edge_instability max_latency max_loss index_hosts
    resolve_neighbors visit visit_offsets visit_prefixes accept numeric_suffix suffix_loop
    neighbor_name candidate_index decimal_02 decimal digits_text leading_zeros contains candidate_of
    affected_devices dedupe dedupe_from create new_incident upsert_incident write_incident
    insert_incident has_incident upsert latest_occurrence history or_nil new_store GoMap.get
    GoMap.put GoMap.empty record_anomalies append_all append_history
recorded = (refl, refl, tt)

congested-Serves : Serves plain_digest name_codec fresh congested_server
congested-Serves =
    served started
      (ingest_step no_faults (λ n. true) (some ("run-1", hot_router ∷ [])) start recorded refl)

faultless : IsFaultless no_faults
faultless = record { begins = refl; executes = λ n. refl; commits = refl }

abbrev settled : Server Fixed
settled =
    (handle_decide no_faults congested_server "INC-1" (some (status_resolved, "operator")) start).0

settled-Serves : Serves plain_digest name_codec fresh settled
settled-Serves =
    served congested-Serves
      (decide_step no_faults "INC-1" (some (status_resolved, "operator")) start faultless refl)

Serves-IsCounted_example : IsCounted settled
Serves-IsCounted_example = Serves-IsCounted plain_digest name_codec fresh-IsCounted settled-Serves
