-- ===== src/Api/Routing/Labels.antt =====
-- internal/api/server.go: the labels under which requests are counted.
use vyomm.Prelude.{
  ℕ, String, ◌≡◌, ◌⊎◌, refl, sym, subst, ◌∙◌, Bool, true, false, ◌&&◌, ◌||◌, inl, inr, Bool-cases,
  Option-cases, Option, none, some, List, [], ◌∷◌, map, arith, ◌==◌, eqb, All, All-mem,
}
use vyomm.NameSet.{contains}
use vyomm.Float64.{Float64}
use vyomm.Api.{Server, Metrics, Answer, status_code}
use vyomm.Api.Health.{handle_health, database_status}
use vyomm.Api.Reading.{itoa, itoa_loop}
use vyomm.Api.Routing.{
  Handler, is_metrics, Route, Request, Setting, Moment, api_routes, routes_of, handle, dispatch,
  serve, status_class, health, ingest_telemetry, get_telemetry, get_forecast, get_anomalies,
  list_incidents, decide_incident, get_decisions, get_runbook, list_scenarios, run_scenario,
  scenario_run, serve_metrics,
}
use vyomm.Api.Routing.Policy.{IsMux, pattern_method}
use vyomm.Api.Routing.Counting.{requests_of, counted_by, serve-requests}

-- The methods and labels of the table, where a route of GET also serves HEAD, and the classes of the
-- statuses that handlers write.
abbrev pub is_known : String × String × String → Bool
is_known (method, label, class) =
    contains ("GET" ∷ "HEAD" ∷ "POST" ∷ []) method
    && contains (map (λ r. r.label) api_routes) label
    && contains ("2xx" ∷ "4xx" ∷ "5xx" ∷ []) class

-- Every counted request has a known label and class.
abbrev pub AreKnown : Option (List (String × String × String)) → Type 0
AreKnown none = Unit
AreKnown (some entries) = All (λ e. is_known e ≡ true) entries

abbrev is_written : ℕ → Bool
is_written status =
    eqb status 200
    || eqb status 400
    || eqb status 404
    || eqb status 500
    || eqb status 501
    || eqb status 503

abbrev HasKnownClass : ℕ → Type 0
HasKnownClass status = contains ("2xx" ∷ "4xx" ∷ "5xx" ∷ []) (status_class status) ≡ true

written-HasKnownClass :
    HasKnownClass 200
    × HasKnownClass 400
    × HasKnownClass 404
    × HasKnownClass 500
    × HasKnownClass 501
    × HasKnownClass 503
unfolding contains status_class itoa itoa_loop
written-HasKnownClass = (refl, refl, refl, refl, refl, refl)

status_class-known : (status : ℕ) → is_written status ≡ true → HasKnownClass status
status_class-known status w = ground (arith, written-HasKnownClass)

abbrev IsLabelled : Route → Type 0
IsLabelled route =
    (is_metrics route.handler
      || (contains (map (λ r. r.label) api_routes) route.label
          && contains ("GET" ∷ "POST" ∷ []) (pattern_method route.pattern)))
    ≡ true

routes_of-IsLabelled : (metrics : Option Metrics) → All IsLabelled (routes_of metrics)
unfolding routes_of api_routes contains
routes_of-IsLabelled none = search
routes_of-IsLabelled (some m) = ground arith

known_method :
    (pattern method : String)
    → contains ("GET" ∷ "POST" ∷ []) pattern ≡ true
    → (pattern ≡ method) ⊎ ((pattern ≡ "GET") × (method ≡ "HEAD"))
    → contains ("GET" ∷ "HEAD" ∷ "POST" ∷ []) method ≡ true
unfolding contains
known_method pattern method k (inl e) =
    subst (λ x. contains ("GET" ∷ "HEAD" ∷ "POST" ∷ []) x ≡ true) e (ground arith)
known_method pattern method k (inr e) = rw (e.1) refl

counted_by-AreKnown :
    (method : String) (route : Route) (value : String) (status : ℕ)
    (entries : Option (List (String × String × String)))
    → (is_metrics route.handler ≡ false → is_written status ≡ true)
    → IsLabelled route
    → (pattern_method route.pattern ≡ method)
      ⊎ ((pattern_method route.pattern ≡ "GET") × (method ≡ "HEAD"))
    → AreKnown entries
    → AreKnown (counted_by method (some (route, value)) status entries)
counted_by-AreKnown method route value status none w l same known =
    elim (Bool-cases (is_metrics route.handler)) [ inl e ↦ rw e tt | inr e ↦ rw e tt ]
counted_by-AreKnown method route value status (some entries) w l same known =
    elim (Bool-cases (is_metrics route.handler)) [
      | inl e ↦ rw e known
      | inr e ↦ rw e (
        ground (
          arith,
          l,
          status_class-known status (w e),
          known_method (pattern_method route.pattern) method,
          same,
        ),
        known,
      )
    ]

module _ {F : Type 0} where
  status_code-written : (a : Answer F) → is_written (status_code a) ≡ true
  unfolding status_code
  status_code-written a = ground arith

  module _ ⦃fl : Float64 F⦄ (env : Setting F) where
    handle-written :
        (h : Handler) (r : Request F) (value : String) (m : Moment) (s : Server F)
        → is_metrics h ≡ false
        → is_written (handle env h r value m s).1 ≡ true
    unfolding handle handle_health
    handle-written health r value m s own = elim (Bool-cases (database_status m.ping == "ok")) [
      | inl e ↦ rw (e, handle_health) refl
      | inr e ↦ rw (e, handle_health) refl
    ]
    handle-written ingest_telemetry r value m s own = status_code-written _
    handle-written decide_incident r value m s own = status_code-written _
    handle-written get_telemetry r value m s own = refl
    handle-written get_forecast r value m s own = refl
    handle-written get_anomalies r value m s own = refl
    handle-written list_incidents r value m s own = refl
    handle-written get_decisions r value m s own = refl
    handle-written get_runbook r value m s own = refl
    handle-written list_scenarios r value m s own = refl
    handle-written run_scenario r value m s own = refl
    handle-written scenario_run r value m s own = refl
    handle-written serve_metrics r value m s own = cc

    -- A response of the multiplexer to a route has the status that the handler writes.
    serve-status :
        (r : Request F) (m : Moment) (s : Server F) (route : Route) (value : String)
        → (r.method == "OPTIONS") ≡ false
        → env.pick (routes_of s.metrics) r.method r.path ≡ some (route, value)
        → (serve env r m s).1.status ≡ (handle env route.handler r value m s).1
    unfolding serve dispatch
    serve-status r m s route value other p = rw (other, p, serve, dispatch) refl

    -- Serving keeps the methods of the counted requests among GET, HEAD and POST, their labels among
    -- those of the table, and their classes among 2xx, 4xx and 5xx, whatever methods and paths are
    -- requested, under a multiplexer that picks a registered route of the request's method, where a GET
    -- route also serves HEAD.
    pub serve-AreKnown :
        (r : Request F) (m : Moment) (s : Server F)
        → IsMux env.pick
        → AreKnown (requests_of s.metrics)
        → AreKnown (requests_of (serve env r m s).0.metrics)
    serve-AreKnown r m s mux known = elim (Bool-cases (r.method == "OPTIONS")) [
      | inl e ↦ subst AreKnown (sym (serve-requests env r m s ∙ rw e refl)) known
      | inr e ↦ elim (Option-cases (env.pick (routes_of s.metrics) r.method r.path)) [
        | inl p ↦ subst AreKnown (sym (serve-requests env r m s ∙ rw (e, p) refl)) known
        | inr ((route, value), p) ↦
            subst AreKnown
              (sym (serve-requests env r m s ∙ rw (e, p, serve-status r m s route value e p) refl))
              (counted_by-AreKnown r.method route value (handle env route.handler r value m s).1
                (requests_of s.metrics) (handle-written route.handler r value m s)
                (All-mem IsLabelled (λ a. hlevel) (routes_of s.metrics) route
                  (routes_of-IsLabelled s.metrics)
                  (mux.chosen (routes_of s.metrics) r.method r.path route value p))
                (mux.same_method (routes_of s.metrics) r.method r.path route value p) known)
      ]
    ]
