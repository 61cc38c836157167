-- ===== src/Api/Routing/Policy.antt =====
-- internal/api/server.go: which requests change the store, and which origins are allowed.
use Prim.Native.Char.{code}
use mathlib.Core.List.{mem-cons, mem-cons_self, mem-cons_of_mem, not-mem-nil}
use mathlib.Core.Logic.Or
use vyomm.Prelude.{
  ℕ, String, ◌≡◌, ◌≢◌, ◌↔◌, ◌⊎◌, refl, sym, ◌∙◌, Bool, true, false, not, ◌||◌, inl, inr, Bool-cases,
  Option, none, some, List, [], ◌∷◌, Mem, arith, ◌==◌, eq_iff, eqb, if◌then◌else◌, All, All-mem,
}
use vyomm.NameSet.{contains}
use vyomm.Float64.{Float64}
use vyomm.Api.{Server, Metrics}
use vyomm.Api.Routing.{
  Handler, Route, Request, Setting, Moment, api_routes, routes_of, cors_headers, handle, counted,
  dispatch, serve, health, ingest_telemetry, get_telemetry, get_forecast, get_anomalies,
  list_incidents, decide_incident, get_decisions, get_runbook, list_scenarios, run_scenario,
  scenario_run, serve_metrics,
}

contains_iff : (xs : List String) (v : String) → (contains xs v ≡ true) ↔ Mem v xs
unfolding contains
contains_iff [] v = (λ h. cc, λ m. absurd (not-mem-nil m))
contains_iff (x ∷ xs) v = (
  λ h. elim (Bool-cases (x == v)) [
    | inl e ↦ rw (sym ((eq_iff x v).0 e)) mem-cons_self
    | inr e ↦ mem-cons_of_mem x ((contains_iff xs v).0 (ground arith))
  ],
  λ m.
      Or.elim (hlevel) (mem-cons.0 m) (λ e. ground (arith, eq_iff x v, e))
        (λ n. ground (arith, (contains_iff xs v).1 n)),
)

-- The first value of a header.
abbrev pub header : String → List (String × String) → Option String
header name [] = none
header name ((key, value) ∷ rest) = if key == name then some value else header name rest

abbrev allow_origin : String
allow_origin = "Access-Control-Allow-Origin"

-- The method that a pattern begins with.
abbrev pub pattern_method : String → String
pattern_method String.[] = ""
pattern_method (String.◌∷◌ c rest) =
    let more = pattern_method rest in if eqb (code c) b' ' then "" else String.◌∷◌ c more

-- What http.ServeMux documents of its choice: a registered route, whose method is the request's; a
-- route of GET also serves HEAD.
pub record IsMux (pick : List Route → String → String → Option (Route × String)) : Type 0 where
  pub chosen :
      (routes : List Route) (method path : String) (route : Route) (value : String)
      → pick routes method path ≡ some (route, value)
      → Mem route routes
  pub same_method :
      (routes : List Route) (method path : String) (route : Route) (value : String)
      → pick routes method path ≡ some (route, value)
      → (pattern_method route.pattern ≡ method)
        ⊎ ((pattern_method route.pattern ≡ "GET") × (method ≡ "HEAD"))

abbrev writes : Handler → Bool
writes ingest_telemetry = true
writes decide_incident = true
writes _ = false

-- A route that can change the store is a POST route.
abbrev PostsIfWrites : Route → Type 0
PostsIfWrites route = (not (writes route.handler) || pattern_method route.pattern == "POST") ≡ true

routes_of-post : (metrics : Option Metrics) → All PostsIfWrites (routes_of metrics)
unfolding routes_of api_routes
routes_of-post none = search
routes_of-post (some m) = ground arith

not-writing :
    (method : String) (write : Bool) (pattern : String)
    → method ≢ "POST"
    → (not write || pattern == "POST") ≡ true
    → (pattern ≡ method) ⊎ ((pattern ≡ "GET") × (method ≡ "HEAD"))
    → write ≡ false
not-writing method true pattern other posts (inl e) =
    absurd (other (sym e ∙ (eq_iff pattern "POST").0 posts))
not-writing method true pattern other posts (inr e) =
    let q : false ≡ true = (eq_iff "POST" "GET").1 (sym ((eq_iff pattern "POST").0 posts) ∙ e.0) in
    cc
not-writing method false pattern other posts same = refl

header-cors :
    (allowed : List String) (origin value : String)
    → (header allow_origin (cors_headers allowed origin) ≡ some value)
      ↔ ((value ≡ origin) × (origin ≢ "") × Mem origin allowed)
unfolding cors_headers
header-cors allowed origin value = ground (arith, eq_iff origin "", contains_iff allowed origin)

module _ {F : Type 0} ⦃fl : Float64 F⦄ (env : Setting F) where
  handle-store :
      (h : Handler) (r : Request F) (value : String) (m : Moment) (s : Server F)
      → writes h ≡ false
      → (handle env h r value m s).0.store ≡ s.store
  unfolding handle
  handle-store ingest_telemetry r value m s e = cc
  handle-store decide_incident r value m s e = cc
  handle-store health r value m s e = refl
  handle-store get_telemetry r value m s e = refl
  handle-store get_forecast r value m s e = refl
  handle-store get_anomalies r value m s e = refl
  handle-store list_incidents r value m s e = refl
  handle-store get_decisions r value m s e = refl
  handle-store get_runbook r value m s e = refl
  handle-store list_scenarios r value m s e = refl
  handle-store run_scenario r value m s e = refl
  handle-store scenario_run r value m s e = refl
  handle-store serve_metrics r value m s e = refl

  counted-store :
      (h : Handler) (method label : String) (status : ℕ) (s : Server F)
      → (counted env h method label status s).store ≡ s.store
  unfolding counted
  counted-store h method label status s = ground arith

  dispatch-store :
      (r : Request F) (m : Moment) (s : Server F) (picked : Option (Route × String))
      → ((route : Route) (value : String)
          → picked ≡ some (route, value)
          → writes route.handler ≡ false)
      → (dispatch env picked r m s).0.store ≡ s.store
  unfolding dispatch
  dispatch-store r m s none quiet = refl
  dispatch-store r m s (some (route, value)) quiet =
      counted-store route.handler r.method route.label (handle env route.handler r value m s).1
        (handle env route.handler r value m s).0
      ∙ handle-store route.handler r value m s (quiet route value refl)

  serve-store :
      (r : Request F) (m : Moment) (s : Server F)
      → (serve env r m s).0.store ≡ (
          if r.method == "OPTIONS"
          then s.store
          else (dispatch env (env.pick (routes_of s.metrics) r.method r.path) r m s).0.store)
  unfolding serve
  serve-store r m s = ground arith

  serve-headers :
      (r : Request F) (m : Moment) (s : Server F)
      → (serve env r m s).1.headers ≡ cors_headers env.config.cors_allowed_origins r.origin
  unfolding serve
  serve-headers r m s = ground arith

  -- Only a POST request changes the store, under a multiplexer that picks a registered route of the
  -- request's method, where a GET route also serves HEAD.
  pub serve-safe :
      (r : Request F) (m : Moment) (s : Server F)
      → IsMux env.pick
      → r.method ≢ "POST"
      → (serve env r m s).0.store ≡ s.store
  serve-safe r m s mux other =
      let quiet =
        dispatch-store r m s (env.pick (routes_of s.metrics) r.method r.path) (λ route value e.
          let posts =
            All-mem PostsIfWrites (λ a. hlevel) (routes_of s.metrics) route
              (routes_of-post s.metrics)
              (mux.chosen (routes_of s.metrics) r.method r.path route value e) in
          not-writing r.method (writes route.handler) (pattern_method route.pattern) other posts
            (mux.same_method (routes_of s.metrics) r.method r.path route value e)) in
      ground (arith, serve-store r m s, quiet)

  -- A response carries an Access-Control-Allow-Origin header only with the request's own origin, and
  -- exactly if that origin is not empty and is in the configured list.
  pub serve-origin :
      (r : Request F) (m : Moment) (s : Server F) (value : String)
      → (header "Access-Control-Allow-Origin" (serve env r m s).1.headers ≡ some value)
        ↔ ((value ≡ r.origin) × (r.origin ≢ "") × Mem r.origin env.config.cors_allowed_origins)
  serve-origin r m s value =
      rw (serve-headers r m s) (header-cors env.config.cors_allowed_origins r.origin value)
