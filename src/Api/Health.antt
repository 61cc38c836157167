-- ===== src/Api/Health.antt =====
-- internal/api/handlers.go: the health check.
use vyomm.Prelude.{
  ℕ, String, Bool, true, false, ◌≡◌, ◌↔◌, ◌==◌, eq_iff, Option, none, some, arith, if◌then◌else◌,
}
use vyomm.Config.{Config, has_real_llm_key}

pub record HealthDto : Type 0 where
  pub status : String
  pub mode : String
  pub database : String
  pub llm_provider : String
  pub otel_exporter : String
  pub version : String
  pub run_id : String

-- Whether the ping of the store succeeds, or none where the server has no store.
unfoldable pub database_status : Option Bool → String
database_status none = "unavailable"
database_status (some ping_ok) = if ping_ok then "ok" else "error"

-- The status code and the body.
unfoldable pub handle_health :
    {F : Type 0} → Config F → Option Bool → String → String → String → ℕ × HealthDto
unfolding database_status
handle_health config ping otel version run_id =
    let database = database_status ping in
    let ok = database == "ok" in
    (
      (if ok then 200 else 503),
      record {
        status = if ok then "ok" else "degraded";
        mode = config.environment_mode;
        database = database;
        llm_provider = if has_real_llm_key config then "configured" else "fallback";
        otel_exporter = if otel == "" then "disabled" else otel;
        version = version;
        run_id = run_id;
      },
    )

-- The health check is answered as 200 exactly when there is a store and its ping succeeds, and then
-- it says "ok"; else it is answered as 503 and says "degraded".
handle_health_lem :
    {F : Type 0} (config : Config F) (ping : Option Bool) (otel version run_id : String)
    → let (code, body) = handle_health config ping otel version run_id in
      ((code ≡ 200) ↔ (ping ≡ some true))
      × ((body.status ≡ "ok") ↔ (code ≡ 200))
      × ((body.status ≡ "degraded") ↔ (code ≡ 503))
unfolding handle_health database_status
handle_health_lem config none otel version run_id = ground (arith, eq_iff "degraded" "ok")
handle_health_lem config (some true) otel version run_id = ground (arith, eq_iff "ok" "degraded")
handle_health_lem config (some false) otel version run_id = ground (arith, eq_iff "degraded" "ok")
