-- ===== src/Examples/Reading.antt =====
-- A health check and a served forecast.
use vyomm.Prelude.{none, []}
use vyomm.GoInt.{pos}
use vyomm.Float64.Fixed.{Fixed, val, fixed_float}
use vyomm.Config.{Config}
use vyomm.Api.{Server}
use vyomm.Examples.Samples.{blank_store}

abbrev defaults : Config Fixed
defaults = record {
  environment_mode = "trial";
  llm_api_key = "key";
  llm_base_url = "";
  llm_model = "";
  sqlite_path = "";
  telemetry_retention_hours = pos 24;
  api_addr = "";
  cors_allowed_origins = [];
  otel_exporter_endpoint = "";
  otel_traces_sample_ratio = val 200 0;
  log_level = "info";
}

abbrev idle : Server Fixed
idle = record { store = blank_store; metrics = none }
