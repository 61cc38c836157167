-- ===== src/Telemetry.antt =====
-- internal/telemetry/model.go: device samples, the provenance envelope, and validation.
pub mod Validation
use vyomm.Prelude.{
  ℕ, String, Bool, true, false, ◌||◌, not, Option, none, some, List, [], ◌∷◌, ◌==◌, if◌then◌else◌,
}
use vyomm.Float64.{Float64, ◌<F◌, ◌>F◌, int}
use vyomm.GoInt.{ℤ}
use vyomm.GoTime.{Time, is_zero}

-- Source, Mode, DeviceRole and HealthStatus are strings that requests may fill with anything.
abbrev pub source_synthetic : String
source_synthetic = "synthetic"

abbrev pub source_computed : String
source_computed = "computed"

abbrev pub source_unavailable : String
source_unavailable = "unavailable"

abbrev pub mode_trial : String
mode_trial = "trial"

abbrev pub role_router : String
role_router = "router"

abbrev pub role_switch : String
role_switch = "switch"

abbrev pub role_firewall : String
role_firewall = "firewall"

abbrev pub role_gateway : String
role_gateway = "gateway"

abbrev pub status_healthy : String
status_healthy = "healthy"

abbrev pub status_warning : String
status_warning = "warning"

abbrev pub status_critical : String
status_critical = "critical"

-- The provenance envelope; `value` is `nil` exactly where a measurement is not available.
pub record Value (F : Type 0) : Type 0 where
  pub value : Option F
  pub unit : String
  pub source : String
  pub mode : String
  pub observed_at : Time
  pub run_id : String
  pub unavailable_reason : String

unfoldable pub new_value : {F : Type 0} → F → String → String → String → Time → String → Value F
new_value v unit source mode observed_at run_id = record {
  value = some v;
  unit = unit;
  source = source;
  mode = mode;
  observed_at = observed_at;
  run_id = run_id;
  unavailable_reason = "";
}

unfoldable pub unavailable : {F : Type 0} → String → String → Time → String → String → Value F
unavailable unit mode observed_at run_id reason = record {
  value = none;
  unit = unit;
  source = source_unavailable;
  mode = mode;
  observed_at = observed_at;
  run_id = run_id;
  unavailable_reason = reason;
}

unfoldable pub role_valid : String → Bool
role_valid r = r == role_router || r == role_switch || r == role_firewall || r == role_gateway

unfoldable pub status_valid : String → Bool
status_valid s = s == status_healthy || s == status_warning || s == status_critical

pub record DeviceTelemetry (F : Type 0) : Type 0 where
  pub hostname : String
  pub role : String
  pub cpu_percent : F
  pub memory_percent : F
  pub bandwidth_percent : F
  pub temperature_c : F
  pub latency_ms : F
  pub packet_loss_percent : F
  pub uptime_seconds : ℤ
  pub status : String
  pub observed_at : Time
  pub source : String
  pub mode : String

-- The errors of `Validate`, with the value that the message prints.
pub data ValidationError (F : Type 0) : Type 0 where
  hostname_empty : ValidationError F
  invalid_role : String → ValidationError F
  invalid_status : String → ValidationError F
  cpu_out_of_range : F → ValidationError F
  memory_out_of_range : F → ValidationError F
  bandwidth_out_of_range : F → ValidationError F
  packet_loss_negative : F → ValidationError F
  latency_negative : F → ValidationError F
  observed_at_unset : ValidationError F

module _ {F : Type 0} ⦃fl : Float64 F⦄ where
  -- `v < 0 || v > 100`
  unfoldable pub out_of_percent : F → Bool
  out_of_percent v = v <F int 0 || v >F int 100

  -- `none` is Go's nil error.
  unfoldable pub validate : DeviceTelemetry F → Option (ValidationError F)
  validate d =
      if d.hostname == ""
      then some hostname_empty
      else if not (role_valid d.role)
      then some (invalid_role d.role)
      else if not (status_valid d.status)
      then some (invalid_status d.status)
      else if out_of_percent d.cpu_percent
      then some (cpu_out_of_range d.cpu_percent)
      else if out_of_percent d.memory_percent
      then some (memory_out_of_range d.memory_percent)
      else if out_of_percent d.bandwidth_percent
      then some (bandwidth_out_of_range d.bandwidth_percent)
      else if d.packet_loss_percent <F int 0
      then some (packet_loss_negative d.packet_loss_percent)
      else if d.latency_ms <F int 0
      then some (latency_negative d.latency_ms)
      else if is_zero d.observed_at
      then some observed_at_unset
      else none
