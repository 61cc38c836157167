-- ===== src/Telemetry/Validation.antt =====
-- Which samples `Validate` accepts.
use vyomm.Prelude.{◌<◌, String, ◌≡◌, ◌≢◌, ◌↔◌, ◌⊎◌, true, false, none, arith, eq_iff}
use vyomm.Float64.{Float64, IsOrdered, IsNumber, ◌<F◌, ◌≤F◌, int}
use vyomm.Telemetry.{
  DeviceTelemetry, validate, role_valid, status_valid, role_router, role_switch, role_firewall,
  role_gateway, status_healthy, status_warning, status_critical, out_of_percent,
}

abbrev IsRole : String → Type 0
IsRole r = (r ≡ role_router) ⊎ (r ≡ role_switch) ⊎ (r ≡ role_firewall) ⊎ (r ≡ role_gateway)

abbrev IsStatus : String → Type 0
IsStatus s = (s ≡ status_healthy) ⊎ (s ≡ status_warning) ⊎ (s ≡ status_critical)

role_valid_iff : (r : String) → (role_valid r ≡ true) ↔ IsRole r
unfolding role_valid
role_valid_iff r = ground (
  arith,
  eq_iff r role_router,
  eq_iff r role_switch,
  eq_iff r role_firewall,
  eq_iff r role_gateway,
)

status_valid_iff : (s : String) → (status_valid s ≡ true) ↔ IsStatus s
unfolding status_valid
status_valid_iff s =
    ground (arith, eq_iff s status_healthy, eq_iff s status_warning, eq_iff s status_critical)

module _ {F : Type 0} ⦃fl : Float64 F⦄ where
  abbrev IsPercent : F → Type 0
  IsPercent v = (int 0 ≤F v ≡ true) × (v ≤F int 100 ≡ true)

  -- The contract of an accepted sample, each measurement being a number.
  pub record IsAcceptable (d : DeviceTelemetry F) : Type 0 where
    pub named : d.hostname ≢ ""
    pub role_known : IsRole d.role
    pub status_known : IsStatus d.status
    pub cpu : IsPercent d.cpu_percent
    pub memory : IsPercent d.memory_percent
    pub bandwidth : IsPercent d.bandwidth_percent
    pub loss : int 0 ≤F d.packet_loss_percent ≡ true
    pub latency : int 0 ≤F d.latency_ms ≡ true
    pub observed : 0 < d.observed_at

  pub record HasNumbers (d : DeviceTelemetry F) : Type 0 where
    pub cpu_number : IsNumber d.cpu_percent
    pub memory_number : IsNumber d.memory_percent
    pub bandwidth_number : IsNumber d.bandwidth_percent
    pub loss_number : IsNumber d.packet_loss_percent
    pub latency_number : IsNumber d.latency_ms

  module _ (laws : IsOrdered F) where
    open laws use {lt_le, dec_number}

    out_of_percent_iff : (v : F) → IsNumber v → (out_of_percent v ≡ false) ↔ IsPercent v
    unfolding out_of_percent
    out_of_percent_iff v n =
        ground (arith, lt_le v (int 0) n (dec_number 0 0), lt_le (int 100) v (dec_number 100 0) n)

    negative_iff : (v : F) → IsNumber v → (v <F int 0 ≡ false) ↔ (int 0 ≤F v ≡ true)
    negative_iff v n = ground (arith, lt_le v (int 0) n (dec_number 0 0))

    -- With the laws of comparisons, a sample whose measurements are numbers passes `Validate` exactly when it names a host, has a
    -- known role and status, has CPU, memory and bandwidth within 0 to 100 and packet loss and
    -- latency not below 0, and has an observation time.
    pub validate_iff : (d : DeviceTelemetry F) → HasNumbers d → (validate d ≡ none) ↔ IsAcceptable d
    unfolding validate
    validate_iff d n = ground (
      arith,
      eq_iff d.hostname "",
      role_valid_iff d.role,
      status_valid_iff d.status,
      out_of_percent_iff d.cpu_percent n.cpu_number,
      out_of_percent_iff d.memory_percent n.memory_number,
      out_of_percent_iff d.bandwidth_percent n.bandwidth_number,
      negative_iff d.packet_loss_percent n.loss_number,
      negative_iff d.latency_ms n.latency_number,
    )
