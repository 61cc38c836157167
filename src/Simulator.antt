-- ===== src/Simulator.antt =====
-- cmd/vyomm-simulator/main.go: the batches of the simulator, and how it posts them.
pub mod Posting
pub mod Scenarios
use vyomm.Prelude.{
  ℕ, zero, suc, ◌+◌, ◌*◌, String, Bool, true, false, not, ◌&&◌, Option, none, some, List, [], ◌∷◌,
  ◌==◌, ltb, leb, if◌then◌else◌,
}
use mathlib.Core.Option
use vyomm.Prelude.Text.{concat}
use vyomm.Float64.{Float64, ◌+F◌, int}
use vyomm.GoInt.{ℤ, pos, show_ℤ}
use vyomm.GoTime.{Time}
use vyomm.Telemetry.{DeviceTelemetry, role_router, status_healthy, source_synthetic, mode_trial}

-- `request`; the logs stay empty.
pub record Payload (F : Type 0) : Type 0 where
  pub run_id : String
  pub scenario_id : String
  pub devices : List (DeviceTelemetry F)
  pub logs : List String

module _ {F : Type 0} where
  -- `device`
  unfoldable pub device : String → String → F → F → F → F → F → F → Time → DeviceTelemetry F
  device name role cpu memory bandwidth temperature latency loss at = record {
    hostname = name;
    role = role;
    cpu_percent = cpu;
    memory_percent = memory;
    bandwidth_percent = bandwidth;
    temperature_c = temperature;
    latency_ms = latency;
    packet_loss_percent = loss;
    uptime_seconds = pos 3600;
    status = status_healthy;
    observed_at = at;
    source = source_synthetic;
    mode = mode_trial;
  }

  module _ ⦃fl : Float64 F⦄ where
    open fl use {dec, of_int}

    -- The device before the scenario; `jitter` is `r.IntN(10)`.
    unfoldable pub base_device : ℕ → Time → DeviceTelemetry F
    unfolding device
    base_device jitter at =
        device "rtr-01" role_router (int 40 +F of_int jitter) (int 40) (int 20) (int 50) (int 15)
          (dec 1 1) at

    -- The `switch`; none where it panics.
    unfoldable pub scenario_device : String → DeviceTelemetry F → Option (DeviceTelemetry F)
    scenario_device scenario base =
        if scenario == "cpu-saturation"
        then some (record base { cpu_percent = int 98 })
        else if scenario == "memory-pressure"
        then some (record base { memory_percent = int 95; cpu_percent = int 85 })
        else if scenario == "high-latency"
        then some (record base { latency_ms = int 90 })
        else if scenario == "packet-loss"
        then some (record base { packet_loss_percent = dec 85 1; latency_ms = int 130 })
        else if scenario == "healthy-baseline"
        then some base
        else none

    -- `Generate`; `int_n` is the first `IntN(10)` of the generator that a seed starts.
    unfoldable pub generate : (ℤ → ℕ) → String → ℤ → Time → Option (Payload F)
    unfolding base_device scenario_device
    generate int_n scenario seed at =
        Option.map
          (λ d. record {
            run_id = concat "run-" (show_ℤ seed);
            scenario_id = scenario;
            devices = d ∷ [];
            logs = [];
          })
          (scenario_device scenario (base_device (int_n seed) at))

-- What `client.Post` gives: the status of a response, or none at a transport error.
unfoldable pub is_success : Option ℕ → Bool
is_success none = false
is_success (some status) = leb 200 status && ltb status 300

pub data PostError : Type 0 where
  marshal_failed transport_error non_success_status : PostError

unfoldable pub attempt_error : Option ℕ → PostError
attempt_error none = transport_error
attempt_error (some status) = non_success_status

-- What `post` does: the requests that it makes, the milliseconds of each sleep, and its error.
pub record Posted : Type 0 where
  pub requests : ℕ
  pub sleeps : List ℕ
  pub error : Option PostError

-- The loop: `left` rounds are left, from round `attempt`; `client` answers the request of each round.
unfoldable pub post_from : (ℕ → Option ℕ) → ℕ → ℕ → Option PostError → Posted
unfolding is_success attempt_error
post_from client zero attempt last = record { requests = 0; sleeps = []; error = last }
post_from client (suc left) attempt last =
    let later = post_from client left (suc attempt) (some (attempt_error (client attempt))) in
    if is_success (client attempt)
    then record { requests = 1; sleeps = []; error = none }
    else record {
      requests = 1 + later.requests;
      sleeps = (attempt + 1) * 100 ∷ later.sleeps;
      error = later.error;
    }

unfoldable pub post : Option String → (ℕ → Option ℕ) → Posted
unfolding post_from
post none client = record { requests = 0; sleeps = []; error = some marshal_failed }
post (some body) client = post_from client 3 0 none
