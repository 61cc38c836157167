-- ===== src/Detection.antt =====
-- internal/detection/anomaly.go: threshold checks over device samples.
pub mod Signals
pub mod Breaches
pub mod Window
use Prim.Native.String.{slice}
use vyomm.Prelude.{ℕ, String, Bool, Option, none, some, List, [], ◌∷◌, ◌++◌, if◌then◌else◌}
use vyomm.Prelude.Text.{concat}
use vyomm.Float64.{Float64, ◌+F◌, ◌*F◌, ◌/F◌, ◌<F◌, ◌>F◌, ◌≥F◌, int}
use vyomm.GoInt.{ℤ, quot, show_ℤ}
use vyomm.GoTime.{Time, unix}
use vyomm.Telemetry.{DeviceTelemetry}

abbrev pub severity_low : String
severity_low = "low"

abbrev pub severity_medium : String
severity_medium = "medium"

abbrev pub severity_high : String
severity_high = "high"

abbrev pub severity_critical : String
severity_critical = "critical"

pub record Anomaly (F : Type 0) : Type 0 where
  pub id : String
  pub score : F
  pub severity : String
  pub device : String
  pub signal : String
  pub detected_at : Time

pub record SignalCheck (F : Type 0) : Type 0 where
  pub name : String
  pub value : DeviceTelemetry F → F
  pub warning : F
  pub critical : F

abbrev pub detection_window_seconds : ℕ
detection_window_seconds = 20

-- `now.Unix() / DetectionWindowSeconds`
unfoldable pub bucket_of : Time → ℤ
bucket_of now = quot (unix now) detection_window_seconds

-- `sha1_hex` is the hexadecimal SHA-1 of package crypto/sha1.
unfoldable pub anomaly_id : (String → String) → String → String → ℤ → String
anomaly_id sha1_hex hostname signal bucket = concat "anom-" (
    slice (sha1_hex (concat hostname (concat ":" (concat signal (concat ":" (show_ℤ bucket)))))) 0
      10)

module _ {F : Type 0} ⦃fl : Float64 F⦄ where
  open fl use {dec, trunc}

  unfoldable pub checks : List (SignalCheck F)
  checks =
      record {
        name = "cpu_saturation";
        value = λ d. d.cpu_percent;
        warning = int 88;
        critical = int 97;
      }
      ∷ record {
        name = "memory_pressure";
        value = λ d. d.memory_percent;
        warning = int 86;
        critical = int 96;
      }
      ∷ record {
        name = "high_latency";
        value = λ d. d.latency_ms;
        warning = int 85;
        critical = int 150;
      }
      ∷ record {
        name = "packet_loss";
        value = λ d. d.packet_loss_percent;
        warning = dec 35 1;
        critical = int 8;
      }
      ∷ record {
        name = "thermal_drift";
        value = λ d. d.temperature_c;
        warning = int 72;
        critical = int 86;
      }
      ∷ []

  unfoldable pub round3 : F → F
  round3 v = trunc (v *F int 1000 +F dec 5 1) /F int 1000

  -- `score := v / c.critical`, at most 1.
  unfoldable pub breach_score : F → F → F
  breach_score v critical = let score = v /F critical in if score >F int 1 then int 1 else score

  -- The `switch` on the severity.
  unfoldable pub breach_severity : F → F → String
  unfolding breach_score
  breach_severity v critical =
      if v ≥F critical
      then severity_critical
      else if breach_score v critical >F dec 82 2
      then severity_high
      else severity_medium

  module _ (sha1_hex : String → String) (now : Time) where
    -- One round of the inner loop: `continue`, or one appended anomaly.
    unfoldable pub check_device : DeviceTelemetry F → SignalCheck F → List (Anomaly F)
    check_device d c =
        let v = c.value d in
        if v <F c.warning
        then []
        else (record {
          id = anomaly_id sha1_hex d.hostname c.name (bucket_of now);
          score = round3 (breach_score v c.critical);
          severity = breach_severity v c.critical;
          device = d.hostname;
          signal = c.name;
          detected_at = now;
        }
            ∷ [])

    -- The inner loop, over the checks.
    unfoldable pub check_all : DeviceTelemetry F → List (SignalCheck F) → List (Anomaly F)
    check_all d [] = []
    check_all d (c ∷ cs) = check_device d c ++ check_all d cs

    -- The outer loop, over the devices.
    unfoldable pub detect : List (DeviceTelemetry F) → List (Anomaly F)
    detect [] = []
    detect (d ∷ ds) = check_all d checks ++ detect ds
