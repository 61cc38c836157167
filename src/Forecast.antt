-- ===== src/Forecast.antt =====
-- internal/forecast/forecast.go: linear extrapolation of the recent samples of one device.
pub mod Ranges
use vyomm.Prelude.{
  ℕ, zero, suc, ◌+◌, ◌-◌, ◌*◌, String, Bool, ◌||◌, List, [], ◌∷◌, map, Option, none, some, ◌==◌,
  ltb, eqb, if◌then◌else◌, length, drop, last?,
}
use vyomm.Float64.{Float64, ◌+F◌, ◌-F◌, ◌*F◌, ◌/F◌, ◌<F◌, ◌>F◌, int}
use vyomm.Telemetry.{DeviceTelemetry}

abbrev pub forecast_method : String
forecast_method = "linear-extrapolation"

abbrev pub horizon_minutes : ℕ
horizon_minutes = 30

abbrev pub risk_low : String
risk_low = "low"

abbrev pub risk_medium : String
risk_medium = "medium"

abbrev pub risk_high : String
risk_high = "high"

abbrev pub risk_critical : String
risk_critical = "critical"

pub record Point (F : Type 0) : Type 0 where
  pub label_minutes : ℕ
  pub cpu_percent : F
  pub latency_ms : F
  pub packet_loss_percent : F

pub record ForecastResult (F : Type 0) : Type 0 where
  pub device : String
  pub method : String
  pub horizon_mins : ℕ
  pub current_trend : String
  pub confidence : F
  pub risk_level : String
  pub points : List (Point F)

-- `if len(recent) > 18 { recent = recent[len(recent)-18:] }`
unfoldable pub recent_of {ℓ} : {A : Type ℓ} → List A → List A
recent_of history = if ltb 18 (length history) then drop (length history - 18) history else history

unfoldable pub trend_from_risk : String → String
trend_from_risk r =
    if r == risk_high || r == risk_critical
    then "Escalating"
    else if r == risk_medium
    then "Stable with watch conditions"
    else "Healthy"

-- The steps `i = 1; i <= 6; i++` of the loops over the horizon.
abbrev pub steps : List ℕ
steps = 1 ∷ 2 ∷ 3 ∷ 4 ∷ 5 ∷ 6 ∷ []

-- The series of one signal.
unfoldable pub extract_series :
    {F : Type 0} → List (DeviceTelemetry F) → (DeviceTelemetry F → F) → List F
extract_series history f = map f history

-- `values[len(values)-1]`, of the first value and the others.
unfoldable pub last_of {ℓ} : {A : Type ℓ} → A → List A → A
last_of x [] = x
last_of x (y ∷ ys) = last_of y ys

module _ {F : Type 0} ⦃fl : Float64 F⦄ where
  open fl use {dec, of_int, round, max, min}

  unfoldable pub clamp : F → F → F → F
  clamp v lo hi = if v <F lo then lo else if v >F hi then hi else v

  unfoldable pub round1 : F → F
  round1 v = round (v *F int 10) /F int 10

  unfoldable pub risk_from_score : F → String
  risk_from_score score =
      if score >F int 90
      then risk_critical
      else if score >F int 72
      then risk_high
      else if score >F int 54
      then risk_medium
      else risk_low

  -- `last + slope*float64(steps)`, over the first and last of at least two values.
  unfoldable pub project : List F → ℕ → F
  project [] n = int 0
  project (first ∷ []) n = first
  project (first ∷ second ∷ rest) n =
      let last = last_of second rest in
      let slope = (last -F first) /F of_int (suc (length rest)) in last +F slope *F of_int n

  -- One round of the loop of `Build`.
  unfoldable pub project_point : List F → List F → List F → ℕ → Point F
  unfolding clamp
  project_point cpu latency loss i = record {
    label_minutes = i * 5;
    cpu_percent = clamp (project cpu i) (int 0) (int 100);
    latency_ms = max (int 0) (project latency i);
    packet_loss_percent = max (int 0) (project loss i);
  }

  unfoldable pub risk_score : Point F → F
  risk_score terminal =
      terminal.cpu_percent *F dec 4 1
      +F terminal.latency_ms *F dec 25 2
      +F terminal.packet_loss_percent *F int 8

  unfoldable pub empty_result : ForecastResult F
  empty_result = record {
    device = "pending";
    method = forecast_method;
    horizon_mins = horizon_minutes;
    current_trend = "Awaiting telemetry";
    confidence = int 0;
    risk_level = risk_low;
    points =
        map
          (λ i. record {
            label_minutes = i * 5;
            cpu_percent = int 0;
            latency_ms = int 0;
            packet_loss_percent = int 0;
          })
          steps;
  }

  -- `60 + float64(len(recent))*1.5`, at most 95, rounded.
  unfoldable pub confidence_of : ℕ → F
  confidence_of samples = round1 (min (int 95) (int 60 +F of_int samples *F dec 15 1))

  -- `Build` after its guard, over the recent samples. The last of the points is that of step 6.
  unfoldable pub build_recent : String → List (DeviceTelemetry F) → ForecastResult F
  build_recent device recent =
      let cpu = extract_series recent (λ d. d.cpu_percent) in
      let latency = extract_series recent (λ d. d.latency_ms) in
      let loss = extract_series recent (λ d. d.packet_loss_percent) in
      let risk = risk_from_score (risk_score (project_point cpu latency loss 6)) in
      record {
        device = device;
        method = forecast_method;
        horizon_mins = horizon_minutes;
        current_trend = trend_from_risk risk;
        confidence = confidence_of (length recent);
        risk_level = risk;
        points = map (project_point cpu latency loss) steps;
      }

  unfoldable pub build : String → List (DeviceTelemetry F) → ForecastResult F
  build device history =
      if device == "" || eqb (length history) 0
      then empty_result
      else build_recent device (recent_of history)
