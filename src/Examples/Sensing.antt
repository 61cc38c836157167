-- ===== src/Examples/Sensing.antt =====
-- Validation, detection and forecast of the samples.
use vyomm.Prelude.{ℕ, ◌≡◌, ◌↔◌, refl, none, [], ◌∷◌, Mem, All}
use vyomm.Float64.Fixed.{Fixed, val, fixed_float, Fixed-IsOrdered}
use vyomm.Prelude.Text.{decimal}
use vyomm.Telemetry.{validate}
use vyomm.Telemetry.Validation.{HasNumbers, IsAcceptable, validate_iff}
use vyomm.Detection.{Anomaly, detect}
use vyomm.Detection.Breaches.{Accounted, detect_iff}
use vyomm.Forecast.{build, recent_of, project, extract_series}
use vyomm.Forecast.Ranges.{InRange, ProjectsNumbers, build_ranges}
use vyomm.Examples.Samples.{hot_router, batch, plain_digest, start}

numbers : HasNumbers hot_router
numbers = record {
  cpu_number = refl;
  memory_number = refl;
  bandwidth_number = refl;
  loss_number = refl;
  latency_number = refl;
}

validate_iff_example : (validate hot_router ≡ none) ↔ IsAcceptable hot_router
validate_iff_example = validate_iff Fixed-IsOrdered hot_router numbers

abbrev fever : Anomaly Fixed
fever = record {
  id = "anom-rtr-01:cpu";
  score = val 1_000 0;
  severity = "critical";
  device = "rtr-01";
  signal = "cpu_saturation";
  detected_at = start;
}

detect_iff_example :
    Mem fever (detect plain_digest start batch) ↔ Accounted plain_digest start batch fever
detect_iff_example = detect_iff plain_digest start batch fever

projected : (i : ℕ) → ProjectsNumbers Fixed-IsOrdered (recent_of (hot_router ∷ [])) i
unfolding recent_of project extract_series
projected i = record { cpu_number = refl; latency_number = refl; loss_number = refl }

build_ranges_example : All (InRange Fixed-IsOrdered) (build "rtr-01" (hot_router ∷ [])).points
build_ranges_example = build_ranges Fixed-IsOrdered "rtr-01" (hot_router ∷ []) projected

decimal_1203 : decimal 1203 ≡ "1203"
unfolding decimal
decimal_1203 = refl
