-- ===== src/Detection/Window.antt =====
-- Anomaly IDs within one detection window.
use mathlib.Core.List.{map-append}
use vyomm.Prelude.{ℕ, ◌+◌, ◌*◌, ◌<◌, String, ◌≡◌, refl, sym, ◌∙◌, List, [], ◌∷◌, map, arith}
use vyomm.Float64.{Float64}
use vyomm.GoInt.{pos, quot}
use vyomm.GoTime.{Time, unix, unix_epoch, second}
use vyomm.Telemetry.{DeviceTelemetry}
use vyomm.Detection.{
  Anomaly, SignalCheck, checks, check_device, check_all, detect, bucket_of,
  detection_window_seconds,
}

-- The time at a number of nanoseconds after the start of a window that is counted from 1970.
abbrev pub in_window : ℕ → ℕ → Time
in_window window offset = (unix_epoch + window * detection_window_seconds) * second + offset

bucket-in_window :
    (w k : ℕ) → k < detection_window_seconds * second → bucket_of (in_window w k) ≡ pos w
unfolding bucket_of unix quot
bucket-in_window w k h = ground arith

module _ {F : Type 0} ⦃fl : Float64 F⦄ where
  abbrev pub ids : List (Anomaly F) → List String
  ids = map (λ a. a.id)

  module _ (sha1_hex : String → String) (t u : Time) (same : bucket_of t ≡ bucket_of u) where
    ids-check_device :
        (d : DeviceTelemetry F) (c : SignalCheck F)
        → ids (check_device sha1_hex t d c) ≡ ids (check_device sha1_hex u d c)
    unfolding check_device
    ids-check_device d c = ground arith

    ids-check_all :
        (d : DeviceTelemetry F) (cs : List (SignalCheck F))
        → ids (check_all sha1_hex t d cs) ≡ ids (check_all sha1_hex u d cs)
    unfolding check_all
    ids-check_all d [] = refl
    ids-check_all d (c ∷ cs) = simp (map-append, ids-check_device d c, ids-check_all d cs)

    ids-detect :
        (ds : List (DeviceTelemetry F)) → ids (detect sha1_hex t ds) ≡ ids (detect sha1_hex u ds)
    unfolding detect
    ids-detect [] = refl
    ids-detect (d ∷ ds) = simp (map-append, ids-check_all d checks, ids-detect ds)

  -- Two detections of one batch at times within the same window of 20 seconds give the same IDs in
  -- the same order.
  pub detect_same_window :
      (sha1_hex : String → String) (ds : List (DeviceTelemetry F)) (w j k : ℕ)
      → j < detection_window_seconds * second
      → k < detection_window_seconds * second
      → ids (detect sha1_hex (in_window w j) ds) ≡ ids (detect sha1_hex (in_window w k) ds)
  detect_same_window sha1_hex ds w j k hj hk =
      ids-detect sha1_hex (in_window w j) (in_window w k)
        (bucket-in_window w j hj ∙ sym (bucket-in_window w k hk)) ds
