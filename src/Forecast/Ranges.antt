-- ===== src/Forecast/Ranges.antt =====
-- What a forecast promises: its labels, its ranges, its trend and its window.
use vyomm.Prelude.{
  ◌==◌, eqb, Bool, ◌||◌, if◌then◌else◌, ℕ, zero, suc, ◌-◌, ◌≤◌, String, ◌≡◌, refl, ap, ◌∙◌, true,
  false, List, [], ◌∷◌, ◌++◌, map, arith, length, length-append, drop, All, Bool-cases, inl, inr,
  ltb,
}
use vyomm.Float64.{Float64, IsOrdered, IsNumber, ◌≤F◌, ◌<F◌, int}
use vyomm.Telemetry.{DeviceTelemetry}
use vyomm.Forecast.{
  Point, build, build_recent, recent_of, empty_result, project, project_point, clamp,
  extract_series, risk_from_score, risk_high, risk_critical, risk_medium, risk_low,
}

drop-append {ℓ} :
    {A : Type ℓ} (xs ys : List A) (n : ℕ)
    → length xs ≤ n
    → drop n (xs ++ ys) ≡ drop (n - length xs) ys
drop-append [] ys n h = ap (λ k. drop k ys) (omega arith)
drop-append (x ∷ xs) ys zero h = absurd (omega arith)
drop-append (x ∷ xs) ys (suc n) h =
    drop-append xs ys n (omega arith) ∙ ap (λ k. drop k ys) (omega arith)

-- The recent samples of a history are those of any longer one that ends in 18 samples of it.
recent_of-append {ℓ} :
    {A : Type ℓ} (old recent : List A) → length recent ≡ 18 → recent_of (old ++ recent) ≡ recent
unfolding recent_of
recent_of-append [] recent h = ground arith
recent_of-append (o ∷ old) recent h =
    let total = length-append (o ∷ old) recent in
    let long : ltb 18 (length ((o ∷ old) ++ recent)) ≡ true = ground arith in
    rw long (
      drop-append (o ∷ old) recent (length ((o ∷ old) ++ recent) - 18) (omega arith)
      ∙ ap (λ k. drop k recent) {y = 0} (omega arith))

-- How bad a risk level is.
unfoldable pub rank : String → ℕ
rank r =
    if r == risk_critical
    then 3
    else if r == risk_high
    then 2
    else if r == risk_medium
    then 1
    else 0

rank_ladder :
    (a b c : Bool)
    → rank
        (if a then risk_critical else if b then risk_high else if c then risk_medium else risk_low)
      ≡ (if a then 3 else if b then 2 else if c then 1 else 0)
unfolding rank
rank_ladder true b c = refl
rank_ladder false true c = refl
rank_ladder false false true = refl
rank_ladder false false false = refl

module _ {F : Type 0} ⦃fl : Float64 F⦄ where
  -- For every device and history, also with no history, a forecast is labelled as a linear
  -- extrapolation over 30 minutes and has six points, at 5, 10, 15, 20, 25 and 30 minutes.
  pub build_labels :
      (device : String) (history : List (DeviceTelemetry F))
      → (map (λ p. p.label_minutes) (build device history).points ≡ 5 ∷ 10 ∷ 15 ∷ 20 ∷ 25 ∷ 30 ∷ [])
        × ((build device history).method ≡ "linear-extrapolation")
        × ((build device history).horizon_mins ≡ 30)
  unfolding build build_recent empty_result project_point
  build_labels device history = ground arith

  -- Only the last 18 samples of a history matter: whatever comes before them, the forecast is the
  -- same.
  build_window :
      (device : String) (old recent : List (DeviceTelemetry F))
      → length recent ≡ 18
      → build device (old ++ recent) ≡ build device recent
  unfolding build
  build_window device old recent h =
      ground (
        arith,
        recent_of-append old recent h,
        recent_of-append [] recent h,
        length-append old recent,
      )

  module _ (laws : IsOrdered F) where
    open laws use {nan_left, nan_right, lt_le, le_total, le_trans, dec_number, int_le, le_max_left}

    clamp_bounds :
        (v : F)
        → IsNumber v
        → (int 0 ≤F clamp v (int 0) (int 100) ≡ true)
          × (clamp v (int 0) (int 100) ≤F int 100 ≡ true)
    unfolding clamp
    clamp_bounds v n = ground (
      arith,
      lt_le v (int 0) n (dec_number 0 0),
      lt_le (int 100) v (dec_number 100 0) n,
      le_total v (int 0) n (dec_number 0 0),
      le_total v (int 100) n (dec_number 100 0),
      dec_number 0 0,
      dec_number 100 0,
      int_le 0 100 (omega arith),
    )

    abbrev pub InRange : Point F → Type 0
    InRange p =
        (int 0 ≤F p.cpu_percent ≡ true)
        × (p.cpu_percent ≤F int 100 ≡ true)
        × (int 0 ≤F p.latency_ms ≡ true)
        × (int 0 ≤F p.packet_loss_percent ≡ true)

    -- The extrapolated values of the recent samples at a step.
    pub record ProjectsNumbers (recent : List (DeviceTelemetry F)) (i : ℕ) : Type 0 where
      pub cpu_number : IsNumber (project (extract_series recent (λ d. d.cpu_percent)) i)
      pub latency_number : IsNumber (project (extract_series recent (λ d. d.latency_ms)) i)
      pub loss_number : IsNumber (project (extract_series recent (λ d. d.packet_loss_percent)) i)

    project_point-InRange :
        (recent : List (DeviceTelemetry F)) (i : ℕ)
        → ProjectsNumbers recent i
        → InRange (
            project_point
              (extract_series recent (λ d. d.cpu_percent))
              (extract_series recent (λ d. d.latency_ms))
              (extract_series recent (λ d. d.packet_loss_percent))
              i)
    unfolding project_point
    project_point-InRange recent i n =
        let (lo, hi) = clamp_bounds _ n.cpu_number in
        (
          lo,
          hi,
          le_max_left _ _ (dec_number 0 0) n.latency_number,
          le_max_left _ _ (dec_number 0 0) n.loss_number,
        )

    -- With the laws of comparisons: if the extrapolations of the recent samples are numbers, every point of the forecast has a CPU
    -- share within 0 to 100 and a latency and a packet loss that are not below 0.
    pub build_ranges :
        (device : String) (history : List (DeviceTelemetry F))
        → ((i : ℕ) → ProjectsNumbers (recent_of history) i)
        → All InRange (build device history).points
    unfolding build build_recent empty_result
    build_ranges device history n = elim (Bool-cases (device == "" || eqb (length history) 0)) [
      | inl e ↦ rw e (ground (arith, dec_number 0 0, int_le 0 100 (omega arith)))
      | inr e ↦
          let point = λ (i : ℕ). project_point-InRange (recent_of history) i (n i) in
          rw e (point 1, (point 2, (point 3, (point 4, (point 5, (point 6, tt))))))
    ]

    lt_mono : (a s t : F) → IsNumber a → s ≤F t ≡ true → (a <F s ≡ true) → (a <F t ≡ true)
    lt_mono a s t n h l =
        ground (arith, nan_left s t, nan_right s t, lt_le a s n, lt_le a t n, le_trans s t a h)

    -- With the laws of comparisons, a score that is not lower never has a lower risk level.
    risk_from_score_mono :
        (s t : F) → s ≤F t ≡ true → rank (risk_from_score s) ≤ rank (risk_from_score t)
    unfolding risk_from_score
    risk_from_score_mono s t h = ground (
      arith,
      rank_ladder (int 90 <F s) (int 72 <F s) (int 54 <F s),
      rank_ladder (int 90 <F t) (int 72 <F t) (int 54 <F t),
      lt_mono (int 90) s t (dec_number 90 0) h,
      lt_mono (int 72) s t (dec_number 72 0) h,
      lt_mono (int 54) s t (dec_number 54 0) h,
    )
