-- ===== src/Detection/Signals.antt =====
-- The signals of a device with their thresholds, and how the table of checks and the severity follow
-- them.
use mathlib.Core.List.{mem-cons_self, mem-cons_of_mem}
use vyomm.Prelude.{String, ◌≡◌, true, false, refl, Mem, Bool-cases, inl, inr, All, All-mem}
use vyomm.Float64.{Float64, ◌>F◌, ◌≥F◌, ◌/F◌, int}
use vyomm.Telemetry.{DeviceTelemetry}
use vyomm.Detection.{SignalCheck, checks, breach_score, breach_severity}

module _ {F : Type 0} ⦃fl : Float64 F⦄ where
  open fl use {dec}

  -- The reading of a device under a signal's name, with its warning and its critical threshold.
  pub data Reads (d : DeviceTelemetry F) : String → F → F → F → Type 0 where
    cpu : Reads d "cpu_saturation" d.cpu_percent (int 88) (int 97)
    memory : Reads d "memory_pressure" d.memory_percent (int 86) (int 96)
    latency : Reads d "high_latency" d.latency_ms (int 85) (int 150)
    loss : Reads d "packet_loss" d.packet_loss_percent (dec 35 1) (int 8)
    thermal : Reads d "thermal_drift" d.temperature_c (int 72) (int 86)

  -- The share of the critical threshold, at most 1.
  pub data HasShare (value critical : F) : F → Type 0 where
    over_one : (value /F critical >F int 1) ≡ true → HasShare value critical (int 1)
    at_most_one : (value /F critical >F int 1) ≡ false → HasShare value critical (value /F critical)

  -- Critical from the critical threshold, else high above 0.82 of it, else medium.
  pub data HasSeverity (value critical share : F) : String → Type 0 where
    at_critical : (value ≥F critical) ≡ true → HasSeverity value critical share "critical"
    near_critical :
        (value ≥F critical) ≡ false
        → (share >F dec 82 2) ≡ true
        → HasSeverity value critical share "high"
    at_warning :
        (value ≥F critical) ≡ false
        → (share >F dec 82 2) ≡ false
        → HasSeverity value critical share "medium"

  pub breach_score-HasShare : (v k : F) → HasShare v k (breach_score v k)
  unfolding breach_score
  breach_score-HasShare v k = elim (Bool-cases (v /F k >F int 1)) [
    | inl e ↦ rw e (over_one e)
    | inr e ↦ rw e (at_most_one e)
  ]

  pub HasShare-breach_score : (v k share : F) → HasShare v k share → share ≡ breach_score v k
  unfolding breach_score
  HasShare-breach_score v k _ (over_one e) = rw e refl
  HasShare-breach_score v k _ (at_most_one e) = rw e refl

  pub breach_severity-HasSeverity :
      (v k : F) → HasSeverity v k (breach_score v k) (breach_severity v k)
  unfolding breach_severity
  breach_severity-HasSeverity v k = elim (Bool-cases (v ≥F k)) [
    | inl e ↦ rw e (at_critical e)
    | inr e ↦ elim (Bool-cases (breach_score v k >F dec 82 2)) [
      | inl h ↦ rw (e, h) (near_critical e h)
      | inr h ↦ rw (e, h) (at_warning e h)
    ]
  ]

  pub HasSeverity-breach_severity :
      (v k : F) (text : String)
      → HasSeverity v k (breach_score v k) text
      → text ≡ breach_severity v k
  unfolding breach_severity
  HasSeverity-breach_severity v k _ (at_critical e) = rw e refl
  HasSeverity-breach_severity v k _ (near_critical e h) = rw (e, h) refl
  HasSeverity-breach_severity v k _ (at_warning e h) = rw (e, h) refl

  checks-Reads-All :
      (d : DeviceTelemetry F)
      → All (λ c. ∥ Reads d c.name (c.value d) c.warning c.critical ∥₁) checks
  unfolding checks
  checks-Reads-All d = (∣ cpu ∣₁, (∣ memory ∣₁, (∣ latency ∣₁, (∣ loss ∣₁, (∣ thermal ∣₁, tt)))))

  -- A check of the table is the reading of its signal.
  pub checks-Reads :
      (d : DeviceTelemetry F) (c : SignalCheck F)
      → Mem c checks
      → ∥ Reads d c.name (c.value d) c.warning c.critical ∥₁
  checks-Reads d c m = All-mem _ (λ a. squash₁) checks c (checks-Reads-All d) m

  abbrev pub IsCheckOf : DeviceTelemetry F → String → F → F → F → SignalCheck F → Type 0
  IsCheckOf d name v w k c =
      Mem c checks × (c.name ≡ name) × (c.value d ≡ v) × (c.warning ≡ w) × (c.critical ≡ k)

  abbrev pub CheckOf : (d : DeviceTelemetry F) (name : String) (v w k : F) → Type 0
  CheckOf d name v w k = (c : SignalCheck F) × IsCheckOf d name v w k c

  pub Reads-checks :
      (d : DeviceTelemetry F) (name : String) (v w k : F)
      → Reads d name v w k
      → CheckOf d name v w k
  unfolding checks
  Reads-checks d _ _ _ _ cpu = (_, (mem-cons_self, refl, refl, refl, refl))
  Reads-checks d _ _ _ _ memory = (_, (mem-cons_of_mem _ mem-cons_self, refl, refl, refl, refl))
  Reads-checks d _ _ _ _ latency =
      (_, (mem-cons_of_mem _ (mem-cons_of_mem _ mem-cons_self), refl, refl, refl, refl))
  Reads-checks d _ _ _ _ loss = (
    _,
    (
      mem-cons_of_mem _ (mem-cons_of_mem _ (mem-cons_of_mem _ mem-cons_self)),
      refl,
      refl,
      refl,
      refl,
    ),
  )
  Reads-checks d _ _ _ _ thermal = (
    _,
    (
      mem-cons_of_mem _ (mem-cons_of_mem _ (mem-cons_of_mem _ (mem-cons_of_mem _ mem-cons_self))),
      refl,
      refl,
      refl,
      refl,
    ),
  )
