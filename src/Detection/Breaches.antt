-- ===== src/Detection/Breaches.antt =====
-- Which anomalies `Detect` reports.
use mathlib.Core.List.{mem-append, mem-cons, mem-cons_self, mem-cons_of_mem, not-mem-nil}
use mathlib.Core.Logic.{∥∥₁_elim, ∥∥₁_map}
use mathlib.Core.Logic.Or
use vyomm.Prelude.{
  String, ◌≡◌, ◌↔◌, false, refl, sym, subst, List, [], ◌∷◌, Mem, arith, Bool-cases, inl, inr,
}
use vyomm.Float64.{Float64, ◌<F◌}
use vyomm.GoTime.{Time}
use vyomm.Telemetry.{DeviceTelemetry}
use vyomm.Detection.{
  Anomaly, SignalCheck, checks, check_device, check_all, detect, anomaly_id, bucket_of, round3,
  breach_score, breach_severity,
}
use vyomm.Detection.Signals.{
  Reads, HasShare, HasSeverity, IsCheckOf, breach_score-HasShare, HasShare-breach_score,
  breach_severity-HasSeverity, HasSeverity-breach_severity, checks-Reads, Reads-checks,
}

module _ {F : Type 0} ⦃fl : Float64 F⦄ where
  -- An anomaly that a reading of a device accounts for.
  pub record IsBreach (sha1_hex : String → String) (now : Time) (d : DeviceTelemetry F)
      (a : Anomaly F) : Type 0 where
    pub value : F
    pub warning : F
    pub critical : F
    pub share : F
    pub reads : Reads d a.signal value warning critical
    pub over : (value <F warning) ≡ false
    pub share_of : HasShare value critical share
    pub severity_of : HasSeverity value critical share a.severity
    pub score_of : a.score ≡ round3 share
    pub device_of : a.device ≡ d.hostname
    pub time_of : a.detected_at ≡ now
    pub id_of : a.id ≡ anomaly_id sha1_hex d.hostname a.signal (bucket_of now)

  module _ (sha1_hex : String → String) (now : Time) where
    abbrev anomaly_at : DeviceTelemetry F → SignalCheck F → Anomaly F
    anomaly_at d c = record {
      id = anomaly_id sha1_hex d.hostname c.name (bucket_of now);
      score = round3 (breach_score (c.value d) c.critical);
      severity = breach_severity (c.value d) c.critical;
      device = d.hostname;
      signal = c.name;
      detected_at = now;
    }

    anomaly_at-IsBreach :
        (d : DeviceTelemetry F) (c : SignalCheck F)
        → Reads d c.name (c.value d) c.warning c.critical
        → (c.value d <F c.warning) ≡ false
        → IsBreach sha1_hex now d (anomaly_at d c)
    anomaly_at-IsBreach d c r e = record {
      value = c.value d;
      warning = c.warning;
      critical = c.critical;
      share = breach_score (c.value d) c.critical;
      reads = r;
      over = e;
      share_of = breach_score-HasShare (c.value d) c.critical;
      severity_of = breach_severity-HasSeverity (c.value d) c.critical;
      score_of = refl;
      device_of = refl;
      time_of = refl;
      id_of = refl;
    }

    check_device_mem :
        (d : DeviceTelemetry F) (c : SignalCheck F) (a : Anomaly F)
        → Mem c checks
        → Mem a (check_device sha1_hex now d c)
        → ∥ IsBreach sha1_hex now d a ∥₁
    unfolding check_device
    check_device_mem d c a mc m = elim (Bool-cases (c.value d <F c.warning)) [
      | inl e ↦ absurd (not-mem-nil (rw e at m))
      | inr e ↦
          Or.elim squash₁ (mem-cons.0 (rw e at m))
            (λ p.
              subst (λ x. ∥ IsBreach sha1_hex now d x ∥₁) (sym p)
                (∥∥₁_map (checks-Reads d c mc) λ r. anomaly_at-IsBreach d c r e))
            (λ r. absurd (not-mem-nil r))
    ]

    IsBreach-anomaly_at :
        (d : DeviceTelemetry F) (a : Anomaly F) (b : IsBreach sha1_hex now d a) (c : SignalCheck F)
        → IsCheckOf d a.signal b.value b.warning b.critical c
        → a ≡ anomaly_at d c
    IsBreach-anomaly_at d a b c (m, named, reads, warns, tops) =
        let share = HasShare-breach_score b.value b.critical b.share b.share_of in
        let severe =
          HasSeverity-breach_severity b.value b.critical a.severity
            (subst (λ x. HasSeverity b.value b.critical x a.severity) share b.severity_of) in
        rw (named, reads, tops) (ground (arith, b, share, severe))

    mem-check_device :
        (d : DeviceTelemetry F) (a : Anomaly F) (b : IsBreach sha1_hex now d a) (c : SignalCheck F)
        → IsCheckOf d a.signal b.value b.warning b.critical c
        → Mem a (check_device sha1_hex now d c)
    unfolding check_device
    mem-check_device d a b c k =
        let (m, named, reads, warns, tops) = k in
        let over : (c.value d <F c.warning) ≡ false = rw (reads, warns) (b.over) in
        rw over (mem-cons.1 (Or.inl (IsBreach-anomaly_at d a b c k)))

    -- Some device of the batch accounts for the anomaly.
    abbrev pub Accounted : List (DeviceTelemetry F) → Anomaly F → Type 0
    Accounted ds a = ∥ ((d : DeviceTelemetry F) × Mem d ds × IsBreach sha1_hex now d a) ∥₁

    mem-check_all :
        (d : DeviceTelemetry F) (cs : List (SignalCheck F)) (a : Anomaly F)
        → ((c : SignalCheck F) → Mem c cs → Mem c checks)
        → Mem a (check_all sha1_hex now d cs)
        → ∥ IsBreach sha1_hex now d a ∥₁
    unfolding check_all
    mem-check_all d [] a sub m = absurd (not-mem-nil m)
    mem-check_all d (c ∷ cs) a sub m =
        Or.elim squash₁ (mem-append.0 m) (check_device_mem d c a (sub c mem-cons_self))
          (mem-check_all d cs a (λ k mk. sub k (mem-cons_of_mem c mk)))

    check_all-mem :
        (d : DeviceTelemetry F) (cs : List (SignalCheck F)) (c : SignalCheck F) (a : Anomaly F)
        → Mem c cs
        → Mem a (check_device sha1_hex now d c)
        → Mem a (check_all sha1_hex now d cs)
    unfolding check_all
    check_all-mem d [] c a m b = absurd (not-mem-nil m)
    check_all-mem d (k ∷ cs) c a m b =
        Or.elim squash₁ (mem-cons.0 m)
          (λ e. mem-append.1 (Or.inl (subst (λ x. Mem a (check_device sha1_hex now d x)) e b)))
          (λ r. mem-append.1 (Or.inr (check_all-mem d cs c a r b)))

    detect_sound :
        (ds : List (DeviceTelemetry F)) (a : Anomaly F)
        → Mem a (detect sha1_hex now ds)
        → Accounted ds a
    unfolding detect
    detect_sound [] a m = absurd (not-mem-nil m)
    detect_sound (d ∷ ds) a m =
        Or.elim squash₁ (mem-append.0 m)
          (λ here. ∥∥₁_map (mem-check_all d checks a (λ c h. h) here) λ b. (d, mem-cons_self, b))
          (λ there. ∥∥₁_map (detect_sound ds a there) λ (e, me, b). (e, mem-cons_of_mem d me, b))

    detect-complete :
        (ds : List (DeviceTelemetry F)) (d : DeviceTelemetry F) (a : Anomaly F)
        → Mem d ds
        → Mem a (check_all sha1_hex now d checks)
        → Mem a (detect sha1_hex now ds)
    unfolding detect
    detect-complete [] d a m b = absurd (not-mem-nil m)
    detect-complete (e ∷ ds) d a m b =
        Or.elim squash₁ (mem-cons.0 m)
          (λ p. mem-append.1 (Or.inl (subst (λ x. Mem a (check_all sha1_hex now x checks)) p b)))
          (λ r. mem-append.1 (Or.inr (detect-complete ds d a r b)))

    accounted-detect :
        (ds : List (DeviceTelemetry F)) (d : DeviceTelemetry F) (a : Anomaly F)
        → Mem d ds
        → IsBreach sha1_hex now d a
        → Mem a (detect sha1_hex now ds)
    accounted-detect ds d a md b =
        let (c, k) = Reads-checks d a.signal b.value b.warning b.critical b.reads in
        detect-complete ds d a md (check_all-mem d checks c a k.0 (mem-check_device d a b c k))

    -- An anomaly is reported exactly when some device of the batch accounts for it: under the
    -- anomaly's signal the device's reading (CPU 88 and 97, memory 86 and 96, latency 85 and 150,
    -- packet loss 3.5 and 8, temperature 72 and 86, as the warning and critical thresholds) is not
    -- below the warning threshold; the score is the reading's share of the critical threshold, at most
    -- 1, rounded; the severity is critical if the reading is at least the critical threshold, else high
    -- if the share is above 0.82, else medium; and the anomaly carries the device, the time, and the ID
    -- of device, signal and time bucket.
    pub detect_iff :
        (ds : List (DeviceTelemetry F)) (a : Anomaly F)
        → Mem a (detect sha1_hex now ds) ↔ Accounted ds a
    detect_iff ds a =
        (detect_sound ds a, λ t. ∥∥₁_elim t squash₁ λ (d, md, b). accounted-detect ds d a md b)
