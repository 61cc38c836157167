-- ===== src/Incidents/Rules/FirstMatch.antt =====
-- Which candidates `Correlate` returns.
use mathlib.Core.List.{mem-append, mem-cons, mem-cons_self, mem-cons_of_mem, not-mem-nil}
use mathlib.Core.Logic.{∥∥₁_elim, ∥∥₁_map}
use mathlib.Core.Logic.Or
use vyomm.Prelude.{
  ◌≤◌, ◌≡◌, ◌↔◌, refl, sym, subst, ap, ◌∙◌, true, false, inl, inr, Bool-cases, List, [], ◌∷◌, ◌++◌,
  Mem, arith, length, length-append, All,
}
use vyomm.Float64.{Float64}
use vyomm.GoMap
use vyomm.GoMap.{GoMap}
use vyomm.Telemetry.{DeviceTelemetry}
use vyomm.Incidents.{Candidate}
use vyomm.Incidents.Neighbors.{resolve_neighbors}
use vyomm.Incidents.Rules.{
  Rule, rules, candidate_of, match_rules, correlate_from, correlate, index_hosts,
}

module _ {F : Type 0} ⦃fl : Float64 F⦄ where
  -- The candidate of the first rule of a list that matches a device and its neighbours.
  pub record IsFirstMatch (d : DeviceTelemetry F) (neighbors : List (DeviceTelemetry F))
      (rs : List (Rule F)) (c : Candidate F) : Type 0 where
    pub skipped : List (Rule F)
    pub rule : Rule F
    pub later : List (Rule F)
    pub split : rs ≡ skipped ++ (rule ∷ later)
    pub none_before : All (λ r. r.matches d neighbors ≡ false) skipped
    pub rule_matches : rule.matches d neighbors ≡ true
    pub made : c ≡ candidate_of d neighbors rule

  module _ (d : DeviceTelemetry F) (neighbors : List (DeviceTelemetry F)) where
    match_rules-first :
        (rs : List (Rule F)) (c : Candidate F)
        → Mem c (match_rules d neighbors rs)
        → ∥ IsFirstMatch d neighbors rs c ∥₁
    unfolding match_rules
    match_rules-first [] c m = absurd (not-mem-nil m)
    match_rules-first (r ∷ rs) c m = elim (Bool-cases (r.matches d neighbors)) [
      | inl e ↦
          Or.elim squash₁ (mem-cons.0 (rw e at m))
            (λ p. ∣ record {
              skipped = [];
              rule = r;
              later = rs;
              split = refl;
              none_before = tt;
              rule_matches = e;
              made = p;
            } ∣₁)
            (λ q. absurd (not-mem-nil q))
      | inr e ↦ ∥∥₁_map (match_rules-first rs c (rw e at m)) λ f. record {
        skipped = r ∷ f.skipped;
        rule = f.rule;
        later = f.later;
        split = ap (◌∷◌ r) f.split;
        none_before = (e, f.none_before);
        rule_matches = f.rule_matches;
        made = f.made;
      }
    ]

    first-match_rules :
        (skipped : List (Rule F)) (r : Rule F) (later : List (Rule F))
        → All (λ q. q.matches d neighbors ≡ false) skipped
        → r.matches d neighbors ≡ true
        → match_rules d neighbors (skipped ++ (r ∷ later)) ≡ candidate_of d neighbors r ∷ []
    unfolding match_rules
    first-match_rules [] r later n e = rw e refl
    first-match_rules (q ∷ skipped) r later n e = rw n.0 (first-match_rules skipped r later n.1 e)

    length-match_rules-le : (rs : List (Rule F)) → length (match_rules d neighbors rs) ≤ 1
    unfolding match_rules
    length-match_rules-le [] = omega arith
    length-match_rules-le (r ∷ rs) = ground (arith, length-match_rules-le rs)

  module _ (by_host : GoMap (DeviceTelemetry F)) where
    abbrev pub Accounted : List (DeviceTelemetry F) → Candidate F → Type 0
    Accounted ds c = ∥ (
        (d : DeviceTelemetry F) × Mem d ds
        × IsFirstMatch d (resolve_neighbors d by_host) rules c) ∥₁

    correlate_from_sound :
        (ds : List (DeviceTelemetry F)) (c : Candidate F)
        → Mem c (correlate_from by_host ds)
        → Accounted ds c
    unfolding correlate_from
    correlate_from_sound [] c m = absurd (not-mem-nil m)
    correlate_from_sound (d ∷ ds) c m =
        Or.elim squash₁ (mem-append.0 m)
          (λ here. ∥∥₁_map (match_rules-first d _ rules c here) λ f. (d, mem-cons_self, f))
          (λ there.
            ∥∥₁_map (correlate_from_sound ds c there) λ (e, me, f). (e, mem-cons_of_mem d me, f))

    mem-match_rules :
        (d : DeviceTelemetry F) (neighbors : List (DeviceTelemetry F)) (rs : List (Rule F))
        (c : Candidate F)
        → IsFirstMatch d neighbors rs c
        → Mem c (match_rules d neighbors rs)
    mem-match_rules d neighbors rs c f =
        let only =
          ap (match_rules d neighbors) f.split
          ∙ first-match_rules d neighbors f.skipped f.rule f.later f.none_before f.rule_matches in
        subst (Mem c) (sym only) (mem-cons.1 (Or.inl f.made))

    correlate_from-complete :
        (ds : List (DeviceTelemetry F)) (d : DeviceTelemetry F) (c : Candidate F)
        → Mem d ds
        → IsFirstMatch d (resolve_neighbors d by_host) rules c
        → Mem c (correlate_from by_host ds)
    unfolding correlate_from
    correlate_from-complete [] d c m f = absurd (not-mem-nil m)
    correlate_from-complete (e ∷ ds) d c m f =
        Or.elim squash₁ (mem-cons.0 m)
          (λ p. mem-append.1 (
            Or.inl (
              mem-match_rules e (resolve_neighbors e by_host) rules c
                (subst (λ x. IsFirstMatch x (resolve_neighbors x by_host) rules c) p f))))
          (λ r. mem-append.1 (Or.inr (correlate_from-complete ds d c r f)))

    length-correlate_from-le :
        (ds : List (DeviceTelemetry F)) → length (correlate_from by_host ds) ≤ length ds
    unfolding correlate_from
    length-correlate_from-le [] = omega arith
    length-correlate_from-le (d ∷ ds) = omega (
      arith,
      length-append (match_rules d (resolve_neighbors d by_host) rules) (correlate_from by_host ds),
      length-match_rules-le d (resolve_neighbors d by_host) rules,
      length-correlate_from-le ds,
    )

  -- A candidate is returned exactly when some device of the batch accounts for it: it is made of the
  -- first of the six rules that matches the device with its neighbours in the batch. No device gives
  -- more than one candidate.
  pub correlate_iff :
      (ds : List (DeviceTelemetry F))
      → ((c : Candidate F) → Mem c (correlate ds) ↔ Accounted (index_hosts ds GoMap.empty) ds c)
        × (length (correlate ds) ≤ length ds)
  unfolding correlate
  correlate_iff ds =
      let by_host = index_hosts ds GoMap.empty in
      (
        λ c. (
          correlate_from_sound by_host ds c,
          λ t. ∥∥₁_elim t squash₁ λ (d, m, f). correlate_from-complete by_host ds d c m f,
        ),
        length-correlate_from-le by_host ds,
      )
