-- ===== src/Api/Riskiest.antt =====
-- The default device of a forecast.
use mathlib.Core.List.{mem-cons_self, mem-cons_of_mem}
use vyomm.Prelude.{
  ◌≡◌, ◌⊎◌, refl, sym, subst, true, false, inl, inr, Bool-cases, List, [], ◌∷◌, Mem, arith, All,
}
use vyomm.Float64.{Float64, IsOrdered, IsNumber, ◌<F◌, ◌≤F◌}
use vyomm.Telemetry.{DeviceTelemetry}
use vyomm.Api.{risk_score, riskiest_of, riskiest_among}

module _ {F : Type 0} ⦃fl : Float64 F⦄ (laws : IsOrdered F) where
  open laws use {lt_le, le_total, le_trans}

  -- No device of the list has a score above that of `best`.
  abbrev pub AreBelow : DeviceTelemetry F → List (DeviceTelemetry F) → Type 0
  AreBelow best = All (λ d. risk_score d ≤F risk_score best ≡ true)

  -- `r` is `best` or in the list, and no device of both has a score above its own.
  abbrev IsTop : DeviceTelemetry F → DeviceTelemetry F → List (DeviceTelemetry F) → Type 0
  IsTop r best ds = ((r ≡ best) ⊎ Mem r ds) × AreBelow r (best ∷ ds)

  lt-le : (x y : F) → IsNumber x → IsNumber y → x <F y ≡ true → x ≤F y ≡ true
  lt-le x y nx ny h = ground (arith, lt_le x y nx ny, le_total x y nx ny)

  not_lt-le : (x y : F) → IsNumber x → IsNumber y → x <F y ≡ false → y ≤F x ≡ true
  not_lt-le x y nx ny h = ground (arith, lt_le x y nx ny)

  riskiest_of-IsTop :
      (best : DeviceTelemetry F) (ds : List (DeviceTelemetry F))
      → All (λ d. IsNumber (risk_score d)) (best ∷ ds)
      → IsTop (riskiest_of best ds) best ds
  unfolding riskiest_of
  riskiest_of-IsTop best [] (n, _) = (inl refl, (n, tt))
  riskiest_of-IsTop best (d ∷ ds) (nb, (nd, ns)) =
      elim (Bool-cases (risk_score best <F risk_score d)) [
        | inl e ↦
            let (m, (below, rest)) = riskiest_of-IsTop d ds (nd, ns) in
            let r = riskiest_of d ds in
            let up : risk_score best ≤F risk_score r ≡ true =
              le_trans (risk_score best) (risk_score d) (risk_score r)
                (lt-le (risk_score best) (risk_score d) nb nd e) below in
            let found : Mem r (d ∷ ds) = elim m [
              | inl q ↦ subst (λ x. Mem x (d ∷ ds)) (sym q) mem-cons_self
              | inr q ↦ mem-cons_of_mem d q
            ] in
            subst (λ b. IsTop (riskiest_of b ds) best (d ∷ ds)) (rw e refl)
              (inr found, (up, (below, rest)))
        | inr e ↦
            let (m, (below, rest)) = riskiest_of-IsTop best ds (nb, ns) in
            let r = riskiest_of best ds in
            let down : risk_score d ≤F risk_score r ≡ true =
              le_trans (risk_score d) (risk_score best) (risk_score r)
                (not_lt-le (risk_score best) (risk_score d) nb nd e) below in
            let found : (r ≡ best) ⊎ Mem r (d ∷ ds) = elim m [
              | inl q ↦ inl q
              | inr q ↦ inr (mem-cons_of_mem d q)
            ] in
            subst (λ b. IsTop (riskiest_of b ds) best (d ∷ ds)) (rw e refl)
              (found, (below, (down, rest)))
      ]

  -- With the laws of comparisons, where all scores are numbers and there is a device, the default device is the host name of a
  -- known device, and no known device has a higher score.
  pub riskiest_among_lem :
      (d : DeviceTelemetry F) (ds : List (DeviceTelemetry F))
      → All (λ x. IsNumber (risk_score x)) (d ∷ ds)
      → (r : DeviceTelemetry F) × (riskiest_among (d ∷ ds) ≡ r.hostname)
        × Mem r (d ∷ ds)
        × AreBelow r (d ∷ ds)
  unfolding riskiest_among
  riskiest_among_lem d ds n =
      let (m, below) = riskiest_of-IsTop d ds n in
      let found : Mem (riskiest_of d ds) (d ∷ ds) = elim m [
        | inl q ↦ subst (λ x. Mem x (d ∷ ds)) (sym q) mem-cons_self
        | inr q ↦ mem-cons_of_mem d q
      ] in
      (riskiest_of d ds, refl, found, below)
