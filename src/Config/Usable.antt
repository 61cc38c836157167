-- ===== src/Config/Usable.antt =====
-- What a loaded configuration satisfies.
use vyomm.Prelude.{
  String, true, false, ◌≡◌, ◌≢◌, ◌⊎◌, inl, inr, refl, subst, Bool-cases, Option, none, some, List,
  [], ◌∷◌, ◌==◌, ◌||◌, arith, eq_iff, All,
}
use vyomm.Prelude.Text.{codes}
use vyomm.GoStrings.{split_commas, trim_space, atoi}
use vyomm.Float64.{Float64, ◌<F◌, ◌>F◌, int}
use vyomm.GoInt.{ℤ, pos, ltb_ℤ}
use vyomm.Config.{
  Config, ConfigError, Lookup, mode_trial, mode_nvml_mock, mode_real_gpu, mode_valid, setting,
  read_mode, positive_hours, read_hours, origins_of, some_origins, read_origins, read_level,
  ratio_in_range, read_ratio, load,
}

abbrev IsMode : String → Type 0
IsMode m = (m ≡ mode_trial) ⊎ (m ≡ mode_nvml_mock) ⊎ (m ≡ mode_real_gpu)

abbrev IsLevel : String → Type 0
IsLevel l = (l ≡ "debug") ⊎ (l ≡ "info") ⊎ (l ≡ "warn") ⊎ (l ≡ "error")

abbrev IsPositive : ℤ → Type 0
IsPositive n = ltb_ℤ (pos 0) n ≡ true

abbrev AreOrigins : List String → Type 0
AreOrigins os = (os ≢ []) × All (λ o. o ≢ "") os

-- What holds of the default and of every value that is read holds of the setting.
setting-intro {ℓ κ} :
    {A : Type ℓ} (P : A → Type κ) (default : A) (read : String → A ⊎ ConfigError)
    → P default
    → ((v : String) (a : A) → read v ≡ inl a → P a)
    → (o : Option String) (a : A) → setting default read o ≡ inl a
    → P a
unfolding setting
setting-intro P default read d r none a h = let e : default ≡ a = cc in subst P e d
setting-intro P default read d r (some v) a h = elim (Bool-cases (v == "")) [
  | inl q ↦ let e : default ≡ a = ground arith in subst P e d
  | inr q ↦ r v a (ground arith)
]

read_mode-IsMode : (v m : String) → read_mode v ≡ inl m → IsMode m
unfolding read_mode mode_valid
read_mode-IsMode v m h =
    ground (arith, eq_iff v mode_trial, eq_iff v mode_nvml_mock, eq_iff v mode_real_gpu)

read_hours-IsPositive : (v : String) (n : ℤ) → read_hours v ≡ inl n → IsPositive n
unfolding read_hours positive_hours
read_hours-IsPositive v n h = go (atoi (codes v)) h
  where
    go : (o : Option ℤ) → positive_hours v o ≡ inl n → IsPositive n
    go none h = ground arith
    go (some k) h = elim (Bool-cases (ltb_ℤ (pos 0) k)) [
      | inl q ↦ let e : k ≡ n = ground arith in subst IsPositive e q
      | inr q ↦ absurd (ground arith)
    ]

origins_of-named : (ps : List String) → All (λ o. o ≢ "") (origins_of ps)
unfolding origins_of
origins_of-named [] = tt
origins_of-named (p ∷ ps) = ground (arith, origins_of-named ps, eq_iff (trim_space p) "")

some_origins-AreOrigins :
    (l os : List String) → All (λ o. o ≢ "") l → some_origins l ≡ inl os → AreOrigins os
unfolding some_origins
some_origins-AreOrigins [] os n h = ground arith
some_origins-AreOrigins (o ∷ l) os n h =
    let e : o ∷ l ≡ os = cc in subst AreOrigins e ((λ q. cc), n)

read_origins-AreOrigins : (v : String) (os : List String) → read_origins v ≡ inl os → AreOrigins os
unfolding read_origins
read_origins-AreOrigins v os h =
    some_origins-AreOrigins (origins_of ((split_commas v).0 ∷ (split_commas v).1)) os
      (origins_of-named ((split_commas v).0 ∷ (split_commas v).1)) h

default_origins : AreOrigins ("http://localhost:5173" ∷ "http://localhost:8080" ∷ [])
default_origins = (
  (λ q. cc),
  (
    (λ q. absurd (ground (arith, (eq_iff "http://localhost:5173" "").1 q))),
    ((λ q. absurd (ground (arith, (eq_iff "http://localhost:8080" "").1 q))), tt),
  ),
)

read_level-IsLevel :
    (to_lower : String → String) (v l : String) → read_level to_lower v ≡ inl l → IsLevel l
unfolding read_level
read_level-IsLevel to_lower v l h = ground (
  arith,
  eq_iff (to_lower v) "debug",
  eq_iff (to_lower v) "info",
  eq_iff (to_lower v) "warn",
  eq_iff (to_lower v) "error",
)

module _ {F : Type 0} ⦃fl : Float64 F⦄ where
  open fl use {dec}

  -- Not outside the unit interval; a NaN is not.
  abbrev pub IsRatio : F → Type 0
  IsRatio f = (f <F int 0 ≡ false) × (f >F int 1 ≡ false)

  pub record IsUsable (c : Config F) : Type 0 where
    pub mode : IsMode c.environment_mode
    pub hours : IsPositive c.telemetry_retention_hours
    pub origins : AreOrigins c.cors_allowed_origins
    pub ratio : IsRatio c.otel_traces_sample_ratio
    pub level : IsLevel c.log_level

  read_ratio-IsRatio :
      (parse_float : String → Option F) (v : String) (f : F)
      → read_ratio parse_float v ≡ inl f
      → IsRatio f
  unfolding read_ratio ratio_in_range
  read_ratio-IsRatio parse_float v f h = go (parse_float v) h
    where
      go : (o : Option F) → ratio_in_range v o ≡ inl f → IsRatio f
      go none h = ground arith
      go (some g) h = elim (Bool-cases (g <F int 0 || g >F int 1)) [
        | inl q ↦ absurd (ground arith)
        | inr q ↦ let e : g ≡ f = ground arith in subst IsRatio e (ground arith)
      ]

  load-settings :
      (to_lower : String → String) (parse_float : String → Option F) (lookup : Lookup)
      (c : Config F)
      → load to_lower parse_float lookup ≡ inl c
      → (setting mode_trial read_mode (lookup "VYOMM_ENVIRONMENT_MODE") ≡ inl c.environment_mode)
        × (setting (pos 24) read_hours (lookup "VYOMM_TELEMETRY_RETENTION_HOURS")
            ≡ inl c.telemetry_retention_hours)
        × (setting
              ("http://localhost:5173" ∷ "http://localhost:8080" ∷ [])
              read_origins
              (lookup "VYOMM_CORS_ALLOWED_ORIGINS")
            ≡ inl c.cors_allowed_origins)
        × (setting (dec 2 1) (read_ratio parse_float) (lookup "VYOMM_OTEL_TRACES_SAMPLE_RATIO")
            ≡ inl c.otel_traces_sample_ratio)
        × (setting "info" (read_level to_lower) (lookup "VYOMM_LOG_LEVEL") ≡ inl c.log_level)
  unfolding load
  load-settings to_lower parse_float lookup c h = ground arith

  -- A configuration that is loaded has one of the three modes, a positive number of retention hours,
  -- at least one origin and none that is empty, a sample ratio that is neither below 0 nor above 1,
  -- and one of the four log levels; the default ratio 0.2 has to compare so with 0 and 1.
  pub load-IsUsable :
      (to_lower : String → String) (parse_float : String → Option F) (lookup : Lookup)
      (c : Config F)
      → IsRatio (dec 2 1)
      → load to_lower parse_float lookup ≡ inl c
      → IsUsable c
  load-IsUsable to_lower parse_float lookup c d h =
      let (m, n, o, r, l) = load-settings to_lower parse_float lookup c h in
      record {
        mode = setting-intro IsMode mode_trial read_mode (inl refl) read_mode-IsMode _ _ m;
        hours = setting-intro IsPositive (pos 24) read_hours refl read_hours-IsPositive _ _ n;
        origins =
            setting-intro AreOrigins ("http://localhost:5173" ∷ "http://localhost:8080" ∷ [])
              read_origins default_origins read_origins-AreOrigins _ _ o;
        ratio =
            setting-intro IsRatio (dec 2 1) (read_ratio parse_float) d
              (read_ratio-IsRatio parse_float) _ _ r;
        level =
            setting-intro IsLevel "info" (read_level to_lower) (inr (inl refl))
              (read_level-IsLevel to_lower) _ _ l;
      }
