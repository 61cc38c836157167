-- ===== src/Config.antt =====
-- internal/config/config.go: the configuration from environment variables.
pub mod Usable
pub mod Retention
use vyomm.Prelude.{
  ℕ, ◌+◌, ◌-◌, ◌*◌, ◌^◌, String, Bool, true, false, not, ◌||◌, ◌⊎◌, inl, inr, Option, none, some,
  List, [], ◌∷◌, ◌==◌, if◌then◌else◌,
}
use vyomm.Prelude.Text.{codes}
use vyomm.GoStrings.{split_commas, trim_space, atoi}
use vyomm.Float64.{Float64, ◌<F◌, ◌>F◌, int}
use vyomm.GoInt.{ℤ, pos, negsuc, pos_part, neg_part, ltb_ℤ, signed64}
use vyomm.GoTime.{Duration, hour}

abbrev pub mode_trial : String
mode_trial = "trial"

abbrev pub mode_nvml_mock : String
mode_nvml_mock = "nvml-mock"

abbrev pub mode_real_gpu : String
mode_real_gpu = "real-gpu"

unfoldable pub mode_valid : String → Bool
mode_valid m = m == mode_trial || m == mode_nvml_mock || m == mode_real_gpu

pub record Config (F : Type 0) : Type 0 where
  pub environment_mode : String
  pub llm_api_key : String
  pub llm_base_url : String
  pub llm_model : String
  pub sqlite_path : String
  pub telemetry_retention_hours : ℤ
  pub api_addr : String
  pub cors_allowed_origins : List String
  pub otel_exporter_endpoint : String
  pub otel_traces_sample_ratio : F
  pub log_level : String

pub data ConfigError : Type 0 where
  invalid_mode invalid_retention invalid_ratio invalid_level : String → ConfigError
  zero_origins : ConfigError

-- `os.LookupEnv`
abbrev pub Lookup : Type 0
Lookup = String → Option String

-- `if v, ok := lookup(key); ok && v != "" { field = v }`
unfoldable pub text_or : String → Option String → String
text_or default none = default
text_or default (some v) = if v == "" then default else v

unfoldable pub key_or_empty : Option String → String
key_or_empty none = ""
key_or_empty (some v) = v

-- What a variable that is set and not empty reads as, or the default.
unfoldable pub setting {ℓ} :
    {A : Type ℓ} → A → (String → A ⊎ ConfigError) → Option String → A ⊎ ConfigError
setting default read none = inl default
setting default read (some v) = let value = read v in if v == "" then inl default else value

unfoldable pub read_mode : String → String ⊎ ConfigError
unfolding mode_valid
read_mode v = if not (mode_valid v) then inr (invalid_mode v) else inl v

unfoldable pub positive_hours : String → Option ℤ → ℤ ⊎ ConfigError
positive_hours v none = inr (invalid_retention v)
positive_hours v (some n) = if ltb_ℤ (pos 0) n then inl n else inr (invalid_retention v)

unfoldable pub read_hours : String → ℤ ⊎ ConfigError
unfolding positive_hours
read_hours v = positive_hours v (atoi (codes v))

-- The loop over the parts.
unfoldable pub origins_of : List String → List String
origins_of [] = []
origins_of (p ∷ ps) =
    let rest = origins_of ps in if trim_space p == "" then rest else trim_space p ∷ rest

unfoldable pub some_origins : List String → List String ⊎ ConfigError
some_origins [] = inr zero_origins
some_origins (o ∷ os) = inl (o ∷ os)

unfoldable pub read_origins : String → List String ⊎ ConfigError
unfolding some_origins
read_origins v = let (first, others) = split_commas v in some_origins (origins_of (first ∷ others))

-- `to_lower` is strings.ToLower.
unfoldable pub read_level : (String → String) → String → String ⊎ ConfigError
read_level to_lower v =
    let l = to_lower v in
    if l == "debug" || l == "info" || l == "warn" || l == "error"
    then inl l
    else inr (invalid_level v)

module _ {F : Type 0} ⦃fl : Float64 F⦄ where
  open fl use {dec}

  unfoldable pub ratio_in_range : String → Option F → F ⊎ ConfigError
  ratio_in_range v none = inr (invalid_ratio v)
  ratio_in_range v (some f) = if f <F int 0 || f >F int 1 then inr (invalid_ratio v) else inl f

  -- `parse_float` is strconv.ParseFloat at 64 bits; `none` is its error.
  unfoldable pub read_ratio : (String → Option F) → String → F ⊎ ConfigError
  unfolding ratio_in_range
  read_ratio parse_float v = ratio_in_range v (parse_float v)

  unfoldable pub load : (String → String) → (String → Option F) → Lookup → Config F ⊎ ConfigError
  load to_lower parse_float lookup =
      elim (setting mode_trial read_mode (lookup "VYOMM_ENVIRONMENT_MODE")) [
        | inr e ↦ inr e
        | inl mode ↦ elim (setting (pos 24) read_hours (lookup "VYOMM_TELEMETRY_RETENTION_HOURS")) [
          | inr e ↦ inr e
          | inl hours ↦
              elim (setting ("http://localhost:5173" ∷ "http://localhost:8080" ∷ []) read_origins
                (lookup "VYOMM_CORS_ALLOWED_ORIGINS")) [
                  | inr e ↦ inr e
                  | inl origins ↦
                      elim (setting (dec 2 1) (read_ratio parse_float)
                        (lookup "VYOMM_OTEL_TRACES_SAMPLE_RATIO")) [
                          | inr e ↦ inr e
                          | inl ratio ↦
                              elim (setting "info" (read_level to_lower)
                                (lookup "VYOMM_LOG_LEVEL")) [
                                  | inr e ↦ inr e
                                  | inl level ↦ inl (record {
                                    environment_mode = mode;
                                    llm_api_key = key_or_empty (lookup "VYOMM_LLM_API_KEY");
                                    llm_base_url =
                                        text_or "https://api.groq.com/openai/v1"
                                          (lookup "VYOMM_LLM_BASE_URL");
                                    llm_model =
                                        text_or "llama-3.3-70b-versatile"
                                          (lookup "VYOMM_LLM_MODEL");
                                    sqlite_path =
                                        text_or "./data/vyomm.db" (lookup "VYOMM_SQLITE_PATH");
                                    telemetry_retention_hours = hours;
                                    api_addr = text_or ":8080" (lookup "VYOMM_API_ADDR");
                                    cors_allowed_origins = origins;
                                    otel_exporter_endpoint =
                                        text_or "http://localhost:4318"
                                          (lookup "VYOMM_OTEL_EXPORTER_OTLP_ENDPOINT");
                                    otel_traces_sample_ratio = ratio;
                                    log_level = level;
                                  })
                                ]
                        ]
                ]
        ]
      ]

-- `time.Duration(hours) * time.Hour`, which wraps.
unfoldable pub hours_duration : ℤ → Duration
unfolding signed64
hours_duration (pos n) = signed64 (n * hour)
hours_duration (negsuc n) = signed64 ((2 ^ 64 - hour) * (n + 1))

module _ {F : Type 0} where
  unfoldable pub retention_duration : Config F → Duration
  unfolding hours_duration
  retention_duration c = hours_duration c.telemetry_retention_hours

  unfoldable pub has_real_llm_key : Config F → Bool
  has_real_llm_key c = not (trim_space c.llm_api_key == "")
