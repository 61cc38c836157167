-- ===== src/Examples/Tools.antt =====
-- Redaction of log texts, and the batches and retries of the simulator.
use vyomm.Prelude.{ℕ, zero, ◌≡◌, ◌↔◌, refl, false, Option, none, some, List, [], ◌∷◌, arith, All}
use vyomm.Prelude.Text.{codes}
use vyomm.GoStrings.{has_part}
use vyomm.GoInt.{ℤ, pos}
use vyomm.Float64.Fixed.{fixed_float, Fixed-HasDecimals}
use vyomm.Logging.{LogRecord, LogOptions, handle_record, new_logger, level_info, text, other}
use vyomm.Logging.Secrets.{
  has_match, redact_string, replace_from, match_length, match_gsk, match_sk, match_bearer, strip,
  fold_case, run_length, past_run, is_word, is_token, is_blank,
}
use vyomm.Logging.Secrets.Clean.{redact_string_lem}
use vyomm.Logging.Redaction.{recorder, derive, IsCleanCall, group_added, handle_record-clean}
use vyomm.Simulator.{post}
use vyomm.Simulator.Posting.{IsRetried, post_lem}
use vyomm.Simulator.Scenarios.{Finds, generate_lem}
use vyomm.Examples.Samples.{start, plain_digest}

abbrev unchanged : List ℕ → List ℕ
unchanged s = s

abbrev leaked : List ℕ
leaked = codes "auth=Bearer abc.def next gsk_A1"

redacted-leaked : redact_string unchanged leaked ≡ codes "auth=[REDACTED] next [REDACTED]"
unfolding redact_string replace_from has_match match_length match_gsk match_sk match_bearer strip
    fold_case run_length past_run is_word is_token is_blank has_part
redacted-leaked = refl

redact_string_lem_example :
    (has_match (redact_string unchanged leaked) ≡ false)
    × (redact_string unchanged (redact_string unchanged leaked) ≡ redact_string unchanged leaked)
    × ((redact_string unchanged leaked ≡ leaked) ↔ (has_match leaked ≡ false))
redact_string_lem_example = redact_string_lem unchanged leaked

abbrev options : LogOptions
options = record { service = codes "vyomm-api"; mode = codes "trial"; level = level_info }

abbrev started : LogRecord ℕ
started = record {
  time = start;
  level = level_info;
  message = leaked;
  pc = 0;
  attrs =
      record { key = "attempt"; value = other 1 }
      ∷ record { key = "key"; value = text leaked }
      ∷ [];
}

handle_record-clean_example : All IsCleanCall (
    handle_record unchanged recorder
      (derive unchanged (new_logger unchanged recorder (λ _. []) options) (group_added "http" ∷ []))
      started)
handle_record-clean_example =
    handle_record-clean unchanged options (group_added "http" ∷ []) started

-- A client whose second answer is a success.
abbrev flaky : ℕ → Option ℕ
flaky zero = none
flaky _ = some 200

post_lem_example : IsRetried flaky (post (some "{}") flaky)
post_lem_example = post_lem "{}" flaky

abbrev steady : ℤ → ℕ
steady seed = 3

generate_lem_example :
    Finds Fixed-HasDecimals steady (pos 1) start plain_digest start "healthy-baseline" [] []
    × Finds Fixed-HasDecimals steady
        (pos 1)
        start
        plain_digest
        start
        "cpu-saturation"
        ("cpu_saturation" ∷ [])
        []
    × Finds Fixed-HasDecimals steady
        (pos 1)
        start
        plain_digest
        start
        "memory-pressure"
        ("memory_pressure" ∷ [])
        ("Memory Leak" ∷ [])
    × Finds Fixed-HasDecimals steady
        (pos 1)
        start
        plain_digest
        start
        "high-latency"
        ("high_latency" ∷ [])
        []
    × Finds Fixed-HasDecimals steady
        (pos 1)
        start
        plain_digest
        start
        "packet-loss"
        ("high_latency" ∷ "packet_loss" ∷ [])
        ("Packet Loss Degradation" ∷ [])
generate_lem_example =
    generate_lem Fixed-HasDecimals steady (pos 1) start plain_digest start (omega arith) refl
