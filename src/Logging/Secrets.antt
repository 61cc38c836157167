-- ===== src/Logging/Secrets.antt =====
-- internal/observability/logging/logger.go: redactPattern on a list of runes, and redactString.
pub mod Clean
use vyomm.Prelude.{
  ℕ, zero, suc, ◌+◌, ◌-◌, Bool, true, false, not, ◌&&◌, ◌||◌, Option, none, some, List, [], ◌∷◌,
  ◌++◌, leb, ltb, eqb, if◌then◌else◌,
}
use vyomm.Prelude.Text.{codes}
use vyomm.GoStrings.{has_part}

-- A rune under `(?i)`: the two runes outside ASCII fold to the Latin letters that look like them.
unfoldable pub fold_case : ℕ → ℕ
fold_case c =
    if leb b'A' c && leb c b'Z'
    then c + 32
    else if eqb c 0x17F
    then b's'
    else if eqb c 0x212A
    then b'k'
    else c

-- `[A-Za-z0-9]` under `(?i)`
unfoldable pub is_word : ℕ → Bool
is_word c =
    (leb b'0' c && leb c b'9')
    || (leb b'A' c && leb c b'Z')
    || (leb b'a' c && leb c b'z')
    || eqb c 0x17F
    || eqb c 0x212A

-- `[A-Za-z0-9._-]` under `(?i)`
unfoldable pub is_token : ℕ → Bool
unfolding is_word
is_token c = is_word c || eqb c b'.' || eqb c b'_' || eqb c b'-'

-- `\s`
unfoldable pub is_blank : ℕ → Bool
is_blank c = eqb c 9 || eqb c 10 || eqb c 12 || eqb c 13 || eqb c 32

-- What follows a literal at the start of a text.
unfoldable pub strip : List ℕ → List ℕ → Option (List ℕ)
unfolding fold_case
strip [] s = some s
strip (l ∷ ls) [] = none
strip (l ∷ ls) (c ∷ s) = let rest = strip ls s in if eqb (fold_case c) l then rest else none

-- How many runes of a class a text starts with, and what follows them.
unfoldable pub run_length : (ℕ → Bool) → List ℕ → ℕ
run_length class [] = 0
run_length class (c ∷ s) = let n = run_length class s in if class c then suc n else 0

unfoldable pub past_run : (ℕ → Bool) → List ℕ → List ℕ
past_run class [] = []
past_run class (c ∷ s) = let rest = past_run class s in if class c then rest else c ∷ s

-- `gsk_[A-Za-z0-9]+`: the length of the match at the start of a text, or 0.
unfoldable pub match_gsk : List ℕ → ℕ
unfolding strip run_length is_word
match_gsk s = elim (strip (codes "gsk_") s) [
  | none ↦ 0
  | some rest ↦ let n = run_length is_word rest in if ltb n 1 then 0 else 4 + n
]

-- `sk-[A-Za-z0-9]{16,}`
unfoldable pub match_sk : List ℕ → ℕ
unfolding strip run_length is_word
match_sk s = elim (strip (codes "sk-") s) [
  | none ↦ 0
  | some rest ↦ let n = run_length is_word rest in if ltb n 16 then 0 else 3 + n
]

-- `bearer\s+[A-Za-z0-9._-]+`
unfoldable pub match_bearer : List ℕ → ℕ
unfolding strip run_length past_run is_blank is_token
match_bearer s = elim (strip (codes "bearer") s) [
  | none ↦ 0
  | some rest ↦
      let blanks = run_length is_blank rest in
      let n = run_length is_token (past_run is_blank rest) in
      if ltb blanks 1 || ltb n 1 then 0 else 6 + blanks + n
]

-- The first alternative that matches at the start of a text gives the length of the match.
unfoldable pub match_length : List ℕ → ℕ
unfolding match_gsk match_sk match_bearer
match_length s =
    if not (eqb (match_gsk s) 0)
    then match_gsk s
    else if not (eqb (match_sk s) 0)
    then match_sk s
    else match_bearer s

-- `redactPattern.FindStringIndex(s) != nil`
unfoldable pub has_match : List ℕ → Bool
unfolding match_length
has_match [] = false
has_match (c ∷ s) = not (eqb (match_length (c ∷ s)) 0) || has_match s

abbrev pub marker : List ℕ
marker = codes "[REDACTED]"

-- `ReplaceAllString`: the matches from left to right, each after the end of the one before; `skip`
-- counts the runes left of the current match.
unfoldable pub replace_from : ℕ → List ℕ → List ℕ
unfolding match_length
replace_from skip [] = []
replace_from (suc skip) (c ∷ s) = replace_from skip s
replace_from zero (c ∷ s) =
    let n = match_length (c ∷ s) in
    let rest = replace_from (n - 1) s in if eqb n 0 then c ∷ rest else marker ++ rest

-- `redactString`; `to_lower` is strings.ToLower.
unfoldable pub redact_string : (List ℕ → List ℕ) → List ℕ → List ℕ
unfolding has_match replace_from
redact_string to_lower s =
    if not (has_part (to_lower s) (codes "bearer")) && not (has_match s)
    then s
    else replace_from 0 s
