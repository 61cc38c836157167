-- ===== src/Logging/Secrets/Clean.antt =====
-- What redactString leaves.
use vyomm.Prelude.{
  ℕ, zero, suc, ◌+◌, ◌-◌, ◌≤◌, ◌≡◌, ◌↔◌, refl, sym, subst, ap, ◌∙◌, Bool, true, false, not, ◌||◌,
  inl, inr, Bool-cases, Option-cases, some, List, [], ◌∷◌, ◌++◌, ltb, eqb, eqb_iff, arith,
  if◌then◌else◌, All,
}
use vyomm.Prelude.Text.{codes}
use vyomm.Logging.Secrets.{
  fold_case, is_word, is_token, is_blank, strip, run_length, past_run, match_gsk, match_sk,
  match_bearer, match_length, has_match, marker, replace_from, redact_string,
}

-- A text, up to where another one is cut off by an opening bracket.
data Cut : List ℕ → List ℕ → Type 0 where
  ended : Cut [] []
  same : (c : ℕ) {o s : List ℕ} → Cut o s → Cut (c ∷ o) (c ∷ s)
  cut : (o s : List ℕ) → Cut (b'[' ∷ o) s

module _ (class : ℕ → Bool) (outside : class b'[' ≡ false) where
  run_length-Cut : (o s : List ℕ) → Cut o s → run_length class o ≤ run_length class s
  unfolding run_length
  run_length-Cut _ _ ended = omega arith
  run_length-Cut _ _ (same c {o = o} {s = s} k) = ground (arith, run_length-Cut o s k)
  run_length-Cut _ _ (cut o s) = ground arith

  past_run-Cut : (o s : List ℕ) → Cut o s → Cut (past_run class o) (past_run class s)
  unfolding past_run
  past_run-Cut _ _ ended = ended
  past_run-Cut _ _ (same c {o = o} {s = s} k) = elim (Bool-cases (class c)) [
    | inl e ↦ rw e (past_run-Cut o s k)
    | inr e ↦ rw e (same c k)
  ]
  past_run-Cut _ _ (cut o s) = rw outside (cut o (past_run class s))

strip-Cut :
    (ls : List ℕ) (o s rest : List ℕ)
    → All (λ l. eqb b'[' l ≡ false) ls
    → Cut o s
    → strip ls o ≡ some rest
    → (after : List ℕ) × (strip ls s ≡ some after) × Cut rest after
unfolding strip fold_case
strip-Cut [] o s rest plain k e = (s, refl, subst (λ x. Cut x s) (ground arith) k)
strip-Cut (l ∷ ls) _ _ rest plain ended e = cc
strip-Cut (l ∷ ls) _ _ rest plain (same c {o = o} {s = s} k) e =
    elim (Bool-cases (eqb (fold_case c) l)) [
      | inl e' ↦ rw e' (strip-Cut ls o s rest plain.1 k (ground arith))
      | inr e' ↦ absurd (ground arith)
    ]
strip-Cut (l ∷ ls) _ _ rest plain (cut o s) e = absurd (ground arith)

gsk-plain : All (λ l. eqb b'[' l ≡ false) (codes "gsk_")
gsk-plain = search

sk-plain : All (λ l. eqb b'[' l ≡ false) (codes "sk-")
sk-plain = search

bearer-plain : All (λ l. eqb b'[' l ≡ false) (codes "bearer")
bearer-plain = search

fewer-zero :
    (a n a' n' : ℕ)
    → a ≤ a'
    → n ≤ n'
    → (if ltb a' 1 || ltb n' 1 then 0 else 6 + a' + n') ≡ 0
    → (if ltb a 1 || ltb n 1 then 0 else 6 + a + n) ≡ 0
fewer-zero a n a' n' la ln h = ground arith

none-zero :
    (a b c : ℕ)
    → (if not (eqb a 0) then a else if not (eqb b 0) then b else c) ≡ 0
    → (a ≡ 0) × (b ≡ 0) × (c ≡ 0)
none-zero a b c h = ground arith

module _ (o s : List ℕ) (k : Cut o s) where
  match_gsk-Cut : match_gsk s ≡ 0 → match_gsk o ≡ 0
  unfolding match_gsk is_word
  match_gsk-Cut h = elim (Option-cases (strip (codes "gsk_") o)) [
    | inl e ↦ rw (e, match_gsk) refl
    | inr (rest, e) ↦
        let (after, f, k') = strip-Cut (codes "gsk_") o s rest gsk-plain k e in
        let n = run_length-Cut is_word refl rest after k' in ground (arith, e, f, n)
  ]

  match_sk-Cut : match_sk s ≡ 0 → match_sk o ≡ 0
  unfolding match_sk is_word
  match_sk-Cut h = elim (Option-cases (strip (codes "sk-") o)) [
    | inl e ↦ rw (e, match_sk) refl
    | inr (rest, e) ↦
        let (after, f, k') = strip-Cut (codes "sk-") o s rest sk-plain k e in
        let n = run_length-Cut is_word refl rest after k' in ground (arith, e, f, n)
  ]

  match_bearer-Cut : match_bearer s ≡ 0 → match_bearer o ≡ 0
  unfolding match_bearer is_blank is_token is_word
  match_bearer-Cut h = elim (Option-cases (strip (codes "bearer") o)) [
    | inl e ↦ rw (e, match_bearer) refl
    | inr (rest, e) ↦
        let (after, f, k') = strip-Cut (codes "bearer") o s rest bearer-plain k e in
        let blanks = run_length-Cut is_blank refl rest after k' in
        let n =
          run_length-Cut is_token refl (past_run is_blank rest) (past_run is_blank after)
            (past_run-Cut is_blank refl rest after k') in
        let found : match_bearer s ≡ (
            if ltb (run_length is_blank after) 1
              || ltb (run_length is_token (past_run is_blank after)) 1
            then 0
            else 6 + run_length is_blank after + run_length is_token (past_run is_blank after)) =
          rw (f, match_bearer) refl in
        rw (e, match_bearer) (fewer-zero _ _ _ _ blanks n (sym found ∙ h))
  ]

  match_length-Cut : match_length s ≡ 0 → match_length o ≡ 0
  unfolding match_length
  match_length-Cut h =
      let (gsk, sk, bearer) = none-zero (match_gsk s) (match_sk s) (match_bearer s) h in
      rw (match_gsk-Cut gsk, match_sk-Cut sk, match_length) (match_bearer-Cut bearer)

replace_from-Cut : (s : List ℕ) → Cut (replace_from 0 s) s
unfolding replace_from
replace_from-Cut [] = ended
replace_from-Cut (c ∷ s) = elim (Bool-cases (eqb (match_length (c ∷ s)) 0)) [
  | inl e ↦
      let z : match_length (c ∷ s) ≡ 0 = (eqb_iff (match_length (c ∷ s)) 0).0 e in
      rw (e, z) (same c (replace_from-Cut s))
  | inr e ↦ rw e (cut _ (c ∷ s))
]

has_match-marker : (s : List ℕ) → has_match (marker ++ s) ≡ has_match s
unfolding has_match match_length match_gsk match_sk match_bearer strip fold_case
has_match-marker s = refl

has_match-replace_from : (skip : ℕ) (s : List ℕ) → has_match (replace_from skip s) ≡ false
unfolding replace_from has_match
has_match-replace_from skip [] = refl
has_match-replace_from (suc skip) (c ∷ s) = has_match-replace_from skip s
has_match-replace_from zero (c ∷ s) = elim (Bool-cases (eqb (match_length (c ∷ s)) 0)) [
  | inl e ↦
      let z : match_length (c ∷ s) ≡ 0 = (eqb_iff (match_length (c ∷ s)) 0).0 e in
      let kept = match_length-Cut (c ∷ replace_from 0 s) (c ∷ s) (same c (replace_from-Cut s)) z in
      rw (e, z, kept) (has_match-replace_from 0 s)
  | inr e ↦
      rw (e, has_match-marker (replace_from (match_length (c ∷ s) - 1) s))
        (has_match-replace_from (match_length (c ∷ s) - 1) s)
]

-- Without a match nothing is replaced.
replace_from-none : (s : List ℕ) → has_match s ≡ false → replace_from 0 s ≡ s
unfolding replace_from has_match
replace_from-none [] h = refl
replace_from-none (c ∷ s) h = elim (Bool-cases (eqb (match_length (c ∷ s)) 0)) [
  | inl e ↦
      let z : match_length (c ∷ s) ≡ 0 = (eqb_iff (match_length (c ∷ s)) 0).0 e in
      rw (e, z)
        (ap (λ x. c ∷ x) (replace_from-none s (subst (λ b. (not b || has_match s) ≡ false) e h)))
  | inr e ↦ let q : true ≡ false = subst (λ b. (not b || has_match s) ≡ false) e h in cc
]

-- The test before the replacement changes nothing, whatever strings.ToLower returns: the result is
-- that of ReplaceAllString on every text.
redact_string-replace :
    (to_lower : List ℕ → List ℕ) (s : List ℕ) → redact_string to_lower s ≡ replace_from 0 s
unfolding redact_string
redact_string-replace to_lower s = ground (arith, replace_from-none s)

-- A redacted text has no match of the pattern left, is not changed by another redaction, and is the
-- text itself exactly if that has no match.
pub redact_string_lem :
    (to_lower : List ℕ → List ℕ) (s : List ℕ)
    → (has_match (redact_string to_lower s) ≡ false)
      × (redact_string to_lower (redact_string to_lower s) ≡ redact_string to_lower s)
      × ((redact_string to_lower s ≡ s) ↔ (has_match s ≡ false))
redact_string_lem to_lower s =
    let clean : has_match (redact_string to_lower s) ≡ false =
      rw (redact_string-replace to_lower s) (has_match-replace_from 0 s) in
    (
      clean,
      rw (redact_string-replace to_lower (redact_string to_lower s))
          (replace_from-none (redact_string to_lower s) clean),
      (
        λ e. subst (λ x. has_match x ≡ false) e clean,
        λ e. rw (redact_string-replace to_lower s) (replace_from-none s e),
      ),
    )
