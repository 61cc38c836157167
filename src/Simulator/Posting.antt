-- ===== src/Simulator/Posting.antt =====
-- cmd/vyomm-simulator/main.go: the retries of post.
use vyomm.Prelude.{
  ℕ, zero, suc, ◌+◌, ◌≤◌, ◌<◌, String, ◌≡◌, ◌↔◌, ◌⊎◌, inl, inr, refl, true, false, ◌||◌, Bool-cases,
  Option, none, some, List, [], ◌∷◌, arith,
}
use vyomm.Simulator.{is_success, attempt_error, Posted, post_from, post}

abbrev pub total_sleep : List ℕ → ℕ
total_sleep [] = 0
total_sleep (n ∷ ns) = n + total_sleep ns

-- What a run of `post` is, by the success of the three answers that the client would give.
abbrev pub IsRetried : (ℕ → Option ℕ) → Posted → Type 0
IsRetried client p =
    (0 < p.requests)
    × (p.requests ≤ 3)
    × (total_sleep p.sleeps ≤ 600)
    × ((i : ℕ) → i + 1 < p.requests → is_success (client i) ≡ false)
    × ((p.error ≡ none)
        ↔ ((is_success (client 0) || is_success (client 1) || is_success (client 2)) ≡ true))
    × ((p.error ≡ none) ⊎ (p.error ≡ some (attempt_error (client 2))))

module _ (body : String) (client : ℕ → Option ℕ) where
  first-failed : (i : ℕ) → i + 1 < 1 → is_success (client i) ≡ false
  first-failed i l = absurd (omega arith)

  second-failed :
      is_success (client 0) ≡ false → (i : ℕ) → i + 1 < 2 → is_success (client i) ≡ false
  second-failed e0 i l = let z : i ≡ 0 = omega arith in rw z e0

  third-failed :
      is_success (client 0) ≡ false
      → is_success (client 1) ≡ false
      → (i : ℕ) → i + 1 < 3
      → is_success (client i) ≡ false
  third-failed e0 e1 zero l = e0
  third-failed e0 e1 (suc zero) l = e1
  third-failed e0 e1 (suc (suc i)) l = absurd (omega arith)

  -- `post` makes between one and three requests and sleeps for at most 600 milliseconds in all; every
  -- request but the last one has failed; and it returns no error exactly if one of the three answers
  -- is a success, and else the error of the third one.
  pub post_lem : IsRetried client (post (some body) client)
  unfolding post post_from
  post_lem = elim (Bool-cases (is_success (client 0))) [
    | inl e0 ↦
        rw (e0, post_from)
          (omega arith, omega arith, omega arith, first-failed, (λ h. refl, λ h. refl), inl refl)
    | inr e0 ↦ elim (Bool-cases (is_success (client 1))) [
      | inl e1 ↦
          rw (e0, e1, post_from)
            (
              omega arith,
              omega arith,
              omega arith,
              second-failed e0,
              (λ h. refl, λ h. refl),
              inl refl,
            )
      | inr e1 ↦ elim (Bool-cases (is_success (client 2))) [
        | inl e2 ↦
            rw (e0, e1, e2, post_from)
              (
                omega arith,
                omega arith,
                omega arith,
                third-failed e0 e1,
                (λ h. refl, λ h. refl),
                inl refl,
              )
        | inr e2 ↦
            rw (e0, e1, e2, post_from)
              (
                omega arith,
                omega arith,
                omega arith,
                third-failed e0 e1,
                (λ h. cc, λ h. cc),
                inr refl,
              )
      ]
    ]
  ]
