-- ===== src/Persistence/Cache.antt =====
-- The bounded caches of samples against the list of all samples.
pub mod Anomalies
use vyomm.Prelude.{
  ℕ, zero, suc, ◌+◌, ◌-◌, ◌≤◌, ◌<◌, min, String, ◌≡◌, refl, sym, subst, ap, ◌∙◌, Bool, true, false,
  inl, inr, Bool-cases, Option, none, some, List, [], ◌∷◌, ◌++◌, arith, ◌==◌, eq_iff, ltb,
  if◌then◌else◌, length, drop, last?, length-append, length-drop, last?-drop,
  last?-append_singleton,
}
use mathlib.Core.List.{append_assoc, append-nil}
use vyomm.GoMap
use vyomm.GoMap.{get-put}
use vyomm.Telemetry.{DeviceTelemetry}
use vyomm.Incidents.Store.{or_nil}
use vyomm.Persistence.{
  Store, keep_last, history_of, append_history, append_all, max_history_per_device,
}

keep_last-drop {ℓ} : {A : Type ℓ} (n : ℕ) (l : List A) → keep_last n l ≡ drop (length l - n) l
unfolding keep_last
keep_last-drop n l = elim (Bool-cases (ltb n (length l))) [
  | inl e ↦ rw e refl
  | inr e ↦ rw e (ap (λ k. drop k l) {x = 0} (ground arith))
]

drop-nil {ℓ} : {A : Type ℓ} (n : ℕ) → drop {A = A} n [] ≡ []
drop-nil zero = refl
drop-nil (suc n) = refl

drop-drop {ℓ} : {A : Type ℓ} (j k : ℕ) (l : List A) → drop j (drop k l) ≡ drop (k + j) l
drop-drop j zero l = ap (λ n. drop n l) (omega arith)
drop-drop j (suc k) [] = drop-nil j ∙ sym (drop-nil (suc k + j))
drop-drop j (suc k) (x ∷ l) =
    drop-drop j k l ∙ ap (λ n. drop n (x ∷ l)) {x = suc (k + j)} (omega arith)

drop-append_left {ℓ} :
    {A : Type ℓ} (k : ℕ) (xs ys : List A) → k ≤ length xs → drop k (xs ++ ys) ≡ drop k xs ++ ys
drop-append_left zero xs ys h = refl
drop-append_left (suc k) [] ys h = absurd (omega arith)
drop-append_left (suc k) (x ∷ xs) ys h = drop-append_left k xs ys (omega arith)

pub length-keep_last {ℓ} :
    {A : Type ℓ} (n : ℕ) (l : List A) → length (keep_last n l) ≡ min n (length l)
length-keep_last n l = rw keep_last-drop (omega (arith, length-drop (length l - n) l))

-- To keep the last n, add more, and keep the last n again, is to keep the last n once.
keep_last-append {ℓ} :
    {A : Type ℓ} (n : ℕ) (xs ys : List A)
    → keep_last n (keep_last n xs ++ ys) ≡ keep_last n (xs ++ ys)
keep_last-append n xs ys =
    let k = length xs - n in
    let inner : keep_last n xs ++ ys ≡ drop k (xs ++ ys) =
      ap (λ l. l ++ ys) (keep_last-drop n xs) ∙ sym (drop-append_left k xs ys (omega arith)) in
    ap (keep_last n) inner
    ∙ keep_last-drop n (drop k (xs ++ ys))
    ∙ drop-drop (length (drop k (xs ++ ys)) - n) k (xs ++ ys)
    ∙ ap (λ j. drop j (xs ++ ys)) (omega (arith, length-drop k (xs ++ ys), length-append xs ys))
    ∙ sym (keep_last-drop n (xs ++ ys))

-- The samples of one host, in order.
abbrev pub of_host : {F : Type 0} → String → List (DeviceTelemetry F) → List (DeviceTelemetry F)
of_host h [] = []
of_host h (d ∷ ds) = let rest = of_host h ds in if d.hostname == h then d ∷ rest else rest

module _ {F : Type 0} where
  history-append :
      (s : Store F) (d : DeviceTelemetry F) (h : String)
      → history_of (append_history s d) h ≡ (
          if d.hostname == h
          then keep_last max_history_per_device (history_of s d.hostname ++ (d ∷ []))
          else history_of s h)
  unfolding append_history history_of or_nil
  history-append s d h = simp get-put (ground arith)

  history-append_self :
      (s : Store F) (d : DeviceTelemetry F) (h : String)
      → (d.hostname == h) ≡ true
      → history_of (append_history s d) h
        ≡ keep_last max_history_per_device (history_of s h ++ (d ∷ []))
  history-append_self s d h e =
      let own : d.hostname ≡ h = (eq_iff d.hostname h).0 e in
      rw (history-append s d h, e)
        (ap (λ k. keep_last max_history_per_device (history_of s k ++ (d ∷ []))) own)

  -- What the cache holds for a host after a list of samples: the last 90 of what it held and the
  -- host's samples of the list.
  history-append_all :
      (s : Store F) (ds : List (DeviceTelemetry F)) (h : String)
      → keep_last max_history_per_device (history_of (append_all s ds) h)
        ≡ keep_last max_history_per_device (history_of s h ++ of_host h ds)
  unfolding append_all
  history-append_all s [] h = ap (keep_last max_history_per_device) (sym (append-nil _))
  history-append_all s (d ∷ ds) h =
      history-append_all (append_history s d) ds h ∙ elim (Bool-cases (d.hostname == h)) [
        | inl e ↦
            rw (history-append_self s d h e, e)
              (keep_last-append max_history_per_device (history_of s h ++ (d ∷ [])) (of_host h ds)
                ∙ ap (keep_last max_history_per_device)
                    (append_assoc (history_of s h) (d ∷ []) (of_host h ds)))
        | inr e ↦ rw (history-append s d h, e) refl
      ]

  -- No host has more than 90 samples, and its latest sample is the last of them.
  pub record IsCached (s : Store F) : Type 0 where
    pub bounded : (h : String) → length (history_of s h) ≤ max_history_per_device
    pub current : (h : String) → GoMap.get s.latest h ≡ last? (history_of s h)

  last?-keep_last :
      (l : List (DeviceTelemetry F)) (d : DeviceTelemetry F)
      → last? (keep_last max_history_per_device (l ++ (d ∷ []))) ≡ some d
  last?-keep_last l d =
      let n = length (l ++ (d ∷ [])) - max_history_per_device in
      ap last? (keep_last-drop max_history_per_device (l ++ (d ∷ [])))
      ∙ last?-drop n (l ++ (d ∷ [])) (omega (arith, length-append l (d ∷ [])))
      ∙ last?-append_singleton l d

  latest-append :
      (s : Store F) (d : DeviceTelemetry F) (h : String)
      → GoMap.get (append_history s d).latest h
        ≡ (if d.hostname == h then some d else GoMap.get s.latest h)
  unfolding append_history
  latest-append s d h = simp get-put refl

  append-IsCached :
      (s : Store F) (d : DeviceTelemetry F) → IsCached s → IsCached (append_history s d)
  append-IsCached s d v = record {
    bounded = λ h. ground (
      arith,
      history-append s d h,
      length-keep_last max_history_per_device (history_of s d.hostname ++ (d ∷ [])),
      v.bounded h,
    );
    current = λ h. ground (
      arith,
      history-append s d h,
      latest-append s d h,
      last?-keep_last (history_of s d.hostname) d,
      v.current h,
    );
  }

  append_all-IsCached :
      (s : Store F) (ds : List (DeviceTelemetry F)) → IsCached s → IsCached (append_all s ds)
  unfolding append_all
  append_all-IsCached s [] v = v
  append_all-IsCached s (d ∷ ds) v =
      append_all-IsCached (append_history s d) ds (append-IsCached s d v)

  keep_last-short : (n : ℕ) (l : List (DeviceTelemetry F)) → length l ≤ n → keep_last n l ≡ l
  unfolding keep_last
  keep_last-short n l h = ground arith

  -- From a store whose caches are in order, appending samples keeps them so: no history passes 90
  -- samples and each latest sample ends its history; and the history of every host is the last 90 of
  -- its former history followed by its new samples.
  pub append_all_lem :
      (s : Store F) (ds : List (DeviceTelemetry F))
      → IsCached s
      → IsCached (append_all s ds)
        × ((h : String)
            → history_of (append_all s ds) h
              ≡ keep_last max_history_per_device (history_of s h ++ of_host h ds))
  append_all_lem s ds v =
      let after = append_all-IsCached s ds v in
      (
        after,
        λ h.
            sym (
              keep_last-short max_history_per_device (history_of (append_all s ds) h)
                (after.bounded h))
            ∙ history-append_all s ds h,
      )
