-- ===== src/Persistence/Cache/Anomalies.antt =====
-- The bounded anomaly buffer.
use vyomm.Prelude.{
  ℕ, zero, suc, ◌≤◌, ◌<◌, String, ◌≡◌, refl, sym, subst, ap, ◌∙◌, true, inl, inr, Bool-cases, List,
  [], ◌∷◌, map, arith, eq_iff, eq_refl, ◌+◌, ◌*◌, ltb, if◌then◌else◌, length, take, length-take,
}
use vyomm.NameSet.{contains, IsDistinct, IsDistinct-take}
use vyomm.Float64.{Float64}
use vyomm.GoTime.{second}
use vyomm.Telemetry.{DeviceTelemetry}
use vyomm.Detection.{Anomaly, detect, detection_window_seconds}
use vyomm.Detection.Window.{in_window, detect_same_window}
use vyomm.Persistence.{
  Store, keep_first, anomaly_ids, add_new, add_anomalies, record_anomalies, max_anomalies,
}

-- Every name of a list is in a set.
abbrev AllKnown : List String → List String → Type 0
AllKnown known [] = Unit
AllKnown known (v ∷ vs) = (contains known v ≡ true) × AllKnown known vs

AllKnown-of_contains :
    (known vs : List String)
    → ((v : String) → contains vs v ≡ true → contains known v ≡ true)
    → AllKnown known vs
unfolding contains
AllKnown-of_contains known [] h = tt
AllKnown-of_contains known (v ∷ vs) h = (
  h v (ground (arith, eq_refl v)),
  AllKnown-of_contains known vs (λ w m. h w (ground (arith, m))),
)

length-keep_first-le {ℓ} : {A : Type ℓ} (n : ℕ) (l : List A) → length (keep_first n l) ≤ n
unfolding keep_first
length-keep_first-le n l = ground (arith, length-take n l)

keep_first-short {ℓ} : {A : Type ℓ} (n : ℕ) (l : List A) → length l ≤ n → keep_first n l ≡ l
unfolding keep_first
keep_first-short n l h = ground arith

module _ {F : Type 0} where
  -- The buffer is bounded, and no ID occurs in it twice.
  pub record IsBuffer (buffer : List (Anomaly F)) : Type 0 where
    pub bounded : length buffer ≤ max_anomalies
    pub distinct : IsDistinct (anomaly_ids buffer)

  anomaly_ids-take :
      (n : ℕ) (buffer : List (Anomaly F))
      → anomaly_ids (take n buffer) ≡ take n (anomaly_ids buffer)
  unfolding anomaly_ids
  anomaly_ids-take zero buffer = refl
  anomaly_ids-take (suc n) [] = refl
  anomaly_ids-take (suc n) (a ∷ buffer) = ap (◌∷◌ a.id) (anomaly_ids-take n buffer)

  add_new-IsDistinct :
      (existing : List String) (buffer new : List (Anomaly F))
      → ((v : String) → contains existing v ≡ contains (anomaly_ids buffer) v)
      → IsDistinct (anomaly_ids buffer)
      → IsDistinct (anomaly_ids (add_new existing buffer new))
  unfolding add_new anomaly_ids contains
  add_new-IsDistinct existing buffer [] same d = d
  add_new-IsDistinct existing buffer (a ∷ new) same d = elim (Bool-cases (contains existing a.id)) [
    | inl e ↦ rw e (add_new-IsDistinct existing buffer new same d)
    | inr e ↦ rw e (
        add_new-IsDistinct (a.id ∷ existing) (a ∷ buffer) new (λ v. ground (arith, same v))
          (sym (same a.id) ∙ e, d))
  ]

  keep_first-IsDistinct :
      (n : ℕ) (l : List (Anomaly F))
      → IsDistinct (anomaly_ids l)
      → IsDistinct (anomaly_ids (keep_first n l))
  unfolding keep_first
  keep_first-IsDistinct n l d = elim (Bool-cases (ltb n (length l))) [
    | inl e ↦
        rw e (subst IsDistinct (sym (anomaly_ids-take n l)) (IsDistinct-take n (anomaly_ids l) d))
    | inr e ↦ rw e d
  ]

  add_anomalies-IsBuffer :
      (buffer new : List (Anomaly F)) → IsBuffer buffer → IsBuffer (add_anomalies buffer new)
  unfolding add_anomalies
  add_anomalies-IsBuffer buffer new v =
      let grown = add_new (anomaly_ids buffer) buffer new in
      let d = add_new-IsDistinct (anomaly_ids buffer) buffer new (λ k. refl) v.distinct in
      record {
        bounded = length-keep_first-le max_anomalies grown;
        distinct = keep_first-IsDistinct max_anomalies grown d;
      }

  -- Recording any anomalies keeps the buffer at 100 entries or fewer, with all IDs different.
  pub record_anomalies-IsBuffer :
      (s : Store F) (new : List (Anomaly F))
      → IsBuffer s.anomalies
      → IsBuffer (record_anomalies s new).anomalies
  unfolding record_anomalies
  record_anomalies-IsBuffer s new v = add_anomalies-IsBuffer s.anomalies new v

  add_new-known :
      (existing : List String) (buffer new : List (Anomaly F))
      → AllKnown existing (anomaly_ids new)
      → add_new existing buffer new ≡ buffer
  unfolding add_new anomaly_ids
  add_new-known existing buffer [] k = refl
  add_new-known existing buffer (a ∷ new) k = rw k.0 (add_new-known existing buffer new k.1)

  add_new-grows :
      (existing : List String) (buffer new : List (Anomaly F)) (v : String)
      → ((k : String) → contains existing k ≡ contains (anomaly_ids buffer) k)
      → contains (anomaly_ids (add_new existing buffer new)) v
        ≡ (if contains existing v then true else contains (anomaly_ids new) v)
  unfolding add_new anomaly_ids contains
  add_new-grows existing buffer [] v same = ground (arith, same v)
  add_new-grows existing buffer (a ∷ new) v same = elim (Bool-cases (contains existing a.id)) [
    | inl e ↦ rw e (add_new-grows existing buffer new v same ∙ ground (arith, eq_iff a.id v))
    | inr e ↦ rw e (
        add_new-grows (a.id ∷ existing) (a ∷ buffer) new v (λ k. ground (arith, same k))
        ∙ ground arith)
  ]

  length-add_new-le :
      (existing : List String) (buffer new : List (Anomaly F))
      → length (add_new existing buffer new) ≤ length buffer + length new
  unfolding add_new
  length-add_new-le existing buffer [] = omega arith
  length-add_new-le existing buffer (a ∷ new) = ground (
    arith,
    length-add_new-le existing buffer new,
    length-add_new-le (a.id ∷ existing) (a ∷ buffer) new,
  )

  anomaly_ids-map : (l : List (Anomaly F)) → anomaly_ids l ≡ map (λ a. a.id) l
  unfolding anomaly_ids
  anomaly_ids-map [] = refl
  anomaly_ids-map (a ∷ l) = ap (◌∷◌ a.id) (anomaly_ids-map l)

  add_anomalies-small :
      (buffer new : List (Anomaly F))
      → length buffer + length new ≤ max_anomalies
      → add_anomalies buffer new ≡ add_new (anomaly_ids buffer) buffer new
  unfolding add_anomalies
  add_anomalies-small buffer new h =
      keep_first-short max_anomalies (add_new (anomaly_ids buffer) buffer new)
        (omega (arith, length-add_new-le (anomaly_ids buffer) buffer new))

  -- Anomalies whose IDs are those of a list just added change nothing.
  add_anomalies_again :
      (buffer new again : List (Anomaly F))
      → length buffer + length new ≤ max_anomalies
      → IsBuffer buffer
      → map (λ a. a.id) new ≡ map (λ a. a.id) again
      → add_anomalies (add_anomalies buffer new) again ≡ add_anomalies buffer new
  unfolding add_anomalies
  add_anomalies_again buffer new again h v same =
      let grown = add_anomalies buffer new in
      let ids_eq : anomaly_ids new ≡ anomaly_ids again =
        anomaly_ids-map new ∙ same ∙ sym (anomaly_ids-map again) in
      let known : AllKnown (anomaly_ids grown) (anomaly_ids again) =
        subst (AllKnown (anomaly_ids grown)) ids_eq (
          AllKnown-of_contains (anomaly_ids grown) (anomaly_ids new) (λ w m.
            ap (λ l. contains (anomaly_ids l) w) (add_anomalies-small buffer new h)
            ∙ add_new-grows (anomaly_ids buffer) buffer new w (λ k. refl)
            ∙ ground (arith, m))) in
      let still = add_new-known (anomaly_ids grown) grown again known in
      let bound = (add_anomalies-IsBuffer buffer new v).bounded in
      ap (keep_first max_anomalies) still ∙ keep_first-short max_anomalies grown bound

  -- While the buffer is in order and has room for a batch's anomalies, detecting and recording the same batch again at
  -- a time within the same window of 20 seconds leaves the store as it was.
  pub record_same_window :
      ⦃fl : Float64 F⦄ (sha1_hex : String → String) (s : Store F) (ds : List (DeviceTelemetry F))
      (w j k : ℕ)
      → IsBuffer s.anomalies
      → length s.anomalies + length (detect sha1_hex (in_window w j) ds) ≤ max_anomalies
      → j < detection_window_seconds * second
      → k < detection_window_seconds * second
      → let once = record_anomalies s (detect sha1_hex (in_window w j) ds) in
        record_anomalies once (detect sha1_hex (in_window w k) ds) ≡ once
  unfolding record_anomalies
  record_same_window sha1_hex s ds w j k v room hj hk =
      ap (λ l. record s { anomalies = l })
        (add_anomalies_again s.anomalies (detect sha1_hex (in_window w j) ds)
          (detect sha1_hex (in_window w k) ds) room v (detect_same_window sha1_hex ds w j k hj hk))
