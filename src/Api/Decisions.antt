-- ===== src/Api/Decisions.antt =====
-- What the two handlers answer and change.
use vyomm.Prelude.{
  ℕ, String, Bool, false, not, ◌&&◌, ◌≡◌, ◌≢◌, ◌⊎◌, refl, ap, ◌∙◌, inl, inr, Bool-cases,
  Option-cases, Option, none, some, List, ◌==◌, arith, eq_iff, eq_refl,
}
use vyomm.Float64.{Float64}
use vyomm.GoMap
use vyomm.GoMap.{map_laws}
use vyomm.GoTime.{Time}
use vyomm.Telemetry.{DeviceTelemetry}
use vyomm.Incidents.{Incident, status_resolved, status_ignored}
use vyomm.Incidents.Store.{decide, decide_with}
use vyomm.Incidents.Store.Steps.{get-decide}
use vyomm.Persistence.{Store}
use vyomm.Persistence.Cache.{IsCached}
use vyomm.Persistence.Ingest.{Faults, Codec, StoreError, ingest, begin_failed}
use vyomm.Persistence.Ingest.Accounting.{ingest_atomic}
use vyomm.Persistence.Incidents.{decide_incident, write_decision}
use vyomm.Persistence.Incidents.Writes.{decide_incident_cases}
use vyomm.Api.{Server, status_code, handle_decide, handle_ingest}

module _ {F : Type 0} where
  decide_incident-failed :
      (faults : Faults) (s : Store F) (id status actor : String) (now : Time) (inc : Incident F)
      → faults.begin_ok ≡ false
      → GoMap.get s.incidents.incidents id ≡ some inc
      → (decide_incident faults s id status actor now).2 ≡ some begin_failed
  unfolding decide_incident decide write_decision
  decide_incident-failed faults s id status actor now inc b g =
      rw (g, decide_incident) (ground (arith, b))

  get-decide_same :
      (s : Store F) (id status actor : String) (now : Time) (inc : Incident F)
      → GoMap.get s.incidents.incidents id ≡ some inc
      → GoMap.get (decide s.incidents id status actor now).0.incidents id
        ≡ some (record inc { status = status; updated_at = now })
  get-decide_same s id status actor now inc g =
      rw (get-decide s.incidents id status actor now inc g id, eq_refl id) refl

  decide_incident-error :
      (faults : Faults) (s : Store F) (id status actor : String) (now : Time) (x : StoreError)
      → (decide_incident faults s id status actor now).2 ≡ some x
      → (decide_incident faults s id status actor now).0.db ≡ s.db
  decide_incident-error faults s id status actor now x h =
      let (unknown, known) = decide_incident_cases faults s id status actor now in
      elim (Option-cases (GoMap.get s.incidents.incidents id)) [
        | inl g ↦ ap (λ r. r.db) ((unknown g).0)
        | inr (inc, g) ↦ (known inc g).2 x h
      ]

  decide_incident-found :
      (faults : Faults) (s : Store F) (id status actor : String) (now : Time)
      → (decide_incident faults s id status actor now).2 ≡ none
      → (decide_incident faults s id status actor now).1 ≢ none
  unfolding decide
  decide_incident-found faults s id status actor now h n =
      let (unknown, known) = decide_incident_cases faults s id status actor now in
      elim (Option-cases (GoMap.get s.incidents.incidents id)) [
        | inl g ↦ let (_, _, error) = unknown g in cc
        | inr (inc, g) ↦
            let (_, found, _) = known inc g in
            let stored = ap (λ o. (decide_with s.incidents id status actor now o).1) g in cc
      ]

  -- A decision that closes a known incident, while the database cannot begin a transaction, is
  -- answered as 404, although memory holds the decision; the metrics stay as they were.
  pub handle_decide_failed :
      (faults : Faults) (s : Server F) (id status actor : String) (now : Time) (inc : Incident F)
      → faults.begin_ok ≡ false
      → (status ≡ status_resolved) ⊎ (status ≡ status_ignored)
      → GoMap.get s.store.incidents.incidents id ≡ some inc
      → let (after, answer) = handle_decide faults s id (some (status, actor)) now in
        (status_code answer ≡ 404)
        × (GoMap.get after.store.incidents.incidents id
            ≡ some (record inc { status = status; updated_at = now }))
        × (after.metrics ≡ s.metrics)
  unfolding handle_decide status_code
  handle_decide_failed faults s id status actor now inc b c g =
      let (_, known) = decide_incident_cases faults s.store id status actor now in
      let (memory, _, _) = known inc g in
      let error = decide_incident-failed faults s.store id status actor now inc b g in
      let allowed : (not (status == status_resolved) && not (status == status_ignored)) ≡ false =
        ground (arith, c, eq_iff status status_resolved, eq_iff status status_ignored) in
      rw (allowed, error)
        (
          refl,
          ap (λ m. GoMap.get m.incidents id) memory
              ∙ get-decide_same s.store id status actor now inc g,
          refl,
        )

  -- A request for a decision that is answered as 400 has changed nothing, and one that is answered
  -- as 404 has changed neither the metrics nor the tables.
  handle_decide_errors :
      (faults : Faults) (s : Server F) (id : String) (request : Option (String × String))
      (now : Time)
      → let (after, answer) = handle_decide faults s id request now in
        (status_code answer ≡ 400 → after ≡ s)
        × (status_code answer ≡ 404 → (after.metrics ≡ s.metrics) × (after.store.db ≡ s.store.db))
  unfolding handle_decide status_code
  handle_decide_errors faults s id none now = (λ _. refl, λ h. absurd (ground arith))
  handle_decide_errors faults s id (some (status, actor)) now =
      elim (Bool-cases (not (status == status_resolved) && not (status == status_ignored))) [
        | inl e ↦ rw e ((λ _. refl), λ h. absurd (ground arith))
        | inr e ↦ elim (Option-cases (decide_incident faults s.store id status actor now).2) [
          | inr (x, q) ↦
              rw (e, q)
                (
                  (λ h. absurd (ground arith)),
                  λ _. (refl, decide_incident-error faults s.store id status actor now x q),
                )
          | inl q ↦ elim (Option-cases (decide_incident faults s.store id status actor now).1) [
            | inl w ↦ absurd (decide_incident-found faults s.store id status actor now q w)
            | inr (u, w) ↦ rw (e, q, w) ((λ h. absurd (ground arith)), λ h. absurd (ground arith))
          ]
        ]
      ]

module _ {F : Type 0} ⦃fl : Float64 F⦄ where
  -- An ingest request that is not answered as 200 has changed nothing, where the caches are in order.
  pub handle_ingest_errors :
      (sha1_hex : String → String) (codec : Codec F) (faults : Faults) (exec_ok : ℕ → Bool)
      (s : Server F) (request : Option (String × List (DeviceTelemetry F))) (now : Time)
      → IsCached s.store
      → let (after, answer) = handle_ingest sha1_hex codec faults exec_ok s request now in
        status_code answer ≢ 200 → after ≡ s
  unfolding handle_ingest status_code
  handle_ingest_errors sha1_hex codec faults exec_ok s none now v n = refl
  handle_ingest_errors sha1_hex codec faults exec_ok s (some (run_id, ds)) now v n =
      let (failed, _) = ingest_atomic codec faults s.store ds run_id now v in
      elim (Option-cases (ingest codec faults s.store ds run_id now).2) [
        | inl e ↦ absurd (n (rw (e, status_code, handle_ingest) refl))
        | inr (x, e) ↦ rw (e, handle_ingest) (ap (λ store. record s { store = store }) (failed x e))
      ]
