-- ===== src/Api/Serving.antt =====
-- Runs of a server that started empty.
use vyomm.Prelude.{
  ℕ, suc, String, ◌≡◌, ◌≢◌, refl, sym, subst, ap, Bool, true, false, not, ◌&&◌, inl, inr,
  Bool-cases, Option-cases, Option, none, some, List, [], ◌∷◌, arith, ◌==◌,
}
use vyomm.Float64.{Float64}
use vyomm.GoMap
use vyomm.GoTime.{Time, rfc3339}
use vyomm.Telemetry.{DeviceTelemetry}
use vyomm.Detection.{detect}
use vyomm.Incidents.{Incident, Candidate, status_active, status_resolved, status_ignored}
use vyomm.Incidents.Rules.{correlate}
use vyomm.Incidents.Store.{decide, decide_with}
use vyomm.Incidents.Store.{Store as IncidentStore}
use vyomm.Incidents.Store.Creation.{fresh_id}
use vyomm.Persistence.{Store, append_history, append_all, record_anomalies}
use vyomm.Persistence.Ingest.{Faults, Codec, ingest, ingest_rows, validate_batch}
use vyomm.Persistence.Ingest.Accounting.{Sum-cases}
use vyomm.Persistence.Incidents.{upsert_incident, decide_incident, write_decision}
use vyomm.Persistence.Incidents.Writes.{decide_incident_cases}
use vyomm.Api.{
  Server, observe, count_ingest, count_decided, open_incident, open_incidents, detect_anomalies,
  correlate_incidents, handle_ingest, handle_decide,
}
use vyomm.Api.Gauge.{IsCounted, Counts-decided, open_incident-IsCounted}

-- Every database call succeeds.
pub record IsFaultless (faults : Faults) : Type 0 where
  pub begins : faults.begin_ok ≡ true
  pub executes : (n : ℕ) → faults.exec_ok n ≡ true
  pub commits : faults.commit_ok ≡ true

module _ {F : Type 0} (sha1_hex : String → String) (codec : Codec F) where
  -- The created ID of each candidate is not in use, and the database takes each created incident.
  abbrev pub AreRecorded : (ℕ → Bool) → ℕ → Server F → List (Candidate F) → Time → Type 0
  AreRecorded exec_ok n s [] now = Unit
  AreRecorded exec_ok n s (c ∷ cs) now =
      (GoMap.get s.store.incidents.incidents (fresh_id sha1_hex s.store.incidents c now) ≡ none)
      × ((upsert_incident sha1_hex codec (exec_ok n) s.store c now).3 ≡ none)
      × AreRecorded exec_ok (suc n) (open_incident sha1_hex codec (exec_ok n) s c now) cs now

  open_incidents-IsCounted :
      (exec_ok : ℕ → Bool) (n : ℕ) (s : Server F) (cs : List (Candidate F)) (now : Time)
      → AreRecorded exec_ok n s cs now
      → IsCounted s
      → IsCounted (open_incidents sha1_hex codec exec_ok n s cs now)
  unfolding open_incidents
  open_incidents-IsCounted exec_ok n s [] now r v = v
  open_incidents-IsCounted exec_ok n s (c ∷ cs) now (fresh, ok, r) v =
      open_incidents-IsCounted exec_ok (suc n) (open_incident sha1_hex codec (exec_ok n) s c now) cs
        now r (open_incident-IsCounted sha1_hex codec (exec_ok n) s c now fresh ok v)

allowed-closing :
    (status : String)
    → (not (status == status_resolved) && not (status == status_ignored)) ≡ false
    → status ≢ status_active
allowed-closing status e h =
    let q : (not (status_active == status_resolved) && not (status_active == status_ignored))
        ≡ false =
      subst (λ x. (not (x == status_resolved) && not (x == status_ignored)) ≡ false) h e in
    cc

module _ {F : Type 0} where
  decide-found :
      (s : IncidentStore F) (id status actor : String) (now : Time) (inc : Incident F)
      → GoMap.get s.incidents id ≡ some inc
      → (decide s id status actor now).1
        ≡ some (record inc { status = status; updated_at = now }, inc.status == status_active)
  unfolding decide
  decide-found s id status actor now inc g = ap (λ o. (decide_with s id status actor now o).1) g

  pub decide_incident-done :
      (faults : Faults) (s : Store F) (id status actor : String) (now : Time) (inc : Incident F)
      → IsFaultless faults
      → GoMap.get s.incidents.incidents id ≡ some inc
      → (decide_incident faults s id status actor now).2 ≡ none
  unfolding decide_incident decide write_decision
  decide_incident-done faults s id status actor now inc v g =
      rw (g, decide_incident) (ground (arith, v.begins, v.executes 0, v.executes 1, v.commits))

  handle_decide-IsCounted :
      (faults : Faults) (s : Server F) (id : String) (request : Option (String × String))
      (now : Time)
      → IsFaultless faults
      → IsCounted s
      → IsCounted (handle_decide faults s id request now).0
  unfolding handle_decide observe
  handle_decide-IsCounted faults s id none now v h = h
  handle_decide-IsCounted faults s id (some (status, actor)) now v (m, some_m, counts) =
      let (unknown, known) = decide_incident_cases faults s.store id status actor now in
      elim (Bool-cases (not (status == status_resolved) && not (status == status_ignored))) [
        | inl e ↦ rw e (m, some_m, counts)
        | inr e ↦ elim (Option-cases (GoMap.get s.store.incidents.incidents id)) [
          | inl g ↦ let (same, _, error) = unknown g in rw (e, error) (m, some_m, rw same counts)
          | inr (inc, g) ↦
              let (memory, found, _) = known inc g in
              let done = decide_incident-done faults s.store id status actor now inc v g in
              let kept = decide-found s.store.incidents id status actor now inc g in
              rw (e, done, found, kept, some_m)
                (
                  count_decided status inc.severity (inc.status == status_active) m,
                  refl,
                  rw memory (
                      Counts-decided m s.store.incidents id status actor now inc g
                        (allowed-closing status e) counts),
                )
        ]
      ]

  append_all-incidents :
      (s : Store F) (ds : List (DeviceTelemetry F)) → (append_all s ds).incidents ≡ s.incidents
  unfolding append_all append_history
  append_all-incidents s [] = refl
  append_all-incidents s (d ∷ ds) = append_all-incidents (append_history s d) ds

  module _ ⦃fl : Float64 F⦄ where
    pub ingest-incidents :
        (codec : Codec F) (faults : Faults) (s : Store F) (ds : List (DeviceTelemetry F))
        (run_id : String) (now : Time)
        → (ingest codec faults s ds run_id now).0.incidents ≡ s.incidents
    unfolding ingest
    ingest-incidents codec faults s ds run_id now =
        elim (Sum-cases
          (ingest_rows codec faults run_id (rfc3339 now) (validate_batch ds).valid_devices)) [
            | inl (rows, e) ↦ rw (e, ingest) (append_all-incidents _ _)
            | inr (x, e) ↦ rw (e, ingest) refl
          ]

    module _ (sha1_hex : String → String) (codec : Codec F) where
      -- The server between the detection of a batch and its correlation.
      abbrev pub detected : Faults → Server F → List (DeviceTelemetry F) → String → Time → Server F
      detected faults s devices run_id now =
          let (store, r, error) = ingest codec faults s.store devices run_id now in
          record s {
            store = record_anomalies store (detect sha1_hex now r.valid_devices);
            metrics = observe (count_ingest r.accepted r.rejected) s.metrics;
          }

      -- What an ingest request correlates is recorded, if the batch is stored.
      abbrev pub IsRecorded :
          Faults
          → (ℕ → Bool)
          → Server F
          → Option (String × List (DeviceTelemetry F))
          → Time
          → Type 0
      IsRecorded faults exec_ok s none now = Unit
      IsRecorded faults exec_ok s (some (run_id, devices)) now =
          AreRecorded sha1_hex codec exec_ok 0 (detected faults s devices run_id now)
            (correlate (ingest codec faults s.store devices run_id now).1.valid_devices) now

      detected-IsCounted :
          (faults : Faults) (s : Server F) (devices : List (DeviceTelemetry F)) (run_id : String)
          (now : Time)
          → IsCounted s
          → IsCounted (detected faults s devices run_id now)
      unfolding observe count_ingest record_anomalies
      detected-IsCounted faults s devices run_id now (m, some_m, counts) =
          let r = (ingest codec faults s.store devices run_id now).1 in
          (
            count_ingest r.accepted r.rejected m,
            rw some_m refl,
            rw (ingest-incidents codec faults s.store devices run_id now) counts,
          )

      handle_ingest-IsCounted :
          (faults : Faults) (exec_ok : ℕ → Bool) (s : Server F)
          (request : Option (String × List (DeviceTelemetry F))) (now : Time)
          → IsRecorded faults exec_ok s request now
          → IsCounted s
          → IsCounted (handle_ingest sha1_hex codec faults exec_ok s request now).0
      unfolding handle_ingest detect_anomalies correlate_incidents
      handle_ingest-IsCounted faults exec_ok s none now r v = v
      handle_ingest-IsCounted faults exec_ok s (some (run_id, ds)) now r (m, some_m, counts) =
          elim (Option-cases (ingest codec faults s.store ds run_id now).2) [
            | inr (x, e) ↦
                rw (e, handle_ingest)
                  (m, some_m, rw (ingest-incidents codec faults s.store ds run_id now) counts)
            | inl e ↦
                rw (e, handle_ingest)
                  (open_incidents-IsCounted sha1_hex codec exec_ok 0
                    (detected faults s ds run_id now)
                    (correlate (ingest codec faults s.store ds run_id now).1.valid_devices) now r
                    (detected-IsCounted faults s ds run_id now (m, some_m, counts)))
          ]

      -- A request that the database takes in full.
      pub data ServerStep (s t : Server F) : Type 0 where
        ingest_step :
            (faults : Faults) (exec_ok : ℕ → Bool)
            (request : Option (String × List (DeviceTelemetry F))) (now : Time)
            → IsRecorded faults exec_ok s request now
            → t ≡ (handle_ingest sha1_hex codec faults exec_ok s request now).0
            → ServerStep s t
        decide_step :
            (faults : Faults) (id : String) (request : Option (String × String)) (now : Time)
            → IsFaultless faults
            → t ≡ (handle_decide faults s id request now).0
            → ServerStep s t

      pub data Serves (s : Server F) : Server F → Type 0 where
        started : Serves s s
        served : {t u : Server F} → Serves s t → ServerStep t u → Serves s u

      ServerStep-IsCounted : (s t : Server F) → ServerStep s t → IsCounted s → IsCounted t
      ServerStep-IsCounted s t (ingest_step faults exec_ok request now r e) v =
          subst IsCounted (sym e) (handle_ingest-IsCounted faults exec_ok s request now r v)
      ServerStep-IsCounted s t (decide_step faults id request now ok e) v =
          subst IsCounted (sym e) (handle_decide-IsCounted faults s id request now ok v)

      -- After any requests, served one after the other, to a server with metrics whose gauges count its
      -- open incidents, such as one that starts with no incident, where each created ID is not in use
      -- and the database takes each created incident and decision: the gauge of every severity is the number of open incidents of
      -- that severity, and so is never negative.
      pub Serves-IsCounted : {s t : Server F} → IsCounted s → Serves s t → IsCounted t
      Serves-IsCounted v started = v
      Serves-IsCounted v (served {t = t} {u = u} r st) =
          ServerStep-IsCounted t u st (Serves-IsCounted v r)
