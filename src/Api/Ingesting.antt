-- ===== src/Api/Ingesting.antt =====
-- An ingest request keeps the caches and the anomaly buffer in order.
use vyomm.Prelude.{
  ℕ, suc, String, Bool, ◌≡◌, refl, sym, subst, ◌∙◌, inl, inr, Option-cases, Option, none, some,
  List, [], ◌∷◌, arith,
}
use vyomm.Float64.{Float64}
use vyomm.GoTime.{Time, rfc3339}
use vyomm.Telemetry.{DeviceTelemetry}
use vyomm.Detection.{Anomaly, detect}
use vyomm.Incidents.{Candidate}
use vyomm.Incidents.Rules.{correlate}
use vyomm.Persistence.{Store, record_anomalies, append_history, append_all}
use vyomm.Persistence.Cache.{IsCached}
use vyomm.Persistence.Cache.Anomalies.{IsBuffer, record_anomalies-IsBuffer}
use vyomm.Persistence.Restore.Restart.{same_caches-IsCached}
use vyomm.Persistence.Ingest.{Faults, Codec, ingest, ingest_rows, validate_batch}
use vyomm.Persistence.Ingest.Accounting.{ingest_atomic, Sum-cases}
use vyomm.Persistence.Incidents.{upsert_incident}
use vyomm.Api.{
  Server, open_incident, open_incidents, detect_anomalies, correlate_incidents, handle_ingest,
}

module _ {F : Type 0} where
  -- Two stores with the same caches and buffer.
  record IsLike (s t : Store F) : Type 0 where
    history : s.history ≡ t.history
    latest : s.latest ≡ t.latest
    anomalies : s.anomalies ≡ t.anomalies

  open_incident-IsLike :
      (sha1_hex : String → String) (codec : Codec F) (exec_ok : Bool) (s : Server F)
      (c : Candidate F) (now : Time)
      → IsLike (open_incident sha1_hex codec exec_ok s c now).store s.store
  unfolding open_incident upsert_incident
  open_incident-IsLike sha1_hex codec exec_ok s c now = record {
    history = ground arith;
    latest = ground arith;
    anomalies = ground arith;
  }

  open_incidents-IsLike :
      (sha1_hex : String → String) (codec : Codec F) (exec_ok : ℕ → Bool) (n : ℕ) (s : Server F)
      (cs : List (Candidate F)) (now : Time)
      → IsLike (open_incidents sha1_hex codec exec_ok n s cs now).store s.store
  unfolding open_incidents
  open_incidents-IsLike sha1_hex codec exec_ok n s [] now = record {
    history = refl;
    latest = refl;
    anomalies = refl;
  }
  open_incidents-IsLike sha1_hex codec exec_ok n s (c ∷ cs) now =
      let one = open_incident-IsLike sha1_hex codec (exec_ok n) s c now in
      let more =
        open_incidents-IsLike sha1_hex codec exec_ok (suc n)
          (open_incident sha1_hex codec (exec_ok n) s c now) cs now in
      record {
        history = more.history ∙ one.history;
        latest = more.latest ∙ one.latest;
        anomalies = more.anomalies ∙ one.anomalies;
      }

  -- The caches are in order, and the anomaly buffer is.
  pub record IsConsistent (s : Store F) : Type 0 where
    pub cached : IsCached s
    pub buffered : IsBuffer s.anomalies

  IsLike-IsConsistent : (s t : Store F) → IsLike s t → IsConsistent t → IsConsistent s
  IsLike-IsConsistent s t like v = record {
    cached = same_caches-IsCached s t like.history like.latest v.cached;
    buffered = subst IsBuffer (sym like.anomalies) v.buffered;
  }

  record_anomalies-IsConsistent :
      (s : Store F) (new : List (Anomaly F))
      → IsConsistent s
      → IsConsistent (record_anomalies s new)
  unfolding record_anomalies
  record_anomalies-IsConsistent s new v = record {
    cached = same_caches-IsCached (record_anomalies s new) s refl refl v.cached;
    buffered = record_anomalies-IsBuffer s new v.buffered;
  }

  append_all-anomalies :
      (s : Store F) (ds : List (DeviceTelemetry F)) → (append_all s ds).anomalies ≡ s.anomalies
  unfolding append_all append_history
  append_all-anomalies s [] = refl
  append_all-anomalies s (d ∷ ds) = append_all-anomalies (append_history s d) ds

  module _ ⦃fl : Float64 F⦄ where
    ingest-anomalies :
        (codec : Codec F) (faults : Faults) (s : Store F) (ds : List (DeviceTelemetry F))
        (run_id : String) (now : Time)
        → (ingest codec faults s ds run_id now).0.anomalies ≡ s.anomalies
    unfolding ingest
    ingest-anomalies codec faults s ds run_id now =
        elim (Sum-cases
          (ingest_rows codec faults run_id (rfc3339 now) (validate_batch ds).valid_devices)) [
            | inl (rows, e) ↦ rw (e, ingest) (append_all-anomalies _ _)
            | inr (x, e) ↦ rw (e, ingest) refl
          ]

    -- Every ingest request, whatever it holds and the database does, keeps the caches and the anomaly
    -- buffer in order: no history passes 90 samples, each latest sample ends its history, and the
    -- buffer has at most 100 anomalies with different IDs.
    pub handle_ingest-IsConsistent :
        (sha1_hex : String → String) (codec : Codec F) (faults : Faults) (exec_ok : ℕ → Bool)
        (s : Server F) (request : Option (String × List (DeviceTelemetry F))) (now : Time)
        → IsConsistent s.store
        → IsConsistent (handle_ingest sha1_hex codec faults exec_ok s request now).0.store
    unfolding handle_ingest detect_anomalies correlate_incidents
    handle_ingest-IsConsistent sha1_hex codec faults exec_ok s none now v = v
    handle_ingest-IsConsistent sha1_hex codec faults exec_ok s (some (run_id, ds)) now v =
        let (failed, stored) = ingest_atomic codec faults s.store ds run_id now v.cached in
        elim (Option-cases (ingest codec faults s.store ds run_id now).2) [
          | inr (x, e) ↦ rw (e, handle_ingest) (subst IsConsistent (sym (failed x e)) v)
          | inl e ↦
              let after = (ingest codec faults s.store ds run_id now).0 in
              let devices = (ingest codec faults s.store ds run_id now).1.valid_devices in
              let (_, cached, _) = stored e in
              let persisted : IsConsistent after = record {
                cached = cached;
                buffered =
                    subst IsBuffer (sym (ingest-anomalies codec faults s.store ds run_id now))
                      v.buffered;
              } in
              rw (e, handle_ingest)
                (IsLike-IsConsistent _ (record_anomalies after (detect sha1_hex now devices))
                  (open_incidents-IsLike sha1_hex codec exec_ok 0 _ (correlate devices) now)
                  (record_anomalies-IsConsistent after (detect sha1_hex now devices) persisted))
        ]
