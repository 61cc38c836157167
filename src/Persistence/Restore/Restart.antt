-- ===== src/Persistence/Restore/Restart.antt =====
-- What a restart brings back.
use vyomm.Prelude.{
  ◌*◌, ◌/◌, String, ◌≡◌, refl, ap, ◌∙◌, inl, inr, Option-cases, some, List, [], ◌∷◌, ◌++◌, arith,
}
use vyomm.GoMap
use vyomm.GoMap.{get-empty}
use vyomm.GoTime.{Time, Duration, second, rfc3339, parse_rfc3339, before_by}
use vyomm.Telemetry.{DeviceTelemetry}
use vyomm.Incidents.{Incident}
use vyomm.Incidents.Store.{or_nil, new_store}
use vyomm.Persistence.{
  Store, append_history, append_all, history_of, keep_last, max_history_per_device,
}
use vyomm.Persistence.Cache.{IsCached, append_all_lem, of_host}
use vyomm.Persistence.Tables.{TelemetryRow, Database, select_from}
use vyomm.Persistence.Ingest.{Codec}
use vyomm.Persistence.Incidents.{row_of_incident}
use vyomm.Persistence.Restore.{Sql, restore_rows, incident_of_row, restore_state, new_store_on}

-- A time as RFC 3339 keeps it, to the second.
abbrev pub to_second : Time → Time
to_second t = (t / second) * second

module _ {F : Type 0} where
  -- An incident that is written to the incidents table and read back is the same but for its two
  -- times, which are cut to the second; the JSON of its device names has to decode to them.
  pub incident_row_roundtrip :
      (codec : Codec F) (inc : Incident F) (affected : String)
      → codec.unmarshal_names affected ≡ some inc.affected_devices
      → incident_of_row codec (row_of_incident affected inc)
        ≡ some (record inc {
          created_at = to_second inc.created_at;
          updated_at = to_second inc.updated_at;
        })
  unfolding incident_of_row row_of_incident rfc3339 parse_rfc3339
  incident_row_roundtrip codec inc affected h = rw (h, incident_of_row) refl

  -- The samples that rows decode to, one for each, in order.
  abbrev pub Decodes : Codec F → List TelemetryRow → List (DeviceTelemetry F) → Type 0
  Decodes codec [] [] = Unit
  Decodes codec (r ∷ rs) (d ∷ ds) =
      (codec.unmarshal_device r.payload ≡ some d) × Decodes codec rs ds
  Decodes codec _ _ = ⊥

  pub restore_rows-Decodes :
      (codec : Codec F) (s t : Store F) (rows : List TelemetryRow)
      → restore_rows codec s rows ≡ some t
      → (ds : List (DeviceTelemetry F)) × Decodes codec rows ds × (t ≡ append_all s ds)
  unfolding restore_rows append_all
  restore_rows-Decodes codec s t [] h = ([], tt, ground arith)
  restore_rows-Decodes codec s t (r ∷ rows) h =
      elim (Option-cases (codec.unmarshal_device r.payload)) [
        | inl e ↦ absurd (ground arith)
        | inr (d, e) ↦
            let (ds, dec, same) =
              restore_rows-Decodes codec (append_history s d) t rows (ground arith) in
            (d ∷ ds, (e, dec), same)
      ]

  abbrev pub blank : Database F → Duration → Store F
  blank db retention = record {
    db = db;
    retention = retention;
    latest = GoMap.empty;
    history = GoMap.empty;
    incidents = new_store;
    anomalies = [];
  }

  blank-history :
      (db : Database F) (retention : Duration) (h : String) → history_of (blank db retention) h ≡ []
  unfolding history_of or_nil
  blank-history db retention h = rw (get-empty h) refl

  pub blank-IsCached : (db : Database F) (retention : Duration) → IsCached (blank db retention)
  blank-IsCached db retention = record {
    bounded = λ h. rw blank-history (omega arith);
    current = λ h. rw blank-history (get-empty h);
  }

  history_of-same :
      (s t : Store F) → s.history ≡ t.history → (h : String) → history_of s h ≡ history_of t h
  unfolding history_of
  history_of-same s t e h = ap (λ m. or_nil (GoMap.get m h)) e

  pub same_caches-IsCached :
      (s t : Store F) → s.history ≡ t.history → s.latest ≡ t.latest → IsCached t → IsCached s
  same_caches-IsCached s t e f v = record {
    bounded = λ h. rw (history_of-same s t e h) (v.bounded h);
    current = λ h. rw (history_of-same s t e h, f) (v.current h);
  }

  -- A restore leaves the caches as the loop over the telemetry rows made them.
  restore_state-caches :
      (sql : Sql F) (codec : Codec F) (s0 : Store F) (now : Time) (s : Store F)
      → restore_state sql codec s0 now ≡ inl s
      → (t : Store F) × (restore_rows codec s0 (
            sql.by_observed_at (select_from (rfc3339 (before_by now s0.retention)) s0.db.telemetry))
          ≡ some t)
        × (s.history ≡ t.history)
        × (s.latest ≡ t.latest)
        × (s.anomalies ≡ t.anomalies)
  unfolding restore_state
  restore_state-caches sql codec s0 now s h =
      elim (Option-cases (
        restore_rows codec s0 (
          sql.by_observed_at
            (select_from (rfc3339 (before_by now s0.retention)) s0.db.telemetry)))) [
              | inl e ↦ absurd (ground arith)
              | inr (t, e) ↦ (t, e, ground arith, ground arith, ground arith)
            ]

  -- If a new process restores its state, it has decoded the samples of the retained rows, its caches
  -- are consistent, and for each host it holds the last 90 of those samples.
  pub restart :
      (sql : Sql F) (codec : Codec F) (db : Database F) (retention : Duration) (now : Time)
      (s : Store F)
      → new_store_on sql codec db retention now ≡ inl s
      → (ds : List (DeviceTelemetry F)) × Decodes codec
          (sql.by_observed_at (select_from (rfc3339 (before_by now retention)) db.telemetry))
          ds
        × IsCached s
        × ((h : String) → history_of s h ≡ keep_last max_history_per_device (of_host h ds))
  unfolding new_store_on
  restart sql codec db retention now s h =
      let (t, loop, e, f, _) = restore_state-caches sql codec (blank db retention) now s h in
      let rows =
        sql.by_observed_at (select_from (rfc3339 (before_by now retention)) db.telemetry) in
      let (ds, dec, same) = restore_rows-Decodes codec (blank db retention) t rows loop in
      let (v, held) = append_all_lem (blank db retention) ds (blank-IsCached db retention) in
      let e' : s.history ≡ (append_all (blank db retention) ds).history =
        e ∙ ap (λ x. x.history) same in
      let f' : s.latest ≡ (append_all (blank db retention) ds).latest =
        f ∙ ap (λ x. x.latest) same in
      (
        ds,
        dec,
        same_caches-IsCached s (append_all (blank db retention) ds) e' f' v,
        λ x.
            history_of-same s (append_all (blank db retention) ds) e' x
            ∙ held x
            ∙ ap (λ l. keep_last max_history_per_device (l ++ of_host x ds))
                (blank-history db retention x),
      )

  append_all-anomalies :
      (s : Store F) (ds : List (DeviceTelemetry F)) → (append_all s ds).anomalies ≡ s.anomalies
  unfolding append_all append_history
  append_all-anomalies s [] = refl
  append_all-anomalies s (d ∷ ds) = append_all-anomalies (append_history s d) ds

  -- The anomaly buffer of a new process is empty.
  pub restart_anomalies :
      (sql : Sql F) (codec : Codec F) (db : Database F) (retention : Duration) (now : Time)
      (s : Store F)
      → new_store_on sql codec db retention now ≡ inl s
      → s.anomalies ≡ []
  unfolding new_store_on
  restart_anomalies sql codec db retention now s h =
      let (t, loop, _, _, e) = restore_state-caches sql codec (blank db retention) now s h in
      let rows =
        sql.by_observed_at (select_from (rfc3339 (before_by now retention)) db.telemetry) in
      let (ds, _, same) = restore_rows-Decodes codec (blank db retention) t rows loop in
      e ∙ ap (λ x. x.anomalies) same ∙ append_all-anomalies (blank db retention) ds
