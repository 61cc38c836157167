-- ===== src/Api/Gauge.antt =====
-- The gauge of active incidents counts the open incidents.
use vyomm.Prelude.{
  ℕ, ◌+◌, String, ◌≡◌, ◌≢◌, refl, Bool, not, ◌&&◌, inl, inr, Bool-cases, none, some, arith, ◌==◌,
  eq_iff, if◌then◌else◌,
}
use vyomm.GoInt.{ℤ, pos}
use vyomm.GoMap
use vyomm.GoMap.{GoMap, get-put, values, total, weight_of, total-put, map_laws}
use vyomm.GoTime.{Time}
use vyomm.Incidents.{Incident, Candidate, status_active}
use vyomm.Incidents.Store.{
  latest_occurrence, is_open, create, new_incident, upsert, decide, decide_with,
}
use vyomm.Incidents.Store.{Store as IncidentStore}
use vyomm.Incidents.Store.Creation.{fresh_id}
use vyomm.Incidents.Store.Steps.{upsert-eq}
use vyomm.Persistence.Ingest.{Codec}
use vyomm.Persistence.Incidents.{upsert_incident}
use vyomm.Persistence.Incidents.Writes.{upsert_incident_cases}
use vyomm.Api.{
  Server, Metrics, gauge_of, inc_ℤ, dec_ℤ, observe, count_created, count_decided, open_incident,
}

gauge_of-put :
    (m : GoMap ℤ) (key severity : String) (n : ℤ)
    → gauge_of (GoMap.put m key n) severity ≡ (if key == severity then n else gauge_of m severity)
gauge_of-put m key severity n = ground (arith, get-put m key severity n)

module _ {F : Type 0} where
  abbrev pub is_open_as : String → Incident F → ℕ
  is_open_as severity inc = if inc.status == status_active && inc.severity == severity then 1 else 0

  -- The number of open incidents of a severity.
  abbrev pub open_count : IncidentStore F → String → ℕ
  open_count s severity = total (is_open_as severity) (values s.incidents)

  -- The gauge of every severity counts its open incidents.
  abbrev pub Counts : Metrics → IncidentStore F → Type 0
  Counts m s =
      (severity : String) → gauge_of m.incidents_active severity ≡ pos (open_count s severity)

  -- A server with metrics, whose gauges count its open incidents.
  abbrev pub IsCounted : Server F → Type 0
  IsCounted s = (m : Metrics) × (s.metrics ≡ some m) × Counts m s.store.incidents

  open_count-create :
      (sha1_hex : String → String) (s : IncidentStore F) (c : Candidate F) (now : Time)
      (severity : String)
      → GoMap.get s.incidents (fresh_id sha1_hex s c now) ≡ none
      → open_count (create sha1_hex s c now).0 severity
        ≡ open_count s severity + (if c.severity == severity then 1 else 0)
  unfolding create new_incident
  open_count-create sha1_hex s c now severity fresh = ground (
    arith,
    total-put (is_open_as severity) s.incidents (fresh_id sha1_hex s c now)
        (create sha1_hex s c now).1,
    eq_iff status_active status_active,
  )

  open_count-decide :
      (s : IncidentStore F) (id status actor : String) (now : Time) (inc : Incident F)
      (severity : String)
      → GoMap.get s.incidents id ≡ some inc
      → status ≢ status_active
      → open_count (decide s id status actor now).0 severity + is_open_as severity inc
        ≡ open_count s severity
  unfolding decide
  open_count-decide s id status actor now inc severity g closing =
      rw (g, decide, decide_with)
        (ground (
          arith,
          total-put (is_open_as severity) s.incidents id
              (record inc { status = status; updated_at = now }),
          eq_iff status status_active,
        ))

  Counts-created :
      (m : Metrics) (sha1_hex : String → String) (s : IncidentStore F) (c : Candidate F)
      (now : Time) (n : ℕ)
      → GoMap.get s.incidents (fresh_id sha1_hex s c now) ≡ none
      → Counts m s
      → Counts (count_created c.severity n m) (create sha1_hex s c now).0
  unfolding count_created
  Counts-created m sha1_hex s c now n fresh h severity = ground (
    arith,
    gauge_of-put m.incidents_active c.severity severity
        (inc_ℤ (gauge_of m.incidents_active c.severity)),
    open_count-create sha1_hex s c now severity fresh,
    h severity,
    h c.severity,
    eq_iff c.severity severity,
  )

  pub Counts-decided :
      (m : Metrics) (s : IncidentStore F) (id status actor : String) (now : Time) (inc : Incident F)
      → GoMap.get s.incidents id ≡ some inc
      → status ≢ status_active
      → Counts m s
      → Counts
          (count_decided status inc.severity (inc.status == status_active) m)
          (decide s id status actor now).0
  unfolding count_decided
  Counts-decided m s id status actor now inc g closing h severity = ground (
    arith,
    gauge_of-put m.incidents_active inc.severity severity
        (dec_ℤ (gauge_of m.incidents_active inc.severity)),
    open_count-decide s id status actor now inc severity g closing,
    open_count-decide s id status actor now inc inc.severity g closing,
    h severity,
    h inc.severity,
    eq_iff inc.severity severity,
    eq_iff inc.severity inc.severity,
  )

  open_incident-incidents :
      (sha1_hex : String → String) (codec : Codec F) (exec_ok : Bool) (s : Server F)
      (c : Candidate F) (now : Time)
      → (open_incident sha1_hex codec exec_ok s c now).store.incidents
        ≡ (upsert sha1_hex s.store.incidents c now).0
  unfolding open_incident upsert_incident
  open_incident-incidents sha1_hex codec exec_ok s c now = ground arith

  upsert-created :
      (sha1_hex : String → String) (s : IncidentStore F) (c : Candidate F) (now : Time)
      → (upsert sha1_hex s c now).2 ≡ not (is_open (latest_occurrence s c.occurrence_key))
  unfolding upsert is_open
  upsert-created sha1_hex s c now = ground arith

  open_incident-metrics :
      (sha1_hex : String → String) (codec : Codec F) (exec_ok : Bool) (s : Server F)
      (c : Candidate F) (now : Time)
      → (upsert_incident sha1_hex codec exec_ok s.store c now).3 ≡ none
      → (open_incident sha1_hex codec exec_ok s c now).metrics ≡ (
          if (upsert sha1_hex s.store.incidents c now).2
          then observe
              (count_created c.severity
                (upsert sha1_hex s.store.incidents c now).1.occurrence_sequence)
              s.metrics
          else s.metrics)
  unfolding open_incident
  open_incident-metrics sha1_hex codec exec_ok s c now ok =
      let (_, inc, created, _, _) = upsert_incident_cases sha1_hex codec exec_ok s.store c now in
      rw (ok, open_incident, inc, created) refl

  -- Recording a candidate keeps the count, if its created ID is not in use and the database takes it.
  pub open_incident-IsCounted :
      (sha1_hex : String → String) (codec : Codec F) (exec_ok : Bool) (s : Server F)
      (c : Candidate F) (now : Time)
      → GoMap.get s.store.incidents.incidents (fresh_id sha1_hex s.store.incidents c now) ≡ none
      → (upsert_incident sha1_hex codec exec_ok s.store c now).3 ≡ none
      → IsCounted s
      → IsCounted (open_incident sha1_hex codec exec_ok s c now)
  unfolding observe
  open_incident-IsCounted sha1_hex codec exec_ok s c now fresh ok (m, some_m, counts) =
      let incidents = open_incident-incidents sha1_hex codec exec_ok s c now in
      let metrics = open_incident-metrics sha1_hex codec exec_ok s c now ok in
      let made = upsert-created sha1_hex s.store.incidents c now in
      let stored = upsert-eq sha1_hex s.store.incidents c now in
      elim (Bool-cases (is_open (latest_occurrence s.store.incidents c.occurrence_key))) [
        | inl e ↦ (m, rw (metrics, made, e) some_m, rw (incidents, stored, e) counts)
        | inr e ↦
            let n = (upsert sha1_hex s.store.incidents c now).1.occurrence_sequence in
            (
              count_created c.severity n m,
              rw (metrics, made, e, some_m) refl,
              rw (incidents, stored, e)
                  (Counts-created m sha1_hex s.store.incidents c now n fresh counts),
            )
      ]
