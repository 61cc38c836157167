-- ===== src/Persistence/Incidents/Writes.antt =====
-- How memory and the tables go together.
use vyomm.Prelude.{
  Bool-cases, String, ◌≡◌, refl, ap, inl, inr, Bool, true, false, Option-cases, none, some, List,
  arith,
}
use vyomm.GoMap
use vyomm.GoTime.{Time}
use vyomm.Incidents.{Incident, Candidate}
use vyomm.Incidents.Store.{upsert, decide, decide_with}
use vyomm.Persistence.{Store}
use vyomm.Persistence.Tables.{Database, IncidentRow}
use vyomm.Persistence.Ingest.{Faults, Codec, StoreError, not_found}
use vyomm.Persistence.Incidents.{upsert_incident, decide_incident, write_incident, write_decision}

module _ {F : Type 0} where
  upsert_incident-incidents :
      (sha1_hex : String → String) (codec : Codec F) (exec_ok : Bool) (s : Store F)
      (c : Candidate F) (now : Time)
      → (upsert_incident sha1_hex codec exec_ok s c now).0.incidents
        ≡ (upsert sha1_hex s.incidents c now).0
  unfolding upsert_incident
  upsert_incident-incidents sha1_hex codec exec_ok s c now = ground arith

  write_decision-error :
      (faults : Faults) (db : Database F) (inc : Incident F) (status actor : String) (now : Time)
      (e : StoreError)
      → (write_decision faults db inc status actor now).1 ≡ some e
      → (write_decision faults db inc status actor now).0 ≡ db
  unfolding write_decision
  write_decision-error faults db inc status actor now e h = ground arith

  -- A decision on an unknown incident is the error `not_found` and changes nothing. On a known one,
  -- whatever the database does, memory holds the decision; and if the database fails, the tables are
  -- as they were.
  pub decide_incident_cases :
      (faults : Faults) (s : Store F) (id status actor : String) (now : Time)
      → let (after, found, error) = decide_incident faults s id status actor now in
        (GoMap.get s.incidents.incidents id ≡ none
          → (after ≡ s) × (found ≡ none) × (error ≡ some not_found))
        × ((inc : Incident F)
            → GoMap.get s.incidents.incidents id ≡ some inc
            → (after.incidents ≡ (decide s.incidents id status actor now).0)
              × (found ≡ (decide s.incidents id status actor now).1)
              × ((e : StoreError) → error ≡ some e → after.db ≡ s.db))
  unfolding decide_incident decide
  decide_incident_cases faults s id status actor now =
      elim (Option-cases (GoMap.get s.incidents.incidents id)) [
        | inl e ↦ (
          λ _. rw (e, decide_incident, decide) (refl, refl, refl),
          λ inc h. absurd (ground arith),
        )
        | inr (inc, e) ↦ (
          λ h. absurd (ground arith),
          λ inc' h.
              rw (e, decide_incident)
                (
                  ap (λ o. (decide_with s.incidents id status actor now o).0) e,
                  refl,
                  λ err q. write_decision-error faults s.db _ status actor now err q,
                ),
        )
      ]

  write_incident-error :
      (codec : Codec F) (exec_ok : Bool) (rows : List (IncidentRow F)) (inc : Incident F)
      (e : StoreError)
      → (write_incident codec exec_ok rows inc).1 ≡ some e
      → (write_incident codec exec_ok rows inc).0 ≡ rows
  unfolding write_incident
  write_incident-error codec exec_ok rows inc e h = ground arith

  -- An upsert changes memory as the incident store's upsert does, whatever the database does. The
  -- tables stay as they were if the candidate's fault was open, or if an error is returned; and an
  -- error is returned only with a created incident.
  pub upsert_incident_cases :
      (sha1_hex : String → String) (codec : Codec F) (exec_ok : Bool) (s : Store F)
      (c : Candidate F) (now : Time)
      → let (after, inc, created, error) = upsert_incident sha1_hex codec exec_ok s c now in
        (after.incidents ≡ (upsert sha1_hex s.incidents c now).0)
        × (inc ≡ (upsert sha1_hex s.incidents c now).1)
        × (created ≡ (upsert sha1_hex s.incidents c now).2)
        × (created ≡ false → (after.db ≡ s.db) × (error ≡ none))
        × ((e : StoreError) → error ≡ some e → (after.db ≡ s.db) × (created ≡ true))
  unfolding upsert_incident
  upsert_incident_cases sha1_hex codec exec_ok s c now =
      elim (Bool-cases ((upsert sha1_hex s.incidents c now).2)) [
        | inl e ↦ rw e (
          refl,
          refl,
          refl,
          (λ h. absurd (ground arith)),
          λ err h. (
            ap (λ rows. record s.db { incidents = rows })
                (write_incident-error codec exec_ok s.db.incidents _ err h),
            refl,
          ),
        )
        | inr e ↦ rw e (refl, refl, refl, (λ _. (refl, refl)), λ err h. absurd (ground arith))
      ]
