-- ===== src/Persistence/Incidents/Rows.antt =====
-- The rows of the incidents table and the incidents that they are written from.
use mathlib.Core.Option
use vyomm.Prelude.{
  String, ◌≡◌, refl, sym, ◌∙◌, Bool, false, inl, inr, Bool-cases, Option-cases, Option, none, some,
  List, [], ◌∷◌, ◌++◌, arith, ◌==◌, eq_iff, if◌then◌else◌,
}
use vyomm.GoMap
use vyomm.GoMap.{get-put}
use vyomm.GoTime.{Time, Stamp, rfc3339}
use vyomm.Incidents.{Incident}
use vyomm.Persistence.{Store}
use vyomm.Persistence.Tables.{IncidentRow, Database, has_incident, insert_incident, update_status}
use vyomm.Persistence.Ingest.{Faults, Codec, marshal_failed, insert_failed}
use vyomm.Persistence.Incidents.{row_of_incident, write_incident, write_decision}

module _ {F : Type 0} where
  -- The row of an ID.
  abbrev pub row_at : List (IncidentRow F) → String → Option (IncidentRow F)
  row_at [] id = none
  row_at (r ∷ rs) id = if r.id == id then some r else row_at rs id

  pub row_at-append :
      (rs : List (IncidentRow F)) (r : IncidentRow F) (id : String)
      → has_incident rs r.id ≡ false
      → row_at (rs ++ (r ∷ [])) id ≡ (if r.id == id then some r else row_at rs id)
  unfolding has_incident
  row_at-append [] r id h = refl
  row_at-append (x ∷ rs) r id h =
      ground (arith, row_at-append rs r id, eq_iff x.id id, eq_iff r.id id, eq_iff x.id r.id)

  abbrev pub restamp : String → Stamp → IncidentRow F → IncidentRow F
  restamp status at r = record r { status = status; updated_at = at }

  pub row_at-update :
      (status : String) (at : Stamp) (id : String) (rs : List (IncidentRow F)) (j : String)
      → row_at (update_status status at id rs) j
        ≡ (if id == j then Option.map (restamp status at) (row_at rs j) else row_at rs j)
  unfolding update_status
  row_at-update status at id [] j = ground arith
  row_at-update status at id (x ∷ rs) j =
      ground (arith, row_at-update status at id rs j, eq_iff x.id id, eq_iff x.id j, eq_iff id j)

  module _ (codec : Codec F) where
    -- The row of an incident, whose device names are saved as text.
    abbrev pub row_for : Incident F → IncidentRow F
    row_for inc =
        row_of_incident
          (elim (codec.marshal_names inc.affected_devices) [ none ↦ "" | some text ↦ text ]) inc

    -- The table has a row for each incident in memory, of what memory holds, and no other rows.
    abbrev pub Mirrors : Store F → Type 0
    Mirrors s =
        (id : String)
        → row_at s.db.incidents id ≡ Option.map row_for (GoMap.get s.incidents.incidents id)

    pub write_incident-done :
        (exec_ok : Bool) (rows : List (IncidentRow F)) (inc : Incident F)
        → (write_incident codec exec_ok rows inc).1 ≡ none
        → (write_incident codec exec_ok rows inc).0 ≡ rows ++ (row_for inc ∷ [])
    unfolding write_incident insert_incident
    write_incident-done exec_ok rows inc h =
        elim (Option-cases (codec.marshal_names inc.affected_devices)) [
          | inl e ↦
              let q : (write_incident codec exec_ok rows inc).1 ≡ some (marshal_failed inc.id) =
                rw (e, write_incident) refl in
              let z = sym q ∙ h in cc
          | inr (text, e) ↦
              let row = row_of_incident text inc in
              elim (Bool-cases exec_ok) [
                | inr n ↦
                    let q : (write_incident codec exec_ok rows inc).1
                        ≡ some (insert_failed inc.id) =
                      rw (e, n, write_incident) refl in
                    let z = sym q ∙ h in cc
                | inl y ↦ elim (Bool-cases (has_incident rows row.id)) [
                  | inl taken ↦
                      let q : (write_incident codec exec_ok rows inc).1
                          ≡ some (insert_failed inc.id) =
                        rw (e, y, write_incident, insert_incident, taken) refl in
                      let z = sym q ∙ h in cc
                  | inr free ↦ rw (e, y, write_incident, insert_incident, free) refl
                ]
              ]
        ]

    pub write_incident-free :
        (exec_ok : Bool) (rows : List (IncidentRow F)) (inc : Incident F)
        → (write_incident codec exec_ok rows inc).1 ≡ none
        → has_incident rows inc.id ≡ false
    unfolding write_incident insert_incident row_of_incident
    write_incident-free exec_ok rows inc h = ground arith

    pub write_decision-done :
        (faults : Faults) (db : Database F) (inc : Incident F) (status actor : String) (now : Time)
        → (write_decision faults db inc status actor now).1 ≡ none
        → (write_decision faults db inc status actor now).0.incidents
          ≡ update_status inc.status (rfc3339 inc.updated_at) inc.id db.incidents
    unfolding write_decision
    write_decision-done faults db inc status actor now h = ground arith
