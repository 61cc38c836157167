-- ===== src/Persistence/Incidents/Concurrent/Effects.antt =====
-- What unwritten calls will do to the incidents table.
use mathlib.Core.Option
use vyomm.Prelude.{
  String, ◌≡◌, refl, sym, ap, ◌∙◌, Bool, false, inl, inr, Bool-cases, Option, none, some, List, [],
  ◌∷◌, ◌++◌, arith, ◌==◌, eq_iff, if◌then◌else◌, All,
}
use vyomm.GoTime.{rfc3339}
use vyomm.Persistence.Tables.{IncidentRow, Database}
use vyomm.Persistence.Ingest.{Faults, Codec}
use vyomm.Persistence.Incidents.{row_of_incident}
use vyomm.Persistence.Incidents.Rows.{
  row_at, row_at-append, row_at-update, restamp, row_for, write_incident-done, write_incident-free,
  write_decision-done,
}
use vyomm.Persistence.Incidents.Concurrent.{Pending, inserting, deciding, id_of, run_pending}

module _ {F : Type 0} (codec : Codec F) where
  -- What a write that succeeds does to the row of an ID.
  abbrev pub effect : Pending F → String → Option (IncidentRow F) → Option (IncidentRow F)
  effect (inserting inc) id r = if inc.id == id then some (row_for codec inc) else r
  effect (deciding inc status actor now) id r =
      if inc.id == id then Option.map (restamp inc.status (rfc3339 inc.updated_at)) r else r

  abbrev pub row_after : List (Pending F) → String → Option (IncidentRow F) → Option (IncidentRow F)
  row_after [] id r = r
  row_after (w ∷ ws) id r = row_after ws id (effect w id r)

  pub row_after-append :
      (ws : List (Pending F)) (w : Pending F) (id : String) (r : Option (IncidentRow F))
      → row_after (ws ++ (w ∷ [])) id r ≡ effect w id (row_after ws id r)
  row_after-append [] w id r = refl
  row_after-append (v ∷ ws) w id r = row_after-append ws w id (effect v id r)

  pub effect_other :
      (w : Pending F) (id : String) (r : Option (IncidentRow F))
      → (id_of w == id) ≡ false
      → effect w id r ≡ r
  effect_other (inserting inc) id r e = rw e refl
  effect_other (deciding inc status actor now) id r e = rw e refl

  -- Writes of different incidents can be exchanged.
  effect_comm :
      (v w : Pending F) (id : String) (r : Option (IncidentRow F))
      → (id_of v == id_of w) ≡ false
      → effect w id (effect v id r) ≡ effect v id (effect w id r)
  effect_comm v w id r apart = elim (Bool-cases (id_of v == id)) [
    | inr e ↦ ap (effect w id) (effect_other v id r e) ∙ sym (effect_other v id (effect w id r) e)
    | inl e ↦
        let other : (id_of w == id) ≡ false =
          ground (arith, eq_iff (id_of v) id, eq_iff (id_of w) id, eq_iff (id_of v) (id_of w)) in
        effect_other w id (effect v id r) other ∙ ap (effect v id) (sym (effect_other w id r other))
  ]

  pub row_after_exchange :
      (before after : List (Pending F)) (w : Pending F) (id : String) (r : Option (IncidentRow F))
      → All (λ v. (id_of v == id_of w) ≡ false) before
      → row_after (before ++ (w ∷ after)) id r ≡ row_after (before ++ after) id (effect w id r)
  row_after_exchange [] after w id r apart = refl
  row_after_exchange (v ∷ before) after w id r (apart, rest) =
      row_after_exchange before after w id (effect v id r) rest
      ∙ ap (row_after (before ++ after) id) (effect_comm v w id r apart)

  pub run_pending-effect :
      (exec_ok : Bool) (faults : Faults) (w : Pending F) (db : Database F) (id : String)
      → (run_pending codec exec_ok faults w db).1 ≡ none
      → row_at (run_pending codec exec_ok faults w db).0.incidents id
        ≡ effect w id (row_at db.incidents id)
  unfolding run_pending row_of_incident
  run_pending-effect exec_ok faults (inserting inc) db id ok =
      rw (write_incident-done codec exec_ok db.incidents inc ok) (
        row_at-append db.incidents (row_for codec inc) id
          (write_incident-free codec exec_ok db.incidents inc ok))
  run_pending-effect exec_ok faults (deciding inc status actor now) db id ok =
      rw (write_decision-done codec faults db inc status actor now ok)
        (row_at-update inc.status (rfc3339 inc.updated_at) inc.id db.incidents id)
