-- ===== src/Examples/Interleaving.antt =====
-- Calls of several callers on the incident of a stopped process.
use vyomm.Prelude.{
  ◌+◌, ◌≡◌, refl, sym, ap, ◌∙◌, true, inl, inr, none, some, [], ◌∷◌, ◌==◌, eq_iff, Bool-cases,
}
use vyomm.GoMap
use vyomm.Prelude.Text.{decimal, decimal_06}
use vyomm.GoInt.{show_ℤ}
use vyomm.GoTime.{rfc3339, unix_nano}
use vyomm.Float64.Fixed.{Fixed}
use vyomm.Incidents.{status_resolved, status_ignored}
use vyomm.Incidents.Store.{
  upsert, create, new_incident, latest_occurrence, history, or_nil, decide, new_store,
  new_incident_id,
}
use vyomm.Persistence.Tables.{insert_incident, has_incident, update_status}
use vyomm.Persistence.Incidents.{write_incident, write_decision, row_of_incident}
use vyomm.Persistence.Incidents.Rows.{row_at, row_for, Mirrors}
use vyomm.Persistence.Incidents.Concurrent.{
  Pending, inserting, deciding, Shared, run_pending, begin_upsert, begin_decide, upsert_begins,
  decide_begins, call_ends, Interleaves, alone, joined, IsOrderly, IsWritten,
}
use vyomm.Persistence.Incidents.Concurrent.Orderly.{IsOwn, Interleaves-Mirrors}
use vyomm.Persistence.Incidents.Concurrent.Crossed.{decisions_cross}
use vyomm.Examples.Samples.{start, plain_digest, no_faults, name_codec, congested}
use vyomm.Examples.Recovery.{spilled, stopped, stopped-held, stopped-Mirrors}

abbrev quiet : Shared Fixed
quiet = record { store = stopped; pending = [] }

-- An upsert begins, then a decision; the decision is written first.
abbrev raised : Shared Fixed
raised = begin_upsert plain_digest quiet congested start

abbrev both : Shared Fixed
both = begin_decide raised "INC-1" status_resolved "operator" (start + 8)

abbrev insertion : Pending Fixed
insertion = inserting (new_incident plain_digest congested 1 start)

abbrev decision : Pending Fixed
decision =
    deciding (record spilled { status = status_resolved; updated_at = start + 8 }) status_resolved
      "operator" (start + 8)

abbrev decided_first : Shared Fixed
decided_first = record {
  store = record both.store {
    db = (run_pending name_codec true no_faults decision both.store.db).0;
  };
  pending = insertion ∷ [];
}

abbrev all_written : Shared Fixed
all_written = record {
  store = record decided_first.store {
    db = (run_pending name_codec true no_faults insertion decided_first.store.db).0;
  };
  pending = [];
}

both-pending : both.pending ≡ insertion ∷ decision ∷ []
unfolding begin_upsert begin_decide upsert decide create new_incident latest_occurrence history
    or_nil new_store GoMap.get GoMap.put GoMap.empty new_incident_id decimal show_ℤ unix_nano
    decimal_06
both-pending = refl

overlapping : Interleaves plain_digest name_codec quiet all_written
overlapping =
    joined {b = decided_first}
      (joined {b = both} {c = decided_first}
        (joined {b = raised} {c = both}
          (joined {b = quiet} {c = raised} alone (upsert_begins congested start refl))
          (decide_begins "INC-1" status_resolved "operator" (start + 8) refl))
        (call_ends true no_faults (insertion ∷ []) [] decision both-pending refl))
      (call_ends true no_faults [] [] insertion refl refl)

overlapping-IsOrderly : IsOrderly plain_digest name_codec overlapping
unfolding overlapping run_pending write_decision write_incident insert_incident has_incident
    row_of_incident update_status new_incident new_incident_id begin_upsert begin_decide decimal
    show_ℤ unix_nano decimal_06
overlapping-IsOrderly = ((refl, tt), ((refl, (refl, tt)), (tt, (tt, tt))))

stopped-IsOwn : IsOwn stopped
stopped-IsOwn id inc h = elim (Bool-cases ("INC-1" == id)) [
  | inl e ↦
      let q : some spilled ≡ some inc = sym (stopped-held id ∙ rw e refl) ∙ h in
      ap (λ o. elim o [ none ↦ "" | some x ↦ x.id ]) (sym q) ∙ (eq_iff "INC-1" id).0 e
  | inr e ↦ let q : none ≡ some inc = sym (stopped-held id ∙ rw e refl) ∙ h in cc
]

Interleaves-Mirrors_example : Mirrors name_codec all_written.store
Interleaves-Mirrors_example =
    Interleaves-Mirrors name_codec plain_digest overlapping refl stopped-IsOwn stopped-Mirrors
      overlapping-IsOrderly refl

decisions_cross_example :
    (b : Shared Fixed) × (r : Interleaves plain_digest name_codec quiet b) × IsWritten plain_digest
      name_codec r
    × (b.pending ≡ [])
    × (GoMap.get b.store.incidents.incidents "INC-1"
        ≡ some (record spilled { status = status_ignored; updated_at = start + 9 }))
    × (row_at b.store.db.incidents "INC-1"
        ≡ some (record (row_for name_codec spilled) {
          status = status_resolved;
          updated_at = rfc3339 (start + 8);
        }))
decisions_cross_example =
    decisions_cross name_codec plain_digest stopped "INC-1" status_resolved status_ignored "first"
      "second" (start + 8) (start + 9) spilled (stopped-held "INC-1") refl stopped-Mirrors
