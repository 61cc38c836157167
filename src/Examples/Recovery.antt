-- ===== src/Examples/Recovery.antt =====
-- A restart from a table that mirrors the memory of the process before.
use mathlib.Core.Option
use vyomm.Prelude.{
  ◌+◌, String, ◌≡◌, inl, inr, refl, sym, subst, ap, ◌∙◌, none, some, [], ◌∷◌, ◌==◌, Bool-cases,
  if◌then◌else◌,
}
use vyomm.GoMap
use vyomm.GoMap.{get-put, get-empty}
use vyomm.GoInt.{pos}
use vyomm.GoTime.{hour, rfc3339, parse_rfc3339}
use vyomm.Float64.Fixed.{Fixed, val}
use vyomm.Incidents.{Incident}
use vyomm.Incidents.Store.{restore, restore_incidents, restore_decisions, new_store}
use vyomm.Persistence.{Store}
use vyomm.Persistence.Tables.{select_from}
use vyomm.Persistence.Incidents.{row_of_incident}
use vyomm.Persistence.Incidents.Rows.{Mirrors, row_for}
use vyomm.Persistence.Restore.{
  Sql, incident_of_row, incidents_of_rows, decisions_of_rows, restore_rows, restore_state,
  new_store_on,
}
use vyomm.Persistence.Restore.Recovery.{cut, IsFaithful, new_store_on-recovers}
use vyomm.Examples.Samples.{start, name_codec, blank_store, empty_database}

abbrev as_inserted : Sql Fixed
as_inserted = record { by_observed_at = λ l. l; by_occurrence = λ l. l; by_decided_at = λ l. l }

abbrev pub spilled : Incident Fixed
spilled = record {
  id = "INC-1";
  occurrence_key = "Memory Leak:rtr-01";
  occurrence_sequence = 1;
  severity = "high";
  affected_devices = "rtr-01" ∷ [];
  root_cause = "Memory Leak";
  status = "active";
  created_at = start + 7;
  updated_at = start + 7;
  confidence = val 900 0;
  predicted_sla_breach_minutes = 22;
  recommended_action = "Fail over services.";
}

abbrev pub stopped : Store Fixed
stopped = record blank_store {
  db = record empty_database { incidents = row_for name_codec spilled ∷ [] };
  incidents = record blank_store.incidents { incidents = GoMap.put GoMap.empty "INC-1" spilled };
}

abbrev recovered : Store Fixed
recovered = record blank_store {
  db = stopped.db;
  incidents = restore new_store (cut spilled ∷ []) GoMap.empty;
}

spilled-recovered : new_store_on as_inserted name_codec stopped.db (pos hour) start ≡ inl recovered
unfolding new_store_on restore_state restore_rows incidents_of_rows incident_of_row
    decisions_of_rows restore restore_incidents restore_decisions select_from row_of_incident
    rfc3339 parse_rfc3339
spilled-recovered = refl

pub stopped-held :
    (id : String)
    → GoMap.get stopped.incidents.incidents id ≡ (if "INC-1" == id then some spilled else none)
stopped-held id = get-put GoMap.empty "INC-1" id spilled ∙ rw (get-empty id) refl

pub stopped-Mirrors : Mirrors name_codec stopped
unfolding row_of_incident
stopped-Mirrors id = elim (Bool-cases ("INC-1" == id)) [
  | inl e ↦ rw (stopped-held id, e) refl
  | inr e ↦ rw (stopped-held id, e) refl
]

stopped-IsFaithful :
    (id : String) (inc : Incident Fixed)
    → GoMap.get stopped.incidents.incidents id ≡ some inc
    → IsFaithful name_codec inc
stopped-IsFaithful id inc h = elim (Bool-cases ("INC-1" == id)) [
  | inl e ↦
      let q : some spilled ≡ some inc = sym (stopped-held id ∙ rw e refl) ∙ h in
      subst (IsFaithful name_codec) (ap (λ o. elim o [ none ↦ spilled | some x ↦ x ]) q)
        ("rtr-01", refl, refl)
  | inr e ↦ let q : none ≡ some inc = sym (stopped-held id ∙ rw e refl) ∙ h in cc
]

new_store_on-recovers_example :
    GoMap.get recovered.incidents.incidents "INC-1"
    ≡ Option.map cut (GoMap.get stopped.incidents.incidents "INC-1")
new_store_on-recovers_example =
    new_store_on-recovers as_inserted name_codec (pos hour) start stopped recovered
      stopped-IsFaithful (record { keyed = λ rows k. k; same = λ rows id k. refl }) (refl, tt)
      stopped-Mirrors spilled-recovered "INC-1"
