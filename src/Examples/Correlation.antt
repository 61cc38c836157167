-- ===== src/Examples/Correlation.antt =====
-- Correlation of the samples and the life of an incident.
use vyomm.Prelude.{
  ◌≤◌, ◌+◌, String, ◌≡◌, ◌≢◌, ◌↔◌, refl, true, false, none, some, List, [], ◌∷◌, ◌++◌, eq_iff, Mem,
  Perm, arith, length,
}
use mathlib.Core.List.Perm
use vyomm.GoMap
use vyomm.GoMap.{values}
use vyomm.Float64.Fixed.{Fixed, fixed_float}
use vyomm.GoTime.{unix_nano}
use vyomm.GoInt.{show_ℤ}
use vyomm.Prelude.Text.{decimal, decimal_06}
use vyomm.Incidents.{Incident, Candidate, status_active, status_resolved}
use vyomm.Incidents.Rules.{correlate, index_hosts}
use vyomm.Incidents.Rules.FirstMatch.{Accounted, correlate_iff}
use vyomm.Incidents.Store.{
  Store, new_store, new_incident, new_incident_id, create, upsert, decide, history, active,
  list_all, or_nil, latest_occurrence,
}
use vyomm.Incidents.Store.Wellformed.{IsValid, new_store-IsValid}
use vyomm.Incidents.Store.Creation.{fresh_id}
use vyomm.Incidents.Store.Steps.{upsert-IsValid}
use vyomm.Incidents.Store.Recurrence.{
  Reach, here, next, upsert_step, reachable_one_open, upsert_open, upsert_recurs,
}
use vyomm.Incidents.Store.Refinement.{SpecReach, view}
use vyomm.Incidents.Store.Refinement.Runs.{calls_of, Reach-SpecReach}
use vyomm.Incidents.Store.Listing.{IsNewestFirst, list_all-sorted}
use vyomm.Incidents.Store.Newest.{IsNewestOpen, active_newest}
use vyomm.Examples.Samples.{batch, plain_digest, start, congested}

correlate_iff_example :
    ((c : Candidate Fixed)
      → Mem c (correlate batch) ↔ Accounted (index_hosts batch GoMap.empty) batch c)
    × (length (correlate batch) ≤ length batch)
correlate_iff_example = correlate_iff batch

abbrev first_incident : Incident Fixed
first_incident = new_incident plain_digest congested 1 start

abbrev one_open : Store Fixed
one_open = (upsert plain_digest new_store congested start).0

unused :
    GoMap.get (new_store {F = Fixed}).incidents (fresh_id plain_digest new_store congested start)
    ≡ none
unfolding new_store GoMap.get GoMap.empty
unused = refl

one_open-IsValid : IsValid one_open
one_open-IsValid = upsert-IsValid plain_digest new_store congested start new_store-IsValid unused

abbrev first_id : String
first_id = first_incident.id

first_get : GoMap.get one_open.incidents first_id ≡ some first_incident
unfolding new_store upsert create latest_occurrence history or_nil new_incident GoMap.get
    GoMap.empty GoMap.put new_incident_id decimal show_ℤ unix_nano decimal_06
first_get = refl

first_Reach : Reach plain_digest new_store one_open
first_Reach = next here (upsert_step congested start unused refl)

reachable_one_open_example : first_id ≡ first_id
unfolding new_incident
reachable_one_open_example =
    reachable_one_open plain_digest first_id first_id first_incident first_incident first_Reach
      first_get first_get refl refl refl

upsert_open_example :
    upsert plain_digest one_open congested (start + 1) ≡ (one_open, first_incident, false)
unfolding new_incident
upsert_open_example =
    upsert_open plain_digest one_open congested (start + 1) first_id first_incident one_open-IsValid
      first_get refl refl

closing : status_resolved ≢ status_active
closing h = absurd (ground (arith, (eq_iff status_resolved status_active).1 h))

upsert_recurs_example :
    let decided = (decide one_open first_id status_resolved "operator" (start + 2)).0 in
    let (after, new, created) = upsert plain_digest decided congested (start + 3) in
    (created ≡ true)
    × (new.status ≡ status_active)
    × (new.occurrence_sequence ≡ first_incident.occurrence_sequence + 1)
    × (history after "Congestion Incident:rtr-01"
        ≡ history one_open "Congestion Incident:rtr-01" ++ (new.id ∷ []))
unfolding new_incident
upsert_recurs_example =
    upsert_recurs plain_digest one_open congested first_id first_incident status_resolved "operator"
      (start + 2) (start + 3) one_open-IsValid first_get refl refl closing

abbrev as_stored : List (Incident Fixed) → List (Incident Fixed)
as_stored l = l

list_all-sorted_example :
    IsNewestFirst (list_all as_stored one_open)
    × Perm (list_all as_stored one_open) (values one_open.incidents)
list_all-sorted_example = list_all-sorted as_stored one_open Perm.refl

active_newest_example :
    ((r : Incident Fixed)
      → active as_stored one_open ≡ some r
      → IsNewestOpen (values one_open.incidents) r)
    × (active as_stored one_open ≡ none
        → (x : Incident Fixed) → Mem x (values one_open.incidents)
        → x.status ≢ status_active)
active_newest_example = active_newest as_stored one_open Perm.refl

Reach-SpecReach_example : SpecReach (calls_of plain_digest first_Reach) (view one_open)
Reach-SpecReach_example = Reach-SpecReach plain_digest first_Reach
