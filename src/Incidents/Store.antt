-- ===== src/Incidents/Store.antt =====
-- internal/incidents/store.go: the in-memory incident store and its recurrence rules.
pub mod Wellformed
pub mod Creation
pub mod Steps
pub mod Recurrence
pub mod Refinement
pub mod Listing
pub mod Newest
use Prim.Native.String.{slice}
use mathlib.Core.List.{reverse}
use vyomm.Prelude.{
  ℕ, suc, ◌+◌, String, Bool, true, false, not, Option, none, some, List, [], ◌∷◌, ◌++◌, ◌==◌,
  if◌then◌else◌, length, last?,
}
use vyomm.Prelude.Text.{concat, decimal, decimal_06}
use vyomm.GoInt.{show_ℤ}
use vyomm.GoMap
use vyomm.GoMap.{GoMap}
use vyomm.GoTime.{Time, after, unix_nano}
use vyomm.Incidents.{Incident, Decision, Candidate, status_active}

pub record Store (F : Type 0) : Type 0 where
  pub incidents : GoMap (Incident F)
  pub by_occurrence : GoMap (List String)
  pub decisions : GoMap (List Decision)

unfoldable pub new_store : {F : Type 0} → Store F
new_store = record { incidents = GoMap.empty; by_occurrence = GoMap.empty; decisions = GoMap.empty }

-- A missing key of a map of slices reads as the nil slice.
unfoldable pub or_nil {ℓ} : {A : Type ℓ} → Option (List A) → List A
or_nil none = []
or_nil (some l) = l

module _ {F : Type 0} where
  -- `s.byOccurrence[key]`, which `History` copies.
  unfoldable pub history : Store F → String → List String
  history s key = or_nil (GoMap.get s.by_occurrence key)

  -- `s.decisions[id]`, which `Decisions` copies.
  unfoldable pub decisions_of : Store F → String → List Decision
  decisions_of s id = or_nil (GoMap.get s.decisions id)

-- `NewIncidentID`; `sha1_hex` is the hexadecimal SHA-1 of package crypto/sha1.
unfoldable pub new_incident_id : (String → String) → String → ℕ → Time → String
new_incident_id sha1_hex key sequence now =
    let text =
      concat key (concat ":" (concat (decimal sequence) (concat ":" (show_ℤ (unix_nano now))))) in
    concat "INC-" (concat (slice (sha1_hex text) 0 6) (concat "-" (decimal_06 sequence)))

module _ {F : Type 0} where
  -- The incident that `Upsert` builds.
  unfoldable pub new_incident : (String → String) → Candidate F → ℕ → Time → Incident F
  new_incident sha1_hex c sequence now = record {
    id = new_incident_id sha1_hex c.occurrence_key sequence now;
    occurrence_key = c.occurrence_key;
    occurrence_sequence = sequence;
    severity = c.severity;
    affected_devices = c.affected_devices;
    root_cause = c.root_cause;
    status = status_active;
    created_at = now;
    updated_at = now;
    confidence = c.confidence;
    predicted_sla_breach_minutes = c.sla_breach_minutes;
    recommended_action = c.recommended_action;
  }

  -- `s.incidents[history[len(history)-1]]`, if there is a history and the entry is not nil.
  unfoldable pub latest_occurrence : Store F → String → Option (Incident F)
  latest_occurrence s key = elim (last? (history s key)) [
    | none ↦ none
    | some id ↦ GoMap.get s.incidents id
  ]

  -- The part of `Upsert` that creates an occurrence.
  unfoldable pub create : (String → String) → Store F → Candidate F → Time → Store F × Incident F
  create sha1_hex s c now =
      let past = history s c.occurrence_key in
      let inc = new_incident sha1_hex c (length past + 1) now in
      (
        record s {
          incidents = GoMap.put s.incidents inc.id inc;
          by_occurrence = GoMap.put s.by_occurrence c.occurrence_key (past ++ (inc.id ∷ []));
        },
        inc,
      )

  -- Whether the latest occurrence is still open.
  unfoldable pub is_open : Option (Incident F) → Bool
  is_open none = false
  is_open (some inc) = inc.status == status_active

  abbrev pub upsert_with :
      (String → String)
      → Store F
      → Candidate F
      → Time
      → Option (Incident F)
      → Store F × Incident F × Bool
  upsert_with sha1_hex s c now none = let (s', inc) = create sha1_hex s c now in (s', inc, true)
  upsert_with sha1_hex s c now (some last) =
      let (s', inc) = create sha1_hex s c now in
      if last.status == status_active then (s, last, false) else (s', inc, true)

  -- The new store, the incident, and `created`.
  unfoldable pub upsert :
      (String → String) → Store F → Candidate F → Time → Store F × Incident F × Bool
  upsert sha1_hex s c now = upsert_with sha1_hex s c now (latest_occurrence s c.occurrence_key)

  abbrev pub decide_with :
      Store F
      → String
      → String
      → String
      → Time
      → Option (Incident F)
      → Store F × Option (Incident F × Bool)
  decide_with s id status actor now none = (s, none)
  decide_with s id status actor now (some existing) =
      let updated : Incident F = record existing { status = status; updated_at = now } in
      let entry : Decision = record {
        incident_id = id;
        status = status;
        actor = actor;
        decided_at = now;
      } in
      (
        record s {
          incidents = GoMap.put s.incidents id updated;
          decisions = GoMap.put s.decisions id (decisions_of s id ++ (entry ∷ []));
        },
        some (updated, existing.status == status_active),
      )

  -- `none` is the error "incident not found"; otherwise the incident and `wasActive`.
  unfoldable pub decide :
      Store F → String → String → String → Time → Store F × Option (Incident F × Bool)
  decide s id status actor now = decide_with s id status actor now (GoMap.get s.incidents id)

  -- One round of the loop of `Active`.
  unfoldable pub prefer : Option (Incident F) → Incident F → Option (Incident F)
  prefer none inc = if not (inc.status == status_active) then none else some inc
  prefer (some latest) inc =
      if not (inc.status == status_active)
      then some latest
      else if after inc.created_at latest.created_at
      then some inc
      else some latest

  -- The loop of `Active` over the incidents, in the order in which the map is visited.
  unfoldable pub active_from : Option (Incident F) → List (Incident F) → Option (Incident F)
  unfolding prefer
  active_from latest [] = latest
  active_from latest (inc ∷ incs) = active_from (prefer latest inc) incs

  -- The inner loop of `List`'s insertion sort: the new element moves towards the front while it is
  -- later than the one before it. The sorted part is kept last element first.
  unfoldable pub sift : Incident F → List (Incident F) → List (Incident F)
  sift inc [] = inc ∷ []
  sift inc (x ∷ rev) =
      let rest = sift inc rev in
      if after inc.created_at x.created_at then x ∷ rest else inc ∷ x ∷ rev

  unfoldable pub sort_from : List (Incident F) → List (Incident F) → List (Incident F)
  sort_from rev [] = rev
  sort_from rev (inc ∷ incs) = sort_from (sift inc rev) incs

  -- `Active`; `visit` is the order in which the runtime visits the map.
  unfoldable pub active : (List (Incident F) → List (Incident F)) → Store F → Option (Incident F)
  active visit s = active_from none (visit (GoMap.values s.incidents))

  -- `List`
  unfoldable pub list_all : (List (Incident F) → List (Incident F)) → Store F → List (Incident F)
  list_all visit s = reverse (sort_from [] (visit (GoMap.values s.incidents)))

  unfoldable pub restore_incidents : Store F → List (Incident F) → Store F
  restore_incidents s [] = s
  restore_incidents s (inc ∷ incs) =
      restore_incidents
        (record s {
          incidents = GoMap.put s.incidents inc.id inc;
          by_occurrence =
              GoMap.put s.by_occurrence inc.occurrence_key
                (history s inc.occurrence_key ++ (inc.id ∷ []));
        })
        incs

  unfoldable pub restore_decisions : Store F → List (String × List Decision) → Store F
  restore_decisions s [] = s
  restore_decisions s ((id, ds) ∷ rest) =
      restore_decisions (record s { decisions = GoMap.put s.decisions id ds }) rest

  unfoldable pub restore : Store F → List (Incident F) → GoMap (List Decision) → Store F
  unfolding restore_incidents restore_decisions
  restore s all ds = restore_decisions (restore_incidents s all) ds.entries
