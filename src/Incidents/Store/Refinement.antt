-- ===== src/Incidents/Store/Refinement.antt =====
-- The incident store against a specification that knows of each fault only the IDs that were given
-- out for its occurrences and whether it is open, and that allows a call only certain answers.
pub mod Reporting
pub mod Settling
pub mod Runs
use vyomm.Prelude.{
  ℕ, ◌+◌, String, ◌≡◌, ◌≢◌, Bool, true, false, Option, none, some, List, [], ◌∷◌, ◌++◌, ◌==◌,
  if◌then◌else◌, length, last?, get_elem?,
}
use vyomm.Incidents.Store.{Store, history, latest_occurrence, is_open}

-- What the specification knows of a fault: the IDs of its occurrences, and whether the last is open.
pub record Fault : Type 0 where
  pub issued : List String
  pub open_now : Bool

abbrev pub no_fault : Fault
no_fault = record { issued = []; open_now = false }

abbrev pub reopened : String → Fault → Fault
reopened id v = record { issued = v.issued ++ (id ∷ []); open_now = true }

abbrev pub settled : Fault → Fault
settled v = record v { open_now = false }

-- A call with what its caller sees: of an upsert the key of the candidate, the returned incident's ID
-- and number, and `created`; of a decision the ID and `wasActive`, or none for an unknown incident.
pub data Call : Type 0 where
  upserted : (key id : String) (number : ℕ) (created : Bool) → Call
  answered : (id : String) (was_active : Option Bool) → Call

-- One key's fault changes.
abbrev pub ChangesAt : String → (Fault → Fault) → (String → Fault) → (String → Fault) → Type 0
ChangesAt key change f g = (k : String) → g k ≡ (if key == k then change (f k) else f k)

abbrev pub Same : (String → Fault) → (String → Fault) → Type 0
Same f g = (k : String) → g k ≡ f k

abbrev pub IsUnknown : (String → Fault) → String → Type 0
IsUnknown f id = (k : String) (i : ℕ) → get_elem? (f k).issued i ≢ some id

-- What the specification allows of a call: a candidate of a fault that is not open creates the next
-- occurrence under a new ID, one of an open fault is answered with the last occurrence; a decision
-- settles the fault whose last occurrence it names if that is open, and else changes nothing.
pub data SpecStep (f g : String → Fault) : Call → Type 0 where
  create_next :
      (key id : String)
      → (f key).open_now ≡ false
      → IsUnknown f id
      → ChangesAt key (reopened id) f g
      → SpecStep f g (upserted key id (length (f key).issued + 1) true)
  keep_open :
      (key id : String)
      → (f key).open_now ≡ true
      → last? (f key).issued ≡ some id
      → Same f g
      → SpecStep f g (upserted key id (length (f key).issued) false)
  settle :
      (key id : String)
      → (f key).open_now ≡ true
      → last? (f key).issued ≡ some id
      → ChangesAt key settled f g
      → SpecStep f g (answered id (some true))
  ignore :
      (key id : String) (i : ℕ)
      → get_elem? (f key).issued i ≡ some id
      → ((k : String) → last? (f k).issued ≡ some id → (f k).open_now ≡ false)
      → Same f g
      → SpecStep f g (answered id (some false))
  refuse : (id : String) → IsUnknown f id → Same f g → SpecStep f g (answered id none)

-- The runs of the specification from no faults, with their calls, the last one first.
pub data SpecReach : List Call → (String → Fault) → Type 0 where
  start : {g : String → Fault} → ((k : String) → g k ≡ no_fault) → SpecReach [] g
  more :
      {c : Call} {cs : List Call} {g h : String → Fault}
      → SpecReach cs g
      → SpecStep g h c
      → SpecReach (c ∷ cs) h

module _ {F : Type 0} where
  abbrev pub view : Store F → String → Fault
  view s key = record { issued = history s key; open_now = is_open (latest_occurrence s key) }
