-- ===== src/Persistence/Incidents/Concurrent.antt =====
-- `UpsertIncident` and `DecideIncident` of several callers: each changes the incident store under its
-- mutex and runs its statement later, and other calls may come between.
pub mod Effects
pub mod Orderly
pub mod Crossed
use vyomm.Prelude.{
  String, ◌≡◌, Bool, false, Option, none, some, List, [], ◌∷◌, ◌++◌, ◌==◌, if◌then◌else◌, All,
}
use vyomm.GoTime.{Time}
use vyomm.Incidents.{Incident, Candidate}
use vyomm.Persistence.{Store}
use vyomm.Persistence.Tables.{Database}
use vyomm.Persistence.Ingest.{Faults, Codec, StoreError}
use vyomm.Persistence.Incidents.{write_incident, write_decision, remember_upsert, remember_decision}

-- What a call still has to write: the INSERT of a created incident, or the transaction of a decision.
pub data Pending (F : Type 0) : Type 0 where
  inserting : Incident F → Pending F
  deciding : (inc : Incident F) (status actor : String) (now : Time) → Pending F

-- The store that the callers share, and what they have not written yet, in the order in which memory
-- was changed.
pub record Shared (F : Type 0) : Type 0 where
  pub store : Store F
  pub pending : List (Pending F)

module _ {F : Type 0} where
  abbrev pub id_of : Pending F → String
  id_of (inserting inc) = inc.id
  id_of (deciding inc status actor now) = inc.id

  -- The second half of a call.
  unfoldable pub run_pending :
      Codec F → Bool → Faults → Pending F → Database F → Database F × Option StoreError
  run_pending codec exec_ok faults (inserting inc) db =
      let (rows, error) = write_incident codec exec_ok db.incidents inc in
      (record db { incidents = rows }, error)
  run_pending codec exec_ok faults (deciding inc status actor now) db =
      write_decision faults db inc status actor now

  -- The first half of `UpsertIncident`.
  unfoldable pub begin_upsert : (String → String) → Shared F → Candidate F → Time → Shared F
  begin_upsert sha1_hex a c now =
      let (s, inc, created) = remember_upsert sha1_hex a.store c now in
      record {
        store = s;
        pending = if created then a.pending ++ (inserting inc ∷ []) else a.pending;
      }

  -- The first half of `DecideIncident`.
  unfoldable pub begin_decide : Shared F → String → String → String → Time → Shared F
  begin_decide a id status actor now =
      let (s, found) = remember_decision a.store id status actor now in
      record {
        store = s;
        pending = elim found [
          | none ↦ a.pending
          | some (inc, was_active) ↦ a.pending ++ (deciding inc status actor now ∷ [])
        ];
      }

  module _ (sha1_hex : String → String) (codec : Codec F) where
    -- What the callers' goroutines may do next; any call may be the next to write.
    pub data CallStep (a b : Shared F) : Type 0 where
      upsert_begins :
          (c : Candidate F) (now : Time) → b ≡ begin_upsert sha1_hex a c now → CallStep a b
      decide_begins :
          (id status actor : String) (now : Time)
          → b ≡ begin_decide a id status actor now
          → CallStep a b
      call_ends :
          (exec_ok : Bool) (faults : Faults) (before after : List (Pending F)) (w : Pending F)
          → a.pending ≡ before ++ (w ∷ after)
          → b ≡ record {
            store = record a.store { db = (run_pending codec exec_ok faults w a.store.db).0 };
            pending = before ++ after;
          }
          → CallStep a b

    pub data Interleaves (a : Shared F) : Shared F → Type 0 where
      alone : Interleaves a a
      joined : {b c : Shared F} → Interleaves a b → CallStep b c → Interleaves a c

    -- The statement succeeds, and no earlier change of the same incident is still to be written.
    abbrev pub IsOrderlyStep : (a b : Shared F) → CallStep a b → Type 0
    IsOrderlyStep a b (upsert_begins c now e) = Unit
    IsOrderlyStep a b (decide_begins id status actor now e) = Unit
    IsOrderlyStep a b (call_ends exec_ok faults before after w p e) =
        ((run_pending codec exec_ok faults w a.store.db).1 ≡ none)
        × All (λ v. (id_of v == id_of w) ≡ false) before

    abbrev pub IsOrderly : {a b : Shared F} → Interleaves a b → Type 0
    IsOrderly alone = Unit
    IsOrderly (joined {b = b} {c = c} r st) = IsOrderlyStep b c st × IsOrderly r

    -- Every statement of a run succeeds.
    abbrev pub IsWrittenStep : (a b : Shared F) → CallStep a b → Type 0
    IsWrittenStep a b (upsert_begins c now e) = Unit
    IsWrittenStep a b (decide_begins id status actor now e) = Unit
    IsWrittenStep a b (call_ends exec_ok faults before after w p e) =
        (run_pending codec exec_ok faults w a.store.db).1 ≡ none

    abbrev pub IsWritten : {a b : Shared F} → Interleaves a b → Type 0
    IsWritten alone = Unit
    IsWritten (joined {b = b} {c = c} r st) = IsWrittenStep b c st × IsWritten r
