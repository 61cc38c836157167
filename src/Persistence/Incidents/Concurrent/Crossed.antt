-- ===== src/Persistence/Incidents/Concurrent/Crossed.antt =====
-- Two decisions on one incident whose transactions commit in the other order.
use vyomm.Prelude.{String, ◌≡◌, refl, sym, ap, ◌∙◌, true, none, some, [], ◌∷◌, ◌++◌, ◌==◌, eq_refl}
use vyomm.GoMap
use vyomm.GoTime.{Time, rfc3339}
use vyomm.Incidents.{Incident}
use vyomm.Incidents.Store as Memory
use vyomm.Incidents.Store.{decide, decide_with}
use vyomm.Incidents.Store.Steps.{get-decide, decided, closed}
use vyomm.Persistence.{Store}
use vyomm.Persistence.Tables.{Database}
use vyomm.Persistence.Ingest.{Faults, Codec}
use vyomm.Persistence.Incidents.{write_decision}
use vyomm.Persistence.Incidents.Rows.{row_at, row_for, Mirrors}
use vyomm.Persistence.Incidents.Concurrent.{
  Pending, deciding, Shared, run_pending, begin_decide, decide_begins, call_ends, Interleaves,
  alone, joined, IsWritten,
}
use vyomm.Persistence.Incidents.Concurrent.Effects.{effect, run_pending-effect}

module _ {F : Type 0} where
  begin_decide-found :
      (a : Shared F) (id status actor : String) (now : Time) (inc : Incident F)
      → GoMap.get a.store.incidents.incidents id ≡ some inc
      → begin_decide a id status actor now ≡ record {
        store = record a.store { incidents = decided a.store.incidents id status actor now };
        pending =
            a.pending
            ++ (deciding (closed a.store.incidents id status actor now inc) status actor now ∷ []);
      }
  unfolding begin_decide decide
  begin_decide-found a id status actor now inc g = rw (g, begin_decide, decided, decide_with) refl

abbrev working : Faults
working = record { begin_ok = true; prepare_ok = true; exec_ok = λ n. true; commit_ok = true }

module _ {F : Type 0} (codec : Codec F) where
  deciding-written :
      (inc : Incident F) (status actor : String) (now : Time) (db : Database F)
      → (run_pending codec true working (deciding inc status actor now) db).1 ≡ none
  unfolding run_pending write_decision
  deciding-written inc status actor now db = refl

  module _ (sha1_hex : String → String) (s : Store F) (id first second actor other : String)
      (now later : Time) (inc : Incident F)
      (found : GoMap.get s.incidents.incidents id ≡ some inc) where
    abbrev memory_one : Memory.Store F
    memory_one = decided s.incidents id first actor now

    abbrev memory_two : Memory.Store F
    memory_two = decided memory_one id second other later

    abbrev one : Incident F
    one = closed s.incidents id first actor now inc

    abbrev two : Incident F
    two = closed memory_one id second other later one

    abbrev write_one : Pending F
    write_one = deciding one first actor now

    abbrev write_two : Pending F
    write_two = deciding two second other later

    abbrev db_two : Database F
    db_two = (run_pending codec true working write_two s.db).0

    abbrev db_one : Database F
    db_one = (run_pending codec true working write_one db_two).0

    abbrev quiet : Shared F
    quiet = record { store = s; pending = [] }

    abbrev begun_one : Shared F
    begun_one = record { store = record s { incidents = memory_one }; pending = write_one ∷ [] }

    abbrev begun_two : Shared F
    begun_two = record {
      store = record s { incidents = memory_two };
      pending = write_one ∷ write_two ∷ [];
    }

    abbrev ended_two : Shared F
    ended_two = record {
      store = record s { incidents = memory_two; db = db_two };
      pending = write_one ∷ [];
    }

    abbrev ended_one : Shared F
    ended_one = record { store = record s { incidents = memory_two; db = db_one }; pending = [] }

    found_one : GoMap.get memory_one.incidents id ≡ some one
    found_one = get-decide s.incidents id first actor now inc found id ∙ rw (eq_refl id) refl

    found_two : GoMap.get memory_two.incidents id ≡ some two
    found_two = get-decide memory_one id second other later one found_one id ∙ rw (eq_refl id) refl

    crossing : Interleaves sha1_hex codec quiet ended_one
    crossing =
        joined {b = ended_two}
          (joined {b = begun_two} {c = ended_two}
            (joined {b = begun_one} {c = begun_two}
              (joined {b = quiet} {c = begun_one} alone (
                decide_begins id first actor now
                  (sym (begin_decide-found quiet id first actor now inc found))))
              (decide_begins id second other later
                (sym (begin_decide-found begun_one id second other later one found_one))))
            (call_ends true working (write_one ∷ []) [] write_two refl refl))
          (call_ends true working [] [] write_one refl refl)

    crossing-IsWritten : IsWritten sha1_hex codec crossing
    unfolding crossing
    crossing-IsWritten = (
      deciding-written one first actor now db_two,
      (deciding-written two second other later s.db, (tt, (tt, tt))),
    )

    crossed-row :
        inc.id ≡ id
        → row_at s.db.incidents id ≡ some (row_for codec inc)
        → row_at db_one.incidents id
          ≡ some (record (row_for codec inc) { status = first; updated_at = rfc3339 now })
    crossed-row own r =
        let same : (inc.id == id) ≡ true = rw own (eq_refl id) in
        run_pending-effect codec true working write_one db_two id
          (deciding-written one first actor now db_two)
        ∙ ap (effect codec write_one id) (
            run_pending-effect codec true working write_two s.db id
              (deciding-written two second other later s.db)
            ∙ ap (effect codec write_two id) r)
        ∙ rw same refl

  -- Two decisions on a known incident of a store whose table mirrors memory can interleave, with every
  -- statement successful, so that in the end nothing is left to be written, memory has the status of
  -- the second, and the incident's row has the status and the time of the first.
  pub decisions_cross :
      (sha1_hex : String → String) (s : Store F) (id first second actor other : String)
      (now later : Time) (inc : Incident F)
      → GoMap.get s.incidents.incidents id ≡ some inc
      → inc.id ≡ id
      → Mirrors codec s
      → (b : Shared F) × (r : Interleaves sha1_hex codec (record { store = s; pending = [] }) b)
        × IsWritten sha1_hex codec r
        × (b.pending ≡ [])
        × (GoMap.get b.store.incidents.incidents id
            ≡ some (record inc { status = second; updated_at = later }))
        × (row_at b.store.db.incidents id
            ≡ some (record (row_for codec inc) { status = first; updated_at = rfc3339 now }))
  decisions_cross sha1_hex s id first second actor other now later inc found own mirrors = (
    ended_one sha1_hex s id first second actor other now later inc found,
    crossing sha1_hex s id first second actor other now later inc found,
    crossing-IsWritten sha1_hex s id first second actor other now later inc found,
    refl,
    found_two sha1_hex s id first second actor other now later inc found,
    crossed-row sha1_hex s id first second actor other now later inc found own
        (mirrors id ∙ rw found refl),
  )
