-- ===== src/Process/Pruning.antt =====
-- cmd/vyomm-api/main.go: the loop of startRetentionPruning.
use vyomm.Prelude.{
  ℕ, ◌≤◌, ◌≡◌, ◌⊎◌, refl, subst, Bool, true, false, inl, inr, List, [], ◌∷◌, ◌++◌, arith, ltb,
  if◌then◌else◌, All,
}
use vyomm.GoTime.{Time, rfc3339, before_by}
use vyomm.Persistence.{Store}
use vyomm.Persistence.Ingest.{StoreError, prune}
use vyomm.Persistence.Ingest.Pruning.{prune_lem}

-- What the loop waits for: a tick, with the time and what the database does, or the end of the process.
pub data PruneEvent : Type 0 where
  tick : Time → Bool → Bool → PruneEvent
  done : PruneEvent

pub data PruneLog : Type 0 where
  prune_failed : StoreError → PruneLog
  prune_completed : ℕ → PruneLog

-- The log line of a tick.
unfoldable pub log_prune : ℕ ⊎ StoreError → List PruneLog → List PruneLog
log_prune (inr e) later = prune_failed e ∷ later
log_prune (inl pruned) later = if ltb 0 pruned then prune_completed pruned ∷ later else later

-- The loop at the events in their order: the store, the log, and whether the loop has ended.
unfoldable pub prune_loop :
    {F : Type 0} → Store F → List PruneEvent → Store F × List PruneLog × Bool
unfolding log_prune
prune_loop s [] = (s, [], false)
prune_loop s (done ∷ events) = (s, [], true)
prune_loop s (tick now exec affected ∷ events) =
    let (pruned, result) = prune exec affected s now in
    let (after, log, ended) = prune_loop pruned events in (after, log_prune result log, ended)

abbrev pub IsTick : PruneEvent → Type 0
IsTick (tick now exec affected) = Unit
IsTick done = ⊥

module _ {F : Type 0} where
  prune-retention :
      (exec affected : Bool) (s : Store F) (now : Time)
      → (prune exec affected s now).0.retention ≡ s.retention
  unfolding prune
  prune-retention exec affected s now = ground arith

  prune-done :
      (affected : Bool) (s : Store F) (now : Time)
      → All
          (λ r. rfc3339 (before_by now s.retention) ≤ r.observed_at)
          (prune true affected s now).0.db.telemetry
  unfolding prune
  prune-done true s now = (prune_lem s now).0
  prune-done false s now = (prune_lem s now).0

  -- Failed prunes do not end the loop: after any ticks, whatever the database has done at them, a tick
  -- whose statement succeeds leaves no row from before the retention window of its time, and the loop
  -- goes on.
  pub prune_loop_lem :
      (s : Store F) (events : List PruneEvent) (now : Time) (affected : Bool)
      → All IsTick events
      → let (after, log, ended) = prune_loop s (events ++ (tick now true affected ∷ [])) in
        All (λ r. rfc3339 (before_by now s.retention) ≤ r.observed_at) after.db.telemetry
        × (ended ≡ false)
  unfolding prune_loop
  prune_loop_lem s [] now affected ticks = (prune-done affected s now, refl)
  prune_loop_lem s (done ∷ events) now affected ticks = absurd ticks.0
  prune_loop_lem s (tick t exec other ∷ events) now affected ticks =
      let pruned = (prune exec other s t).0 in
      let rest = prune_loop_lem pruned events now affected ticks.1 in
      (
        subst
            (λ x.
              All (λ r. rfc3339 (before_by now x) ≤ r.observed_at)
                (prune_loop pruned (events ++ (tick now true affected ∷ []))).0.db.telemetry)
            (prune-retention exec other s t) rest.0,
        rest.1,
      )
