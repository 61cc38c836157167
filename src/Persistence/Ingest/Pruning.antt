-- ===== src/Persistence/Ingest/Pruning.antt =====
-- What `Prune` deletes and keeps.
use vyomm.Prelude.{ℕ, ◌+◌, ◌≤◌, ◌≡◌, refl, inl, true, List, [], ◌∷◌, arith, length, All}
use vyomm.GoTime.{Time, Stamp, rfc3339, before_by}
use vyomm.Persistence.{Store}
use vyomm.Persistence.Tables.{TelemetryRow, delete_before, count_before, select_from}
use vyomm.Persistence.Ingest.{prune}

delete_before-new :
    (cutoff : Stamp) (rows : List TelemetryRow)
    → All (λ r. cutoff ≤ r.observed_at) (delete_before cutoff rows)
unfolding delete_before
delete_before-new cutoff [] = tt
delete_before-new cutoff (r ∷ rows) = ground (arith, delete_before-new cutoff rows)

count-delete :
    (cutoff : Stamp) (rows : List TelemetryRow)
    → count_before cutoff rows + length (delete_before cutoff rows) ≡ length rows
unfolding delete_before count_before
count-delete cutoff [] = omega arith
count-delete cutoff (r ∷ rows) = ground (arith, count-delete cutoff rows)

select-delete :
    (old cutoff : Stamp) (rows : List TelemetryRow)
    → old ≤ cutoff
    → select_from cutoff (delete_before old rows) ≡ select_from cutoff rows
unfolding delete_before select_from
select-delete old cutoff [] h = refl
select-delete old cutoff (r ∷ rows) h = ground (arith, select-delete old cutoff rows h)

-- A prune whose statement and count of rows succeed keeps no row from before the retention window and every row from
-- within it, for every window that ends later, and reports the number of rows that it removed.
pub prune_lem :
    {F : Type 0} (s : Store F) (now : Time)
    → let cutoff = rfc3339 (before_by now s.retention) in
      let (after, n) = prune true true s now in
      All (λ r. cutoff ≤ r.observed_at) after.db.telemetry
      × ((later : Stamp)
          → cutoff ≤ later
          → select_from later after.db.telemetry ≡ select_from later s.db.telemetry)
      × ((removed : ℕ)
          → n ≡ inl removed
          → removed + length after.db.telemetry ≡ length s.db.telemetry)
unfolding prune
prune_lem s now =
    let cutoff = rfc3339 (before_by now s.retention) in
    (
      delete_before-new cutoff s.db.telemetry,
      λ later h. select-delete cutoff later s.db.telemetry h,
      λ removed e. ground (arith, count-delete cutoff s.db.telemetry),
    )
