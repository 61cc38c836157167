-- ===== src/Process.antt =====
-- cmd/vyomm-api/main.go: the interval of the pruning loop.
pub mod Startup
pub mod Pruning
use vyomm.Prelude.{ℕ, ◌*◌, ◌/◌, ◌≤◌, ◌≡◌, arith, if◌then◌else◌}
use vyomm.GoInt.{pos, quot, ltb_ℤ, ◌≤ℤ◌}
use vyomm.GoTime.{Duration, second, hour}

abbrev pub minute : ℕ
minute = 60 * second

-- A quarter of the retention, from a minute to an hour.
unfoldable pub pruning_interval : Duration → Duration
unfolding quot
pruning_interval retention =
    let interval = quot retention 4 in
    let at_least = if ltb_ℤ interval (pos minute) then pos minute else interval in
    if ltb_ℤ (pos hour) at_least then pos hour else at_least

-- The interval is from a minute to an hour for every retention, also a negative one; and it is a
-- quarter of every retention of four minutes to four hours.
pruning_interval_lem :
    (retention : Duration)
    → (pos minute ≤ℤ pruning_interval retention)
      × (pruning_interval retention ≤ℤ pos hour)
      × ((n : ℕ) → 4 * minute ≤ n → n ≤ 4 * hour → pruning_interval (pos n) ≡ pos (n / 4))
unfolding pruning_interval quot
pruning_interval_lem retention = (ground arith, ground arith, λ n lo hi. ground arith)
