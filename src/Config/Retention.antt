-- ===== src/Config/Retention.antt =====
-- When the retention in nanoseconds is that of the configured hours.
use vyomm.Prelude.{ℕ, ◌*◌, ◌^◌, ◌≤◌, ◌<◌, ◌≡◌, ◌↔◌, arith}
use vyomm.GoInt.{pos, signed64}
use vyomm.GoTime.{Time, hour, before_by}
use vyomm.Config.{hours_duration}

signed64_exact : (p : ℕ) → (signed64 p ≡ pos p) ↔ (p < 2 ^ 63)
unfolding signed64
signed64_exact p = ground arith

-- The retention of a number of hours is that many hours exactly when there are at most 2,562,047;
-- beyond that the product wraps.
retention_exact : (n : ℕ) → (hours_duration (pos n) ≡ pos (n * hour)) ↔ (n ≤ 2_562_047)
unfolding hours_duration
retention_exact n = ground (arith, signed64_exact (n * hour))

-- From 2,562,048 to 5,124,095 hours the product is negative as a duration: the cutoff of pruning is
-- later than the present.
pub retention_overflow :
    (n : ℕ) (now : Time)
    → 2_562_048 ≤ n
    → n ≤ 5_124_095
    → now < before_by now (hours_duration (pos n))
unfolding hours_duration signed64 before_by
retention_overflow n now lo hi = ground arith
