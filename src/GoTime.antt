-- ===== src/GoTime.antt =====
-- What the program uses of package time. A `Time` is the number of nanoseconds since Go's zero time,
-- 1 January of year 1, UTC; a stamp is the whole second that an RFC 3339 text in UTC denotes (such
-- texts have one width for the years 1 to 9999, so their order as texts is that of the seconds).
use vyomm.Prelude.{ℕ, ◌+◌, ◌-◌, ◌*◌, ◌/◌, ◌^◌, Bool, ltb, leb, eqb, if◌then◌else◌}
use vyomm.GoInt.{ℤ, pos, negsuc, pos_part, neg_part, signed64}

abbrev pub Time : Type 0
Time = ℕ

abbrev pub Stamp : Type 0
Stamp = ℕ

-- `int64` nanoseconds.
abbrev pub Duration : Type 0
Duration = ℤ

abbrev pub second : ℕ
second = 10 ^ 9

abbrev pub hour : ℕ
hour = 3600 * second

-- Seconds from year 1 to 1970.
abbrev pub unix_epoch : ℕ
unix_epoch = 62_135_596_800

-- `t.IsZero()`
abbrev pub is_zero : Time → Bool
is_zero t = eqb t 0

-- `t.After(u)`
abbrev pub after : Time → Time → Bool
after t u = ltb u t

-- `t.Unix()`
unfoldable pub unix : Time → ℤ
unix t =
    let s = t / second in
    if leb unix_epoch s then pos (s - unix_epoch) else negsuc (unix_epoch - s - 1)

-- `t.UnixNano()`, which wraps.
unfoldable pub unix_nano : Time → ℤ
unfolding signed64
unix_nano t = signed64 (t + 4 * 2 ^ 64 - unix_epoch * second)

-- `t.UTC().Format(time.RFC3339)`
unfoldable pub rfc3339 : Time → Stamp
rfc3339 t = t / second

-- `time.Parse(time.RFC3339, s)`
unfoldable pub parse_rfc3339 : Stamp → Time
parse_rfc3339 s = s * second

-- `t.Add(-d)`; times before year 1 are not represented.
unfoldable pub before_by : Time → Duration → Time
before_by t d = t + neg_part d - pos_part d
