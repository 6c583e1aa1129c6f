-- ===== src/Clock.antt =====
-- Go's package time as the operator uses it: durations are int64 counts of nanoseconds.
pub mod Bounds
mod Tests
use stale_secrets_check.Prelude.{
  ℕ, suc, ◌+◌, ◌-◌, ◌*◌, ◌/◌, ◌%◌, ℤ, pos, negsuc, ◌+ℤ◌, ◌-ℤ◌, ◌*ℤ◌, ltb, leb, ltb_ℤ, if◌then◌else◌,
}
use stale_secrets_check.Api.{Time, Int64}

-- time.Time{}, the first instant of the year 1
abbrev pub zero_time : Time
zero_time = negsuc 62135596799999999999

abbrev pub max_int64 : ℤ
max_int64 = pos 9223372036854775807

abbrev pub min_int64 : ℤ
min_int64 = negsuc 9223372036854775807

-- The int64 with the same low 64 bits.
unfoldable pub wrap64 : ℤ → Int64
wrap64 (pos n) =
    let m = n % 18446744073709551616 in
    if ltb m 9223372036854775808 then pos m else negsuc (18446744073709551615 - m)
wrap64 (negsuc n) =
    let m = n % 18446744073709551616 in
    if ltb m 9223372036854775808 then negsuc m else pos (18446744073709551615 - m)

-- The nearest int64.
unfoldable pub saturate64 : ℤ → Int64
saturate64 d = if ltb_ℤ max_int64 d then max_int64 else if ltb_ℤ d min_int64 then min_int64 else d

abbrev pub hour : Int64
hour = pos 3600000000000

abbrev pub minute : Int64
minute = pos 60000000000

-- t.Sub(u), which stops at the ends of the range
unfoldable pub sub_time : Time → Time → Int64
unfolding saturate64
sub_time t u = saturate64 (t -ℤ u)

-- d.Abs(), where the least int64 becomes the greatest
unfoldable pub abs_duration : Int64 → Int64
abs_duration (pos n) = pos n
abs_duration (negsuc n) = if leb 9223372036854775807 n then max_int64 else pos (suc n)

-- d * e on durations and ints
unfoldable pub mul64 : Int64 → Int64 → Int64
unfolding wrap64
mul64 a b = wrap64 (a *ℤ b)

-- d - e on durations
unfoldable pub sub64 : Int64 → Int64 → Int64
unfolding wrap64
sub64 a b = wrap64 (a -ℤ b)

-- t.Add(d), in the range of time.Time
unfoldable pub add_time : Time → Int64 → Time
add_time t d = t +ℤ d

-- The days from 1970-01-01 to the day of an instant, and the nanoseconds of it, in UTC.
unfoldable pub nanos_of_day : Time → ℕ
nanos_of_day (pos n) = n % 86400000000000
nanos_of_day (negsuc n) = 86399999999999 - n % 86400000000000

-- t.Hour() and t.Minute() in UTC
unfoldable pub hour_of : Time → ℕ
unfolding nanos_of_day
hour_of t = nanos_of_day t / 3600000000000

unfoldable pub minute_of : Time → ℕ
unfolding nanos_of_day
minute_of t = nanos_of_day t / 60000000000 % 60

-- time.Date with the year, month and day of `t` and an offset into the day, in UTC
unfoldable pub date_at : Time → ℕ → Time
unfolding nanos_of_day
date_at t offset = t -ℤ pos (nanos_of_day t) +ℤ pos offset

-- GetNextFiveMinutes of internal/controller/utils.go, from the one instant that it reads
unfoldable pub next_five_minutes : Time → Int64
unfolding date_at hour_of minute_of sub_time abs_duration
next_five_minutes now =
    let mark = (minute_of now / 5 + 1) * 5 in
    abs_duration (sub_time (date_at now (hour_of now * 3600000000000 + mark * 60000000000)) now)
