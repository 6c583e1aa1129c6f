-- ===== src/Clock/Bounds.antt =====
-- Where the int64 arithmetic on durations is exact.
use stale_secrets_check.Prelude.{
  ℕ, ◌+◌, ◌-◌, ◌*◌, ◌/◌, ◌%◌, ◌≤◌, ◌<◌, ◌≡◌, ℤ, pos, negsuc, ◌<ℤ◌, ◌≤ℤ◌, arith, int_laws, refl,
  ◌-ℤ◌, ◌+ℤ◌, ◌*ℤ◌, pos_part, neg_part,
}
use Prim.Native.Nat.{min}
use stale_secrets_check.Api.{Time}
use stale_secrets_check.Clock.{
  wrap64, mul64, sub_time, abs_duration, next_five_minutes, nanos_of_day, hour_of, minute_of,
  saturate64, date_at,
}

pub wrap64_exact : (a : ℕ) → a < 9223372036854775808 → wrap64 (pos a) ≡ pos a
unfolding wrap64
wrap64_exact a h = ground arith

abs_duration-wrap64_over :
    (a : ℕ)
    → 9223372036854775808 < a
    → a < 18446744073709551616
    → abs_duration (wrap64 (pos a)) ≡ pos (18446744073709551616 - a)
unfolding wrap64 abs_duration
abs_duration-wrap64_over a more h = ground arith

abs_duration-saturate64 :
    (d : ℤ) → abs_duration (saturate64 d) ≡ pos (min (pos_part d + neg_part d) 9223372036854775807)
unfolding saturate64 abs_duration
abs_duration-saturate64 (pos n) = ground arith
abs_duration-saturate64 (negsuc n) = ground arith

*ℤ-pos : (a b : ℕ) → pos a *ℤ pos b ≡ pos (a * b)
unfolding ◌*ℤ◌
*ℤ-pos a b = ground arith

pub mul64_exact : (a b : ℕ) → a * b < 9223372036854775808 → mul64 (pos a) (pos b) ≡ pos (a * b)
unfolding mul64
mul64_exact a b h = rw *ℤ-pos (wrap64_exact (a * b) h)

-- The product of two ints that overflows once.
pub abs_duration-mul64_over :
    (a b : ℕ)
    → 9223372036854775808 < a * b
    → a * b < 18446744073709551616
    → abs_duration (mul64 (pos a) (pos b)) ≡ pos (18446744073709551616 - a * b)
unfolding mul64
abs_duration-mul64_over a b more h = rw *ℤ-pos (abs_duration-wrap64_over (a * b) more h)

-- The absolute value of a saturated difference.
pub abs_duration-sub_time :
    (t u : Time)
    → abs_duration (sub_time t u)
      ≡ pos (min (pos_part (t -ℤ u) + neg_part (t -ℤ u)) 9223372036854775807)
unfolding sub_time
abs_duration-sub_time t u = abs_duration-saturate64 (t -ℤ u)

next_mark :
    (d m : ℕ)
    → m ≡ d / 60000000000 % 60
    → (d < d / 3600000000000 * 3600000000000 + (m / 5 + 1) * 5 * 60000000000)
      × (d / 3600000000000 * 3600000000000 + (m / 5 + 1) * 5 * 60000000000 ≤ d + 300000000000)
next_mark d m e = omega arith

saturate64_small : (n : ℕ) → n ≤ 300000000000 → saturate64 (pos n) ≡ pos n
unfolding saturate64
saturate64_small n h = ground arith

date_at-sub_time :
    (now : Time) (offset : ℕ)
    → nanos_of_day now < offset
    → offset ≤ nanos_of_day now + 300000000000
    → sub_time (date_at now offset) now ≡ pos (offset - nanos_of_day now)
unfolding sub_time date_at
date_at-sub_time now offset h k =
    let d = nanos_of_day now in
    let e : now -ℤ pos d +ℤ pos offset -ℤ now ≡ pos (offset - d) = omega int_laws in
    rw e (saturate64_small (offset - d) (omega arith))

minute_of_lem : (now : Time) → minute_of now ≡ nanos_of_day now / 60000000000 % 60
unfolding minute_of
minute_of_lem now = refl

hour_of_lem : (now : Time) → hour_of now ≡ nanos_of_day now / 3600000000000
unfolding hour_of
hour_of_lem now = refl

-- The next mark is at most five minutes ahead, and never now.
pub next_five_minutes_bounds :
    (now : Time) → (pos 0 <ℤ next_five_minutes now) × (next_five_minutes now ≤ℤ pos 300000000000)
unfolding next_five_minutes
next_five_minutes_bounds now =
    let d = nanos_of_day now in
    let offset = hour_of now * 3600000000000 + (minute_of now / 5 + 1) * 5 * 60000000000 in
    let (after, near) = next_mark d (minute_of now) (minute_of_lem now) in
    let hours = hour_of_lem now in
    rw (date_at-sub_time now offset (omega (arith, hours)) (omega (arith, hours)))
      (omega (arith, hours))
