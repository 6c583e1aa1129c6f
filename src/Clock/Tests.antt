-- ===== src/Clock/Tests.antt =====
-- Durations and instants.
use stale_secrets_check.Prelude.{◌≡◌, refl, ◌-ℤ◌, ◌+ℤ◌, pos, negsuc, ◌<ℤ◌, ◌≤ℤ◌}
use stale_secrets_check.Clock.{wrap64, abs_duration, next_five_minutes}
use stale_secrets_check.Clock.Bounds.{next_five_minutes_bounds}

wrap64_tests :
    (wrap64 (pos 9223372036854775808) ≡ negsuc 9223372036854775807)
    × (wrap64 (negsuc 9223372036854775808) ≡ pos 9223372036854775807)
    × (abs_duration (negsuc 9223372036854775807) ≡ pos 9223372036854775807)
unfolding wrap64 abs_duration
wrap64_tests = (refl, refl, refl)

-- 12:34 on the first of January 1970
next_five_minutes_tests : next_five_minutes (pos 45240000000000) ≡ pos 60000000000
unfolding next_five_minutes ◌-ℤ◌ ◌+ℤ◌
next_five_minutes_tests = refl

next_five_minutes_bounds_example :
    (pos 0 <ℤ next_five_minutes (negsuc 5)) × (next_five_minutes (negsuc 5) ≤ℤ pos 300000000000)
next_five_minutes_bounds_example = next_five_minutes_bounds (negsuc 5)
