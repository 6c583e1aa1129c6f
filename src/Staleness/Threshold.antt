-- ===== src/Staleness/Threshold.antt =====
-- When a secret counts as stale, by the int64 threshold.
use stale_secrets_check.Prelude.{
  ◌-◌, ℕ, ◌+◌, ◌*◌, ◌≤◌, ◌<◌, ◌≡◌, ◌↔◌, true, pos, pos_part, neg_part, ◌-ℤ◌, refl, arith,
  eq_of_parts,
}
use stale_secrets_check.Api.{Time}
use stale_secrets_check.Clock.{abs_duration}
use stale_secrets_check.Clock.Bounds.{mul64_exact, abs_duration-mul64_over, abs_duration-sub_time}
use stale_secrets_check.Staleness.{stale_threshold, is_stale}

-- the nanoseconds of some days
abbrev pub day_nanos : ℕ → ℕ
day_nanos days = days * 86400000000000

stale_threshold_exact :
    (days : ℕ) → days ≤ 106751 → stale_threshold (pos days) ≡ pos (day_nanos days)
unfolding stale_threshold
stale_threshold_exact days h =
    rw (mul64_exact days 24 (omega arith), mul64_exact (days * 24) 3600000000000 (omega arith))
      (omega (arith, eq_of_parts))

abs_duration-pos : (n : ℕ) → abs_duration (pos n) ≡ pos n
unfolding abs_duration
abs_duration-pos n = refl

-- The distance of two instants.
abbrev pub distance : Time → Time → ℕ
distance t u = pos_part (t -ℤ u) + neg_part (t -ℤ u)

-- Up to 106751 days a secret is stale exactly when its last change lies more than the threshold
-- away from now, before or after it.
pub is_stale_iff :
    (now last_modified : Time) (days : ℕ)
    → days ≤ 106751
    → (is_stale now (stale_threshold (pos days)) last_modified ≡ true)
      ↔ (day_nanos days < distance now last_modified)
unfolding is_stale
is_stale_iff now last_modified days h =
    rw (stale_threshold_exact days h, abs_duration-sub_time now last_modified)
      (ground (arith, abs_duration-pos (day_nanos days)))

stale_threshold_over :
    (days : ℕ)
    → 106751 < days
    → days ≤ 213503
    → abs_duration (stale_threshold (pos days)) ≡ pos (18446744073709551616 - day_nanos days)
unfolding stale_threshold
stale_threshold_over days more h =
    rw
      (
        mul64_exact days 24 (omega arith),
        abs_duration-mul64_over (days * 24) 3600000000000 (omega arith) (omega arith),
      )
      (omega (arith, eq_of_parts))

-- From 106752 to 213503 days, where the threshold overflows, a secret is stale exactly when the days
-- and the distance of its last change from now, in nanoseconds, are together more than 2 ^ 64.
pub is_stale_over_iff :
    (now last_modified : Time) (days : ℕ)
    → 106751 < days
    → days ≤ 213503
    → (is_stale now (stale_threshold (pos days)) last_modified ≡ true)
      ↔ (18446744073709551616 < day_nanos days + distance now last_modified)
unfolding is_stale
is_stale_over_iff now last_modified days more h =
    rw (stale_threshold_over days more h, abs_duration-sub_time now last_modified) (ground arith)
