-- ===== src/Staleness/Tests.antt =====
-- Staleness of one secret, a hundred days after the epoch.
use stale_secrets_check.Prelude.{
  ◌+◌, ◌≡◌, ◌↔◌, ◌<◌, ◌*ℤ◌, ◌-ℤ◌, refl, true, false, String, List, [], ◌∷◌, ◌++◌, pos, arith, ◌==◌,
  if◌then◌else◌, none,
}
use stale_secrets_check.Api.{Time, StaleSecretWatchStatus}
use stale_secrets_check.Exec.{Fallible, ok, err, foreign}
use stale_secrets_check.Clock.{abs_duration, mul64, sub_time, wrap64}
use stale_secrets_check.ConfigData.{Secret, Namespace}
use stale_secrets_check.Staleness.{stale_threshold, is_stale, check_namespaces}
use stale_secrets_check.Staleness.Threshold.{day_nanos, distance, is_stale_iff, is_stale_over_iff}
use stale_secrets_check.Staleness.Report.{IsCounted, check_namespaces-IsCounted}
use stale_secrets_check.Staleness.Failure.{check_namespaces-none_iff}
use stale_secrets_check.Staleness.Exact.{AllParse, report, check_namespaces-Adds}

abbrev now : Time
now = pos 8640000000000000

abbrev parse : String → Fallible Time
parse t = if t == "epoch" then ok (pos 0) else err (foreign 1)

abbrev db : Secret
db = record {
  name = "db";
  created = "epoch";
  last_modified = "epoch";
  history = record { data_hash = "1" } ∷ [];
  type = "Opaque";
}

abbrev recorded : List Namespace
recorded = record { name = "app"; secrets = db ∷ [] } ∷ []

abbrev fresh : StaleSecretWatchStatus
fresh = record { conditions = []; secret_status = []; stale_secrets_count = pos 0 }

is_stale_tests :
    (is_stale now (stale_threshold (pos 99)) (pos 0) ≡ true)
    × (is_stale now (stale_threshold (pos 100)) (pos 0) ≡ false)
unfolding is_stale stale_threshold abs_duration mul64 ◌*ℤ◌ sub_time ◌-ℤ◌
is_stale_tests = (refl, refl)

is_stale_iff_example :
    (is_stale now (stale_threshold (pos 30)) (pos 0) ≡ true) ↔ (day_nanos 30 < distance now (pos 0))
is_stale_iff_example = is_stale_iff now (pos 0) 30 (omega arith)

is_stale_over_iff_example :
    (is_stale now (stale_threshold (pos 213503)) (pos 0) ≡ true)
    ↔ (18446744073709551616 < day_nanos 213503 + distance now (pos 0))
is_stale_over_iff_example = is_stale_over_iff now (pos 0) 213503 (omega arith) (omega arith)

check_namespaces-IsCounted_example :
    IsCounted (check_namespaces parse now (pos 30) recorded fresh).0
unfolding wrap64
check_namespaces-IsCounted_example =
    check_namespaces-IsCounted parse now (pos 30) recorded fresh refl

check_namespaces-Adds_example :
    let (st', e) = check_namespaces parse now (pos 30) recorded fresh in
    (e ≡ none)
    × (st'.secret_status ≡ fresh.secret_status ++ report parse now (pos 30) recorded)
    × (st'.conditions ≡ fresh.conditions)
check_namespaces-Adds_example =
    check_namespaces-Adds parse now (pos 30) recorded fresh
      (((((pos 0, refl), (pos 0, refl)), tt)), tt)

check_namespaces-none_iff_example :
    ((check_namespaces parse now (pos 30) recorded fresh).1 ≡ none)
    ↔ AllParse parse now (pos 30) recorded
check_namespaces-none_iff_example = check_namespaces-none_iff parse now (pos 30) recorded fresh
