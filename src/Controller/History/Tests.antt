-- ===== src/Controller/History/Tests.antt =====
-- Reconciles on a small cluster that keeps the ConfigMap.
use mathlib.Core.List.{flat_map}
use native.Mathlib.Decide.{dec_lt}
use stale_secrets_check.Clock.{add_time, abs_duration, mul64}
use stale_secrets_check.Staleness.{
  check_namespaces, check_secrets, check_secret, is_stale, stale_threshold, add_status,
}
use stale_secrets_check.Notify.{notify_slack}
use stale_secrets_check.Cluster.Sample.Retries.{tries-Adds_later}
use stale_secrets_check.Cluster.Sample.{is_refusal}
use stale_secrets_check.Controller.Reported.{CallsOnce}
use stale_secrets_check.Controller.History.Reported.{
  IsInReport, RejectsEmpty, run_checks-IsInReport,
}
use stale_secrets_check.Controller.Daily.{after, run_checks}
use stale_secrets_check.Controller.Reconcile.{ten_minutes}
use stale_secrets_check.Controller.History.Covered.{IsCovered}
use stale_secrets_check.Controller.History.Covered.Reconciling.{reconcile-IsCovered}
use stale_secrets_check.Strings.{split_commas, trim_space}
use stale_secrets_check.WatchList.{is_token, is_excluded, append_at, watch_secret, watch_secrets}
use stale_secrets_check.Clock.{sub_time, hour_of}
use stale_secrets_check.Prelude.{◌-ℤ◌, ◌+ℤ◌, ◌*ℤ◌, pos, ◌≡◌, some, [], ◌∷◌, refl, arith}
use stale_secrets_check.Api.{ConfigMap, key_of}
use stale_secrets_check.Exec.{Sys, ok}
use stale_secrets_check.ConfigData.{store_reading, has_hash}
use stale_secrets_check.ConfigData.View.{view}
use stale_secrets_check.ConfigData.Valid.{IsValid}
use stale_secrets_check.Hash.{calculate_hash, bytes_at}
use stale_secrets_check.Cluster.Sample.{World, sample_world, sample_watch, sample_secret, meta_of}
use stale_secrets_check.Cluster.Sample.Encoding.{
  decode-encoded, encoded, decode, one_secret, one_stored,
}
use stale_secrets_check.Store.{
  calculate_and_store_hashed_secrets, config_map_name, empty_config_map,
}
use stale_secrets_check.Controller.Reconcile.{reconcile}
use stale_secrets_check.Controller.History.Sample.{
  kept, kept_data, kept-Keeper, kept-IsLawful, kept-IsEncoding, kept-Puts, kept-Ranges,
  ten_minutes-delay,
}
use stale_secrets_check.Controller.History.{Grows}
use stale_secrets_check.Controller.History.Reconciling.{reconcile-Grows}
use stale_secrets_check.Controller.History.Runs.{
  Run, start, reconciled, outside, IsKept, Run-IsKept,
}

-- the ConfigMap with the secret on record
abbrev filled : ConfigMap
filled = record empty_config_map {
  meta = meta_of config_map_name "default";
  binary_data = ("data", encoded one_stored) ∷ [];
}

-- at three o'clock, when no checks are done
abbrev before : World
before = record sample_world { config_map = some filled; clock = 31546800000000000 }

abbrev at_night : Sys World
at_night = record { world = before; effects = []; next_address = 0 }

abbrev behind : World
behind = (reconcile kept (key_of sample_watch.meta) at_night).1.world

-- the secret with other data
abbrev changed : World
changed = record behind {
  secret = record sample_secret { secret_data = ("user", 97 ∷ 98 ∷ []) ∷ [] };
}

-- a Reconcile, a change of the secret, and another Reconcile
abbrev later : World
later =
    (reconcile kept (key_of sample_watch.meta)
      (record { world = changed; effects = []; next_address = 7 })).1.world

run : Run kept kept-Keeper before later
unfolding reconcile
run =
    reconciled (outside {v' = changed} (reconciled start (key_of sample_watch.meta) [] 0) refl)
      (key_of sample_watch.meta) [] 7

later_test :
    decode (kept_data later.config_map)
    ≡ ok (record {
      namespaces =
          record {
            name = "app";
            secrets =
                record one_secret {
                  history =
                      record { data_hash = "digest" } ∷ record { data_hash = "other digest" } ∷ [];
                }
                ∷ [];
          }
          ∷ [];
    })
unfolding reconcile split_commas calculate_and_store_hashed_secrets watch_secrets watch_secret
    is_token is_excluded append_at sub_time ◌-ℤ◌ hour_of store_reading dec_lt trim_space
    calculate_hash flat_map
later_test = refl

one_stored-IsValid : IsValid one_stored
unfolding has_hash
one_stored-IsValid = record {
  distinct = (tt, tt);
  namespaces = (
    record {
      distinct = (tt, tt);
      secrets = (record { nonempty = λ e. absurd (ground arith); no_repeats = (refl, tt) }, tt);
    },
    tt,
  );
}

was_kept : IsKept kept kept-Keeper "app" "db" "digest" (encoded one_stored)
unfolding has_hash view
was_kept = record {
  config = one_stored;
  is = decode-encoded one_stored;
  valid = one_stored-IsValid;
  has = (one_secret, refl, refl);
}

Run-IsKept_example : IsKept kept kept-Keeper "app" "db" "digest" (kept_data later.config_map)
unfolding bytes_at
Run-IsKept_example =
    Run-IsKept kept kept-Keeper "app" "db" "digest" kept-IsLawful kept-IsEncoding was_kept run

reconcile-Grows_example : Grows kept (kept_data before.config_map) (kept_data behind.config_map)
reconcile-Grows_example =
    reconcile-Grows kept kept-Keeper kept-IsLawful (key_of sample_watch.meta) at_night

reconcile-IsCovered_example :
    IsCovered kept kept-Keeper
      (key_of sample_watch.meta)
      (after ten_minutes)
      at_night
      (reconcile kept (key_of sample_watch.meta) at_night).1
      (kept_data behind.config_map)
unfolding reconcile split_commas calculate_and_store_hashed_secrets watch_secrets watch_secret
    is_token is_excluded append_at store_reading trim_space calculate_hash sub_time ◌-ℤ◌ hour_of
reconcile-IsCovered_example =
    reconcile-IsCovered kept kept-Keeper (key_of sample_watch.meta) (after ten_minutes) at_night
      (reconcile kept (key_of sample_watch.meta) at_night).1
      (reconcile kept (key_of sample_watch.meta) at_night).1.world kept-IsLawful kept-IsEncoding
      kept-Puts kept-Ranges (one_stored, decode-encoded one_stored, one_stored-IsValid) refl
      ten_minutes-delay start

-- behind the first Reconcile, in the window, with a token for Slack
abbrev in_day : World
in_day = record behind { clock = 31536000000000000; token = "token" }

abbrev by_day : Sys World
by_day = record { world = in_day; effects = []; next_address = 0 }

rejects : RejectsEmpty kept
rejects c e = absurd (ground arith)

calls : CallsOnce kept
calls f x s adds = tries-Adds_later is_refusal f adds 4 x s

run_checks-IsInReport_example :
    IsInReport kept kept-Keeper "app" "db" "digest" sample_watch in_day
      (run_checks kept sample_watch by_day).1
unfolding bytes_at reconcile split_commas calculate_and_store_hashed_secrets watch_secrets
    watch_secret is_token is_excluded append_at sub_time ◌-ℤ◌ hour_of store_reading dec_lt
    trim_space calculate_hash flat_map run_checks check_namespaces check_secrets check_secret
    is_stale stale_threshold add_status notify_slack add_time abs_duration mul64 ◌+ℤ◌ ◌*ℤ◌
run_checks-IsInReport_example =
    run_checks-IsInReport kept kept-Keeper {w = before} "app" "db" "digest" sample_watch
      (after (pos 86399000000000)) by_day (run_checks kept sample_watch by_day).1 kept-IsLawful
      kept-IsEncoding rejects calls was_kept
      (outside (reconciled start (key_of sample_watch.meta) [] 0) refl) refl
