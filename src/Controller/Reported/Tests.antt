-- ===== src/Controller/Reported/Tests.antt =====
-- A check in the small world, which has a ConfigMap and a token for Slack.
use stale_secrets_check.Prelude.{◌*ℤ◌, ◌-ℤ◌, ◌+ℤ◌, some, [], ◌∷◌, refl, pos}
use stale_secrets_check.Api.{ConfigMap}
use stale_secrets_check.Exec.{Sys, ok}
use stale_secrets_check.ConfigData.{ConfigData}
use stale_secrets_check.Clock.{sub_time, add_time, abs_duration, mul64}
use stale_secrets_check.Staleness.{
  check_namespaces, check_secrets, check_secret, is_stale, stale_threshold, add_status,
}
use stale_secrets_check.Notify.{notify_slack}
use stale_secrets_check.Cluster.{System}
use stale_secrets_check.Store.{config_map_name, empty_config_map}
use stale_secrets_check.Cluster.Sample.{World, sample, sample_watch, sample_state, meta_of}
use stale_secrets_check.Controller.Daily.{run_checks, after}
use stale_secrets_check.Cluster.Sample.Retries.{tries-Adds_later}
use stale_secrets_check.Cluster.Sample.{is_refusal}
use stale_secrets_check.Controller.Reported.{CallsOnce, IsReported, run_checks-IsReported}

abbrev held : ConfigMap
held = record empty_config_map {
  meta = meta_of config_map_name "default";
  binary_data = ("data", 1 ∷ []) ∷ [];
}

abbrev ready : Sys World
ready = record sample_state {
  world = record sample_state.world { config_map = some held; token = "token" };
}

-- one secret, whose times are those of 1970
abbrev old_data : ConfigData
old_data = record {
  namespaces =
      record {
        name = "app";
        secrets =
            record {
              name = "db";
              created = "written";
              last_modified = "written";
              history = record { data_hash = "digest" } ∷ [];
              type = "Opaque";
            }
            ∷ [];
      }
      ∷ [];
}

abbrev holding : System World
holding = record sample { codec = record sample.codec { unmarshal_config = λ b. ok old_data } }

holding-CallsOnce : CallsOnce holding
holding-CallsOnce f x s adds = tries-Adds_later is_refusal f adds 4 x s

run_checks-IsReported_example :
    IsReported holding sample_watch held
      (holding.now ready.world).0
      (run_checks holding sample_watch ready).1
unfolding run_checks check_namespaces check_secrets check_secret is_stale stale_threshold add_status
    notify_slack sub_time add_time abs_duration mul64 ◌-ℤ◌ ◌+ℤ◌ ◌*ℤ◌
run_checks-IsReported_example =
    run_checks-IsReported holding holding-CallsOnce sample_watch (after (pos 86399000000000)) ready
      (run_checks holding sample_watch ready).1 refl
