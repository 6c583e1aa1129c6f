-- ===== src/Controller/Daily.antt =====
-- performDailyChecks.
use stale_secrets_check.Prelude.{
  String, Bool, true, false, ◌&&◌, Option, none, some, [], leb, ltb_ℤ, pos, if◌then◌else◌,
}
use stale_secrets_check.Api.{Time, Int64, StaleSecretWatch, ConfigMap, Result, key_of}
use stale_secrets_check.Exec.{
  Error, ok, err, Exec, ask, act, pure, new_error, same_error, update_watch_status, ◌>>=◌,
}
use stale_secrets_check.Maps.{lookup}
use stale_secrets_check.Clock.{sub_time, sub64, add_time, hour_of, date_at}
use stale_secrets_check.Cluster.{System}
use stale_secrets_check.Store.{config_map_key, empty_config_map}
use stale_secrets_check.Notify.{notify_slack, not_set}
use stale_secrets_check.Controller.Status.{
  no_result, empty_watch, or_nil, update_secret_statuses, update_last_checked_annotation,
}

-- Whether the checks were done, the result, and the error.
abbrev pub Checked : Type 0
Checked = Bool × Result × Option Error

abbrev pub failed : Error → Checked
failed e = (true, no_result, some e)

abbrev pub day : Int64
day = pos 86400000000000

abbrev pub after : Int64 → Result
after d = record no_result { requeue_after = d }

abbrev pub reset_status : StaleSecretWatch → StaleSecretWatch
reset_status ssw = record ssw {
  status = record ssw.status { secret_status = []; stale_secrets_count = pos 0 };
}

-- latest, with the statuses and the count of the checked object
abbrev pub copy_status : StaleSecretWatch → StaleSecretWatch → StaleSecretWatch
copy_status ssw latest = record latest {
  status = record latest.status {
    secret_status = ssw.status.secret_status;
    stale_secrets_count = ssw.status.stale_secrets_count;
  };
}

-- the hours in which the checks are done
abbrev pub in_window : Time → Bool
in_window t = leb 10 (hour_of t) && leb (hour_of t) 20

module _ {W : Type 0} (y : System W) where
  unfoldable pub last_checked : StaleSecretWatch → Time
  unfolding lookup
  last_checked ssw =
      let text : String = elim (lookup "lastChecked" (or_nil ssw.meta.annotations)) [
        | some t ↦ t
        | none ↦ "2024-01-01T00:00:00Z"
      ] in
      elim (y.parse_rfc3339 text) [ ok t ↦ t | err _ ↦ pos 0 ]

  abbrev pub push_status : StaleSecretWatch → Exec W (StaleSecretWatch × Option Error)
  push_status latest = act (update_watch_status latest) (y.update_watch_status latest)

  -- behind the update of the status
  unfoldable pub schedule : StaleSecretWatch × Option Error → Exec W Checked
  schedule (latest, some e) = pure (failed e)
  schedule (latest, none) = do
    now ← ask y.now
    let next_check = add_time now day
    later ← ask y.now
    pure (true, after (sub_time next_check later), none)

  -- The fresh object is written as often as there is a conflict, and never fetched again.
  unfoldable pub store_statuses :
      StaleSecretWatch → StaleSecretWatch × Option Error → Exec W Checked
  unfolding schedule
  store_statuses ssw (latest, some e) = pure (failed e)
  store_statuses ssw (latest, none) = do
    tried ← y.retry_on_conflict push_status (copy_status ssw latest)
    schedule tried

  -- behind the message to Slack. The error is compared with one that errors.New has just made.
  unfoldable pub after_notify : StaleSecretWatch → Option Error → Exec W Checked
  unfolding same_error store_statuses
  after_notify ssw (some e) = do
    fresh ← new_error not_set
    if same_error e fresh then pure (false, no_result, none) else pure (failed e)
  after_notify ssw none = do
    got ← ask (y.get_watch (key_of ssw.meta) empty_watch)
    store_statuses ssw got

  unfoldable pub after_statuses : StaleSecretWatch × Option Error → Exec W Checked
  unfolding after_notify
  after_statuses (ssw, some e) = pure (failed e)
  after_statuses (ssw, none) = notify_slack y ssw >>= after_notify ssw

  unfoldable pub check_config_map : StaleSecretWatch → ConfigMap × Option Error → Exec W Checked
  unfolding update_secret_statuses after_statuses
  check_config_map ssw (cm, some e) = pure (failed e)
  check_config_map ssw (cm, none) = update_secret_statuses y cm ssw >>= after_statuses

  -- the checks, in the window
  unfoldable pub run_checks : StaleSecretWatch → Exec W Checked
  unfolding check_config_map
  run_checks ssw =
      ask (y.get_config_map config_map_key empty_config_map) >>= check_config_map (reset_status ssw)

  -- outside the window: until nine o'clock of the day, which may be over
  unfoldable pub skip_checks : Time → Exec W Checked
  skip_checks current_time = do
    now ← ask y.now
    pure (false, after (sub_time (date_at current_time 32400000000000) now), none)

  -- behind the writing of the annotation
  unfoldable pub check_in_window : StaleSecretWatch × Option Error → Exec W Checked
  unfolding run_checks skip_checks
  check_in_window (ssw, some e) = pure (false, no_result, some e)
  check_in_window (ssw, none) = do
    current_time ← ask y.now
    if in_window current_time then run_checks ssw else skip_checks current_time

  unfoldable pub perform_daily_checks : StaleSecretWatch → Exec W Checked
  unfolding last_checked update_last_checked_annotation check_in_window
  perform_daily_checks ssw = do
    now ← ask y.now
    if ltb_ℤ (sub_time now (last_checked ssw)) day
        then (do
          later ← ask y.now
          pure (false, after (sub64 day (sub_time later (last_checked ssw))), none))
        else update_last_checked_annotation y ssw >>= check_in_window
