-- ===== src/Controller/Requeue.antt =====
-- That a Reconcile without an error asks for another one.
pub mod Reconciled
mod Tests
use stale_secrets_check.Prelude.{
  ltb_ℤ, Bool, true, Option, none, some, inl, inr, arith, pos, ◌<ℤ◌, Bool-cases,
}
use stale_secrets_check.Api.{StaleSecretWatch, ConfigMap, key_of}
use stale_secrets_check.Exec.{Error, Sys, ret, ask}
use stale_secrets_check.Exec.Yields.{Yields, bind-Yields}
use stale_secrets_check.Clock.{add_time, sub_time}
use stale_secrets_check.Cluster.{System}
use stale_secrets_check.Store.{config_map_key, empty_config_map}
use stale_secrets_check.Notify.{notify_slack}
use stale_secrets_check.Controller.Status.{
  empty_watch, update_secret_statuses, update_last_checked_annotation,
}
use stale_secrets_check.Controller.Daily.{
  Checked, day, schedule, push_status, copy_status, store_statuses, after_notify, after_statuses,
  check_config_map, run_checks, in_window, last_checked, reset_status, skip_checks, check_in_window,
  perform_daily_checks,
}

-- A check that was done and had no error names a time for the next one.
abbrev pub IsDue : {W : Type 0} → Checked → Sys W → Type 0
IsDue (true, result, none) s = pos 0 <ℤ result.requeue_after
IsDue _ s = Unit

-- The clock does not go on by a day between two readings.
abbrev pub IsQuick : {W : Type 0} → System W → Type 0
IsQuick {W} y = (w : W) → pos 0 <ℤ sub_time (add_time (y.now w).0 day) (y.now (y.now w).1).0

module _ {W : Type 0} (y : System W) (quick : IsQuick y) where
  schedule-IsDue : (r : StaleSecretWatch × Option Error) → Yields IsDue (schedule y r)
  unfolding schedule
  schedule-IsDue (x, some e) a s s' h = ground arith
  schedule-IsDue (x, none) a s s' h = ground (arith, quick s.world)

  store_statuses-IsDue :
      (ssw : StaleSecretWatch) (r : StaleSecretWatch × Option Error)
      → Yields IsDue (store_statuses y ssw r)
  unfolding store_statuses
  store_statuses-IsDue ssw (x, some e) a s s' h = ground arith
  store_statuses-IsDue ssw (x, none) a s s' h =
      bind-Yields IsDue (y.retry_on_conflict (push_status y) (copy_status ssw x)) (schedule y)
        schedule-IsDue a s s' h

  after_notify-IsDue :
      (ssw : StaleSecretWatch) (e : Option Error) → Yields IsDue (after_notify y ssw e)
  unfolding after_notify
  after_notify-IsDue ssw (some e) a s s' h = ground arith
  after_notify-IsDue ssw none a s s' h =
      bind-Yields IsDue (ask (y.get_watch (key_of ssw.meta) empty_watch)) (store_statuses y ssw)
        (store_statuses-IsDue ssw) a s s' h

  after_statuses-IsDue : (r : StaleSecretWatch × Option Error) → Yields IsDue (after_statuses y r)
  unfolding after_statuses
  after_statuses-IsDue (ssw, some e) a s s' h = ground arith
  after_statuses-IsDue (ssw, none) a s s' h =
      bind-Yields IsDue (notify_slack y ssw) (after_notify y ssw) (after_notify-IsDue ssw) a s s' h

  check_config_map-IsDue :
      (ssw : StaleSecretWatch) (r : ConfigMap × Option Error)
      → Yields IsDue (check_config_map y ssw r)
  unfolding check_config_map
  check_config_map-IsDue ssw (cm, some e) a s s' h = ground arith
  check_config_map-IsDue ssw (cm, none) a s s' h =
      bind-Yields IsDue (update_secret_statuses y cm ssw) (after_statuses y) after_statuses-IsDue a
        s s' h

  check_in_window-IsDue : (r : StaleSecretWatch × Option Error) → Yields IsDue (check_in_window y r)
  unfolding check_in_window run_checks skip_checks
  check_in_window-IsDue (ssw, some e) a s s' h = ground arith
  check_in_window-IsDue (ssw, none) a s s' h =
      let (now, w) = y.now s.world in
      elim (Bool-cases (in_window now)) [
        | inl inside ↦
            bind-Yields IsDue (ask (y.get_config_map config_map_key empty_config_map))
              (check_config_map y (reset_status ssw)) (check_config_map-IsDue (reset_status ssw)) a
              (record s { world = w }) s' (rw (inside, check_in_window) at h)
        | inr outside ↦ ground arith
      ]

  pub perform_daily_checks-IsDue :
      (ssw : StaleSecretWatch) → Yields IsDue (perform_daily_checks y ssw)
  unfolding perform_daily_checks
  perform_daily_checks-IsDue ssw a s s' h =
      let (now, w) = y.now s.world in
      elim (Bool-cases (ltb_ℤ (sub_time now (last_checked y ssw)) day)) [
        | inl recent ↦ ground arith
        | inr long_ago ↦
            bind-Yields IsDue (update_last_checked_annotation y ssw) (check_in_window y)
              check_in_window-IsDue a (record s { world = w }) s'
              (rw (long_ago, perform_daily_checks) at h)
      ]
