-- ===== src/Controller/Safety/Checking.antt =====
-- The effects of the conditions, the finalizers and the daily checks.
use stale_secrets_check.Prelude.{Option, none, some, All, arith}
use stale_secrets_check.Api.{StaleSecretWatch, ConfigMap, key_of}
use stale_secrets_check.Exec.{Error}
use stale_secrets_check.Exec.Keeps.{Keeps, bind-Keeps}
use stale_secrets_check.Cluster.{System}
use stale_secrets_check.Store.{config_map_key, empty_config_map}
use stale_secrets_check.Notify.{notify_slack}
use stale_secrets_check.Controller.Status.{
  empty_watch, update_secret_statuses, update_last_checked_annotation,
}
use stale_secrets_check.Controller.Daily.{
  schedule, push_status, copy_status, store_statuses, after_notify, after_statuses,
  check_config_map, run_checks, skip_checks, check_in_window, perform_daily_checks, reset_status,
}
use stale_secrets_check.Controller.Safety.{IsAllowed, IsLawful, PanicsOnly}
use stale_secrets_check.Controller.Safety.Notifying.{notify_slack-Keeps}

module _ {W : Type 0} (y : System W) {Z : Type 0} (only : PanicsOnly y Z)
    (lawful : IsLawful y) where
  update_last_checked_annotation-Keeps :
      (ssw : StaleSecretWatch) → Keeps IsAllowed Z (update_last_checked_annotation y ssw)
  unfolding update_last_checked_annotation
  update_last_checked_annotation-Keeps ssw s p = (tt, (tt, p))

  schedule-Keeps : (r : StaleSecretWatch × Option Error) → Keeps IsAllowed Z (schedule y r)
  unfolding schedule
  schedule-Keeps (ssw, none) s p = (tt, p)
  schedule-Keeps (ssw, some e) s p = (tt, p)

  store_statuses-Keeps :
      (ssw : StaleSecretWatch) (r : StaleSecretWatch × Option Error)
      → Keeps IsAllowed Z (store_statuses y ssw r)
  unfolding store_statuses
  store_statuses-Keeps ssw (latest, some e) s p = (tt, p)
  store_statuses-Keeps ssw (latest, none) s p =
      bind-Keeps IsAllowed Z (y.retry_on_conflict (push_status y) (copy_status ssw latest))
        (schedule y)
        (lawful.on_conflict (λ t. All IsAllowed t.effects) Z (push_status y)
          (λ x s p. (tt, (tt, p))) (copy_status ssw latest))
        schedule-Keeps s p

  after_notify-Keeps :
      (ssw : StaleSecretWatch) (e : Option Error) → Keeps IsAllowed Z (after_notify y ssw e)
  unfolding after_notify
  after_notify-Keeps ssw (some e) s p = ground arith
  after_notify-Keeps ssw none s p =
      let (got, w) = y.get_watch (key_of ssw.meta) empty_watch s.world in
      store_statuses-Keeps ssw got (record s { world = w }) p

  after_statuses-Keeps :
      (r : StaleSecretWatch × Option Error) → Keeps IsAllowed Z (after_statuses y r)
  unfolding after_statuses
  after_statuses-Keeps (ssw, some e) s p = (tt, p)
  after_statuses-Keeps (ssw, none) s p =
      bind-Keeps IsAllowed Z (notify_slack y ssw) (after_notify y ssw)
        (notify_slack-Keeps y only ssw) (after_notify-Keeps ssw) s p

  update_secret_statuses-Keeps :
      (cm : ConfigMap) (ssw : StaleSecretWatch)
      → Keeps IsAllowed Z (update_secret_statuses y cm ssw)
  unfolding update_secret_statuses
  update_secret_statuses-Keeps cm ssw s p = ground arith

  check_config_map-Keeps :
      (ssw : StaleSecretWatch) (r : ConfigMap × Option Error)
      → Keeps IsAllowed Z (check_config_map y ssw r)
  unfolding check_config_map
  check_config_map-Keeps ssw (cm, some e) s p = (tt, p)
  check_config_map-Keeps ssw (cm, none) s p =
      bind-Keeps IsAllowed Z (update_secret_statuses y cm ssw) (after_statuses y)
        (update_secret_statuses-Keeps cm ssw) after_statuses-Keeps s p

  check_in_window-Keeps :
      (r : StaleSecretWatch × Option Error) → Keeps IsAllowed Z (check_in_window y r)
  unfolding check_in_window run_checks skip_checks
  check_in_window-Keeps (ssw, some e) s p = (tt, p)
  check_in_window-Keeps (ssw, none) s p =
      let (now, v) = y.now s.world in
      let (got, w) = y.get_config_map config_map_key empty_config_map v in
      ground (arith, check_config_map-Keeps (reset_status ssw) got (record s { world = w }) p)

  pub perform_daily_checks-Keeps :
      (ssw : StaleSecretWatch) → Keeps IsAllowed Z (perform_daily_checks y ssw)
  unfolding perform_daily_checks
  perform_daily_checks-Keeps ssw s p =
      let (now, w) = y.now s.world in
      ground (
        arith,
        bind-Keeps IsAllowed Z (update_last_checked_annotation y ssw) (check_in_window y)
            (update_last_checked_annotation-Keeps ssw) check_in_window-Keeps
            (record s { world = w }) p,
      )
