-- ===== src/Controller/Outcomes.antt =====
-- What the daily checks and the store step do to a Reconcile where a step is missing or fails.
pub mod Versions
mod Tests
use stale_secrets_check.Prelude.{
  String, false, ◌≡◌, refl, none, some, [], ◌∷◌, arith, eq_iff, eq_refl, ◌<ℤ◌, if◌then◌else◌, ◌+◌,
}
use stale_secrets_check.Api.{GoMap, Time, StaleSecretWatch}
use stale_secrets_check.Exec.{Sys, text_error, ret, ok, same_error}
use stale_secrets_check.Maps.{lookup, insert}
use stale_secrets_check.Clock.{sub_time, sub64}
use stale_secrets_check.Cluster.{System}
use stale_secrets_check.Notify.{notify_slack, not_set}
use stale_secrets_check.Controller.Status.{or_nil, stamped}
use stale_secrets_check.Controller.Daily.{
  day, after, failed, after_notify, after_statuses, last_checked, perform_daily_checks,
}

lookup-insert :
    (key value : String) (m : GoMap String) → lookup key (insert key value m) ≡ some value
unfolding lookup insert
lookup-insert key value [] = ground (arith, eq_refl key)
lookup-insert key value (entry ∷ m) = ground (arith, eq_iff entry.0 key, lookup-insert key value m)

module _ {W : Type 0} (y : System W) where
  last_checked-stamped :
      (ssw : StaleSecretWatch) (t u : Time)
      → y.parse_rfc3339 (y.format_rfc3339_local t) ≡ ok u
      → last_checked y (stamped y t ssw) ≡ u
  unfolding last_checked stamped
  last_checked-stamped ssw t u h =
      let found =
        lookup-insert "lastChecked" (y.format_rfc3339_local t) (or_nil ssw.meta.annotations) in
      ground (arith, found, h)

  -- An object that was stamped at an instant, which is read back as `u`, is not checked again within
  -- a day of `u`: nothing is written or sent, and the rest of the day is the delay.
  pub perform_daily_checks-stamped :
      (ssw : StaleSecretWatch) (t u : Time) (s : Sys W)
      → y.parse_rfc3339 (y.format_rfc3339_local t) ≡ ok u
      → sub_time (y.now s.world).0 u <ℤ day
      → let (later, w) = y.now (y.now s.world).1 in
        perform_daily_checks y (stamped y t ssw) s
        ≡ (ret (false, after (sub64 day (sub_time later u)), none), record s { world = w })
  unfolding perform_daily_checks
  perform_daily_checks-stamped ssw t u s h recent =
      rw (last_checked-stamped ssw t u h) (ground arith)

  notify_slack-missing_token :
      (ssw : StaleSecretWatch) (s : Sys W)
      → (y.getenv "SLACK_BOT_TOKEN" s.world).0 ≡ ""
      → (notify_slack y ssw s).0 ≡ ret (some (text_error s.next_address not_set))
        × ((notify_slack y ssw s).1.effects ≡ s.effects)
        × ((notify_slack y ssw s).1.next_address ≡ s.next_address + 1)
  unfolding notify_slack
  notify_slack-missing_token ssw s h =
      rw ((eq_iff (y.getenv "SLACK_BOT_TOKEN" s.world).0 "").1 h, notify_slack) (refl, refl, refl)

  -- Without a token for Slack the daily checks end with a new error behind the statuses, and do
  -- nothing to the outside: the statuses are not stored, and the branch that tests for this very
  -- error is not taken.
  pub after_statuses-missing_token :
      (ssw : StaleSecretWatch) (s : Sys W)
      → (y.getenv "SLACK_BOT_TOKEN" s.world).0 ≡ ""
      → let (r, s') = after_statuses y (ssw, none) s in
        (r ≡ ret (failed (text_error s.next_address not_set))) × (s'.effects ≡ s.effects)
  unfolding after_statuses after_notify same_error
  after_statuses-missing_token ssw s h =
      let (failed, still, next) = notify_slack-missing_token ssw s h in
      ground (arith, failed, still, next)
