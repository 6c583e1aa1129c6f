-- ===== src/Controller/Safety/Notifying.antt =====
-- The effects of NotifySlack.
use stale_secrets_check.Exec.{Fallible-cases}
use stale_secrets_check.Prelude.{inl, inr, String, arith}
use stale_secrets_check.Api.{StaleSecretWatch}
use stale_secrets_check.Exec.Keeps.{Keeps, bind-Keeps}
use stale_secrets_check.Slack.{SlackPayload}
use stale_secrets_check.Cluster.{System}
use stale_secrets_check.Notify.{
  kubeconfig_path, get_cluster_name, send_slack_notification, send_message, notify_slack,
  message_for,
}
use stale_secrets_check.Controller.Safety.{IsAllowed, PanicsOnly}

module _ {W : Type 0} (y : System W) {Z : Type 0} (only : PanicsOnly y Z) where
  kubeconfig_path-Keeps : Keeps IsAllowed Z (kubeconfig_path y)
  unfolding kubeconfig_path
  kubeconfig_path-Keeps s p =
      let (path, v) = y.getenv "KUBECONFIG" s.world in
      elim (Fallible-cases (y.user_home_dir v).0) [
        | inl (h, found) ↦ ground arith
        | inr (e, unknown) ↦ let z = only.home v e unknown in ground (arith, z)
      ]

  get_cluster_name-Keeps : Keeps IsAllowed Z (get_cluster_name y)
  unfolding get_cluster_name
  get_cluster_name-Keeps s p = ground (arith, kubeconfig_path-Keeps s p)

  send_slack_notification-Keeps :
      (payload : SlackPayload) (token : String)
      → Keeps IsAllowed Z (send_slack_notification y payload token)
  unfolding send_slack_notification
  send_slack_notification-Keeps payload token s p = ground arith

  send_message-Keeps :
      (ssw : StaleSecretWatch) (payload : SlackPayload) (token : String)
      → Keeps IsAllowed Z (send_message y ssw payload token)
  unfolding send_message
  send_message-Keeps ssw payload token s p =
      ground (arith, send_slack_notification-Keeps payload token s p)

  pub notify_slack-Keeps : (ssw : StaleSecretWatch) → Keeps IsAllowed Z (notify_slack y ssw)
  unfolding notify_slack
  notify_slack-Keeps ssw s p =
      let (token, v) = y.getenv "SLACK_BOT_TOKEN" s.world in
      let (channel, w) = y.getenv "SLACK_CHANNEL_ID" v in
      ground (
        arith,
        bind-Keeps IsAllowed Z (get_cluster_name y)
            (λ cluster. send_message y ssw (message_for y ssw cluster channel) token)
            get_cluster_name-Keeps
            (λ cluster. send_message-Keeps ssw (message_for y ssw cluster channel) token)
            (record s { world = w }) p,
      )
