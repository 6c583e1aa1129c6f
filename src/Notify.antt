-- ===== src/Notify.antt =====
-- NotifySlack and sendSlackNotification of internal/controller/slack.go, and GetClusterName of
-- internal/controller/get_clusterdetails.go.
pub mod Sent
mod Tests
use stale_secrets_check.Prelude.{String, ◌||◌, Option, none, some, [], ◌∷◌, ◌==◌, if◌then◌else◌}
use stale_secrets_check.Api.{StaleSecretWatch}
use stale_secrets_check.Exec.{Error, ok, err, Exec, ask, act, pure, throw, new_error, post, ◌>>=◌}
use stale_secrets_check.Maps.{lookup}
use stale_secrets_check.Strings.{concat, show_int}
use stale_secrets_check.Slack.{SlackPayload, prepare_slack_message}
use stale_secrets_check.Cluster.{System, KubeConfig}

abbrev pub slack_url : String
slack_url = "https://slack.com/api/chat.postMessage"

abbrev pub not_set : String
not_set = "SLACK_BOT_TOKEN or SLACK_CHANNEL_ID is not set"

module _ {W : Type 0} (y : System W) where
  -- the path to the kubeconfig; without a home directory the code panics
  unfoldable pub kubeconfig_path : Exec W String
  kubeconfig_path = do
    path ← ask (y.getenv "KUBECONFIG")
    if path == ""
        then (do
          home ← ask y.user_home_dir
          elim home [ ok h ↦ pure (concat (h ∷ "/.kube/config" ∷ [])) | err _ ↦ throw ])
        else pure path

  abbrev pub cluster_of : KubeConfig → String
  cluster_of c = elim (lookup c.current_context c.contexts) [ some name ↦ name | none ↦ "cluster" ]

  unfoldable pub get_cluster_name : Exec W String
  unfolding kubeconfig_path lookup
  get_cluster_name = do
    path ← kubeconfig_path
    refused ← ask (y.build_config_from_flags path)
    elim refused [
      | some _ ↦ pure "cluster"
      | none ↦ do
        loaded ← ask (y.load_from_file path)
        elim loaded [ err _ ↦ pure "cluster" | ok c ↦ pure (cluster_of c) ]
    ]

  -- The response is closed and not looked at.
  unfoldable pub send_slack_notification : SlackPayload → String → Exec W (Option Error)
  send_slack_notification payload token = elim (y.marshal_payload payload) [
    | err e ↦ pure (some e)
    | ok body ↦ do
      refused ← ask (y.new_request slack_url body)
      elim refused [
        | some e ↦ pure (some e)
        | none ↦
            let authorization = concat ("Bearer " ∷ token ∷ []) in
            act (post slack_url authorization body) (y.do_request slack_url authorization body)
      ]
  ]

  unfoldable pub warning_text : StaleSecretWatch → String → String
  unfolding show_int
  warning_text ssw cluster = concat (
      "Below is a list of secret resources where secret data has not been modified for StaleThresholdInDays "
      ∷ show_int ssw.spec.stale_threshold_in_days
      ∷ " days in "
      ∷ cluster
      ∷ " Cluster!! \n Total "
      ∷ show_int ssw.status.stale_secrets_count
      ∷ " number of stale secrets found.\n"
      ∷ [])

  abbrev pub success_text : String
  success_text = "All secrets are up to date. Good work!\t"

  -- the message, by whether a status is there
  unfoldable pub message_for : StaleSecretWatch → String → String → SlackPayload
  unfolding warning_text
  message_for ssw cluster channel = elim ssw.status.secret_status [
    | [] ↦ prepare_slack_message y.format_time "success" success_text channel []
    | s ∷ ss ↦
        prepare_slack_message y.format_time "warning" (warning_text ssw cluster) channel
          ssw.status.secret_status
  ]

  -- A warning is encoded once more before it is sent, for the log.
  unfoldable pub send_message : StaleSecretWatch → SlackPayload → String → Exec W (Option Error)
  unfolding send_slack_notification
  send_message ssw payload token = elim ssw.status.secret_status [
    | [] ↦ send_slack_notification payload token
    | _ ∷ _ ↦ elim (y.marshal_payload payload) [
      | err e ↦ pure (some e)
      | ok _ ↦ send_slack_notification payload token
    ]
  ]

  unfoldable pub notify_slack : StaleSecretWatch → Exec W (Option Error)
  unfolding get_cluster_name message_for send_message
  notify_slack ssw = do
    token ← ask (y.getenv "SLACK_BOT_TOKEN")
    channel ← ask (y.getenv "SLACK_CHANNEL_ID")
    if token == "" || channel == "" then (do e ← new_error not_set; pure (some e)) else (do
      cluster ← get_cluster_name
      send_message ssw (message_for ssw cluster channel) token)
