-- ===== src/Controller/History/Checking.antt =====
-- NotifySlack and the daily checks leave the content of the ConfigMap.
use stale_secrets_check.Prelude.{String, Option, none, some, ◌∙◌, refl, arith, inl, inr, [], ◌∷◌}
use stale_secrets_check.Api.{StaleSecretWatch, ConfigMap, key_of}
use stale_secrets_check.Exec.{Error, Fallible-cases}
use stale_secrets_check.Strings.{concat}
use stale_secrets_check.Slack.{SlackPayload}
use stale_secrets_check.Cluster.{System}
use stale_secrets_check.Store.{config_map_key, empty_config_map}
use stale_secrets_check.Notify.{
  kubeconfig_path, get_cluster_name, send_slack_notification, send_message, notify_slack,
  message_for, slack_url,
}
use stale_secrets_check.Controller.Status.{
  empty_watch, update_secret_statuses, update_last_checked_annotation, stamped,
}
use stale_secrets_check.Controller.Daily.{
  schedule, push_status, copy_status, store_statuses, after_notify, after_statuses,
  check_config_map, run_checks, skip_checks, check_in_window, perform_daily_checks, reset_status,
}
use stale_secrets_check.Controller.Safety.{IsLawful}
use stale_secrets_check.Controller.History.{Keeper, Same, bind-Same, retry_on_conflict-Same}

module _ {W : Type 0} (y : System W) (k : Keeper y) where
  kubeconfig_path-Same : Same y k (kubeconfig_path y)
  unfolding kubeconfig_path
  kubeconfig_path-Same s =
      let (path, w) = y.getenv "KUBECONFIG" s.world in
      ground (arith, k.getenv "KUBECONFIG" s.world, k.user_home_dir w)

  get_cluster_name-Same : Same y k (get_cluster_name y)
  unfolding get_cluster_name
  get_cluster_name-Same s =
      let (path, v) = y.getenv "KUBECONFIG" s.world in
      let (home, w) = y.user_home_dir v in
      elim (Fallible-cases home) [
        | inr (e, unknown) ↦ ground (
          arith,
          k.getenv "KUBECONFIG" s.world,
          k.user_home_dir v,
          k.build_config_from_flags path v,
          k.load_from_file path (y.build_config_from_flags path v).1,
        )
        | inl (h, found) ↦
            let below = concat (h ∷ "/.kube/config" ∷ []) in
            ground (
              arith,
              k.getenv "KUBECONFIG" s.world,
              k.user_home_dir v,
              k.build_config_from_flags path v,
              k.load_from_file path (y.build_config_from_flags path v).1,
              k.build_config_from_flags below w,
              k.load_from_file below (y.build_config_from_flags below w).1,
            )
      ]

  send_slack_notification-Same :
      (payload : SlackPayload) (token : String) → Same y k (send_slack_notification y payload token)
  unfolding send_slack_notification
  send_slack_notification-Same payload token s = elim (Fallible-cases (y.marshal_payload payload)) [
    | inr (e, bad) ↦ rw (bad, send_slack_notification) refl
    | inl (body, good) ↦
        let (refused, w) = y.new_request slack_url body s.world in
        rw (good, send_slack_notification)
          (ground (
            arith,
            k.new_request slack_url body s.world,
            k.do_request slack_url (concat ("Bearer " ∷ token ∷ [])) body w,
          ))
  ]

  send_message-Same :
      (ssw : StaleSecretWatch) (payload : SlackPayload) (token : String)
      → Same y k (send_message y ssw payload token)
  unfolding send_message
  send_message-Same ssw payload token s =
      ground (arith, send_slack_notification-Same payload token s)

  notify_slack-Same : (ssw : StaleSecretWatch) → Same y k (notify_slack y ssw)
  unfolding notify_slack
  notify_slack-Same ssw s =
      let (token, v) = y.getenv "SLACK_BOT_TOKEN" s.world in
      let (channel, w) = y.getenv "SLACK_CHANNEL_ID" v in
      ground (
        arith,
        k.getenv "SLACK_BOT_TOKEN" s.world,
        k.getenv "SLACK_CHANNEL_ID" v,
        bind-Same y k (get_cluster_name y)
            (λ cluster. send_message y ssw (message_for y ssw cluster channel) token)
            get_cluster_name-Same
            (λ cluster. send_message-Same ssw (message_for y ssw cluster channel) token)
            (record s { world = w }),
      )

  update_last_checked_annotation-Same :
      (ssw : StaleSecretWatch) → Same y k (update_last_checked_annotation y ssw)
  unfolding update_last_checked_annotation
  update_last_checked_annotation-Same ssw s =
      let (now, w) = y.now s.world in k.update_watch (stamped y now ssw) w ∙ k.now s.world

  schedule-Same : (r : StaleSecretWatch × Option Error) → Same y k (schedule y r)
  unfolding schedule
  schedule-Same (ssw, none) s = let (now, w) = y.now s.world in k.now w ∙ k.now s.world
  schedule-Same (ssw, some e) s = refl

  update_secret_statuses-Same :
      (cm : ConfigMap) (ssw : StaleSecretWatch) → Same y k (update_secret_statuses y cm ssw)
  unfolding update_secret_statuses
  update_secret_statuses-Same cm ssw s = ground (arith, k.now s.world)

  module _ (lawful : IsLawful y) where
    store_statuses-Same :
        (ssw : StaleSecretWatch) (r : StaleSecretWatch × Option Error)
        → Same y k (store_statuses y ssw r)
    unfolding store_statuses
    store_statuses-Same ssw (latest, some e) s = refl
    store_statuses-Same ssw (latest, none) s =
        bind-Same y k (y.retry_on_conflict (push_status y) (copy_status ssw latest)) (schedule y)
          (retry_on_conflict-Same y k lawful (push_status y)
            (λ x s. k.update_watch_status x s.world) (copy_status ssw latest))
          schedule-Same s

    after_notify-Same :
        (ssw : StaleSecretWatch) (e : Option Error) → Same y k (after_notify y ssw e)
    unfolding after_notify
    after_notify-Same ssw (some e) s = ground arith
    after_notify-Same ssw none s =
        let (got, w) = y.get_watch (key_of ssw.meta) empty_watch s.world in
        store_statuses-Same ssw got (record s { world = w })
        ∙ k.get_watch (key_of ssw.meta) empty_watch s.world

    after_statuses-Same : (r : StaleSecretWatch × Option Error) → Same y k (after_statuses y r)
    unfolding after_statuses
    after_statuses-Same (ssw, some e) s = refl
    after_statuses-Same (ssw, none) s =
        bind-Same y k (notify_slack y ssw) (after_notify y ssw) (notify_slack-Same ssw)
          (after_notify-Same ssw) s

    check_config_map-Same :
        (ssw : StaleSecretWatch) (r : ConfigMap × Option Error)
        → Same y k (check_config_map y ssw r)
    unfolding check_config_map
    check_config_map-Same ssw (cm, some e) s = refl
    check_config_map-Same ssw (cm, none) s =
        bind-Same y k (update_secret_statuses y cm ssw) (after_statuses y)
          (update_secret_statuses-Same cm ssw) after_statuses-Same s

    check_in_window-Same : (r : StaleSecretWatch × Option Error) → Same y k (check_in_window y r)
    unfolding check_in_window run_checks skip_checks
    check_in_window-Same (ssw, some e) s = refl
    check_in_window-Same (ssw, none) s =
        let (now, v) = y.now s.world in
        let (got, w) = y.get_config_map config_map_key empty_config_map v in
        ground (
          arith,
          k.now s.world,
          k.now v,
          k.get_config_map config_map_key empty_config_map v,
          check_config_map-Same (reset_status ssw) got (record s { world = w }),
        )

    pub perform_daily_checks-Same : (ssw : StaleSecretWatch) → Same y k (perform_daily_checks y ssw)
    unfolding perform_daily_checks
    perform_daily_checks-Same ssw s =
        let (now, w) = y.now s.world in
        ground (
          arith,
          k.now s.world,
          k.now w,
          bind-Same y k (update_last_checked_annotation y ssw) (check_in_window y)
              (update_last_checked_annotation-Same ssw) check_in_window-Same
              (record s { world = w }),
        )
