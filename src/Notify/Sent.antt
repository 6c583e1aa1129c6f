-- ===== src/Notify/Sent.antt =====
-- What NotifySlack sends.
use mathlib.Core.Path.{subst}
use stale_secrets_check.Prelude.{
  String, ◌≡◌, ◌≢◌, ◌⊎◌, inl, inr, refl, List, [], ◌∷◌, arith, eq_iff, Option-cases, text_cases,
}
use stale_secrets_check.Api.{Bytes, StaleSecretWatch}
use stale_secrets_check.Exec.{Sys, ok, post, Effect, ◌>>=◌, Outcome-cases, Fallible-cases}
use stale_secrets_check.Strings.{concat}
use stale_secrets_check.Slack.{SlackPayload}
use stale_secrets_check.Cluster.{System}
use stale_secrets_check.Notify.{
  slack_url, kubeconfig_path, get_cluster_name, send_slack_notification, message_for, send_message,
  notify_slack,
}

list_cases : {A : Type 0} (xs : List A) → (xs ≡ []) ⊎ ((y : A) × (ys : List A) × (xs ≡ y ∷ ys))
list_cases [] = inl refl
list_cases (x ∷ xs) = inr (x, xs, refl)

module _ {W : Type 0} (y : System W) where
  kubeconfig_path_effects : (s : Sys W) → (kubeconfig_path y s).1.effects ≡ s.effects
  unfolding kubeconfig_path
  kubeconfig_path_effects s = ground arith

  get_cluster_name_effects : (s : Sys W) → (get_cluster_name y s).1.effects ≡ s.effects
  unfolding get_cluster_name
  get_cluster_name_effects s = ground (arith, kubeconfig_path_effects s)

  -- At most the one message is sent, with the encoding of the payload as its body.
  abbrev pub SentAtMost : SlackPayload → String → List Effect → List Effect → Type 0
  SentAtMost payload token before behind =
      (behind ≡ before)
      ⊎ ((body : Bytes) × (y.marshal_payload payload ≡ ok body)
          × (behind ≡ post slack_url (concat ("Bearer " ∷ token ∷ [])) body ∷ before))

  send_slack_notification-SentAtMost :
      (payload : SlackPayload) (token : String) (s : Sys W)
      → SentAtMost payload token s.effects (send_slack_notification y payload token s).1.effects
  unfolding send_slack_notification
  send_slack_notification-SentAtMost payload token s =
      elim (Fallible-cases (y.marshal_payload payload)) [
        | inr (e, bad) ↦ inl (ground arith)
        | inl (body, good) ↦ elim (Option-cases (y.new_request slack_url body s.world).0) [
          | inr (e, refused) ↦ inl (ground arith)
          | inl fine ↦ inr (body, good, ground arith)
        ]
      ]

  send_message-SentAtMost :
      (ssw : StaleSecretWatch) (payload : SlackPayload) (token : String) (s : Sys W)
      → SentAtMost payload token s.effects (send_message y ssw payload token s).1.effects
  unfolding send_message
  send_message-SentAtMost ssw payload token s =
      let sent = send_slack_notification-SentAtMost payload token s in
      elim (list_cases ssw.status.secret_status) [
        | inl none_stale ↦ rw (none_stale, send_message) sent
        | inr (x, xs, stale) ↦ elim (Fallible-cases (y.marshal_payload payload)) [
          | inr (e, bad) ↦ inl (ground arith)
          | inl (body, good) ↦
              let same : send_slack_notification y payload token s
                  ≡ send_message y ssw payload token s =
                rw (stale, good, send_message) refl in
              subst (λ r. SentAtMost payload token s.effects r.1.effects) same sent
        ]
      ]

  notify_slack_inner :
      (ssw : StaleSecretWatch) (token channel : String) (s : Sys W)
      → let m = get_cluster_name y >>= λ cluster.
          send_message y ssw (message_for y ssw cluster channel) token in
        (cluster : String) × SentAtMost
          (message_for y ssw cluster channel)
          token
          s.effects
          (m s).1.effects
  notify_slack_inner ssw token channel s =
      let still = get_cluster_name_effects s in
      elim (Outcome-cases (get_cluster_name y s).0) [
        | inr panics ↦ ("", inl (ground (arith, still)))
        | inl (cluster, named) ↦
            let t = (get_cluster_name y s).1 in
            let payload = message_for y ssw cluster channel in
            let m = get_cluster_name y >>= λ cluster.
            send_message y ssw (message_for y ssw cluster channel) token in
            let same : send_message y ssw payload token t ≡ m s = rw (named, ◌>>=◌) refl in
            (
              cluster,
              subst (λ b. SentAtMost payload token b (m s).1.effects) still
                  (subst (λ r. SentAtMost payload token t.effects r.1.effects) same
                    (send_message-SentAtMost ssw payload token t)),
            )
      ]

  -- NotifySlack, however it ends, sends nothing where the token or the channel is not set, and else
  -- at most one message: to Slack, with the token, and the encoding of the message for some name of
  -- the cluster.
  pub notify_slack_effects :
      (ssw : StaleSecretWatch) (s : Sys W)
      → let (token, v) = y.getenv "SLACK_BOT_TOKEN" s.world in
        let (channel, w) = y.getenv "SLACK_CHANNEL_ID" v in
        ((notify_slack y ssw s).1.effects ≡ s.effects)
        ⊎ ((token ≢ "")
            × (channel ≢ "")
            × ((cluster : String) × (body : Bytes) × (y.marshal_payload
                    (message_for y ssw cluster channel)
                  ≡ ok body)
                × ((notify_slack y ssw s).1.effects
                    ≡ post slack_url (concat ("Bearer " ∷ token ∷ [])) body ∷ s.effects)))
  unfolding notify_slack
  notify_slack_effects ssw s =
      let (token, v) = y.getenv "SLACK_BOT_TOKEN" s.world in
      let (channel, w) = y.getenv "SLACK_CHANNEL_ID" v in
      elim (text_cases token "") [
        | inl unset ↦ inl (ground (arith, eq_iff token ""))
        | inr (set, test) ↦ elim (text_cases channel "") [
          | inl unset ↦ inl (ground (arith, eq_iff channel ""))
          | inr (named, test') ↦
              let (cluster, outcome) =
                notify_slack_inner ssw token channel (record s { world = w }) in
              elim outcome [
                | inl nothing ↦ inl (ground arith)
                | inr (body, good, sent) ↦ inr (set, named, (cluster, body, good, ground arith))
              ]
        ]
      ]
