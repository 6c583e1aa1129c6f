-- ===== src/Notify/Tests.antt =====
-- NotifySlack in the small world, with a token.
use stale_secrets_check.Prelude.{◌≡◌, ◌≢◌, ◌⊎◌, String, [], ◌∷◌}
use stale_secrets_check.Api.{Bytes}
use stale_secrets_check.Exec.{Sys, ok, post}
use stale_secrets_check.Strings.{concat}
use stale_secrets_check.Cluster.Sample.{World, sample, sample_watch, sample_state}
use stale_secrets_check.Notify.{slack_url, message_for, notify_slack}
use stale_secrets_check.Notify.Sent.{notify_slack_effects}

abbrev with_token : Sys World
with_token = record sample_state { world = record sample_state.world { token = "xoxb" } }

notify_slack_effects_example :
    ((notify_slack sample sample_watch with_token).1.effects ≡ [])
    ⊎ ((◌≢◌ {A = String} "xoxb" "")
        × (◌≢◌ {A = String} "xoxb" "")
        × ((cluster : String) × (body : Bytes) × (sample.marshal_payload
                (message_for sample sample_watch cluster "xoxb")
              ≡ ok body)
            × ((notify_slack sample sample_watch with_token).1.effects
                ≡ post slack_url (concat ("Bearer " ∷ "xoxb" ∷ [])) body ∷ [])))
notify_slack_effects_example = notify_slack_effects sample sample_watch with_token
