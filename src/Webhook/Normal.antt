-- ===== src/Webhook/Normal.antt =====
-- What the webhook writes into the object.
use stale_secrets_check.Prelude.{◌≡◌, none, some, arith, ◌==◌, eq_iff, if◌then◌else◌}
use stale_secrets_check.Api.{StaleSecretWatch}
use stale_secrets_check.Webhook.{validate_stale_secret_watch}
use stale_secrets_check.Webhook.Accepts.{interval_or_hour}

-- An accepted object gets the namespace "default" if it had none and the interval of an hour if it
-- had none; nothing else of it changes. A refused one gets the interval alone.
pub validate-written :
    (r : StaleSecretWatch)
    → let (r', refusal) = validate_stale_secret_watch r in
      (r'.spec
        ≡ record r.spec { refresh_interval = some (interval_or_hour r.spec.refresh_interval) })
      × (r'.status ≡ r.status)
      × (r'.meta ≡ elim refusal [
        | none ↦ record r.meta {
          namespace = if r.meta.namespace == "" then "default" else r.meta.namespace;
        }
        | some _ ↦ r.meta
      ])
unfolding validate_stale_secret_watch
validate-written r = (ground arith, ground arith, ground arith)

-- An object that was accepted is accepted again as it was written, and nothing more changes.
pub validate_idempotent :
    (r : StaleSecretWatch)
    → (validate_stale_secret_watch r).1 ≡ none
    → validate_stale_secret_watch (validate_stale_secret_watch r).0
      ≡ ((validate_stale_secret_watch r).0, none)
unfolding validate_stale_secret_watch
validate_idempotent r h = ground (arith, eq_iff "default" "")
