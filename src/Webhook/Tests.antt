-- ===== src/Webhook/Tests.antt =====
-- The webhook on small objects.
use stale_secrets_check.Prelude.{◌≡◌, ◌↔◌, refl, none, some, ◌==◌, if◌then◌else◌}
use stale_secrets_check.Strings.{has_char}
use stale_secrets_check.Cluster.Sample.{sample_watch}
use stale_secrets_check.Webhook.{validate_stale_secret_watch, validate_exclude, bad_characters}
use stale_secrets_check.Webhook.Accepts.{IsAcceptable, validate-none_iff, interval_or_hour}
use stale_secrets_check.Webhook.Normal.{validate-written, validate_idempotent}

validate_exclude_tests :
    (validate_exclude (record { namespace = "a,b"; secret_name = "db" })
      ≡ some
          "invalid characters in namespace name: a,b, exclude.Namespace must be a single/existing namespace name")
    × (validate_exclude (record { namespace = "a"; secret_name = "db" }) ≡ none)
unfolding validate_exclude has_char bad_characters
validate_exclude_tests = (refl, refl)

validate-none_iff_example :
    ((validate_stale_secret_watch sample_watch).1 ≡ none) ↔ IsAcceptable sample_watch
validate-none_iff_example = validate-none_iff sample_watch

validate-written_example :
    let (r', refusal) = validate_stale_secret_watch sample_watch in
    (r'.spec ≡ record sample_watch.spec {
      refresh_interval = some (interval_or_hour sample_watch.spec.refresh_interval);
    })
    × (r'.status ≡ sample_watch.status)
    × (r'.meta ≡ elim refusal [
      | none ↦ record sample_watch.meta {
        namespace =
            if sample_watch.meta.namespace == "" then "default" else sample_watch.meta.namespace;
      }
      | some _ ↦ sample_watch.meta
    ])
validate-written_example = validate-written sample_watch

validate_idempotent_example :
    validate_stale_secret_watch (validate_stale_secret_watch sample_watch).0
    ≡ ((validate_stale_secret_watch sample_watch).0, none)
unfolding validate_stale_secret_watch
validate_idempotent_example = validate_idempotent sample_watch refl
