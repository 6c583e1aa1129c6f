-- ===== src/Slack/Tests.antt =====
-- Messages of two kinds.
use stale_secrets_check.Prelude.{◌==◌, if◌then◌else◌, ◌≡◌, [], ◌∷◌, ◌++◌, map, pos, true}
use stale_secrets_check.Api.{SecretStatus}
use stale_secrets_check.Slack.{
  heading_block, divider_block, generate_warning_block, generate_success_block, status_block,
  prepare_slack_message,
}
use stale_secrets_check.Slack.Message.{prepare_slack_message_blocks}

abbrev stale_db : SecretStatus
stale_db = record {
  namespace = "app";
  name = "db";
  secret_type = "Opaque";
  created = pos 0;
  last_modified = pos 0;
  is_stale = true;
  message = "stale";
}

prepare_slack_message_blocks_example :
    (prepare_slack_message (λ t. "t") "warning" "text" "general" (stale_db ∷ [])).blocks
    ≡ heading_block
        ∷ divider_block
        ∷ (if "warning" == "warning"
            then generate_warning_block "text" ∷ map (status_block (λ t. "t")) (stale_db ∷ [])
            else generate_success_block "text" ∷ [])
      ++ divider_block ∷ []
prepare_slack_message_blocks_example =
    prepare_slack_message_blocks (λ t. "t") "warning" "text" "general" (stale_db ∷ [])
