-- ===== src/Slack/Message.antt =====
-- What a message holds.
use stale_secrets_check.Prelude.{
  ◌==◌, if◌then◌else◌, String, ◌≡◌, List, [], ◌∷◌, ◌++◌, map, append_assoc, append-nil, arith,
  eq_iff,
}
use stale_secrets_check.Api.{Time, SecretStatus}
use stale_secrets_check.Slack.{
  Block, heading_block, divider_block, generate_warning_block, generate_success_block, status_block,
  append_statuses, prepare_slack_message,
}

module _ (format_time : Time → String) where
  append_statuses-map :
      (blocks : List Block) (ss : List SecretStatus)
      → append_statuses format_time blocks ss ≡ blocks ++ map (status_block format_time) ss
  unfolding append_statuses
  append_statuses-map blocks [] = rw append-nil
  append_statuses-map blocks (s ∷ ss) =
      rw (append_statuses-map (blocks ++ status_block format_time s ∷ []) ss, append_assoc)

  -- A warning has the heading, the warning, one block for each status in the order of the list, and
  -- dividers round them. A message of any other type has the success block in place of these.
  pub prepare_slack_message_blocks :
      (msg_type text channel : String) (ss : List SecretStatus)
      → (prepare_slack_message format_time msg_type text channel ss).blocks
        ≡ heading_block
            ∷ divider_block
            ∷ (if msg_type == "warning"
                then generate_warning_block text ∷ map (status_block format_time) ss
                else generate_success_block text ∷ [])
          ++ divider_block ∷ []
  unfolding prepare_slack_message
  prepare_slack_message_blocks msg_type text channel ss =
      rw append_statuses-map (ground (arith, eq_iff msg_type "warning"))
