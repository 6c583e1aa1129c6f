-- ===== src/Slack.antt =====
-- The message of internal/controller/slack.go: SlackPayload and its parts, prepareSlackMessage,
-- generateWarningBlock and generateSuccessBlock.
pub mod Message
mod Tests
use stale_secrets_check.Prelude.{
  String, Bool, true, Option, none, some, List, [], ◌∷◌, ◌++◌, not, ◌==◌, if◌then◌else◌, ℕ,
}
use stale_secrets_check.Api.{Time, SecretStatus}
use stale_secrets_check.Strings.{concat}

pub record Style : Type 0 where
  pub bold : Bool

pub record TextElement : Type 0 where
  pub type : String
  pub text : String

pub record Markup : Type 0 where
  pub type : String
  pub text : String
  pub name : String
  pub style : Option Style

pub record Element : Type 0 where
  pub type : String
  pub elements : List Markup
  pub text : String
  pub border : ℕ
  pub style : Option Style

pub record Divider : Type 0 where
  pub type : String

pub record Block : Type 0 where
  pub type : String
  pub text : Option TextElement
  pub elements : List Element
  pub divider : Option Divider

pub record SlackPayload : Type 0 where
  pub channel : String
  pub blocks : List Block

abbrev pub bold : Option Style
bold = some (record { bold = true })

-- a Markup of the type "text"
abbrev pub text_markup : String → Option Style → Markup
text_markup text style = record { type = "text"; text = text; name = ""; style = style }

abbrev pub emoji : String → Markup
emoji name = record { type = "emoji"; text = ""; name = name; style = none }

-- an Element with its elements only, and a Block with its elements only
abbrev pub section : List Markup → Element
section markups = record {
  type = "rich_text_section";
  elements = markups;
  text = "";
  border = 0;
  style = none;
}

abbrev pub rich_text : List Element → Block
rich_text elements = record { type = "rich_text"; text = none; elements = elements; divider = none }

abbrev pub divider_block : Block
divider_block = record { type = "divider"; text = none; elements = []; divider = none }

abbrev pub heading_block : Block
heading_block = record {
  type = "section";
  text = some (record { type = "mrkdwn"; text = "*Daily check completed successfully.*\n\n" });
  elements = [];
  divider = none;
}

unfoldable pub generate_warning_block : String → Block
generate_warning_block text = rich_text (
    section (emoji "warning" ∷ text_markup "Stale Secret Detected !!!" bold ∷ [])
    ∷ section (text_markup text bold ∷ text_markup "\n\n" none ∷ [])
    ∷ [])

unfoldable pub generate_success_block : String → Block
generate_success_block text = rich_text (section (text_markup text bold ∷ emoji "smiley" ∷ []) ∷ [])

-- `format_time` is the layout 2006-01-02T15:04:05Z of package time.
module _ (format_time : Time → String) where
  -- the Sprintf of one status
  unfoldable pub secret_info : SecretStatus → String
  secret_info s = concat (
      "\"secret_name\": \""
      ∷ s.name
      ∷ "\",\n\"namespace\": \""
      ∷ s.namespace
      ∷ "\",\n\"type\": \""
      ∷ s.secret_type
      ∷ "\",\n\"created\": \""
      ∷ format_time s.created
      ∷ "\",\n\"last_modified\": \""
      ∷ format_time s.last_modified
      ∷ "\""
      ∷ [])

  unfoldable pub status_block : SecretStatus → Block
  unfolding secret_info
  status_block s = rich_text (
      record {
        type = "rich_text_preformatted";
        elements = text_markup (secret_info s) none ∷ [];
        text = "";
        border = 1;
        style = none;
      }
      ∷ [])

  -- the loop over the statuses
  unfoldable pub append_statuses : List Block → List SecretStatus → List Block
  unfolding status_block
  append_statuses blocks [] = blocks
  append_statuses blocks (s ∷ ss) = append_statuses (blocks ++ status_block s ∷ []) ss

  unfoldable pub prepare_slack_message : String → String → String → List SecretStatus → SlackPayload
  unfolding generate_warning_block generate_success_block append_statuses
  prepare_slack_message msg_type text channel_id statuses =
      let common = heading_block ∷ divider_block ∷ [] in
      let blocks =
        if not (msg_type == "warning")
        then common ++ generate_success_block text ∷ []
        else append_statuses (common ++ generate_warning_block text ∷ []) statuses in
      record { channel = channel_id; blocks = blocks ++ divider_block ∷ [] }
