-- ===== src/Staleness.antt =====
-- updateSecretStatuses of internal/controller/stalesecretwatch_controller.go, behind the decoding
-- of the ConfigMap: the loops that decide which secrets are stale. ParseTime is a parameter.
pub mod Threshold
pub mod Report
pub mod Exact
pub mod Failure
mod Tests
use stale_secrets_check.Prelude.{
  String, Bool, true, Option, none, some, List, [], ◌∷◌, ◌++◌, ℤ, pos, ◌+ℤ◌, ltb_ℤ, if◌then◌else◌,
}
use stale_secrets_check.Api.{Time, Int64, SecretStatus, StaleSecretWatchStatus}
use stale_secrets_check.Exec.{Error, Fallible, ok, err}
use stale_secrets_check.Clock.{wrap64, mul64, abs_duration, sub_time, hour}
use stale_secrets_check.Strings.{concat, show_int}
use stale_secrets_check.ConfigData.{Secret, Namespace}

-- time.Duration(days) * 24 * time.Hour
unfoldable pub stale_threshold : Int64 → Int64
stale_threshold days = mul64 (mul64 days (pos 24)) hour

unfoldable pub is_stale : Time → Int64 → Time → Bool
is_stale current_time threshold last_modified =
    ltb_ℤ (abs_duration threshold) (abs_duration (sub_time current_time last_modified))

unfoldable pub stale_message : Int64 → String
stale_message days = concat (
    "This secret is considered stale because it has not been modified/updated in over "
    ∷ show_int days
    ∷ " days."
    ∷ [])

abbrev pub status_of : Int64 → String → Secret → Time → Time → SecretStatus
status_of days namespace secret created last_modified = record {
  namespace = namespace;
  name = secret.name;
  secret_type = secret.type;
  created = created;
  last_modified = last_modified;
  is_stale = true;
  message = stale_message days;
}

-- the appending of a status, and the counting
unfoldable pub add_status : SecretStatus → StaleSecretWatchStatus → StaleSecretWatchStatus
add_status s st = record st {
  secret_status = st.secret_status ++ s ∷ [];
  stale_secrets_count = wrap64 (st.stale_secrets_count +ℤ pos 1);
}

module _ (parse_time : String → Fallible Time) (current_time : Time) (days : Int64) where
  -- one round of the inner loop; an error leaves what was added before it
  unfoldable pub check_secret :
      String → Secret → StaleSecretWatchStatus → StaleSecretWatchStatus × Option Error
  check_secret namespace secret st = elim (parse_time secret.created) [
    | err e ↦ (st, some e)
    | ok created ↦ elim (parse_time secret.last_modified) [
      | err e ↦ (st, some e)
      | ok last_modified ↦
          if is_stale current_time (stale_threshold days) last_modified
          then (add_status (status_of days namespace secret created last_modified) st, none)
          else (st, none)
    ]
  ]

  unfoldable pub check_secrets :
      String → List Secret → StaleSecretWatchStatus → StaleSecretWatchStatus × Option Error
  check_secrets namespace [] st = (st, none)
  check_secrets namespace (s ∷ ss) st =
      let (st', e) = check_secret namespace s st in
      let rest = check_secrets namespace ss st' in elim e [ some e ↦ (st', some e) | none ↦ rest ]

  unfoldable pub check_namespaces :
      List Namespace → StaleSecretWatchStatus → StaleSecretWatchStatus × Option Error
  check_namespaces [] st = (st, none)
  check_namespaces (n ∷ ns) st =
      let (st', e) = check_secrets n.name n.secrets st in
      let rest = check_namespaces ns st' in elim e [ some e ↦ (st', some e) | none ↦ rest ]
