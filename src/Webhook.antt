-- ===== src/Webhook.antt =====
-- api/v1beta1/stalesecretwatch_webhook.go: Default, ValidateStaleSecretWatch, ValidateCreate,
-- ValidateUpdate and ValidateDelete. The methods have a pointer receiver and write through it, so
-- each returns the object beside its result. An error is its text: nothing compares these errors.
pub mod Accepts
pub mod Normal
mod Tests
use Prim.Native.String.{◌++◌}
use stale_secrets_check.Prelude.{
  String, ◌&&◌, ◌||◌, not, Option, none, some, List, [], ◌∷◌, ◌==◌, if◌then◌else◌, ℤ, pos, leb_ℤ,
}
use stale_secrets_check.Api.{ExcludeList, StaleSecretWatch}
use stale_secrets_check.Strings.{has_char}
use stale_secrets_check.Clock.{hour}

unfoldable pub set_namespace : String → StaleSecretWatch → StaleSecretWatch
set_namespace ns r = record r { meta = record r.meta { namespace = ns } }

-- Default
unfoldable pub default_watch : StaleSecretWatch → StaleSecretWatch
unfolding set_namespace
default_watch r = if r.meta.namespace == "" then set_namespace "default" r else r

-- the assignment to r.Spec.RefreshInterval when it is nil
unfoldable pub default_interval : StaleSecretWatch → StaleSecretWatch
default_interval r = elim r.spec.refresh_interval [
  | none ↦ record r { spec = record r.spec { refresh_interval = some hour } }
  | some d ↦ r
]

abbrev pub empty_namespace : String
empty_namespace =
    "staleSecretToWatch.namespace cannot be empty, please specify 'all' to watch all namespace or existing namespace name"

abbrev pub empty_secret_name : String
empty_secret_name = "excludeList.secretName cannot be empty"

abbrev pub empty_exclude_namespace : String
empty_exclude_namespace = "excludeList.namespace cannot be empty"

abbrev pub bad_threshold : String
bad_threshold = "staleThresholdInDays must be a positive integer"

abbrev pub bad_interval : String
bad_interval = "refreshInterval duration must be a positive value"

unfoldable pub bad_characters : String → String
bad_characters ns =
    "invalid characters in namespace name: " ++ ns
    ++ ", exclude.Namespace must be a single/existing namespace name"

-- one round of the loop over the exclude list
unfoldable pub validate_exclude : ExcludeList → Option String
unfolding bad_characters has_char
validate_exclude e =
    if e.secret_name == ""
    then some empty_secret_name
    else if e.namespace == ""
    then some empty_exclude_namespace
    else if has_char b',' e.namespace || has_char b' ' e.namespace
    then some (bad_characters e.namespace)
    else none

unfoldable pub validate_exclude_list : List ExcludeList → Option String
unfolding validate_exclude
validate_exclude_list [] = none
validate_exclude_list (e ∷ es) = elim (validate_exclude e) [
  | some text ↦ some text
  | none ↦ validate_exclude_list es
]

-- the tests behind the loop, and the last assignment
unfoldable pub validate_rest : StaleSecretWatch → StaleSecretWatch × Option String
unfolding default_watch
validate_rest r =
    if leb_ℤ r.spec.stale_threshold_in_days (pos 0)
    then (r, some bad_threshold)
    else elim r.spec.refresh_interval [
      | none ↦ (default_watch r, none)
      | some d ↦ if leb_ℤ d (pos 0) then (r, some bad_interval) else (default_watch r, none)
    ]

unfoldable pub validate_stale_secret_watch : StaleSecretWatch → StaleSecretWatch × Option String
unfolding default_interval validate_exclude_list validate_rest
validate_stale_secret_watch r0 =
    let r = default_interval r0 in
    let ns = r.spec.stale_secret_to_watch.namespace in
    if ns == "" && not (ns == "all")
    then (r, some empty_namespace)
    else elim (validate_exclude_list r.spec.stale_secret_to_watch.exclude_list) [
      | some text ↦ (r, some text)
      | none ↦ validate_rest r
    ]

unfoldable pub validate_create : StaleSecretWatch → StaleSecretWatch × Option String
unfolding validate_stale_secret_watch
validate_create r = validate_stale_secret_watch r

unfoldable pub validate_update :
    StaleSecretWatch → StaleSecretWatch → StaleSecretWatch × Option String
unfolding validate_stale_secret_watch
validate_update old r = validate_stale_secret_watch r

unfoldable pub validate_delete : StaleSecretWatch → StaleSecretWatch × Option String
validate_delete r = (r, none)
