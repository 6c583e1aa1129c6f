-- ===== src/Cluster.antt =====
-- What the operator calls and does not implement: the Kubernetes client and its helper libraries,
-- the host (clock, environment, HTTP), and the encodings. `W` is the state of the outside world.
pub mod Sample
use stale_secrets_check.Prelude.{String, Bool, Option, List}
use stale_secrets_check.Api.{
  Bytes, GoMap, Time, NamespacedName, ObjectMeta, Condition, StaleSecretWatch, ConfigMap,
  KubeSecret,
}
use stale_secrets_check.Exec.{Error, Fallible, Exec}
use stale_secrets_check.ConfigData.{ConfigData}
use stale_secrets_check.Slack.{SlackPayload}

-- A call that reads or writes one object: it may change the object in the caller's memory.
abbrev pub OnObject : Type 0 → Type 0 → Type 0
OnObject W A = A → W → (A × Option Error) × W

-- client.Client on the types in use; meta, controllerutil, apierrors, retry.
pub record Kube (W : Type 0) : Type 0 where
  pub get_watch : NamespacedName → OnObject W StaleSecretWatch
  pub update_watch : OnObject W StaleSecretWatch
  pub update_watch_status : OnObject W StaleSecretWatch
  pub list_watches : W → Fallible (List ObjectMeta) × W
  pub get_config_map : NamespacedName → OnObject W ConfigMap
  pub create_config_map : OnObject W ConfigMap
  pub update_config_map : OnObject W ConfigMap
  pub get_secret : NamespacedName → W → Fallible KubeSecret × W
  pub list_namespaces : W → Fallible (List ObjectMeta) × W
  pub list_secrets : String → W → Fallible (List KubeSecret) × W
  pub is_not_found : Error → Bool
  pub is_conflict : Error → Bool
  pub ignore_not_found : Error → Option Error
  -- err.Error()
  pub error_text : Error → String
  pub contains_finalizer : StaleSecretWatch → String → Bool
  pub add_finalizer : StaleSecretWatch → String → StaleSecretWatch
  pub remove_finalizer : StaleSecretWatch → String → StaleSecretWatch
  pub set_status_condition : List Condition → Condition → List Condition
  pub set_controller_reference : StaleSecretWatch → ConfigMap → Fallible ConfigMap
  -- retry.OnError and retry.RetryOnConflict with retry.DefaultRetry. The function that is retried
  -- writes to a variable of the caller, which is passed from round to round.
  pub retry_on_error :
      (Error → Bool)
      → (StaleSecretWatch → Exec W (StaleSecretWatch × Option Error))
      → StaleSecretWatch
      → Exec W (StaleSecretWatch × Option Error)
  pub retry_on_conflict :
      (StaleSecretWatch → Exec W (StaleSecretWatch × Option Error))
      → StaleSecretWatch
      → Exec W (StaleSecretWatch × Option Error)

-- clientcmd's api.Config: the current context, and the cluster of each context.
pub record KubeConfig : Type 0 where
  pub current_context : String
  pub contexts : GoMap String

-- time.Now, os, clientcmd, net/http, and the order in which `range` walks a map.
pub record Host (W : Type 0) : Type 0 where
  pub now : W → Time × W
  pub getenv : String → W → String × W
  pub user_home_dir : W → Fallible String × W
  pub build_config_from_flags : String → W → Option Error × W
  pub load_from_file : String → W → Fallible KubeConfig × W
  pub new_request : String → Bytes → W → Option Error × W
  pub do_request : String → String → Bytes → W → Option Error × W
  pub range_order : GoMap (List String) → W → GoMap (List String) × W

-- encoding/json, crypto/sha256 with encoding/hex, and the layouts of package time.
pub record Codec : Type 0 where
  pub marshal_config : ConfigData → Fallible Bytes
  pub unmarshal_config : Bytes → Fallible ConfigData
  pub marshal_payload : SlackPayload → Fallible Bytes
  pub sha256_hex : Bytes → String
  pub format_rfc3339 : Time → String
  pub format_rfc3339_local : Time → String
  pub parse_rfc3339 : String → Fallible Time
  pub format_time : Time → String

pub record System (W : Type 0) : Type 0 where
  pub kube : Kube W
  pub open kube use *
  pub host : Host W
  pub open host use *
  pub codec : Codec
  pub open codec use *
