-- ===== src/Controller/Safety.antt =====
-- What the operator may do to the outside, and what it needs of the client for that.
pub mod Storing
pub mod Notifying
pub mod Marking
pub mod Checking
pub mod Reconciling
pub mod Deleting
mod Tests
use stale_secrets_check.Prelude.{Bool, Option, none, some, get_last?, ◌≡◌}
use stale_secrets_check.Api.{NamespacedName, StaleSecretWatch, ConfigMap, KubeSecret, key_of}
use stale_secrets_check.Exec.{
  Effect, event, update_watch, update_watch_status, create_config_map, update_config_map, post,
  Error, Exec, Sys, ok, err,
}
use stale_secrets_check.Exec.Keeps.{Ends}
use stale_secrets_check.Cluster.{System}
use stale_secrets_check.Store.{config_map_key}
use stale_secrets_check.Notify.{slack_url}

-- A write to a ConfigMap is to the operator's own, and a message goes to Slack. Events, and writes to
-- StaleSecretWatch objects, are all allowed; no effect writes a Secret.
abbrev pub IsAllowed : Effect → Type 0
IsAllowed (event _ _ _ _) = Unit
IsAllowed (update_watch _) = Unit
IsAllowed (update_watch_status _) = Unit
IsAllowed (create_config_map cm) = key_of cm.meta ≡ config_map_key
IsAllowed (update_config_map cm) = key_of cm.meta ≡ config_map_key
IsAllowed (post url _ _) = url ≡ slack_url

-- What the safety of the writes relies on: Get returns the object of the key it was given, or leaves
-- the key of the caller's object; SetControllerReference leaves the name and the namespace; and the
-- retry functions do nothing but call the given function, so that they
-- keep what each call keeps, and return if each call returns.
pub record IsLawful {W : Type 0} (y : System W) : Type 1 where
  pub get_key :
      (k : NamespacedName) (cm : ConfigMap) (w : W)
      → (y.get_config_map k cm w).0.1 ≡ none
      → key_of (y.get_config_map k cm w).0.0.meta ≡ k
  pub keep_key :
      (k : NamespacedName) (cm : ConfigMap) (w : W)
      → key_of cm.meta ≡ k
      → key_of (y.get_config_map k cm w).0.0.meta ≡ k
  pub reference_key :
      (x : StaleSecretWatch) (cm cm' : ConfigMap)
      → y.set_controller_reference x cm ≡ ok cm'
      → key_of cm'.meta ≡ key_of cm.meta
  pub on_error :
      (I : Sys W → Type 0) (Z : Type 0) (p : Error → Bool)
      (f : StaleSecretWatch → Exec W (StaleSecretWatch × Option Error))
      → ((x : StaleSecretWatch) (s : Sys W) → I s → Ends Z (f x s).0 × I (f x s).1)
      → (x : StaleSecretWatch) (s : Sys W) → I s
      → Ends Z (y.retry_on_error p f x s).0 × I (y.retry_on_error p f x s).1
  pub on_conflict :
      (I : Sys W → Type 0) (Z : Type 0)
      (f : StaleSecretWatch → Exec W (StaleSecretWatch × Option Error))
      → ((x : StaleSecretWatch) (s : Sys W) → I s → Ends Z (f x s).0 × I (f x s).1)
      → (x : StaleSecretWatch) (s : Sys W) → I s
      → Ends Z (y.retry_on_conflict f x s).0 × I (y.retry_on_conflict f x s).1

-- The two places where the operator's own code panics: a last managedFields entry without a time, and
-- a home directory that is not known. `Z` follows from each.
pub record PanicsOnly {W : Type 0} (y : System W) (Z : Type 0) : Type 0 where
  pub times :
      (k : NamespacedName) (w : W) (secret : KubeSecret)
      → (y.get_secret k w).0 ≡ ok secret
      → get_last? secret.meta.managed_fields ≡ some none
      → Z
  pub home : (w : W) (e : Error) → (y.user_home_dir w).0 ≡ err e → Z
