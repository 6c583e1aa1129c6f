-- ===== src/Api.antt =====
-- The objects that the operator reads and writes: api/v1beta1/stalesecretwatch_types.go, and of
-- the Kubernetes types the fields that the operator uses.
use stale_secrets_check.Prelude.{ℕ, String, Bool, Option, List, ℤ}

-- An instant, in nanoseconds since 1970-01-01T00:00:00Z. Its time zone is not part of it.
abbrev pub Time : Type 0
Time = ℤ

-- A time.Duration or an int: an int64, kept in its range by `Clock.wrap64`.
abbrev pub Int64 : Type 0
Int64 = ℤ

abbrev pub Bytes : Type 0
Bytes = List ℕ

-- A Go map, as its entries; a nil map is written `Option`, where the code tests for it.
abbrev pub GoMap {ℓ} : Type ℓ → Type ℓ
GoMap V = List (String × V)

-- types.NamespacedName
pub record NamespacedName : Type 0 where
  pub name : String
  pub namespace : String

-- metav1.ObjectMeta. Of a managedFields entry only the time is kept, which may be nil.
pub record ObjectMeta : Type 0 where
  pub name : String
  pub namespace : String
  pub resource_version : String
  pub labels : GoMap String
  pub annotations : Option (GoMap String)
  pub finalizers : List String
  pub creation_timestamp : Time
  pub deletion_timestamp : Option Time
  pub managed_fields : List (Option Time)

abbrev pub key_of : ObjectMeta → NamespacedName
key_of m = record { name = m.name; namespace = m.namespace }

-- metav1.Condition, less the generation and the transition time, which SetStatusCondition sets.
pub record Condition : Type 0 where
  pub type : String
  pub status : String
  pub reason : String
  pub message : String

pub record ExcludeList : Type 0 where
  pub namespace : String
  pub secret_name : String

pub record StaleSecretToWatch : Type 0 where
  pub namespace : String
  pub exclude_list : List ExcludeList

pub record SecretStatus : Type 0 where
  pub namespace : String
  pub name : String
  pub secret_type : String
  pub created : Time
  pub last_modified : Time
  pub is_stale : Bool
  pub message : String

pub record StaleSecretWatchSpec : Type 0 where
  pub stale_secret_to_watch : StaleSecretToWatch
  pub stale_threshold_in_days : Int64
  pub refresh_interval : Option Int64

pub record StaleSecretWatchStatus : Type 0 where
  pub conditions : List Condition
  pub secret_status : List SecretStatus
  pub stale_secrets_count : Int64

pub record StaleSecretWatch : Type 0 where
  pub meta : ObjectMeta
  pub spec : StaleSecretWatchSpec
  pub status : StaleSecretWatchStatus

-- corev1.ConfigMap
pub record ConfigMap : Type 0 where
  pub meta : ObjectMeta
  pub string_data : GoMap String
  pub binary_data : GoMap Bytes

-- corev1.Secret
pub record KubeSecret : Type 0 where
  pub meta : ObjectMeta
  pub type : String
  pub secret_data : GoMap Bytes

-- reconcile.Result
pub record Result : Type 0 where
  pub requeue : Bool
  pub requeue_after : Int64
