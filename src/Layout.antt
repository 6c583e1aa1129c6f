-- ===== src/Layout.antt =====
-- The structs of api/v1beta1/stalesecretwatch_types.go as they lie in memory: a slice or a pointer
-- is an address or nil. Each struct is generic in what stands for them, so the same struct with the
-- contents in place of the addresses is the value that it represents.
pub mod Kinds
use stale_secrets_check.Prelude.{String, Option, List}
use stale_secrets_check.Api.{Int64, ExcludeList, SecretStatus, Condition}
use stale_secrets_check.Memory.{Address, Kind, M}

-- metav1.TypeMeta
pub record TypeMeta : Type 0 where
  pub kind : String
  pub api_version : String

pub record StaleSecretToWatchOf (E : Type 0) : Type 0 where
  pub namespace : String
  pub exclude_list : Option E

pub record SpecOf (E D : Type 0) : Type 0 where
  pub stale_secret_to_watch : StaleSecretToWatchOf E
  pub stale_threshold_in_days : Int64
  pub refresh_interval : Option D

pub record StatusOf (C S : Type 0) : Type 0 where
  pub conditions : Option C
  pub secret_status : Option S
  pub stale_secrets_count : Int64

pub record WatchOf (E D C S Meta : Type 0) : Type 0 where
  pub type_meta : TypeMeta
  pub meta : Meta
  pub spec : SpecOf E D
  pub status : StatusOf C S

pub record WatchListOf (I ListMeta : Type 0) : Type 0 where
  pub type_meta : TypeMeta
  pub meta : ListMeta
  pub items : Option I

abbrev pub Watch : Type 0 → Type 0
Watch Meta = WatchOf Address Address Address Address Meta

abbrev pub WatchList : Type 0 → Type 0
WatchList ListMeta = WatchListOf Address ListMeta

-- What a variable holds. The last ones are those of the library's own types.
pub data Cell (Meta ListMeta Other : Type 0) : Type 0 where
  exclude_lists : List ExcludeList → Cell Meta ListMeta Other
  duration : Int64 → Cell Meta ListMeta Other
  conditions : List Condition → Cell Meta ListMeta Other
  secret_statuses : List SecretStatus → Cell Meta ListMeta Other
  watches : List (Watch Meta) → Cell Meta ListMeta Other
  exclude_list : ExcludeList → Cell Meta ListMeta Other
  secret_status : SecretStatus → Cell Meta ListMeta Other
  stale_secret_to_watch : StaleSecretToWatchOf Address → Cell Meta ListMeta Other
  spec : SpecOf Address Address → Cell Meta ListMeta Other
  status : StatusOf Address Address → Cell Meta ListMeta Other
  watch : Watch Meta → Cell Meta ListMeta Other
  watch_list : WatchList ListMeta → Cell Meta ListMeta Other
  other : Other → Cell Meta ListMeta Other
