-- ===== src/DeepCopy.antt =====
-- The methods of api/v1beta1/zz_generated.deepcopy.go. A `deep_copy_into` takes what is in *in and
-- returns what ends up in *out; the first statement of each, *out = *in, overwrites what was there.
pub mod Represents
pub mod Structs
pub mod Objects
pub mod Pointers
pub mod Independent
mod Tests
use stale_secrets_check.Prelude.{Option, none, some, List}
use stale_secrets_check.Api.{Time, ExcludeList, SecretStatus, Condition}
use stale_secrets_check.Memory.{Address, M, ◌>>=◌, ◌>>◌, pure, deep_copy_with, copy_slice}
use stale_secrets_check.Layout.{StaleSecretToWatchOf, SpecOf, StatusOf, Watch, WatchList, Cell}
use stale_secrets_check.Layout.Kinds.{
  zero_exclude_list, zero_secret_status, zero_condition, zero_watch, exclude_lists_kind,
  duration_kind, conditions_kind, secret_statuses_kind, watches_kind, exclude_list_kind,
  secret_status_kind, stale_secret_to_watch_kind, spec_kind, status_kind, watch_kind,
  watch_list_kind,
}

-- The methods of the same name of k8s.io/apimachinery, and its zero values.
pub record Library (Meta ListMeta Other : Type 0) : Type 0 where
  pub zero_meta : Meta
  pub zero_list_meta : ListMeta
  pub deep_copy_into_meta : Meta → M (Cell Meta ListMeta Other) Meta
  pub deep_copy_into_list_meta : ListMeta → M (Cell Meta ListMeta Other) ListMeta
  pub deep_copy_into_time : Time → Time
  pub deep_copy_into_condition : Condition → Condition

-- runtime.Object, less nil
pub data Object : Type 0 where
  stale_secret_watch : Address → Object
  stale_secret_watch_list : Address → Object

-- if c := in.DeepCopy(); c != nil { return c }; return nil
abbrev pub as_object : (Address → Object) → Option Address → Option Object
as_object f none = none
as_object f (some p) = some (f p)

module _ {Meta ListMeta Other : Type 0} where
  unfoldable pub deep_copy_into_exclude_list :
      ExcludeList → M (Cell Meta ListMeta Other) ExcludeList
  deep_copy_into_exclude_list i = pure i

  unfoldable pub deep_copy_exclude_list :
      Option Address → M (Cell Meta ListMeta Other) (Option Address)
  deep_copy_exclude_list = deep_copy_with exclude_list_kind deep_copy_into_exclude_list

  unfoldable pub deep_copy_into_stale_secret_to_watch :
      StaleSecretToWatchOf Address → M (Cell Meta ListMeta Other) (StaleSecretToWatchOf Address)
  deep_copy_into_stale_secret_to_watch i = do
    out ← copy_slice exclude_lists_kind zero_exclude_list pure i.exclude_list
    pure (record i { exclude_list = out })

  unfoldable pub deep_copy_stale_secret_to_watch :
      Option Address → M (Cell Meta ListMeta Other) (Option Address)
  deep_copy_stale_secret_to_watch =
      deep_copy_with stale_secret_to_watch_kind deep_copy_into_stale_secret_to_watch

  unfoldable pub deep_copy_into_spec :
      SpecOf Address Address → M (Cell Meta ListMeta Other) (SpecOf Address Address)
  deep_copy_into_spec i = do
    to_watch ← deep_copy_into_stale_secret_to_watch i.stale_secret_to_watch
    -- *out = new(v1.Duration); **out = **in
    interval ← deep_copy_with duration_kind pure i.refresh_interval
    pure (record i { stale_secret_to_watch = to_watch; refresh_interval = interval })

  unfoldable pub deep_copy_spec : Option Address → M (Cell Meta ListMeta Other) (Option Address)
  deep_copy_spec = deep_copy_with spec_kind deep_copy_into_spec

  module _ (y : Library Meta ListMeta Other) where
    unfoldable pub deep_copy_into_secret_status :
        SecretStatus → M (Cell Meta ListMeta Other) SecretStatus
    deep_copy_into_secret_status i = pure (record i {
      created = y.deep_copy_into_time i.created;
      last_modified = y.deep_copy_into_time i.last_modified;
    })

    unfoldable pub deep_copy_secret_status :
        Option Address → M (Cell Meta ListMeta Other) (Option Address)
    deep_copy_secret_status = deep_copy_with secret_status_kind deep_copy_into_secret_status

    unfoldable pub deep_copy_into_status :
        StatusOf Address Address → M (Cell Meta ListMeta Other) (StatusOf Address Address)
    deep_copy_into_status i = do
      conditions ←
          copy_slice conditions_kind zero_condition (λ c. pure (y.deep_copy_into_condition c))
            i.conditions
      statuses ←
          copy_slice secret_statuses_kind zero_secret_status deep_copy_into_secret_status
            i.secret_status
      pure (record i { conditions = conditions; secret_status = statuses })

    unfoldable pub deep_copy_status : Option Address → M (Cell Meta ListMeta Other) (Option Address)
    deep_copy_status = deep_copy_with status_kind deep_copy_into_status

    unfoldable pub deep_copy_into_watch : Watch Meta → M (Cell Meta ListMeta Other) (Watch Meta)
    deep_copy_into_watch i = do
      meta ← y.deep_copy_into_meta i.meta
      spec ← deep_copy_into_spec i.spec
      status ← deep_copy_into_status i.status
      pure (record i { meta = meta; spec = spec; status = status })

    unfoldable pub deep_copy_watch : Option Address → M (Cell Meta ListMeta Other) (Option Address)
    deep_copy_watch = deep_copy_with (watch_kind y.zero_meta) deep_copy_into_watch

    unfoldable pub deep_copy_object_watch :
        Option Address → M (Cell Meta ListMeta Other) (Option Object)
    deep_copy_object_watch p = do c ← deep_copy_watch p; pure (as_object stale_secret_watch c)

    unfoldable pub deep_copy_into_watch_list :
        WatchList ListMeta → M (Cell Meta ListMeta Other) (WatchList ListMeta)
    deep_copy_into_watch_list i = do
      meta ← y.deep_copy_into_list_meta i.meta
      items ← copy_slice watches_kind (zero_watch y.zero_meta) deep_copy_into_watch i.items
      pure (record i { meta = meta; items = items })

    unfoldable pub deep_copy_watch_list :
        Option Address → M (Cell Meta ListMeta Other) (Option Address)
    deep_copy_watch_list =
        deep_copy_with (watch_list_kind y.zero_list_meta) deep_copy_into_watch_list

    unfoldable pub deep_copy_object_watch_list :
        Option Address → M (Cell Meta ListMeta Other) (Option Object)
    deep_copy_object_watch_list p = do
      c ← deep_copy_watch_list p
      pure (as_object stale_secret_watch_list c)
