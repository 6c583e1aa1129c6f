-- ===== src/Layout/Kinds.antt =====
-- The kinds of variable that zz_generated.deepcopy.go makes, with Go's zero values.
use stale_secrets_check.Prelude.{false, Option, none, some, List, [], pos}
use stale_secrets_check.Api.{Int64, ExcludeList, SecretStatus, Condition}
use stale_secrets_check.Clock.{zero_time}
use stale_secrets_check.Memory.{Address, Kind}
use stale_secrets_check.Layout.{
  TypeMeta, StaleSecretToWatchOf, SpecOf, StatusOf, Watch, WatchList, Cell,
}

abbrev zero_type_meta : TypeMeta
zero_type_meta = record { kind = ""; api_version = "" }

abbrev pub zero_exclude_list : ExcludeList
zero_exclude_list = record { namespace = ""; secret_name = "" }

abbrev pub zero_secret_status : SecretStatus
zero_secret_status = record {
  namespace = "";
  name = "";
  secret_type = "";
  created = zero_time;
  last_modified = zero_time;
  is_stale = false;
  message = "";
}

abbrev pub zero_condition : Condition
zero_condition = record { type = ""; status = ""; reason = ""; message = "" }

abbrev zero_stale_secret_to_watch : StaleSecretToWatchOf Address
zero_stale_secret_to_watch = record { namespace = ""; exclude_list = none }

abbrev zero_spec : SpecOf Address Address
zero_spec = record {
  stale_secret_to_watch = zero_stale_secret_to_watch;
  stale_threshold_in_days = pos 0;
  refresh_interval = none;
}

abbrev zero_status : StatusOf Address Address
zero_status = record { conditions = none; secret_status = none; stale_secrets_count = pos 0 }

abbrev pub zero_watch : {Meta : Type 0} → Meta → Watch Meta
zero_watch m = record {
  type_meta = zero_type_meta;
  meta = m;
  spec = zero_spec;
  status = zero_status;
}

abbrev zero_watch_list : {ListMeta : Type 0} → ListMeta → WatchList ListMeta
zero_watch_list m = record { type_meta = zero_type_meta; meta = m; items = none }

module _ {Meta ListMeta Other : Type 0} where
  abbrev get_exclude_lists : Cell Meta ListMeta Other → Option (List ExcludeList)
  get_exclude_lists (Cell.exclude_lists x) = some x
  get_exclude_lists _ = none

  abbrev get_duration : Cell Meta ListMeta Other → Option (Int64)
  get_duration (Cell.duration x) = some x
  get_duration _ = none

  abbrev get_conditions : Cell Meta ListMeta Other → Option (List Condition)
  get_conditions (Cell.conditions x) = some x
  get_conditions _ = none

  abbrev get_secret_statuses : Cell Meta ListMeta Other → Option (List SecretStatus)
  get_secret_statuses (Cell.secret_statuses x) = some x
  get_secret_statuses _ = none

  abbrev get_watches : Cell Meta ListMeta Other → Option (List (Watch Meta))
  get_watches (Cell.watches x) = some x
  get_watches _ = none

  abbrev get_exclude_list : Cell Meta ListMeta Other → Option (ExcludeList)
  get_exclude_list (Cell.exclude_list x) = some x
  get_exclude_list _ = none

  abbrev get_secret_status : Cell Meta ListMeta Other → Option (SecretStatus)
  get_secret_status (Cell.secret_status x) = some x
  get_secret_status _ = none

  abbrev get_stale_secret_to_watch :
      Cell Meta ListMeta Other → Option (StaleSecretToWatchOf Address)
  get_stale_secret_to_watch (Cell.stale_secret_to_watch x) = some x
  get_stale_secret_to_watch _ = none

  abbrev get_spec : Cell Meta ListMeta Other → Option (SpecOf Address Address)
  get_spec (Cell.spec x) = some x
  get_spec _ = none

  abbrev get_status : Cell Meta ListMeta Other → Option (StatusOf Address Address)
  get_status (Cell.status x) = some x
  get_status _ = none

  abbrev get_watch : Cell Meta ListMeta Other → Option (Watch Meta)
  get_watch (Cell.watch x) = some x
  get_watch _ = none

  abbrev get_watch_list : Cell Meta ListMeta Other → Option (WatchList ListMeta)
  get_watch_list (Cell.watch_list x) = some x
  get_watch_list _ = none

  abbrev pub exclude_lists_kind : Kind (Cell Meta ListMeta Other) (List ExcludeList)
  exclude_lists_kind = record { put = Cell.exclude_lists; get = get_exclude_lists; zero = [] }

  abbrev pub duration_kind : Kind (Cell Meta ListMeta Other) (Int64)
  duration_kind = record { put = Cell.duration; get = get_duration; zero = pos 0 }

  abbrev pub conditions_kind : Kind (Cell Meta ListMeta Other) (List Condition)
  conditions_kind = record { put = Cell.conditions; get = get_conditions; zero = [] }

  abbrev pub secret_statuses_kind : Kind (Cell Meta ListMeta Other) (List SecretStatus)
  secret_statuses_kind = record { put = Cell.secret_statuses; get = get_secret_statuses; zero = [] }

  abbrev pub watches_kind : Kind (Cell Meta ListMeta Other) (List (Watch Meta))
  watches_kind = record { put = Cell.watches; get = get_watches; zero = [] }

  abbrev pub exclude_list_kind : Kind (Cell Meta ListMeta Other) (ExcludeList)
  exclude_list_kind = record {
    put = Cell.exclude_list;
    get = get_exclude_list;
    zero = zero_exclude_list;
  }

  abbrev pub secret_status_kind : Kind (Cell Meta ListMeta Other) (SecretStatus)
  secret_status_kind = record {
    put = Cell.secret_status;
    get = get_secret_status;
    zero = zero_secret_status;
  }

  abbrev pub stale_secret_to_watch_kind :
      Kind (Cell Meta ListMeta Other) (StaleSecretToWatchOf Address)
  stale_secret_to_watch_kind = record {
    put = Cell.stale_secret_to_watch;
    get = get_stale_secret_to_watch;
    zero = zero_stale_secret_to_watch;
  }

  abbrev pub spec_kind : Kind (Cell Meta ListMeta Other) (SpecOf Address Address)
  spec_kind = record { put = Cell.spec; get = get_spec; zero = zero_spec }

  abbrev pub status_kind : Kind (Cell Meta ListMeta Other) (StatusOf Address Address)
  status_kind = record { put = Cell.status; get = get_status; zero = zero_status }

  abbrev pub watch_kind : Meta → Kind (Cell Meta ListMeta Other) (Watch Meta)
  watch_kind zero_meta = record { put = Cell.watch; get = get_watch; zero = zero_watch zero_meta }

  abbrev pub watch_list_kind : ListMeta → Kind (Cell Meta ListMeta Other) (WatchList ListMeta)
  watch_list_kind zero_list_meta = record {
    put = Cell.watch_list;
    get = get_watch_list;
    zero = zero_watch_list zero_list_meta;
  }
