-- ===== src/Controller/Status.antt =====
-- updateStatusCondition, updateSecretStatuses and updateLastCheckedAnnotation.
use stale_secrets_check.Prelude.{String, false, Option, none, some, List, [], pos}
use stale_secrets_check.Api.{Time, GoMap, Condition, StaleSecretWatch, ConfigMap, Result, key_of}
use stale_secrets_check.Exec.{
  Error, ok, err, Exec, ask, act, pure, update_watch, update_watch_status, ◌>>=◌,
}
use stale_secrets_check.Maps.{insert}
use stale_secrets_check.Hash.{bytes_at}
use stale_secrets_check.Staleness.{check_namespaces}
use stale_secrets_check.Cluster.{System}
use stale_secrets_check.Store.{empty_meta}
use stale_secrets_check.Utils.{errorf, parse_time}

abbrev pub empty_watch : StaleSecretWatch
empty_watch = record {
  meta = empty_meta;
  spec = record {
    stale_secret_to_watch = record { namespace = ""; exclude_list = [] };
    stale_threshold_in_days = pos 0;
    refresh_interval = none;
  };
  status = record { conditions = []; secret_status = []; stale_secrets_count = pos 0 };
}

abbrev pub no_result : Result
no_result = record { requeue = false; requeue_after = pos 0 }

abbrev pub or_nil : Option (GoMap String) → GoMap String
or_nil none = []
or_nil (some m) = m

abbrev pub with_condition :
    (List Condition → Condition → List Condition) → Condition → StaleSecretWatch → StaleSecretWatch
with_condition set c ssw = record ssw {
  status = record ssw.status { conditions = set ssw.status.conditions c };
}

module _ {W : Type 0} (y : System W) where
  -- the function that is retried: it writes to no variable of its caller
  unfoldable pub update_condition :
      Condition → StaleSecretWatch → Exec W (StaleSecretWatch × Option Error)
  update_condition c ssw = do
    got ← ask (y.get_watch (key_of ssw.meta) empty_watch)
    elim got.1 [
      | some e ↦ pure (ssw, some e)
      | none ↦ do
        let latest = with_condition y.set_status_condition c got.0
        written ← act (update_watch_status latest) (y.update_watch_status latest)
        pure (ssw, written.1)
    ]

  unfoldable pub update_status_condition : StaleSecretWatch → Condition → Exec W (Option Error)
  unfolding update_condition
  update_status_condition ssw c = do
    tried ← y.retry_on_error y.is_conflict (update_condition c) ssw
    pure tried.1

  unfoldable pub update_secret_statuses :
      ConfigMap → StaleSecretWatch → Exec W (StaleSecretWatch × Option Error)
  unfolding bytes_at
  update_secret_statuses cm ssw = elim (y.unmarshal_config (bytes_at "data" cm.binary_data)) [
    | err e ↦ do e' ← errorf y "failed to decode ConfigMap data: " e; pure (ssw, some e')
    | ok config ↦ do
      current_time ← ask y.now
      let checked =
          check_namespaces (parse_time y) current_time ssw.spec.stale_threshold_in_days
            config.namespaces ssw.status
      pure (record ssw { status = checked.0 }, checked.1)
  ]

  -- the object with the annotation of a check at an instant
  unfoldable pub stamped : Time → StaleSecretWatch → StaleSecretWatch
  unfolding insert
  stamped now ssw = record ssw {
    meta = record ssw.meta {
      annotations =
          some (insert "lastChecked" (y.format_rfc3339_local now) (or_nil ssw.meta.annotations));
    };
  }

  unfoldable pub update_last_checked_annotation :
      StaleSecretWatch → Exec W (StaleSecretWatch × Option Error)
  unfolding stamped
  update_last_checked_annotation ssw = do
    now ← ask y.now
    let ssw' = stamped now ssw
    act (update_watch ssw') (y.update_watch ssw')
