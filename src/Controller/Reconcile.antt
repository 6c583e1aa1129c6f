-- ===== src/Controller/Reconcile.antt =====
-- Reconcile.
use stale_secrets_check.Prelude.{String, true, false, Option, none, some, List, if◌then◌else◌, pos}
use stale_secrets_check.Api.{
  GoMap, Int64, NamespacedName, Condition, StaleSecretWatch, ConfigMap, Result, key_of,
}
use stale_secrets_check.Exec.{
  Error, Fallible, ok, err, Exec, ask, act, pure, record_event, create_config_map, ◌>>=◌, ◌>>◌,
}
use stale_secrets_check.Cluster.{System}
use stale_secrets_check.WatchList.{prepare_watch_list}
use stale_secrets_check.Store.{
  config_map_key, empty_config_map, config_map_for_stale_secret_watch,
  calculate_and_store_hashed_secrets,
}
use stale_secrets_check.Controller.Status.{no_result, empty_watch, update_status_condition}
use stale_secrets_check.Controller.Finalizer.{Added, remove_finalizer, add_finalizer}
use stale_secrets_check.Controller.Daily.{Checked, perform_daily_checks, after}

abbrev pub Reconciled : Type 0
Reconciled = Result × Option Error

-- 10 * time.Minute
abbrev pub ten_minutes : Int64
ten_minutes = pos 600000000000

abbrev pub condition : String → String → String → Condition
condition type reason message = record {
  type = type;
  status = "True";
  reason = reason;
  message = message;
}

abbrev pub reconcile_started : Condition
reconcile_started =
    condition "ReconcileStarted" "ReconcileInitiated" "Reconciliation process has started"

abbrev pub config_map_created : Condition
config_map_created =
    condition "ConfigMapCreated" "ConfigMapCreated"
      "New ConfigMap created successfully for StaleSecretWatch"

abbrev pub watchlist_prepared : Condition
watchlist_prepared =
    condition "PrepareWatchlist" "PrepareWatchlist"
      "Successfully prepared watch list for StaleSecretWatch"

abbrev pub reconcile_complete : Condition
reconcile_complete =
    condition "ReconcileComplete" "Success" "Reconciliation process completed successfully"

module _ {W : Type 0} (y : System W) where
  abbrev pub stop_with : Error → Exec W Reconciled
  stop_with e = pure (no_result, some e)

  -- the outcome of the daily checks
  abbrev pub conclude : Checked → Reconciled
  conclude (done, result, some e) = (result, some e)
  conclude (true, result, none) = (result, none)
  conclude (false, result, none) = (after ten_minutes, none)

  unfoldable pub finish : StaleSecretWatch → Option Error → Exec W Reconciled
  unfolding perform_daily_checks
  finish ssw (some e) = stop_with e
  finish ssw none = do checked ← perform_daily_checks y ssw; pure (conclude checked)

  -- Behind calculateAndStoreHashedSecrets: its error is reported as an event, and what is returned
  -- is the error of the read before it, which was nil.
  unfoldable pub after_store : StaleSecretWatch → ConfigMap × Option Error → Exec W Reconciled
  unfolding finish update_status_condition
  after_store ssw (cm, some herr) = do
    record_event (key_of ssw.meta) "Warning" "HashedSecretsCalculationFailed"
        "Failed to calculate and store hashed secrets"
    pure (no_result, none)
  after_store ssw (cm, none) = do
    record_event (key_of ssw.meta) "Normal" "ReconcileComplete" "Reconciliation complete"
    updated ← update_status_condition y ssw reconcile_complete
    finish ssw updated

  -- behind the second read of the ConfigMap
  unfoldable pub with_config_map :
      StaleSecretWatch → GoMap (List String) → ConfigMap × Option Error → Exec W Reconciled
  unfolding after_store
  with_config_map ssw secrets (cm, some e) = stop_with e
  with_config_map ssw secrets (cm, none) =
      calculate_and_store_hashed_secrets y secrets cm >>= after_store ssw

  abbrev pub refetch :
      StaleSecretWatch → GoMap (List String) → ConfigMap → Option Error → Exec W Reconciled
  refetch ssw secrets cm (some e) = stop_with e
  refetch ssw secrets cm none =
      ask (y.get_config_map config_map_key cm) >>= with_config_map ssw secrets

  unfoldable pub with_watch_list :
      StaleSecretWatch → ConfigMap → Fallible (GoMap (List String)) → Exec W Reconciled
  unfolding with_config_map update_status_condition
  with_watch_list ssw cm (err e) = do
    record_event (key_of ssw.meta) "Warning" "PrepareWatchlistFailed" "Failed to prepare watch list"
    stop_with e
  with_watch_list ssw cm (ok secrets) =
      update_status_condition y ssw watchlist_prepared >>= refetch ssw secrets cm

  abbrev pub requeue_now : Option Error → Reconciled
  requeue_now (some e) = (no_result, some e)
  requeue_now none = (record no_result { requeue = true }, none)

  abbrev pub conclude_created : Option Error → Exec W Reconciled
  conclude_created updated = pure (requeue_now updated)

  abbrev pub created : StaleSecretWatch → ConfigMap × Option Error → Exec W Reconciled
  created ssw (cm, some e) = do
    record_event (key_of ssw.meta) "Warning" "ConfigMapCreationFailed"
        "Failed to create new ConfigMap"
    stop_with e
  created ssw (cm, none) = do
    record_event (key_of ssw.meta) "Normal" "ConfigMapCreated" "New ConfigMap created successfully"
    updated ← update_status_condition y ssw config_map_created
    conclude_created updated

  -- the ConfigMap is not there
  unfoldable pub create_missing : StaleSecretWatch → Exec W Reconciled
  unfolding config_map_for_stale_secret_watch update_status_condition
  create_missing ssw = elim (config_map_for_stale_secret_watch y ssw) [
    | err e ↦ do
      record_event (key_of ssw.meta) "Warning" "ConfigMapCreationFailed"
          "Failed to define new ConfigMap"
      stop_with e
    | ok cm ↦ act (create_config_map cm) (y.create_config_map cm) >>= created ssw
  ]

  unfoldable pub with_first_read : StaleSecretWatch → ConfigMap × Option Error → Exec W Reconciled
  unfolding create_missing with_watch_list prepare_watch_list
  with_first_read ssw (cm, none) = prepare_watch_list y ssw >>= with_watch_list ssw cm
  with_first_read ssw (cm, some e) = if y.is_not_found e then create_missing ssw else (do
    record_event (key_of ssw.meta) "Warning" "ConfigMapFetchFailed" "Failed to fetch ConfigMap"
    stop_with e)

  -- Behind addFinalizer, of which what it returns is dropped, and the object is kept.
  abbrev pub with_added : Added y → Exec W Reconciled
  with_added (ssw, _, _) =
      ask (y.get_config_map config_map_key empty_config_map) >>= with_first_read ssw

  -- behind the first condition
  unfoldable pub with_started : NamespacedName → StaleSecretWatch → Option Error → Exec W Reconciled
  unfolding with_first_read remove_finalizer add_finalizer
  with_started req ssw (some e) = stop_with e
  with_started req ssw none = elim ssw.meta.deletion_timestamp [
    | some t ↦ remove_finalizer y req ssw
    | none ↦ add_finalizer y req ssw >>= with_added
  ]

  unfoldable pub with_watch : NamespacedName → StaleSecretWatch × Option Error → Exec W Reconciled
  unfolding with_started update_status_condition
  with_watch req (ssw, none) =
      update_status_condition y ssw reconcile_started >>= with_started req ssw
  with_watch req (ssw, some e) =
      if y.is_not_found e
      then (do
        record_event (key_of ssw.meta) "Normal" "NotFound"
            "StaleSecretWatch resource not found. Ignoring and exiting reconcile loop."
        pure (no_result, y.ignore_not_found e))
      else stop_with e

  unfoldable pub reconcile : NamespacedName → Exec W Reconciled
  unfolding with_watch
  reconcile req = do
    record_event (key_of empty_watch.meta) "Normal" "ReconcileStarted"
        "Reconciliation process started"
    ask (y.get_watch req empty_watch) >>= with_watch req
