-- ===== src/Controller/Finalizer.antt =====
-- addFinalizer, removeFinalizer and doFinalizerOperationsForStaleSecretWatch.
use stale_secrets_check.Prelude.{String, true, Option, none, some, [], ◌∷◌, if◌then◌else◌}
use stale_secrets_check.Api.{NamespacedName, StaleSecretWatch, Result, Condition, key_of}
use stale_secrets_check.Exec.{Error, Exec, ask, act, pure, record_event, update_watch, ◌>>=◌, ◌>>◌}
use stale_secrets_check.Strings.{concat}
use stale_secrets_check.Cluster.{System}
use stale_secrets_check.Controller.Status.{no_result, update_status_condition}

abbrev pub finalizer : String
finalizer = "security.stalesecretwatch.io/finalizer"

abbrev pub finalizer_added : Condition
finalizer_added = record {
  type = "FinalizerAdded";
  status = "True";
  reason = "FinalizerAdded";
  message = "Finalizer added successfully to StaleSecretWatch";
}

module _ {W : Type 0} (y : System W) where
  unfoldable pub do_finalizer_operations : StaleSecretWatch → Exec W (Unit {0})
  do_finalizer_operations ssw = record_event (key_of ssw.meta) "Warning" "Deleting" (
      concat (
        "Custom Resource " ∷ ssw.meta.name ∷ " is being deleted from the namespace "
        ∷ ssw.meta.namespace ∷ []))

  abbrev pub removal_failed :
      StaleSecretWatch × Option Error → Exec W (StaleSecretWatch × Option Error)
  removal_failed (ssw, none) = pure (ssw, none)
  removal_failed (ssw, some e) = do
    record_event (key_of ssw.meta) "Warning" "FinalizerRemovalFailed" "Failed to remove finalizer"
    pure (ssw, some e)

  -- the function that is retried; it writes to the caller's object
  unfoldable pub try_removal :
      NamespacedName → StaleSecretWatch → Exec W (StaleSecretWatch × Option Error)
  try_removal req ssw0 = do
    got ← ask (y.get_watch req ssw0)
    elim got.1 [
      | some e ↦ pure got
      | none ↦
          let ssw = y.remove_finalizer got.0 finalizer in
          act (update_watch ssw) (y.update_watch ssw) >>= removal_failed
    ]

  abbrev pub removal_done : StaleSecretWatch × Option Error → Exec W (Result × Option Error)
  removal_done (ssw, some e) = pure (no_result, some e)
  removal_done (ssw, none) = do
    record_event (key_of ssw.meta) "Normal" "FinalizerRemoved"
        "Finalizer removed, resource cleanup complete"
    pure (no_result, none)

  unfoldable pub remove_finalizer :
      NamespacedName → StaleSecretWatch → Exec W (Result × Option Error)
  unfolding do_finalizer_operations try_removal
  remove_finalizer req ssw =
      if y.contains_finalizer ssw finalizer
      then (do
        do_finalizer_operations ssw
        record_event (key_of ssw.meta) "Normal" "FinalizerOpsComplete"
            "Finalizer operations completed"
        tried ← y.retry_on_conflict (try_removal req) ssw
        removal_done tried)
      else pure (no_result, none)

  -- What addFinalizer leaves of the object, its result and its error.
  abbrev pub Added : Type 0
  Added = StaleSecretWatch × Result × Option Error

  -- behind the condition of the new finalizer
  abbrev pub after_condition : StaleSecretWatch → Option Error → Exec W Added
  after_condition ssw (some e) = pure (ssw, no_result, some e)
  after_condition ssw none = pure (ssw, record no_result { requeue = true }, none)

  abbrev pub addition_done : StaleSecretWatch × Option Error → Exec W Added
  addition_done (ssw, some e) = do
    record_event (key_of ssw.meta) "Warning" "FinalizerAdditionFailed" "Failed to add finalizer"
    pure (ssw, no_result, some e)
  addition_done (ssw, none) = do
    record_event (key_of ssw.meta) "Normal" "FinalizerAdded" "Finalizer added to CR successfully"
    updated ← update_status_condition y ssw finalizer_added
    after_condition ssw updated

  unfoldable pub add_finalizer : NamespacedName → StaleSecretWatch → Exec W Added
  unfolding update_status_condition
  add_finalizer req ssw0 =
      if y.contains_finalizer ssw0 finalizer then pure (ssw0, no_result, none) else (do
        got ← ask (y.get_watch req ssw0)
        elim got.1 [
          | some e ↦ pure (got.0, no_result, some e)
          | none ↦
              let ssw = y.add_finalizer got.0 finalizer in
              act (update_watch ssw) (y.update_watch ssw) >>= addition_done
        ])
