-- ===== src/Controller/Safety/Reconciling.antt =====
-- The effects of Reconcile.
use stale_secrets_check.Prelude.{
  ℕ, [], Option, none, some, List, String, All, ◌≡◌, refl, arith, inl, inr,
}
use stale_secrets_check.Api.{GoMap, NamespacedName, StaleSecretWatch, ConfigMap, Result, key_of}
use stale_secrets_check.Exec.{
  ret, Sys, Error, Fallible, ok, err, Fallible-cases, act, create_config_map,
}
use stale_secrets_check.Exec.Keeps.{Ends-eq-ret, Keeps, bind-Keeps, act-Keeps}
use stale_secrets_check.Cluster.{System}
use stale_secrets_check.WatchList.{prepare_watch_list}
use stale_secrets_check.Store.{
  config_map_key, empty_config_map, config_map_for_stale_secret_watch,
  calculate_and_store_hashed_secrets,
}
use stale_secrets_check.Controller.Status.{empty_watch, update_status_condition}
use stale_secrets_check.Controller.Finalizer.{add_finalizer}
use stale_secrets_check.Controller.Reconcile.{
  Reconciled, finish, after_store, with_config_map, refetch, with_watch_list, created,
  create_missing, with_first_read, with_started, with_watch, reconcile, watchlist_prepared,
  reconcile_complete, config_map_created, reconcile_started, conclude_created, with_added,
}
use stale_secrets_check.Controller.Safety.{IsAllowed, IsLawful, PanicsOnly}
use stale_secrets_check.Controller.Safety.Storing.{
  prepare_watch_list-Keeps, calculate_and_store_hashed_secrets-Keeps,
}
use stale_secrets_check.Controller.Safety.Marking.{
  IsMild, update_status_condition-Keeps, remove_finalizer-Keeps, add_finalizer-Keeps,
}
use stale_secrets_check.Controller.Safety.Checking.{perform_daily_checks-Keeps}

allowed : IsMild IsAllowed
allowed = record { events = λ k a b c. tt; watches = λ x. tt; statuses = λ x. tt }

module _ {W : Type 0} (y : System W) {Z : Type 0} (only : PanicsOnly y Z)
    (lawful : IsLawful y) where
  finish-Keeps : (ssw : StaleSecretWatch) (e : Option Error) → Keeps IsAllowed Z (finish y ssw e)
  unfolding finish
  finish-Keeps ssw (some e) s p = (tt, p)
  finish-Keeps ssw none s p = ground (arith, perform_daily_checks-Keeps y only lawful ssw s p)

  after_store-Keeps :
      (ssw : StaleSecretWatch) (r : ConfigMap × Option Error)
      → Keeps IsAllowed Z (after_store y ssw r)
  unfolding after_store
  after_store-Keeps ssw (cm, some e) s p = (tt, (tt, p))
  after_store-Keeps ssw (cm, none) s p =
      bind-Keeps IsAllowed Z (update_status_condition y ssw reconcile_complete) (finish y ssw)
        (update_status_condition-Keeps y lawful IsAllowed Z allowed ssw reconcile_complete)
        (finish-Keeps ssw) _ (tt, p)

  with_config_map-Keeps :
      (ssw : StaleSecretWatch) (m : GoMap (List String)) (cm : ConfigMap) (e : Option Error)
      → (e ≡ none → key_of cm.meta ≡ config_map_key)
      → Keeps IsAllowed Z (with_config_map y ssw m (cm, e))
  unfolding with_config_map
  with_config_map-Keeps ssw m cm (some e) own s p = (tt, p)
  with_config_map-Keeps ssw m cm none own s p =
      bind-Keeps IsAllowed Z (calculate_and_store_hashed_secrets y m cm) (after_store y ssw)
        (calculate_and_store_hashed_secrets-Keeps y only lawful m cm (own refl))
        (after_store-Keeps ssw) s p

  refetch-Keeps :
      (ssw : StaleSecretWatch) (m : GoMap (List String)) (cm : ConfigMap) (e : Option Error)
      → Keeps IsAllowed Z (refetch y ssw m cm e)
  refetch-Keeps ssw m cm (some e) s p = (tt, p)
  refetch-Keeps ssw m cm none s p =
      let ((got, e), w) = y.get_config_map config_map_key cm s.world in
      with_config_map-Keeps ssw m got e (lawful.get_key config_map_key cm s.world)
        (record s { world = w }) p

  with_watch_list-Keeps :
      (ssw : StaleSecretWatch) (cm : ConfigMap) (r : Fallible (GoMap (List String)))
      → Keeps IsAllowed Z (with_watch_list y ssw cm r)
  unfolding with_watch_list
  with_watch_list-Keeps ssw cm (err e) s p = (tt, (tt, p))
  with_watch_list-Keeps ssw cm (ok m) s p =
      bind-Keeps IsAllowed Z (update_status_condition y ssw watchlist_prepared) (refetch y ssw m cm)
        (update_status_condition-Keeps y lawful IsAllowed Z allowed ssw watchlist_prepared)
        (refetch-Keeps ssw m cm) s p

  created-Keeps :
      (ssw : StaleSecretWatch) (r : ConfigMap × Option Error) → Keeps IsAllowed Z (created y ssw r)
  created-Keeps ssw (cm, some e) s p = (tt, (tt, p))
  created-Keeps ssw (cm, none) s p =
      bind-Keeps IsAllowed Z (update_status_condition y ssw config_map_created) (conclude_created y)
        (update_status_condition-Keeps y lawful IsAllowed Z allowed ssw config_map_created)
        (λ e s p. (tt, p)) _ (tt, p)

  create_missing-Keeps : (ssw : StaleSecretWatch) → Keeps IsAllowed Z (create_missing y ssw)
  unfolding create_missing config_map_for_stale_secret_watch
  create_missing-Keeps ssw s p = elim (Fallible-cases (config_map_for_stale_secret_watch y ssw)) [
    | inr (e, bad) ↦ rw (bad, create_missing) (tt, (tt, p))
    | inl (cm, good) ↦
        rw (good, create_missing)
          (bind-Keeps IsAllowed Z (act (create_config_map cm) (y.create_config_map cm))
            (created y ssw)
            (act-Keeps IsAllowed Z (create_config_map cm) (y.create_config_map cm)
              (lawful.reference_key ssw _ cm good))
            (created-Keeps ssw) s p)
  ]

  with_first_read-Keeps :
      (ssw : StaleSecretWatch) (r : ConfigMap × Option Error)
      → Keeps IsAllowed Z (with_first_read y ssw r)
  unfolding with_first_read
  with_first_read-Keeps ssw (cm, none) s p =
      bind-Keeps IsAllowed Z (prepare_watch_list y ssw) (with_watch_list y ssw cm)
        (prepare_watch_list-Keeps y only ssw) (with_watch_list-Keeps ssw cm) s p
  with_first_read-Keeps ssw (cm, some e) s p = ground (arith, create_missing-Keeps ssw s p)

  with_added-Keeps :
      (added : StaleSecretWatch × Result × Option Error) → Keeps IsAllowed Z (with_added y added)
  with_added-Keeps (ssw, _, _) s p =
      let (got, w) = y.get_config_map config_map_key empty_config_map s.world in
      with_first_read-Keeps ssw got (record s { world = w }) p

  with_started-Keeps :
      (req : NamespacedName) (ssw : StaleSecretWatch) (e : Option Error)
      → Keeps IsAllowed Z (with_started y req ssw e)
  unfolding with_started
  with_started-Keeps req ssw (some e) s p = (tt, p)
  with_started-Keeps req ssw none s p = ground (
    arith,
    remove_finalizer-Keeps y lawful IsAllowed Z allowed req ssw s p,
    bind-Keeps IsAllowed Z (add_finalizer y req ssw) (with_added y)
        (add_finalizer-Keeps y lawful IsAllowed Z allowed req ssw) with_added-Keeps s p,
  )

  with_watch-Keeps :
      (req : NamespacedName) (r : StaleSecretWatch × Option Error)
      → Keeps IsAllowed Z (with_watch y req r)
  unfolding with_watch
  with_watch-Keeps req (ssw, some e) s p = ground arith
  with_watch-Keeps req (ssw, none) s p =
      bind-Keeps IsAllowed Z (update_status_condition y ssw reconcile_started)
        (with_started y req ssw)
        (update_status_condition-Keeps y lawful IsAllowed Z allowed ssw reconcile_started)
        (with_started-Keeps req ssw) s p

  reconcile-Keeps : (req : NamespacedName) → Keeps IsAllowed Z (reconcile y req)
  unfolding reconcile
  reconcile-Keeps req s p =
      let (got, w) = y.get_watch req empty_watch s.world in with_watch-Keeps req got _ (tt, p)

module _ {W : Type 0} (y : System W) (lawful : IsLawful y) where
  -- For a lawful client every effect of a Reconcile, however it ends, is allowed: the only ConfigMap
  -- that it creates or updates is the operator's own, messages go to Slack alone, and the rest are
  -- events and writes to StaleSecretWatch objects.
  pub reconcile-IsAllowed :
      (req : NamespacedName) (s : Sys W)
      → All IsAllowed s.effects
      → All IsAllowed (reconcile y req s).1.effects
  reconcile-IsAllowed req s p =
      (reconcile-Keeps y (record { times = λ k w x h n. tt; home = λ w e h. tt }) lawful req s p).1

  -- For a lawful client, where the secrets that it returns have a time in their last managedFields
  -- entry and the home directory is known, every Reconcile returns: there is no other panic.
  pub reconcile-eq-ret :
      PanicsOnly y ⊥
      → (req : NamespacedName) (w : W) (a : ℕ)
      → let (r, s') = reconcile y req (record { world = w; effects = []; next_address = a }) in
        (returned : Reconciled) × (r ≡ ret returned)
  reconcile-eq-ret only req w a =
      let s : Sys W = record { world = w; effects = []; next_address = a } in
      Ends-eq-ret (reconcile y req s).0 (reconcile-Keeps y only lawful req s tt).0
