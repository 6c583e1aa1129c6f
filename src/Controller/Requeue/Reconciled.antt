-- ===== src/Controller/Requeue/Reconciled.antt =====
-- When Reconcile asks for another call.
use stale_secrets_check.Prelude.{
  String, true, false, Option, none, some, List, ◌∷◌, ◌≡◌, ◌⊎◌, inl, inr, refl, arith, pos, ◌<ℤ◌,
  Bool-cases,
}
use stale_secrets_check.Api.{GoMap, NamespacedName, StaleSecretWatch, ConfigMap, Result, key_of}
use stale_secrets_check.Exec.{
  Effect, event, Error, Fallible, ok, err, Fallible-cases, >>=-eq-ret, pure, Sys, ret, ask, act,
  create_config_map,
}
use stale_secrets_check.Exec.Yields.{pure-Yields, Yields, bind-Yields}
use stale_secrets_check.Cluster.{System}
use stale_secrets_check.WatchList.{prepare_watch_list}
use stale_secrets_check.Store.{
  config_map_key, empty_config_map, config_map_for_stale_secret_watch,
  calculate_and_store_hashed_secrets,
}
use stale_secrets_check.Controller.Status.{no_result, empty_watch, update_status_condition}
use stale_secrets_check.Controller.Finalizer.{add_finalizer}
use stale_secrets_check.Controller.Daily.{Checked, perform_daily_checks}
use stale_secrets_check.Controller.Reconcile.{
  Reconciled, conclude, finish, after_store, with_config_map, refetch, with_watch_list,
  conclude_created, created, create_missing, with_first_read, with_added, with_started, with_watch,
  reconcile, watchlist_prepared, reconcile_complete, config_map_created, reconcile_started,
}
use stale_secrets_check.Controller.Requeue.{IsDue, IsQuick, perform_daily_checks-IsDue}

-- The last effect is the event that says that the hashes could not be stored.
abbrev pub StoreFailed : {W : Type 0} → Sys W → Type 0
StoreFailed s =
    (about : NamespacedName) × (older : List Effect) × (s.effects
      ≡ event about "Warning" "HashedSecretsCalculationFailed"
          "Failed to calculate and store hashed secrets"
        ∷ older)

-- Without an error there will be another Reconcile, or the store step failed.
abbrev IsAgain : {W : Type 0} → Reconciled → Sys W → Type 0
IsAgain (result, some e) s = Unit
IsAgain (result, none) s = (result.requeue ≡ true) ⊎ (pos 0 <ℤ result.requeue_after) ⊎ StoreFailed s

module _ {W : Type 0} (y : System W) (quick : IsQuick y) where
  conclude-IsAgain : (c : Checked) (s : Sys W) → IsDue c s → IsAgain (conclude y c) s
  conclude-IsAgain (done, result, some e) s d = tt
  conclude-IsAgain (true, result, none) s d = inr (inl d)
  conclude-IsAgain (false, result, none) s d = inr (inl (omega arith))

  finish-IsAgain : (ssw : StaleSecretWatch) (e : Option Error) → Yields IsAgain (finish y ssw e)
  unfolding finish
  finish-IsAgain ssw (some e) a s s' h = ground arith
  finish-IsAgain ssw none a s s' h =
      let (c, t, first, rest) =
        >>=-eq-ret (perform_daily_checks y ssw) (λ checked. pure (conclude y checked)) a s s' h in
      pure-Yields IsAgain (conclude y c) a t s'
        (conclude-IsAgain c t (perform_daily_checks-IsDue y quick ssw c s t first)) rest

  after_store-IsAgain :
      (ssw : StaleSecretWatch) (r : ConfigMap × Option Error) → Yields IsAgain (after_store y ssw r)
  unfolding after_store
  after_store-IsAgain ssw (cm, some e) a s s' h =
      let lost =
        event (key_of ssw.meta) "Warning" "HashedSecretsCalculationFailed"
          "Failed to calculate and store hashed secrets" in
      pure-Yields IsAgain (no_result, none) a (record s { effects = lost ∷ s.effects }) s'
        (inr (inr (key_of ssw.meta, s.effects, refl))) h
  after_store-IsAgain ssw (cm, none) a s s' h =
      bind-Yields IsAgain (update_status_condition y ssw reconcile_complete) (finish y ssw)
        (finish-IsAgain ssw) a _ s' h

  with_config_map-IsAgain :
      (ssw : StaleSecretWatch) (m : GoMap (List String)) (r : ConfigMap × Option Error)
      → Yields IsAgain (with_config_map y ssw m r)
  unfolding with_config_map
  with_config_map-IsAgain ssw m (cm, some e) a s s' h = ground arith
  with_config_map-IsAgain ssw m (cm, none) a s s' h =
      bind-Yields IsAgain (calculate_and_store_hashed_secrets y m cm) (after_store y ssw)
        (after_store-IsAgain ssw) a s s' h

  refetch-IsAgain :
      (ssw : StaleSecretWatch) (m : GoMap (List String)) (cm : ConfigMap) (e : Option Error)
      → Yields IsAgain (refetch y ssw m cm e)
  refetch-IsAgain ssw m cm (some e) a s s' h = ground arith
  refetch-IsAgain ssw m cm none a s s' h =
      bind-Yields IsAgain (ask (y.get_config_map config_map_key cm)) (with_config_map y ssw m)
        (with_config_map-IsAgain ssw m) a s s' h

  with_watch_list-IsAgain :
      (ssw : StaleSecretWatch) (cm : ConfigMap) (r : Fallible (GoMap (List String)))
      → Yields IsAgain (with_watch_list y ssw cm r)
  unfolding with_watch_list
  with_watch_list-IsAgain ssw cm (err e) a s s' h = ground arith
  with_watch_list-IsAgain ssw cm (ok m) a s s' h =
      bind-Yields IsAgain (update_status_condition y ssw watchlist_prepared) (refetch y ssw m cm)
        (refetch-IsAgain ssw m cm) a s s' h

  conclude_created-IsAgain : (e : Option Error) → Yields IsAgain (conclude_created y e)
  conclude_created-IsAgain (some e) a s s' h = ground arith
  conclude_created-IsAgain none a s s' h =
      pure-Yields IsAgain (record no_result { requeue = true }, none) a s s' (inl refl) h

  created-IsAgain :
      (ssw : StaleSecretWatch) (r : ConfigMap × Option Error) → Yields IsAgain (created y ssw r)
  created-IsAgain ssw (cm, some e) a s s' h = ground arith
  created-IsAgain ssw (cm, none) a s s' h =
      bind-Yields IsAgain (update_status_condition y ssw config_map_created) (conclude_created y)
        conclude_created-IsAgain a _ s' h

  create_missing-IsAgain : (ssw : StaleSecretWatch) → Yields IsAgain (create_missing y ssw)
  unfolding create_missing
  create_missing-IsAgain ssw a s s' h =
      elim (Fallible-cases (config_map_for_stale_secret_watch y ssw)) [
        | inr (e, bad) ↦ ground arith
        | inl (cm, good) ↦
            bind-Yields IsAgain (act (create_config_map cm) (y.create_config_map cm))
              (created y ssw) (created-IsAgain ssw) a s s' (rw (good, create_missing) at h)
      ]

  with_first_read-IsAgain :
      (ssw : StaleSecretWatch) (r : ConfigMap × Option Error)
      → Yields IsAgain (with_first_read y ssw r)
  unfolding with_first_read
  with_first_read-IsAgain ssw (cm, none) a s s' h =
      bind-Yields IsAgain (prepare_watch_list y ssw) (with_watch_list y ssw cm)
        (with_watch_list-IsAgain ssw cm) a s s' h
  with_first_read-IsAgain ssw (cm, some e) a s s' h = elim (Bool-cases (y.is_not_found e)) [
    | inl missing ↦ create_missing-IsAgain ssw a s s' (rw (missing, with_first_read) at h)
    | inr other ↦ ground arith
  ]

  with_added-IsAgain :
      (added : StaleSecretWatch × Result × Option Error) → Yields IsAgain (with_added y added)
  with_added-IsAgain (ssw, _, _) a s s' h =
      bind-Yields IsAgain (ask (y.get_config_map config_map_key empty_config_map))
        (with_first_read y ssw) (with_first_read-IsAgain ssw) a s s' h

  with_started-IsAgain :
      (req : NamespacedName) (ssw : StaleSecretWatch) (e : Option Error)
      → ssw.meta.deletion_timestamp ≡ none
      → Yields IsAgain (with_started y req ssw e)
  unfolding with_started
  with_started-IsAgain req ssw (some e) stays a s s' h = ground arith
  with_started-IsAgain req ssw none stays a s s' h =
      bind-Yields IsAgain (add_finalizer y req ssw) (with_added y) with_added-IsAgain a s s'
        (rw (stays, with_started) at h)

  with_watch-IsAgain :
      (req : NamespacedName) (r : StaleSecretWatch × Option Error)
      → r.1 ≡ none
      → r.0.meta.deletion_timestamp ≡ none
      → Yields IsAgain (with_watch y req r)
  unfolding with_watch
  with_watch-IsAgain req (ssw, some e) there stays a s s' h = absurd (ground arith)
  with_watch-IsAgain req (ssw, none) there stays a s s' h =
      bind-Yields IsAgain (update_status_condition y ssw reconcile_started) (with_started y req ssw)
        (λ e. with_started-IsAgain req ssw e stays) a s s' h

  -- Where the clock is read twice within a day: a Reconcile without an error of an object that is
  -- there and is not being deleted asks for another one, at once or after a positive delay, or else
  -- its last effect is the event that the hashes could not be stored.
  pub reconcile-IsRescheduled :
      (req : NamespacedName) (result : Result) (s s' : Sys W)
      → (y.get_watch req empty_watch s.world).0.1 ≡ none
      → (y.get_watch req empty_watch s.world).0.0.meta.deletion_timestamp ≡ none
      → reconcile y req s ≡ (ret (result, none), s')
      → (result.requeue ≡ true) ⊎ (pos 0 <ℤ result.requeue_after) ⊎ StoreFailed s'
  unfolding reconcile
  reconcile-IsRescheduled req result s s' there stays h =
      with_watch-IsAgain req (y.get_watch req empty_watch s.world).0 there stays (result, none) _ s'
        h
