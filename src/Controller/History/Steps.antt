-- ===== src/Controller/History/Steps.antt =====
-- The steps of a Reconcile that asks for another one after a delay, with the state behind each.
use stale_secrets_check.Prelude.{
  Option, none, some, List, String, ◌∷◌, ◌≡◌, ◌≢◌, inl, inr, ap, ◌∙◌, arith, pos, Bool-cases,
  Option-cases,
}
use stale_secrets_check.Api.{GoMap, NamespacedName, StaleSecretWatch, ConfigMap, Result, key_of}
use stale_secrets_check.Exec.{Sys, ret, event, Error, Fallible, ok, err, >>=-eq-ret}
use stale_secrets_check.Cluster.{System}
use stale_secrets_check.WatchList.{prepare_watch_list}
use stale_secrets_check.Store.{config_map_key, empty_config_map, calculate_and_store_hashed_secrets}
use stale_secrets_check.Controller.Status.{empty_watch, update_status_condition}
use stale_secrets_check.Controller.Finalizer.{Added, add_finalizer}
use stale_secrets_check.Controller.Reconcile.{
  after_store, with_config_map, refetch, with_watch_list, with_first_read, with_added, with_started,
  with_watch, reconcile, watchlist_prepared, reconcile_started,
}
use stale_secrets_check.Controller.History.Prompt.{
  create_missing-IsPrompt, remove_finalizer-IsPrompt,
}

module _ {W : Type 0} (y : System W) where
  -- behind a Get of the operator's ConfigMap
  abbrev pub behind_get : ConfigMap → Sys W → Sys W
  behind_get cm s = record s { world = (y.get_config_map config_map_key cm s.world).1 }

  abbrev pub got_map : ConfigMap → Sys W → ConfigMap
  got_map cm s = (y.get_config_map config_map_key cm s.world).0.0

  -- behind the first event and the Get of the object
  abbrev pub begun : NamespacedName → Sys W → Sys W
  begun req s = record s {
    world = (y.get_watch req empty_watch s.world).1;
    effects =
        event (key_of empty_watch.meta) "Normal" "ReconcileStarted" "Reconciliation process started"
        ∷ s.effects;
  }

  abbrev pub watch_of : NamespacedName → Sys W → StaleSecretWatch
  watch_of req s = (y.get_watch req empty_watch s.world).0.0

  -- From the condition that the watch list was prepared on: the second read of the ConfigMap, the store
  -- step without an error, and what is behind it.
  pub record Storing (ssw : StaleSecretWatch) (m : GoMap (List String)) (cm : ConfigMap)
      (result : Result) (s s' : Sys W) : Type 0 where
    pub found : (y.get_config_map config_map_key cm s.world).0.1 ≡ none
    pub written : ConfigMap
    pub stored : Sys W
    pub store :
        calculate_and_store_hashed_secrets y m (got_map cm s) (behind_get cm s)
        ≡ (ret (written, none), stored)
    pub rest : after_store y ssw (written, none) stored ≡ (ret (result, none), s')

  -- From the first read of the ConfigMap on: the watch list, and its condition.
  pub record Listing (ssw : StaleSecretWatch) (cm : ConfigMap) (result : Result) (s s' : Sys W)
      : Type 0 where
    pub watched : GoMap (List String)
    pub listed : Sys W
    pub list : prepare_watch_list y ssw s ≡ (ret (ok watched), listed)
    pub noted : Sys W
    pub note : update_status_condition y ssw watchlist_prepared listed ≡ (ret none, noted)
    pub storing : Storing ssw watched cm result noted s'

  -- The whole: the first condition and the finalizer, and what is behind the first read.
  pub record Steps (req : NamespacedName) (result : Result) (s s' : Sys W) : Type 0 where
    pub at_start : Sys W
    pub start :
        update_status_condition y (watch_of req s) reconcile_started (begun req s)
        ≡ (ret none, at_start)
    pub added : Added y
    pub marked : Sys W
    pub mark : add_finalizer y req (watch_of req s) at_start ≡ (ret added, marked)
    pub listing :
        Listing added.0
          (got_map empty_config_map marked)
          result
          (behind_get empty_config_map marked)
          s'

  module _ (result : Result) (delayed : result.requeue_after ≢ pos 0) where
    -- With a delay, the store step reported no error.
    stored-Storing :
        (ssw : StaleSecretWatch) (m : GoMap (List String)) (cm : ConfigMap)
        (r : ConfigMap × Option Error) (s t s' : Sys W)
        → (y.get_config_map config_map_key cm s.world).0.1 ≡ none
        → calculate_and_store_hashed_secrets y m (got_map cm s) (behind_get cm s) ≡ (ret r, t)
        → after_store y ssw r t ≡ (ret (result, none), s')
        → Storing ssw m cm result s s'
    unfolding after_store
    stored-Storing ssw m cm (cm', some e) s t s' fine first rest = absurd (delayed (ground arith))
    stored-Storing ssw m cm (cm', none) s t s' fine first rest = record {
      found = fine;
      written = cm';
      stored = t;
      store = first;
      rest = rest;
    }

    refetch-Storing :
        (ssw : StaleSecretWatch) (m : GoMap (List String)) (cm : ConfigMap) (s s' : Sys W)
        → refetch y ssw m cm none s ≡ (ret (result, none), s')
        → Storing ssw m cm result s s'
    unfolding with_config_map
    refetch-Storing ssw m cm s s' h =
        let ((got, e), w) = y.get_config_map config_map_key cm s.world in
        elim (Option-cases e) [
          | inr (x, bad) ↦ absurd (ground arith)
          | inl fine ↦
              let (r, t, first, rest) =
                >>=-eq-ret (calculate_and_store_hashed_secrets y m got) (after_store y ssw)
                  (result, none) (behind_get cm s) s' (rw (fine, with_config_map) at h) in
              stored-Storing ssw m cm r s t s' fine first rest
        ]

    with_watch_list-Listing :
        (ssw : StaleSecretWatch) (cm : ConfigMap) (r : Fallible (GoMap (List String)))
        (s t s' : Sys W)
        → prepare_watch_list y ssw s ≡ (ret r, t)
        → with_watch_list y ssw cm r t ≡ (ret (result, none), s')
        → Listing ssw cm result s s'
    unfolding with_watch_list
    with_watch_list-Listing ssw cm (err e) s t s' first h = absurd (ground arith)
    with_watch_list-Listing ssw cm (ok m) s t s' first h =
        let (e, v, second, rest) =
          >>=-eq-ret (update_status_condition y ssw watchlist_prepared) (refetch y ssw m cm)
            (result, none) t s' h in
        elim (Option-cases e) [
          | inr (x, bad) ↦ absurd (ground arith)
          | inl fine ↦ record {
            watched = m;
            listed = t;
            list = first;
            noted = v;
            note = second ∙ ap (λ o. (ret o, v)) fine;
            storing = refetch-Storing ssw m cm v s' (rw fine at rest);
          }
        ]

    with_first_read-Listing :
        (ssw : StaleSecretWatch) (r : ConfigMap × Option Error) (s s' : Sys W)
        → with_first_read y ssw r s ≡ (ret (result, none), s')
        → Listing ssw r.0 result s s'
    unfolding with_first_read
    with_first_read-Listing ssw (cm, none) s s' h =
        let (r, t, first, rest) =
          >>=-eq-ret (prepare_watch_list y ssw) (with_watch_list y ssw cm) (result, none) s s' h in
        with_watch_list-Listing ssw cm r s t s' first rest
    with_first_read-Listing ssw (cm, some e) s s' h = elim (Bool-cases (y.is_not_found e)) [
      | inl absent ↦ absurd (
          delayed
            (create_missing-IsPrompt y ssw (result, none) s s' (rw (absent, with_first_read) at h)))
      | inr other ↦ absurd (ground arith)
    ]

    with_started-Steps :
        (req : NamespacedName) (e : Option Error) (s t s' : Sys W)
        → update_status_condition y (watch_of req s) reconcile_started (begun req s) ≡ (ret e, t)
        → with_started y req (watch_of req s) e t ≡ (ret (result, none), s')
        → Steps req result s s'
    unfolding with_started
    with_started-Steps req (some e) s t s' first h = absurd (ground arith)
    with_started-Steps req none s t s' first h =
        let ssw = watch_of req s in
        elim (Option-cases ssw.meta.deletion_timestamp) [
          | inr (time, marked) ↦ absurd (
              delayed (
                remove_finalizer-IsPrompt y req ssw (result, none) t s'
                  (rw (marked, with_started) at h)))
          | inl stays ↦
              let (added, v, second, rest) =
                >>=-eq-ret (add_finalizer y req ssw) (with_added y) (result, none) t s'
                  (rw (stays, with_started) at h) in
              record {
                at_start = t;
                start = first;
                added = added;
                marked = v;
                mark = second;
                listing =
                    with_first_read-Listing added.0
                      (y.get_config_map config_map_key empty_config_map v.world).0
                      (behind_get empty_config_map v) s' rest;
              }
        ]

    -- A Reconcile without an error that asks for another one after a delay has taken the steps.
    pub reconcile-Steps :
        (req : NamespacedName) (s s' : Sys W)
        → reconcile y req s ≡ (ret (result, none), s')
        → Steps req result s s'
    unfolding reconcile with_watch
    reconcile-Steps req s s' h =
        let ((ssw, e), w) = y.get_watch req empty_watch s.world in
        elim (Option-cases e) [
          | inr (x, bad) ↦ absurd (delayed (ground arith))
          | inl fine ↦
              let (e', t, first, rest) =
                >>=-eq-ret (update_status_condition y ssw reconcile_started)
                  (with_started y req ssw) (result, none) (begun req s) s'
                  (rw (fine, with_watch) at h) in
              with_started-Steps req e' s t s' first rest
        ]
