-- ===== src/Controller/History/Reconciling.antt =====
-- Reconcile, as it grows the content of the ConfigMap.
use stale_secrets_check.Prelude.{
  String, Option, none, some, List, [], ◌≡◌, ◌∙◌, refl, ap, sym, arith, Bool-cases, Option-cases,
  inl, inr,
}
use mathlib.Core.Path.{subst}
use stale_secrets_check.Api.{
  GoMap, Bytes, NamespacedName, StaleSecretWatch, ConfigMap, Result, key_of,
}
use stale_secrets_check.Exec.{
  Exec, Sys, Error, Fallible, ok, err, Fallible-cases, act, create_config_map, ◌>>=◌,
}
use stale_secrets_check.Hash.{bytes_at}
use stale_secrets_check.Cluster.{System}
use stale_secrets_check.WatchList.{prepare_watch_list}
use stale_secrets_check.Store.{
  config_map_key, empty_config_map, config_map_for_stale_secret_watch,
  calculate_and_store_hashed_secrets,
}
use stale_secrets_check.Controller.Status.{empty_watch, update_status_condition}
use stale_secrets_check.Controller.Finalizer.{add_finalizer}
use stale_secrets_check.Controller.Reconcile.{
  finish, after_store, with_config_map, refetch, with_watch_list, created, create_missing,
  with_first_read, with_started, with_watch, reconcile, watchlist_prepared, reconcile_complete,
  config_map_created, reconcile_started, conclude_created, with_added,
}
use stale_secrets_check.Controller.Safety.{IsLawful}
use stale_secrets_check.Controller.History.{Keeper, Same, bind-Same, bind-Grows, Grows-bind, Grows}
use stale_secrets_check.Controller.History.Marking.{
  prepare_watch_list-Same, update_status_condition-Same, remove_finalizer-Same, add_finalizer-Same,
}
use stale_secrets_check.Controller.History.Checking.{perform_daily_checks-Same}
use stale_secrets_check.Controller.History.Storing.{calculate_and_store_hashed_secrets-Grows}

module _ {W : Type 0} (y : System W) (k : Keeper y) (lawful : IsLawful y) where
  finish-Same : (ssw : StaleSecretWatch) (e : Option Error) → Same y k (finish y ssw e)
  unfolding finish
  finish-Same ssw (some e) s = refl
  finish-Same ssw none s = ground (arith, perform_daily_checks-Same y k lawful ssw s)

  pub after_store-Same :
      (ssw : StaleSecretWatch) (r : ConfigMap × Option Error) → Same y k (after_store y ssw r)
  unfolding after_store
  after_store-Same ssw (cm, some e) s = refl
  after_store-Same ssw (cm, none) s =
      bind-Same y k (update_status_condition y ssw reconcile_complete) (finish y ssw)
        (update_status_condition-Same y k lawful ssw reconcile_complete) (finish-Same ssw) _

  from : (d d' d0 : Bytes) → d ≡ d0 → Grows y d d' → Grows y d0 d'
  from d d' d0 e g = subst (λ x. Grows y x d') e g

  -- The method stays in one step of the content, from the one that its state has.
  abbrev Steps : {A : Type 0} → Exec W A → Type 0
  Steps m = (s : Sys W) → Grows y (k.content s.world) (k.content (m s).1.world)

  -- behind a first part that leaves the content
  bind-Steps :
      {A B : Type 0} (m : Exec W A) (f : A → Exec W B)
      → Same y k m
      → ((a : A) → Steps (f a))
      → Steps (m >>= f)
  bind-Steps m f same h s = bind-Grows y k m f (k.content s.world) s (same s) (λ a t e.
      from (k.content t.world) _ (k.content s.world)
        (ap (λ o. k.content o.1.world) (sym e) ∙ same s) (h a t))

  with_config_map-Steps :
      (ssw : StaleSecretWatch) (m : GoMap (List String)) (cm : ConfigMap) (e : Option Error)
      → (e ≡ none → key_of cm.meta ≡ config_map_key)
      → Steps (with_config_map y ssw m (cm, e))
  unfolding with_config_map
  with_config_map-Steps ssw m cm (some e) own s = inl refl
  with_config_map-Steps ssw m cm none own s =
      Grows-bind y k (calculate_and_store_hashed_secrets y m cm) (after_store y ssw)
        (k.content s.world) s (after_store-Same ssw)
        (calculate_and_store_hashed_secrets-Grows y k m cm s (own refl))

  refetch-Steps :
      (ssw : StaleSecretWatch) (m : GoMap (List String)) (cm : ConfigMap) (e : Option Error)
      → Steps (refetch y ssw m cm e)
  refetch-Steps ssw m cm (some e) s = inl refl
  refetch-Steps ssw m cm none s =
      let ((got, e), w) = y.get_config_map config_map_key cm s.world in
      from (k.content w) _ (k.content s.world) (k.get_config_map config_map_key cm s.world) (
        with_config_map-Steps ssw m got e (lawful.get_key config_map_key cm s.world)
          (record s { world = w }))

  with_watch_list-Steps :
      (ssw : StaleSecretWatch) (cm : ConfigMap) (r : Fallible (GoMap (List String)))
      → Steps (with_watch_list y ssw cm r)
  unfolding with_watch_list
  with_watch_list-Steps ssw cm (err e) s = inl refl
  with_watch_list-Steps ssw cm (ok m) s =
      bind-Steps (update_status_condition y ssw watchlist_prepared) (refetch y ssw m cm)
        (update_status_condition-Same y k lawful ssw watchlist_prepared) (refetch-Steps ssw m cm) s

  created-Same :
      (ssw : StaleSecretWatch) (r : ConfigMap × Option Error) → Same y k (created y ssw r)
  created-Same ssw (cm, some e) s = refl
  created-Same ssw (cm, none) s =
      bind-Same y k (update_status_condition y ssw config_map_created) (conclude_created y)
        (update_status_condition-Same y k lawful ssw config_map_created) (λ e s. refl) _

  -- A ConfigMap without data is created only where nothing is kept.
  create-Same :
      (cm : ConfigMap)
      → cm.binary_data ≡ []
      → Same y k (act (create_config_map cm) (y.create_config_map cm))
  unfolding bytes_at
  create-Same cm bare s = elim (k.created cm s.world) [
    | inl same ↦ same
    | inr (was, new) ↦ new ∙ ap (bytes_at "data") bare ∙ sym was
  ]

  create_missing-Same : (ssw : StaleSecretWatch) → Same y k (create_missing y ssw)
  unfolding create_missing config_map_for_stale_secret_watch
  create_missing-Same ssw s = elim (Fallible-cases (config_map_for_stale_secret_watch y ssw)) [
    | inr (e, bad) ↦ rw (bad, create_missing) refl
    | inl (cm, good) ↦
        rw (good, create_missing)
          (bind-Same y k (act (create_config_map cm) (y.create_config_map cm)) (created y ssw)
            (create-Same cm (k.reference ssw _ cm good)) (created-Same ssw) s)
  ]

  with_first_read-Steps :
      (ssw : StaleSecretWatch) (r : ConfigMap × Option Error) → Steps (with_first_read y ssw r)
  unfolding with_first_read
  with_first_read-Steps ssw (cm, none) s =
      bind-Steps (prepare_watch_list y ssw) (with_watch_list y ssw cm)
        (prepare_watch_list-Same y k ssw) (with_watch_list-Steps ssw cm) s
  with_first_read-Steps ssw (cm, some e) s = elim (Bool-cases (y.is_not_found e)) [
    | inl absent ↦ rw (absent, with_first_read) (inl (create_missing-Same ssw s))
    | inr other ↦ rw (other, with_first_read) (inl refl)
  ]

  with_added-Steps : (added : StaleSecretWatch × Result × Option Error) → Steps (with_added y added)
  with_added-Steps (ssw, _, _) s =
      let (got, w) = y.get_config_map config_map_key empty_config_map s.world in
      from (k.content w) _ (k.content s.world)
        (k.get_config_map config_map_key empty_config_map s.world)
        (with_first_read-Steps ssw got (record s { world = w }))

  with_started-Steps :
      (req : NamespacedName) (ssw : StaleSecretWatch) (e : Option Error)
      → Steps (with_started y req ssw e)
  unfolding with_started
  with_started-Steps req ssw (some e) s = inl refl
  with_started-Steps req ssw none s = elim (Option-cases ssw.meta.deletion_timestamp) [
    | inr (t, marked) ↦ rw (marked, with_started) (inl (remove_finalizer-Same y k lawful req ssw s))
    | inl alive ↦
        rw (alive, with_started)
          (bind-Steps (add_finalizer y req ssw) (with_added y)
            (add_finalizer-Same y k lawful req ssw) with_added-Steps s)
  ]

  with_watch-Steps :
      (req : NamespacedName) (r : StaleSecretWatch × Option Error) → Steps (with_watch y req r)
  unfolding with_watch
  with_watch-Steps req (ssw, some e) s = elim (Bool-cases (y.is_not_found e)) [
    | inl absent ↦ rw (absent, with_watch) (inl refl)
    | inr other ↦ rw (other, with_watch) (inl refl)
  ]
  with_watch-Steps req (ssw, none) s =
      bind-Steps (update_status_condition y ssw reconcile_started) (with_started y req ssw)
        (update_status_condition-Same y k lawful ssw reconcile_started) (with_started-Steps req ssw)
        s

  -- For a lawful client on a cluster that keeps the ConfigMap, a Reconcile, however it ends, leaves
  -- the content of the ConfigMap, or makes it the encoding of what was on record with some readings
  -- stored.
  pub reconcile-Grows :
      (req : NamespacedName) (s : Sys W)
      → Grows y (k.content s.world) (k.content (reconcile y req s).1.world)
  unfolding reconcile
  reconcile-Grows req s =
      let (got, w) = y.get_watch req empty_watch s.world in
      from (k.content w) _ (k.content s.world) (k.get_watch req empty_watch s.world)
        (with_watch-Steps req got _)
