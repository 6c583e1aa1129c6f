-- ===== src/Controller/History/Marking.antt =====
-- The conditions, the finalizers and prepareWatchList leave the content of the ConfigMap.
use stale_secrets_check.Prelude.{
  String, Option, none, some, List, [], ◌∷◌, ◌∙◌, refl, arith, Bool-cases, inl, inr,
}
use stale_secrets_check.Api.{
  GoMap, NamespacedName, Condition, StaleSecretWatch, ExcludeList, key_of,
}
use stale_secrets_check.Exec.{Error, Fallible, ok, err, Fallible-cases, update_watch}
use stale_secrets_check.Cluster.{System}
use stale_secrets_check.WatchList.{
  namespaces_to_watch, watch_namespaces, watch_secrets, announce, watch_wanted, prepare_watch_list,
}
use stale_secrets_check.Controller.Status.{
  empty_watch, with_condition, update_condition, update_status_condition,
}
use stale_secrets_check.Controller.Finalizer.{
  do_finalizer_operations, try_removal, removal_done, remove_finalizer, after_condition,
  addition_done, add_finalizer, finalizer_added, finalizer,
}
use stale_secrets_check.Controller.Safety.{IsLawful}
use stale_secrets_check.Controller.History.{
  Keeper, Same, bind-Same, retry_on_error-Same, retry_on_conflict-Same,
}

module _ {W : Type 0} (y : System W) (k : Keeper y) where
  update_condition-Same :
      (c : Condition) (ssw : StaleSecretWatch) → Same y k (update_condition y c ssw)
  unfolding update_condition
  update_condition-Same c ssw s =
      let ((got, e), w) = y.get_watch (key_of ssw.meta) empty_watch s.world in
      ground (
        arith,
        k.get_watch (key_of ssw.meta) empty_watch s.world,
        k.update_watch_status (with_condition y.set_status_condition c got) w,
      )

  namespaces_to_watch-Same : (ssw : StaleSecretWatch) → Same y k (namespaces_to_watch y ssw)
  unfolding namespaces_to_watch
  namespaces_to_watch-Same ssw s = ground (arith, k.list_namespaces s.world)

  watch_namespaces-Same :
      (entries : List ExcludeList) (nss : List String) (m : GoMap (List String))
      → Same y k (watch_namespaces y entries nss m)
  unfolding watch_namespaces
  watch_namespaces-Same entries [] m s = refl
  watch_namespaces-Same entries (ns ∷ nss) m s =
      let (listed, w) = y.list_secrets ns s.world in
      elim (Fallible-cases listed) [
        | inl (items, good) ↦
            rw (good, watch_namespaces)
              (watch_namespaces-Same entries nss (watch_secrets entries ns items m)
                  (record s { world = w })
                ∙ k.list_secrets ns s.world)
        | inr (e, bad) ↦ rw (bad, watch_namespaces) (k.list_secrets ns s.world)
      ]

  announce-Same :
      (ssw : StaleSecretWatch) (r : Fallible (GoMap (List String))) → Same y k (announce y ssw r)
  unfolding announce
  announce-Same ssw (ok m) s = refl
  announce-Same ssw (err e) s = refl

  watch_wanted-Same :
      (ssw : StaleSecretWatch) (r : Fallible (List String)) → Same y k (watch_wanted y ssw r)
  unfolding watch_wanted
  watch_wanted-Same ssw (err e) s = refl
  watch_wanted-Same ssw (ok nss) s =
      let entries = ssw.spec.stale_secret_to_watch.exclude_list in
      bind-Same y k (watch_namespaces y entries nss []) (announce y ssw)
        (watch_namespaces-Same entries nss []) (announce-Same ssw) s

  pub prepare_watch_list-Same : (ssw : StaleSecretWatch) → Same y k (prepare_watch_list y ssw)
  unfolding prepare_watch_list
  prepare_watch_list-Same ssw =
      bind-Same y k (namespaces_to_watch y ssw) (watch_wanted y ssw) (namespaces_to_watch-Same ssw)
        (watch_wanted-Same ssw)

  module _ (lawful : IsLawful y) where
    pub update_status_condition-Same :
        (ssw : StaleSecretWatch) (c : Condition) → Same y k (update_status_condition y ssw c)
    unfolding update_status_condition
    update_status_condition-Same ssw c s = ground (
      arith,
      retry_on_error-Same y k lawful (update_condition y c) (update_condition-Same c) y.is_conflict
          ssw s,
    )

    try_removal-Same :
        (req : NamespacedName) (ssw : StaleSecretWatch) → Same y k (try_removal y req ssw)
    unfolding try_removal
    try_removal-Same req ssw s =
        let ((got, e), w) = y.get_watch req ssw s.world in
        ground
          (arith, k.get_watch req ssw s.world, k.update_watch (y.remove_finalizer got finalizer) w)

    removal_done-Same : (r : StaleSecretWatch × Option Error) → Same y k (removal_done y r)
    removal_done-Same (ssw, none) s = refl
    removal_done-Same (ssw, some e) s = refl

    pub remove_finalizer-Same :
        (req : NamespacedName) (ssw : StaleSecretWatch) → Same y k (remove_finalizer y req ssw)
    unfolding remove_finalizer do_finalizer_operations
    remove_finalizer-Same req ssw s = elim (Bool-cases (y.contains_finalizer ssw finalizer)) [
      | inr without ↦ rw (without, remove_finalizer) refl
      | inl there ↦
          rw (there, remove_finalizer)
            (bind-Same y k (y.retry_on_conflict (try_removal y req) ssw) (removal_done y)
              (retry_on_conflict-Same y k lawful (try_removal y req) (try_removal-Same req) ssw)
              removal_done-Same _)
    ]

    addition_done-Same : (r : StaleSecretWatch × Option Error) → Same y k (addition_done y r)
    addition_done-Same (ssw, none) s =
        bind-Same y k (update_status_condition y ssw finalizer_added) (after_condition y ssw)
          (update_status_condition-Same ssw finalizer_added) (λ e s. ground arith) _
    addition_done-Same (ssw, some e) s = refl

    pub add_finalizer-Same :
        (req : NamespacedName) (ssw : StaleSecretWatch) → Same y k (add_finalizer y req ssw)
    unfolding add_finalizer
    add_finalizer-Same req ssw s =
        let ((got, e), w) = y.get_watch req ssw s.world in
        let new = y.add_finalizer got finalizer in
        let ((written, e'), w') = y.update_watch new w in
        let s' = record s { world = w'; effects = update_watch new ∷ s.effects } in
        ground (
          arith,
          k.get_watch req ssw s.world,
          k.update_watch new w,
          addition_done-Same (written, e') s',
        )
