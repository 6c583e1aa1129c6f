-- ===== src/Controller/History/Covered/Reconciling.antt =====
-- What is on record behind a whole Reconcile.
use mathlib.Core.Path.{subst}
use stale_secrets_check.Prelude.{none, ◌≡◌, ◌≢◌, sym, ap, ◌∙◌, pos}
use stale_secrets_check.Api.{NamespacedName, Result}
use stale_secrets_check.Exec.{Exec, Sys, ret, ok}
use stale_secrets_check.Hash.{calculate_hash}
use stale_secrets_check.Cluster.{System}
use stale_secrets_check.WatchList.{prepare_watch_list}
use stale_secrets_check.WatchList.Answers.{prepare_watch_list_exact}
use stale_secrets_check.Store.{config_map_key, empty_config_map}
use stale_secrets_check.Store.Written.{read_from}
use stale_secrets_check.Store.Recorded.{Ranges, listed-IsOf}
use stale_secrets_check.Controller.Status.{update_status_condition}
use stale_secrets_check.Controller.Finalizer.{add_finalizer}
use stale_secrets_check.Controller.Status.{empty_watch}
use stale_secrets_check.Controller.Reconcile.{
  after_store, reconcile, watchlist_prepared, reconcile_started,
}
use stale_secrets_check.Controller.Safety.{IsLawful}
use stale_secrets_check.Controller.History.{Keeper, Same, recorded}
use stale_secrets_check.Controller.History.Marking.{
  prepare_watch_list-Same, update_status_condition-Same, add_finalizer-Same,
}
use stale_secrets_check.Controller.History.Reconciling.{after_store-Same}
use stale_secrets_check.Controller.History.Runs.{IsEncoding, IsKept, Run}
use stale_secrets_check.Controller.History.Fresh.{
  Puts, fresh-IsKept, calculate_and_store_hashed_secrets-IsFresh,
}
use stale_secrets_check.Controller.History.Steps.{
  Steps, behind_get, got_map, watch_of, reconcile-Steps,
}
use stale_secrets_check.Controller.History.Covered.{IsSound, IsCovered, Run-IsCovered}

module _ {W : Type 0} (y : System W) (k : Keeper y) where
  leaves :
      {A : Type 0} (m : Exec W A) (a : A) (s t : Sys W)
      → Same y k m
      → m s ≡ (ret a, t)
      → k.content t.world ≡ k.content s.world
  leaves m a s t same h = ap (λ o. k.content o.1.world) (sym h) ∙ same s

  module _ (req : NamespacedName) (result : Result) (s s' : Sys W) (lawful : IsLawful y)
      (c : Steps y req result s s') where
    -- The content is left up to the store step.
    noted-content : k.content c.listing.noted.world ≡ k.content s.world
    noted-content =
        let l = c.listing in
        let ssw = watch_of y req s in
        let x = c.added.0 in
        leaves (update_status_condition y x watchlist_prepared) none l.listed l.noted
          (update_status_condition-Same y k lawful x watchlist_prepared) l.note
        ∙ leaves (prepare_watch_list y x) (ok l.watched) (behind_get y empty_config_map c.marked)
            l.listed (prepare_watch_list-Same y k x) l.list
        ∙ k.get_config_map config_map_key empty_config_map c.marked.world
        ∙ leaves (add_finalizer y req ssw) c.added c.at_start c.marked
            (add_finalizer-Same y k lawful req ssw) c.mark
        ∙ leaves (update_status_condition y ssw reconcile_started) none _ c.at_start
            (update_status_condition-Same y k lawful ssw reconcile_started) c.start
        ∙ k.get_watch req empty_watch s.world

    Steps-IsCovered :
        IsEncoding y
        → Puts y k
        → Ranges y
        → IsSound y k (k.content s.world)
        → IsCovered y k req result s s' (k.content s'.world)
    Steps-IsCovered encoding puts ranges (config, was, valid) =
        let l = c.listing in
        let t = l.storing in
        let x = c.added.0 in
        let cm = got_map y empty_config_map c.marked in
        let cm' = got_map y cm l.noted in
        let from = behind_get y cm l.noted in
        let same : k.content from.world ≡ k.content s.world =
          k.get_config_map config_map_key cm l.noted.world ∙ noted-content in
        let still : k.content s'.world ≡ k.content t.stored.world =
          leaves (after_store y x (t.written, none)) (result, none) t.stored s'
            (after_store-Same y k lawful x (t.written, none)) t.rest in
        let f =
          calculate_and_store_hashed_secrets-IsFresh y k l.watched cm' t.written from t.stored
            lawful puts (lawful.get_key config_map_key cm l.noted.world t.found) t.store in
        let start = behind_get y empty_config_map c.marked in
        let p = prepare_watch_list_exact y x l.watched start l.listed l.list in
        record {
          steps = c;
          prepared = p;
          readings = f.readings;
          behind = f.behind;
          read = f.read;
          kept = λ ns name listed.
              let (secret, time, w, got, there) =
                listed-IsOf y x l.watched ns name start.world l.listed.world (read_from y cm' from)
                  f.behind f.readings ranges p f.read listed in
              let hash = calculate_hash y.sha256_hex secret.secret_data in
              let kept =
                fresh-IsKept y k l.watched cm' from t.stored f config ns name secret time encoding
                  (subst (λ d. recorded y d ≡ ok config) (sym same) was) valid there in
              (secret, time, w, got, there, subst (IsKept y k ns name hash) (sym still) kept);
        }

  -- For a lawful client on a cluster that keeps the ConfigMap, where a Create or an Update of it without
  -- an error has put the data, an encoding is not empty and decodes to what was encoded, and ranging over
  -- a map visits each entry once: if a Reconcile reports no error and asks for another one after a
  -- delay, and what was on record before it was well-formed, then it has taken its steps up to the daily
  -- checks, and at its end and after any run from there, for every secret that the client listed while
  -- it prepared the watch list, in the namespaces that its object asks for, less the tokens and those on
  -- the object's exclude list, there is one of its readings of a secret that the client returned, and the
  -- hash of the data is on record for it, in well-formed data.
  pub reconcile-IsCovered :
      (req : NamespacedName) (result : Result) (s s' : Sys W) (v : W)
      → IsLawful y
      → IsEncoding y
      → Puts y k
      → Ranges y
      → IsSound y k (k.content s.world)
      → reconcile y req s ≡ (ret (result, none), s')
      → result.requeue_after ≢ pos 0
      → Run y k s'.world v
      → IsCovered y k req result s s' (k.content v)
  reconcile-IsCovered req result s s' v lawful encoding puts ranges sound h delayed run =
      let c = reconcile-Steps y result delayed req s s' h in
      Run-IsCovered y k lawful encoding
        (Steps-IsCovered req result s s' lawful c encoding puts ranges sound) run
