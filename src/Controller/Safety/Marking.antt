-- ===== src/Controller/Safety/Marking.antt =====
-- The effects of the conditions and the finalizers, which are events and writes to StaleSecretWatch
-- objects.
use stale_secrets_check.Prelude.{String, Option, none, some, All, arith, Bool-cases, inl, inr}
use stale_secrets_check.Api.{NamespacedName, Condition, StaleSecretWatch, key_of}
use stale_secrets_check.Exec.{Effect, event, update_watch_status, Error, act, update_watch}
use stale_secrets_check.Exec.Keeps.{Keeps, bind-Keeps, act-Keeps}
use stale_secrets_check.Cluster.{System}
use stale_secrets_check.Controller.Status.{
  empty_watch, with_condition, update_condition, update_status_condition,
}
use stale_secrets_check.Controller.Finalizer.{
  do_finalizer_operations, try_removal, removal_done, remove_finalizer, after_condition,
  addition_done, add_finalizer, finalizer_added, finalizer,
}
use stale_secrets_check.Controller.Safety.{IsLawful}

-- A predicate that every event and every write to a StaleSecretWatch satisfies.
pub record IsMild (P : Effect → Type 0) : Type 0 where
  pub events : (about : NamespacedName) (a b c : String) → P (event about a b c)
  pub watches : (x : StaleSecretWatch) → P (update_watch x)
  pub statuses : (x : StaleSecretWatch) → P (update_watch_status x)

module _ {W : Type 0} (y : System W) (lawful : IsLawful y) (P : Effect → Type 0) (Z : Type 0)
    (mild : IsMild P) where
  update_condition-Keeps :
      (c : Condition) (ssw : StaleSecretWatch) → Keeps P Z (update_condition y c ssw)
  unfolding update_condition
  update_condition-Keeps c ssw s p =
      let latest =
        with_condition y.set_status_condition c
          (y.get_watch (key_of ssw.meta) empty_watch s.world).0.0 in
      ground (arith, mild.statuses latest)

  pub update_status_condition-Keeps :
      (ssw : StaleSecretWatch) (c : Condition) → Keeps P Z (update_status_condition y ssw c)
  unfolding update_status_condition
  update_status_condition-Keeps ssw c s p = ground (
    arith,
    lawful.on_error (λ t. All P t.effects) Z y.is_conflict (update_condition y c)
        (update_condition-Keeps c) ssw s p,
  )

  try_removal-Keeps :
      (req : NamespacedName) (ssw : StaleSecretWatch) → Keeps P Z (try_removal y req ssw)
  unfolding try_removal
  try_removal-Keeps req ssw s p =
      let got = (y.get_watch req ssw s.world).0.0 in
      let new = y.remove_finalizer got finalizer in
      let after = (y.update_watch new (y.get_watch req ssw s.world).1).0.0 in
      ground (
        arith,
        mild.watches new,
        mild.events (key_of after.meta) "Warning" "FinalizerRemovalFailed"
            "Failed to remove finalizer",
      )

  removal_done-Keeps : (r : StaleSecretWatch × Option Error) → Keeps P Z (removal_done y r)
  removal_done-Keeps (ssw, none) s p = (tt, (mild.events _ _ _ _, p))
  removal_done-Keeps (ssw, some e) s p = (tt, p)

  pub remove_finalizer-Keeps :
      (req : NamespacedName) (ssw : StaleSecretWatch) → Keeps P Z (remove_finalizer y req ssw)
  unfolding remove_finalizer
  remove_finalizer-Keeps req ssw s p = elim (Bool-cases (y.contains_finalizer ssw finalizer)) [
    | inr without ↦ rw (without, remove_finalizer) (tt, p)
    | inl there ↦
        let first = do_finalizer_operations y ssw s in
        rw (there, remove_finalizer)
          (bind-Keeps P Z (y.retry_on_conflict (try_removal y req) ssw) (removal_done y)
            (lawful.on_conflict (λ t. All P t.effects) Z (try_removal y req) (try_removal-Keeps req)
              ssw)
            removal_done-Keeps _ (mild.events _ _ _ _, (mild.events _ _ _ _, p)))
  ]

  addition_done-Keeps : (r : StaleSecretWatch × Option Error) → Keeps P Z (addition_done y r)
  addition_done-Keeps (ssw, none) s p =
      bind-Keeps P Z (update_status_condition y ssw finalizer_added) (after_condition y ssw)
        (update_status_condition-Keeps ssw finalizer_added) (λ e s p. ground arith) _
        (mild.events _ _ _ _, p)
  addition_done-Keeps (ssw, some e) s p = (tt, (mild.events _ _ _ _, p))

  pub add_finalizer-Keeps :
      (req : NamespacedName) (ssw : StaleSecretWatch) → Keeps P Z (add_finalizer y req ssw)
  unfolding add_finalizer
  add_finalizer-Keeps req ssw s p =
      let ((got, e), w) = y.get_watch req ssw s.world in
      let new = y.add_finalizer got finalizer in
      ground (
        arith,
        bind-Keeps P Z (act (update_watch new) (y.update_watch new)) (addition_done y)
            (act-Keeps P Z (update_watch new) (y.update_watch new) (mild.watches new))
            addition_done-Keeps (record s { world = w }) p,
      )
