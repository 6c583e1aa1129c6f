-- ===== src/Controller/Safety/Deleting.antt =====
-- The effects of a Reconcile of an object that is gone, or that is being deleted.
use stale_secrets_check.Prelude.{Option, none, some, All, ◌≡◌, ◌⊎◌, inl, inr, arith}
use stale_secrets_check.Api.{NamespacedName, StaleSecretWatch, Time}
use stale_secrets_check.Exec.{
  Effect, event, update_watch, update_watch_status, create_config_map, update_config_map, post,
  Error, Sys,
}
use stale_secrets_check.Exec.Keeps.{Keeps, bind-Keeps}
use stale_secrets_check.Cluster.{System}
use stale_secrets_check.Controller.Status.{empty_watch, update_status_condition}
use stale_secrets_check.Controller.Reconcile.{
  with_started, with_watch, reconcile, reconcile_started,
}
use stale_secrets_check.Controller.Safety.{IsLawful}
use stale_secrets_check.Controller.Safety.Marking.{
  IsMild, update_status_condition-Keeps, remove_finalizer-Keeps,
}

-- An event, or a write to a StaleSecretWatch.
abbrev pub IsMarking : Effect → Type 0
IsMarking (event _ _ _ _) = Unit
IsMarking (update_watch _) = Unit
IsMarking (update_watch_status _) = Unit
IsMarking (create_config_map _) = ⊥
IsMarking (update_config_map _) = ⊥
IsMarking (post _ _ _) = ⊥

marking : IsMild IsMarking
marking = record { events = λ k a b c. tt; watches = λ x. tt; statuses = λ x. tt }

-- What Get answered: an error, or an object that is marked to be deleted.
abbrev pub IsGone : StaleSecretWatch × Option Error → Type 0
IsGone (ssw, e) =
    ((x : Error) × (e ≡ some x))
    ⊎ ((e ≡ none) × ((t : Time) × (ssw.meta.deletion_timestamp ≡ some t)))

module _ {W : Type 0} (y : System W) (lawful : IsLawful y) where
  with_started-Keeps :
      (req : NamespacedName) (ssw : StaleSecretWatch) (t : Time) (e : Option Error)
      → ssw.meta.deletion_timestamp ≡ some t
      → Keeps IsMarking Unit (with_started y req ssw e)
  unfolding with_started
  with_started-Keeps req ssw t (some e) marked s p = (tt, p)
  with_started-Keeps req ssw t none marked s p =
      rw (marked, with_started) (remove_finalizer-Keeps y lawful IsMarking Unit marking req ssw s p)

  with_watch-Keeps :
      (req : NamespacedName) (r : StaleSecretWatch × Option Error)
      → IsGone r
      → Keeps IsMarking Unit (with_watch y req r)
  unfolding with_watch
  with_watch-Keeps req (ssw, some e) gone s p = ground arith
  with_watch-Keeps req (ssw, none) (inl (x, wrong)) s p = absurd (ground arith)
  with_watch-Keeps req (ssw, none) (inr (_, (t, marked))) s p =
      bind-Keeps IsMarking Unit (update_status_condition y ssw reconcile_started)
        (with_started y req ssw)
        (update_status_condition-Keeps y lawful IsMarking Unit marking ssw reconcile_started)
        (λ e. with_started-Keeps req ssw t e marked) s p

  -- For a lawful client, where the object cannot be got or is marked to be deleted, a Reconcile,
  -- however it ends, writes no ConfigMap and sends no message: its effects are events and writes to
  -- StaleSecretWatch objects.
  pub reconcile-IsMarking :
      (req : NamespacedName) (s : Sys W)
      → IsGone (y.get_watch req empty_watch s.world).0
      → All IsMarking s.effects
      → All IsMarking (reconcile y req s).1.effects
  unfolding reconcile
  reconcile-IsMarking req s gone p =
      let (got, w) = y.get_watch req empty_watch s.world in
      (with_watch-Keeps req got gone _ (tt, p)).1
