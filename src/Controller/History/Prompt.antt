-- ===== src/Controller/History/Prompt.antt =====
-- The ends of a Reconcile that ask for no delay: a new ConfigMap, and a removed finalizer.
use stale_secrets_check.Prelude.{Option, none, some, ◌≡◌, inl, inr, refl, arith, pos, Bool-cases}
use stale_secrets_check.Api.{NamespacedName, StaleSecretWatch, ConfigMap}
use stale_secrets_check.Exec.{Sys, Error, Fallible-cases, act, create_config_map}
use stale_secrets_check.Exec.Yields.{Yields, bind-Yields, pure-Yields}
use stale_secrets_check.Cluster.{System}
use stale_secrets_check.Store.{config_map_for_stale_secret_watch}
use stale_secrets_check.Controller.Status.{no_result, update_status_condition}
use stale_secrets_check.Controller.Finalizer.{
  remove_finalizer, removal_done, finalizer, try_removal,
}
use stale_secrets_check.Controller.Reconcile.{
  Reconciled, conclude_created, created, create_missing, config_map_created,
}

-- A result without a delay.
abbrev pub IsPrompt : {W : Type 0} → Reconciled → Sys W → Type 0
IsPrompt (result, e) s = result.requeue_after ≡ pos 0

module _ {W : Type 0} (y : System W) where
  created-IsPrompt :
      (ssw : StaleSecretWatch) (r : ConfigMap × Option Error) → Yields IsPrompt (created y ssw r)
  created-IsPrompt ssw (cm, some e) a s s' h = ground arith
  created-IsPrompt ssw (cm, none) a s s' h =
      bind-Yields IsPrompt (update_status_condition y ssw config_map_created) (conclude_created y)
        conclude_created-IsPrompt a _ s' h
    where
      conclude_created-IsPrompt : (e : Option Error) → Yields IsPrompt (conclude_created y e)
      conclude_created-IsPrompt (some e) a s s' h = ground arith
      conclude_created-IsPrompt none a s s' h = ground arith

  pub create_missing-IsPrompt : (ssw : StaleSecretWatch) → Yields IsPrompt (create_missing y ssw)
  unfolding create_missing
  create_missing-IsPrompt ssw a s s' h =
      elim (Fallible-cases (config_map_for_stale_secret_watch y ssw)) [
        | inr (e, bad) ↦ ground arith
        | inl (cm, good) ↦
            bind-Yields IsPrompt (act (create_config_map cm) (y.create_config_map cm))
              (created y ssw) (created-IsPrompt ssw) a s s' (rw (good, create_missing) at h)
      ]

  removal_done-IsPrompt : (r : StaleSecretWatch × Option Error) → Yields IsPrompt (removal_done y r)
  removal_done-IsPrompt (ssw, some e) a s s' h = ground arith
  removal_done-IsPrompt (ssw, none) a s s' h = ground arith

  pub remove_finalizer-IsPrompt :
      (req : NamespacedName) (ssw : StaleSecretWatch) → Yields IsPrompt (remove_finalizer y req ssw)
  unfolding remove_finalizer
  remove_finalizer-IsPrompt req ssw a s s' h =
      elim (Bool-cases (y.contains_finalizer ssw finalizer)) [
        | inl there ↦
            bind-Yields IsPrompt (y.retry_on_conflict (try_removal y req) ssw) (removal_done y)
              removal_done-IsPrompt a _ s' (rw (there, remove_finalizer) at h)
        | inr without ↦
            pure-Yields IsPrompt (no_result, none) a s s' refl (rw (without, remove_finalizer) at h)
      ]
