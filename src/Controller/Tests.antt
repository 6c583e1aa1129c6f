-- ===== src/Controller/Tests.antt =====
-- Reconcile in the small world: without the object, and without the ConfigMap.
use stale_secrets_check.Prelude.{◌≡◌, refl, true, none, [], ◌∷◌}
use stale_secrets_check.Api.{key_of}
use stale_secrets_check.Exec.{Sys, ret, event}
use stale_secrets_check.Cluster.Sample.{World, sample, sample_watch, sample_state}
use stale_secrets_check.Controller.Status.{no_result, empty_watch}
use stale_secrets_check.Controller.Reconcile.{reconcile}

abbrev deleted : Sys World
deleted = record sample_state { world = record sample_state.world { watch = none } }

not_found_test : reconcile sample (key_of sample_watch.meta) deleted ≡ (
  ret (no_result, none),
  record deleted {
    effects =
        event
          (key_of empty_watch.meta)
          "Normal"
          "NotFound"
          "StaleSecretWatch resource not found. Ignoring and exiting reconcile loop."
        ∷ event
            (key_of empty_watch.meta)
            "Normal"
            "ReconcileStarted"
            "Reconciliation process started"
        ∷ [];
  },
)
unfolding reconcile
not_found_test = refl

-- The first run creates the ConfigMap and asks for another.
first_run_test :
    (reconcile sample (key_of sample_watch.meta) sample_state).0
    ≡ ret (record no_result { requeue = true }, none)
unfolding reconcile
first_run_test = refl
