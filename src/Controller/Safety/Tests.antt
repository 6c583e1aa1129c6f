-- ===== src/Controller/Safety/Tests.antt =====
-- The small world is lawful, and a Reconcile in it.
use stale_secrets_check.Prelude.{refl, some, pos, [], ◌∷◌, All, ◌≡◌, arith, inr}
use stale_secrets_check.Api.{StaleSecretWatch, key_of}
use stale_secrets_check.Exec.{Sys, ret, ok}
use stale_secrets_check.Cluster.{System}
use stale_secrets_check.Cluster.Sample.Retries.{tries-Held}
use stale_secrets_check.Cluster.Sample.{is_refusal}
use stale_secrets_check.Cluster.Sample.Keys.{get_sample_key, keep_sample_key}
use stale_secrets_check.Cluster.Sample.{sample_secret, World, sample, sample_watch, sample_state}
use stale_secrets_check.Controller.Reconcile.{Reconciled, reconcile}
use stale_secrets_check.Controller.Finalizer.{finalizer}
use stale_secrets_check.Controller.Safety.Deleting.{IsMarking, reconcile-IsMarking}
use stale_secrets_check.Controller.Safety.{IsAllowed, IsLawful, PanicsOnly}
use stale_secrets_check.Controller.Safety.Reconciling.{reconcile-IsAllowed, reconcile-eq-ret}

sample-IsLawful : IsLawful sample
sample-IsLawful = record {
  get_key = get_sample_key;
  keep_key = keep_sample_key;
  reference_key = λ x cm cm' h. ground arith;
  on_error = λ I Z p f h. tries-Held I Z p f h 4;
  on_conflict = λ I Z f h. tries-Held I Z is_refusal f h 4;
}

reconcile-IsAllowed_example :
    All IsAllowed (reconcile sample (key_of sample_watch.meta) sample_state).1.effects
reconcile-IsAllowed_example =
    reconcile-IsAllowed sample sample-IsLawful (key_of sample_watch.meta) sample_state tt

-- the small world, where every secret is the one with its times
abbrev steady : System World
steady = record sample { kube = record sample.kube { get_secret = λ k w. (ok sample_secret, w) } }

steady-IsLawful : IsLawful steady
steady-IsLawful = record {
  get_key = get_sample_key;
  keep_key = keep_sample_key;
  reference_key = λ x cm cm' h. ground arith;
  on_error = λ I Z p f h. tries-Held I Z p f h 4;
  on_conflict = λ I Z f h. tries-Held I Z is_refusal f h 4;
}

steady-PanicsOnly : PanicsOnly steady ⊥
steady-PanicsOnly = record { times = λ k w x h n. ground arith; home = λ w e h. ground arith }

reconcile-eq-ret_example :
    let (r, s') = reconcile steady (key_of sample_watch.meta) sample_state in
    (returned : Reconciled) × (r ≡ ret returned)
reconcile-eq-ret_example =
    reconcile-eq-ret steady steady-IsLawful steady-PanicsOnly (key_of sample_watch.meta)
      sample_state.world 0

abbrev marked_watch : StaleSecretWatch
marked_watch = record sample_watch {
  meta = record sample_watch.meta {
    deletion_timestamp = some (pos 1);
    finalizers = finalizer ∷ [];
  };
}

abbrev deleting : Sys World
deleting = record sample_state { world = record sample_state.world { watch = some marked_watch } }

reconcile-IsMarking_example :
    All IsMarking (reconcile sample (key_of marked_watch.meta) deleting).1.effects
reconcile-IsMarking_example =
    reconcile-IsMarking sample sample-IsLawful (key_of marked_watch.meta) deleting
      (inr (refl, (pos 1, refl))) tt
