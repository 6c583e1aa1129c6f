-- ===== src/Controller/Requeue/Tests.antt =====
-- In the small world the first Reconcile creates the ConfigMap and asks for another one.
use stale_secrets_check.Prelude.{
  ℕ, ◌+◌, ◌+ℤ◌, ◌-ℤ◌, int_laws, true, ◌≡◌, ◌⊎◌, refl, pos, ◌<ℤ◌, arith,
}
use stale_secrets_check.Api.{Result, key_of}
use stale_secrets_check.Cluster.Sample.{sample, sample_watch, sample_state}
use stale_secrets_check.Clock.{add_time, sub_time, saturate64}
use stale_secrets_check.Controller.Daily.{day}
use stale_secrets_check.Controller.Status.{no_result}
use stale_secrets_check.Controller.Reconcile.{reconcile}
use stale_secrets_check.Controller.Requeue.{IsQuick}
use stale_secrets_check.Controller.Requeue.Reconciled.{StoreFailed, reconcile-IsRescheduled}

rest_of_day : (n : ℕ) → pos n +ℤ day -ℤ pos (n + 1000000000) ≡ pos 86399000000000
rest_of_day n = omega int_laws

sample-IsQuick : IsQuick sample
unfolding add_time sub_time saturate64
sample-IsQuick w = rw (rest_of_day w.clock) (omega arith)

abbrev again : Result
again = record no_result { requeue = true }

reconcile-IsRescheduled_example :
    (again.requeue ≡ true)
    ⊎ (pos 0 <ℤ again.requeue_after)
    ⊎ StoreFailed (reconcile sample (key_of sample_watch.meta) sample_state).1
unfolding reconcile
reconcile-IsRescheduled_example =
    reconcile-IsRescheduled sample sample-IsQuick (key_of sample_watch.meta) again sample_state
      (reconcile sample (key_of sample_watch.meta) sample_state).1 refl refl refl
