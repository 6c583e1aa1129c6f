-- ===== src/Controller/Outcomes/Tests.antt =====
-- The outcomes in the small world.
use stale_secrets_check.Prelude.{
  ◌≢◌, Bool, ◌&&◌, true, Bool-cases, inl, inr, eq_iff, some, ◌==◌, if◌then◌else◌, Option, ◌≡◌, refl,
  false, none, [], ◌∷◌, List, String, pos, arith, ◌-ℤ◌,
}
use stale_secrets_check.Api.{NamespacedName, GoMap, ConfigMap, StaleSecretWatch, key_of}
use stale_secrets_check.Exec.{Error, Sys, Error, ret, event, text_error, foreign}
use stale_secrets_check.Strings.{concat}
use stale_secrets_check.Cluster.{System}
use stale_secrets_check.Clock.{sub_time, sub64}
use stale_secrets_check.Notify.{not_set}
use stale_secrets_check.Store.{empty_config_map, config_map_name}
use stale_secrets_check.Cluster.Sample.{
  World, sample, sample_watch, sample_state, meta_of, not_found,
}
use stale_secrets_check.Controller.Status.{no_result, stamped, update_status_condition}
use stale_secrets_check.Controller.Daily.{
  day, last_checked, after, failed, after_statuses, perform_daily_checks,
}
use stale_secrets_check.Controller.Reconcile.{reconcile_complete, after_store}
use stale_secrets_check.Controller.Outcomes.Versions.{Versioned, IsRefused, after_store-IsRefused}
use stale_secrets_check.Controller.Outcomes.{
  perform_daily_checks-stamped, after_statuses-missing_token,
}

abbrev own : ConfigMap
own = record empty_config_map { meta = meta_of config_map_name "default" }

-- a secret that is not there
abbrev missing : GoMap (List String)
missing = ("app", "gone" ∷ []) ∷ []

perform_daily_checks-stamped_example :
    perform_daily_checks sample
      (stamped sample (pos 0) sample_watch)
      (record sample_state { world = record sample_state.world { clock = 60000000000 } })
    ≡ (
      ret (false, after (sub64 day (sub_time (pos 61000000000) (pos 0))), none),
      record sample_state { world = record sample_state.world { clock = 62000000000 } },
    )
unfolding sub_time ◌-ℤ◌
perform_daily_checks-stamped_example =
    perform_daily_checks-stamped sample sample_watch (pos 0) (pos 0)
      (record sample_state { world = record sample_state.world { clock = 60000000000 } }) refl
      (omega arith)

after_statuses-missing_token_example :
    let (r, s') = after_statuses sample (sample_watch, none) sample_state in
    (r ≡ ret (failed (text_error 0 not_set))) × (s'.effects ≡ [])
after_statuses-missing_token_example =
    after_statuses-missing_token sample sample_watch sample_state refl

-- the small world, where a write with an old resource version is refused, and each other write makes
-- a new version
abbrev written : StaleSecretWatch → StaleSecretWatch
written x = record x {
  meta = record x.meta { resource_version = concat ("+" ∷ x.meta.resource_version ∷ []) };
}

abbrev is_named : NamespacedName → StaleSecretWatch → Bool
is_named k x = x.meta.name == k.name && x.meta.namespace == k.namespace

abbrev write_of :
    Option StaleSecretWatch → StaleSecretWatch → World → (StaleSecretWatch × Option Error) × World
write_of none x w = ((x, some not_found), w)
write_of (some old) x w =
    if is_named (key_of x.meta) old
    then (if old.meta.resource_version == x.meta.resource_version
        then ((written x, none), record w { watch = some (written x) })
        else ((x, some (foreign 409)), w))
    else ((x, some not_found), w)

abbrev versioned : System World
versioned = record sample {
  kube = record sample.kube {
    update_watch = λ x w. write_of w.watch x w;
    update_watch_status = λ x w. write_of w.watch x w;
  };
}

-- The annotation is refused, since the condition before it has made a new version.
annotation_conflict_test :
    (after_store versioned sample_watch (own, none) sample_state).0
    ≡ ret (no_result, some (foreign 409))
unfolding after_store sub_time ◌-ℤ◌
annotation_conflict_test = refl

given_version : sample_watch.meta.resource_version ≢ ""
given_version = λ e. absurd (ground (arith, (eq_iff "1" "").1 e))

old_version : sample_watch.meta.resource_version ≢ "+1"
old_version = λ e. absurd (ground (arith, (eq_iff "1" "+1").1 e))

abbrev version_of : NamespacedName → Option StaleSecretWatch → Option String
version_of k none = none
version_of k (some o) = if is_named k o then some o.meta.resource_version else none

refuses_old :
    (x : StaleSecretWatch) (watch : Option StaleSecretWatch) (w : World) (current : String)
    → version_of (key_of x.meta) watch ≡ some current
    → x.meta.resource_version ≢ ""
    → x.meta.resource_version ≢ current
    → (e : Error) × ((write_of watch x w).0.1 ≡ some e) × (versioned.is_conflict e ≡ true)
refuses_old x none w current is given old = absurd (ground (arith, is))
refuses_old x (some o) w current is given old =
    elim (Bool-cases (o.meta.resource_version == x.meta.resource_version)) [
      | inr other ↦ (foreign 409, ground arith, refl)
      | inl same ↦
          let e = (eq_iff o.meta.resource_version x.meta.resource_version).0 same in
          absurd (old (ground (arith, e, is)))
    ]

abbrev versioned-Versioned : Versioned versioned
versioned-Versioned = record {
  version = λ k w. version_of k w.watch;
  refuses = λ x w. refuses_old x w.watch w;
  now = λ k w. refl;
}

abbrev with_complete : Sys World
with_complete = record sample_state {
  effects =
      event (key_of sample_watch.meta) "Normal" "ReconcileComplete" "Reconciliation complete" ∷ [];
}

after_store-IsRefused_example :
    IsRefused versioned versioned-Versioned
      (λ e. (no_result, some e))
      sample_watch
      (update_status_condition versioned sample_watch reconcile_complete with_complete).1
      (after_store versioned sample_watch (own, none) sample_state)
unfolding update_status_condition sub_time ◌-ℤ◌ last_checked
after_store-IsRefused_example =
    after_store-IsRefused versioned versioned-Versioned sample_watch own "+1" sample_state
      (update_status_condition versioned sample_watch reconcile_complete with_complete).1 refl refl
      given_version old_version refl
