-- ===== src/Manager/Tests.antt =====
-- A process in which every call succeeds, one whose webhook cannot be set up, and one whose
-- profiling server fails.
use stale_secrets_check.Prelude.{none, some, [], ◌∷◌, ◌++◌, ◌≡◌, ◌⊎◌, refl, inl, inr}
use stale_secrets_check.Exec.{foreign}
use stale_secrets_check.Cluster.Sample.{World, sample, sample_state}
use stale_secrets_check.Manager.{
  Flags, default_flags, flags, manager_options, Runtime, set_logger, go_pprof, get_config,
  new_manager, get_event_recorder, build_controller, build_webhook, add_healthz, add_readyz,
  log_starting, start_manager, Trace, Process, exited, program, main, after_parse, with_flags,
  with_manager, add_checks, start_up, setup_with_manager, setup_webhook_with_manager,
}
use stale_secrets_check.Manager.Startup.{Ran, plan_of, parsed_of, Unstarted, program-Ran}
use stale_secrets_check.Manager.Ready.{pprof_fails, IsReady, Behaves-IsReady}

abbrev fine : Runtime World
fine = record {
  add_client_go_to_scheme = λ w. (none, w);
  add_to_scheme = λ g ts w. (none, w);
  parse_flags = λ f w. (flags f, w);
  get_config_or_die = λ w. (none, w);
  new_manager = λ o w. (none, w);
  complete_controller = λ b r w. (none, w);
  complete_webhook = λ t w. (none, w);
  add_healthz_check = λ n w. (none, w);
  add_readyz_check = λ n w. (none, w);
  start = λ w. (none, w);
}

abbrev no_webhook : Runtime World
no_webhook = record fine { complete_webhook = λ t w. (some (foreign 1), w) }

abbrev fresh : Process World
fresh = record { world = sample_state.world; steps = [] }

abbrev up_to_controller : Trace
up_to_controller =
    (build_controller (record { recorder = "stale-secret-watch" }), none)
    ∷ (get_event_recorder "stale-secret-watch", none)
    ∷ (get_event_recorder "StaleSecretWatch-controller", none)
    ∷ (new_manager (manager_options default_flags), none)
    ∷ (get_config, none)
    ∷ (go_pprof ":6061", none)
    ∷ (set_logger, none)
    ∷ []

no_webhook_test : program sample no_webhook fresh ≡ (
  exited 1,
  record fresh { steps = (build_webhook "StaleSecretWatch", some (foreign 1)) ∷ up_to_controller },
)
unfolding program main after_parse with_flags with_manager setup_with_manager
    setup_webhook_with_manager add_checks start_up
no_webhook_test = refl

program-Ran_example :
    Unstarted (program sample no_webhook fresh)
    ⊎ ((f : Flags) × (parsed_of sample no_webhook fresh.world ≡ flags f)
        × Ran (plan_of f) [] (program sample no_webhook fresh))
program-Ran_example = program-Ran sample no_webhook fresh refl

abbrev after_controller : Trace
after_controller =
    (start_manager, none)
    ∷ (log_starting, none)
    ∷ (add_readyz "readyz", none)
    ∷ (add_healthz "healthz", none)
    ∷ (build_webhook "StaleSecretWatch", none)
    ∷ []

fine_test : (program sample fine fresh).1.steps ≡ after_controller ++ up_to_controller
unfolding program main after_parse with_flags with_manager setup_with_manager
    setup_webhook_with_manager add_checks start_up
fine_test = refl

Behaves-IsReady_example : IsReady up_to_controller
Behaves-IsReady_example = Behaves-IsReady sample fine fresh (exited 1) up_to_controller refl (
    pprof_fails ":6061" after_controller up_to_controller fine_test
      (inr (inr (inr (inr (inr (inl refl)))))))
