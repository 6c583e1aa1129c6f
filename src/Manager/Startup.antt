-- ===== src/Manager/Startup.antt =====
-- How cmd/main.go starts: the order of its steps, the end of the process, and the profiling server
-- beside it.
use mathlib.Core.Path.{subst}
use stale_secrets_check.Prelude.{
  ℕ, Option, none, some, List, [], ◌∷◌, ◌≡◌, ◌⊎◌, inl, inr, refl, ap, Option-cases,
}
use stale_secrets_check.Exec.{Error}
use stale_secrets_check.Cluster.{System}
use stale_secrets_check.Manager.{
  group_version, registered_types, default_flags, or_panic, Parsed, flags, exits, must, after_parse,
  main, program, Reconciler, Flags, manager_options, Runtime, Step, set_logger, go_pprof,
  get_config, new_manager, get_event_recorder, build_controller, build_webhook, add_healthz,
  add_readyz, log_starting, start_manager, Trace, Process, End, going, exited, panicked, Proc, note,
  or_exit, checked, setup_with_manager, setup_webhook_with_manager, with_flags, with_manager,
  add_checks, start_up,
}

-- Of the steps that are planned, some that follow each other were done without an error, behind
-- what was done before; and either they are all, and the method returned, or the next one failed,
-- and the process exited with status 1.
pub data Ran {W : Type 0} : List Step → Trace → End (Unit {0}) × Process W → Type 0 where
  all_done : {before : Trace} {p : Process W} → p.steps ≡ before → Ran [] before (going tt, p)
  failed :
      {s : Step} {plan : List Step} {before : Trace} {p : Process W} (e : Error)
      → p.steps ≡ (s, some e) ∷ before
      → Ran (s ∷ plan) before (exited 1, p)
  done :
      {s : Step} {plan : List Step} {before : Trace} {o : End (Unit {0}) × Process W}
      → Ran plan ((s, none) ∷ before) o
      → Ran (s ∷ plan) before o

abbrev pub plan_of : Flags → List Step
plan_of f =
    set_logger
    ∷ go_pprof f.pprof_addr
    ∷ get_config
    ∷ new_manager (manager_options f)
    ∷ get_event_recorder "StaleSecretWatch-controller"
    ∷ get_event_recorder "stale-secret-watch"
    ∷ build_controller (record { recorder = "stale-secret-watch" })
    ∷ build_webhook "StaleSecretWatch"
    ∷ add_healthz "healthz"
    ∷ add_readyz "readyz"
    ∷ log_starting
    ∷ start_manager
    ∷ []

module _ {W : Type 0} where
  -- from every process with that trace
  abbrev Runs : List Step → Trace → Proc W (Unit {0}) → Type 0
  Runs plan before m = (p : Process W) → p.steps ≡ before → Ran plan before (m p)

  note-Runs :
      (s : Step) {plan : List Step} {before : Trace} {k : Proc W (Unit {0})}
      → Runs plan ((s, none) ∷ before) k
      → Runs (s ∷ plan) before (note s k)
  note-Runs s h p e = done (h (record p { steps = (s, none) ∷ p.steps }) (rw e refl))

  checked-Runs :
      (s : Step) (f : W → Option Error × W) {plan : List Step} {before : Trace}
      {k : Proc W (Unit {0})}
      → Runs plan ((s, none) ∷ before) k
      → Runs (s ∷ plan) before (checked s f k)
  checked-Runs s f h p e = elim (Option-cases (f p.world).0) [
    | inl fine ↦
        done
          (rw fine (h (record { world = (f p.world).1; steps = (s, none) ∷ p.steps }) (rw e refl)))
    | inr (x, fails) ↦ rw (fails, or_exit) (failed x (ap (λ b. (s, some x) ∷ b) e))
  ]

  -- The end of a process that has done no step of main: an init function panicked, or the parsing
  -- of the flags exited.
  pub data Unstarted : End (Unit {0}) × Process W → Type 0 where
    init_panicked : {p : Process W} → p.steps ≡ [] → Unstarted (panicked, p)
    parse_exited : {p : Process W} (n : ℕ) → p.steps ≡ [] → Unstarted (exited n, p)

  abbrev pub Began : Parsed → End (Unit {0}) × Process W → Type 0
  Began parsed o = Unstarted o ⊎ ((f : Flags) × (parsed ≡ flags f) × Ran (plan_of f) [] o)

  must-Began :
      (f : W → Option Error × W) (k : Proc W (Unit {0})) (parsed : Parsed) (p : Process W)
      → p.steps ≡ []
      → Began parsed (k (record p { world = (f p.world).1 }))
      → Began parsed (must f k p)
  must-Began f k parsed p e h = elim (Option-cases (f p.world).0) [
    | inl fine ↦ rw fine h
    | inr (x, fails) ↦ rw (fails, or_panic) (inl (init_panicked e))
  ]

  module _ (y : System W) (z : Runtime W) where
    setup_with_manager-Runs :
        (r : Reconciler) {plan : List Step} {before : Trace} {k : Proc W (Unit {0})}
        → Runs plan
            ((build_controller (record { recorder = "stale-secret-watch" }), none)
              ∷ (get_event_recorder "stale-secret-watch", none)
              ∷ before)
            k
        → Runs
            (get_event_recorder "stale-secret-watch"
              ∷ build_controller (record { recorder = "stale-secret-watch" })
              ∷ plan)
            before
            (setup_with_manager y z r k)
    unfolding setup_with_manager
    setup_with_manager-Runs r h = note-Runs _ (checked-Runs _ _ h)

    setup_webhook_with_manager-Runs :
        {plan : List Step} {before : Trace} {k : Proc W (Unit {0})}
        → Runs plan ((build_webhook "StaleSecretWatch", none) ∷ before) k
        → Runs (build_webhook "StaleSecretWatch" ∷ plan) before (setup_webhook_with_manager y z k)
    unfolding setup_webhook_with_manager
    setup_webhook_with_manager-Runs h = checked-Runs _ _ h

    with_flags-Ran : (f : Flags) (p : Process W) → Ran (plan_of f) p.steps (with_flags y z f p)
    unfolding with_flags with_manager add_checks start_up
    with_flags-Ran f p =
        note-Runs set_logger
          (note-Runs (go_pprof f.pprof_addr) (
            checked-Runs get_config z.get_config_or_die (
              checked-Runs (new_manager (manager_options f)) (z.new_manager (manager_options f)) (
                note-Runs (get_event_recorder "StaleSecretWatch-controller") (
                  setup_with_manager-Runs (record { recorder = "StaleSecretWatch-controller" })
                    (setup_webhook_with_manager-Runs (
                      checked-Runs (add_healthz "healthz") (z.add_healthz_check "healthz") (
                        checked-Runs (add_readyz "readyz") (z.add_readyz_check "readyz") (
                          note-Runs log_starting (
                            checked-Runs start_manager z.start {k = λ q. (going tt, q)}
                              (λ q e. all_done e)))))))))))
          p refl

    after_parse-Began :
        (parsed : Parsed) (p : Process W) → p.steps ≡ [] → Began parsed (after_parse y z parsed p)
    unfolding after_parse
    after_parse-Began (flags f) p e =
        inr (f, refl, subst (λ b. Ran (plan_of f) b (with_flags y z f p)) e (with_flags-Ran f p))
    after_parse-Began (exits n) p e = inl (parse_exited n e)

    main-Began :
        (p : Process W) → p.steps ≡ [] → Began (z.parse_flags default_flags p.world).0 (main y z p)
    unfolding main
    main-Began p e =
        after_parse-Began (z.parse_flags default_flags p.world).0
          (record p { world = (z.parse_flags default_flags p.world).1 }) e

    -- What flag.Parse answers behind the init functions.
    abbrev pub parsed_of : W → Parsed
    parsed_of w =
        let w1 = (z.add_client_go_to_scheme w).1 in
        (z.parse_flags default_flags (z.add_to_scheme group_version registered_types w1).1).0

    -- A program either ends before the first step of main, or for the flags that were parsed it
    -- takes the steps of the plan in their order, up to the first that fails, with which the process
    -- exits with status 1; where none fails, main returns.
    pub program-Ran :
        (p : Process W)
        → p.steps ≡ []
        → Unstarted (program y z p)
          ⊎ ((f : Flags) × (parsed_of p.world ≡ flags f) × Ran (plan_of f) [] (program y z p))
    unfolding program
    program-Ran p e =
        let w = (z.add_client_go_to_scheme p.world).1 in
        let w' = (z.add_to_scheme group_version registered_types w).1 in
        must-Began z.add_client_go_to_scheme
          (must (z.add_to_scheme group_version registered_types) (main y z)) (parsed_of p.world) p e
          (must-Began (z.add_to_scheme group_version registered_types) (main y z)
            (parsed_of p.world) (record p { world = w }) e (main-Began (record p { world = w' }) e))
