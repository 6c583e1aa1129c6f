-- ===== src/Manager.antt =====
-- The process of cmd/main.go: what main and the init functions do up to the end of the manager, the
-- registrations of api/v1beta1/groupversion_info.go and stalesecretwatch_types.go, and the two
-- functions that set the controller and the webhook up.
pub mod Startup
pub mod Ready
mod Tests
use stale_secrets_check.Prelude.{ℕ, String, Bool, true, false, Option, none, some, List, [], ◌∷◌}
use stale_secrets_check.Api.{NamespacedName}
use stale_secrets_check.Exec.{Error, Exec}
use stale_secrets_check.Cluster.{System}
use stale_secrets_check.Controller.Requests.{map_secret}

-- schema.GroupVersion
pub record GroupVersion : Type 0 where
  pub group : String
  pub version : String

abbrev pub group_version : GroupVersion
group_version = record { group = "security.stalesecretwatch.io"; version = "v1beta1" }

-- what SchemeBuilder.Register was given
abbrev pub registered_types : List String
registered_types = "StaleSecretWatch" ∷ "StaleSecretWatchList" ∷ []

-- the variables of the flags
pub record Flags : Type 0 where
  pub metrics_addr : String
  pub probe_addr : String
  pub pprof_addr : String
  pub enable_leader_election : Bool

abbrev pub default_flags : Flags
default_flags = record {
  metrics_addr = ":8080";
  probe_addr = ":8081";
  pprof_addr = ":6061";
  enable_leader_election = false;
}

-- ctrl.Options
pub record ManagerOptions : Type 0 where
  pub metrics_bind_address : String
  pub health_probe_bind_address : String
  pub leader_election : Bool
  pub leader_election_id : String

abbrev pub manager_options : Flags → ManagerOptions
manager_options f = record {
  metrics_bind_address = f.metrics_addr;
  health_probe_bind_address = f.probe_addr;
  leader_election = f.enable_leader_election;
  leader_election_id = "0656be4d.stalesecretwatch.io";
}

-- StaleSecretWatchReconciler; of the fields the recorder, by the name of its source. The client and
-- the scheme are the manager's, and the other fields are not set.
pub record Reconciler : Type 0 where
  pub recorder : String

-- ctrl.NewControllerManagedBy with what For, Owns and Watches were given
pub record ControllerBuilder (W : Type 0) : Type 0 where
  pub for_type : String
  pub owned_type : String
  pub only_metadata : Bool
  pub watched_type : String
  pub map_func : Exec W (List NamespacedName)

-- What flag.Parse does: it returns, or it exits with a status.
pub data Parsed : Type 0 where
  flags : Flags → Parsed
  exits : ℕ → Parsed

-- The calls of libraries in which the process may end, with the error that they answer. The one of
-- GetConfigOrDie is handled by the library, which exits with status 1.
pub record Runtime (W : Type 0) : Type 0 where
  pub add_client_go_to_scheme : W → Option Error × W
  pub add_to_scheme : GroupVersion → List String → W → Option Error × W
  pub parse_flags : Flags → W → Parsed × W
  pub get_config_or_die : W → Option Error × W
  pub new_manager : ManagerOptions → W → Option Error × W
  pub complete_controller : ControllerBuilder W → Reconciler → W → Option Error × W
  pub complete_webhook : String → W → Option Error × W
  pub add_healthz_check : String → W → Option Error × W
  pub add_readyz_check : String → W → Option Error × W
  pub start : W → Option Error × W

-- The steps of main that are seen from outside.
pub data Step : Type 0 where
  set_logger : Step
  go_pprof : String → Step
  get_config : Step
  new_manager : ManagerOptions → Step
  get_event_recorder : String → Step
  build_controller : Reconciler → Step
  build_webhook : String → Step
  add_healthz : String → Step
  add_readyz : String → Step
  -- setupLog.Info("starting manager")
  log_starting : Step
  start_manager : Step

-- A step, and the error that it answered.
abbrev pub Trace : Type 0
Trace = List (Step × Option Error)

-- `steps` has the latest first.
pub record Process (W : Type 0) : Type 0 where
  pub world : W
  pub steps : Trace

pub data End (A : Type 0) : Type 0 where
  going : A → End A
  exited : ℕ → End A
  panicked : End A

abbrev pub Proc : Type 0 → Type 0 → Type 0
Proc W A = Process W → End A × Process W

module _ {W : Type 0} where
  abbrev pub exit : ℕ → Proc W (Unit {0})
  exit n p = (exited n, p)

  -- a step that cannot fail
  abbrev pub note : Step → Proc W (Unit {0}) → Proc W (Unit {0})
  note s k p = k (record p { steps = (s, none) ∷ p.steps })

  abbrev pub or_exit : Option Error → Proc W (Unit {0}) → Proc W (Unit {0})
  or_exit none k = k
  or_exit (some e) k = exit 1

  -- if err := f(); err != nil { setupLog.Error(err, ...); os.Exit(1) }, and on
  abbrev pub checked : Step → (W → Option Error × W) → Proc W (Unit {0}) → Proc W (Unit {0})
  checked s f k p =
      let (answer, w) = f p.world in
      or_exit answer k (record { world = w; steps = (s, answer) ∷ p.steps })

  abbrev pub or_panic : Option Error → Proc W (Unit {0}) → Proc W (Unit {0})
  or_panic none k p = k p
  or_panic (some e) k p = (panicked, p)

  -- utilruntime.Must
  abbrev pub must : (W → Option Error × W) → Proc W (Unit {0}) → Proc W (Unit {0})
  must f k p = let (answer, w) = f p.world in or_panic answer k (record p { world = w })

  module _ (y : System W) (z : Runtime W) where
    abbrev pub controller_builder : ControllerBuilder W
    controller_builder = record {
      for_type = "StaleSecretWatch";
      owned_type = "ConfigMap";
      only_metadata = true;
      watched_type = "Secret";
      map_func = map_secret y;
    }

    unfoldable pub setup_with_manager : Reconciler → Proc W (Unit {0}) → Proc W (Unit {0})
    setup_with_manager r k = note (get_event_recorder "stale-secret-watch") (
        checked (build_controller (record r { recorder = "stale-secret-watch" }))
          (z.complete_controller controller_builder (record r { recorder = "stale-secret-watch" }))
          k)

    unfoldable pub setup_webhook_with_manager : Proc W (Unit {0}) → Proc W (Unit {0})
    setup_webhook_with_manager k =
        checked (build_webhook "StaleSecretWatch") (z.complete_webhook "StaleSecretWatch") k

    unfoldable pub start_up : Proc W (Unit {0})
    start_up = note log_starting (checked start_manager z.start (λ p. (going tt, p)))

    unfoldable pub add_checks : Proc W (Unit {0})
    unfolding start_up
    add_checks =
        checked (add_healthz "healthz") (z.add_healthz_check "healthz")
          (checked (add_readyz "readyz") (z.add_readyz_check "readyz") start_up)

    -- main behind NewManager
    unfoldable pub with_manager : Proc W (Unit {0})
    unfolding setup_with_manager setup_webhook_with_manager add_checks
    with_manager = note (get_event_recorder "StaleSecretWatch-controller") (
        setup_with_manager (record { recorder = "StaleSecretWatch-controller" })
          (setup_webhook_with_manager add_checks))

    -- main from the first use of the flags on
    unfoldable pub with_flags : Flags → Proc W (Unit {0})
    unfolding with_manager
    with_flags f = note set_logger (
        note (go_pprof f.pprof_addr) (
          checked get_config z.get_config_or_die (
            checked (new_manager (manager_options f)) (z.new_manager (manager_options f))
              with_manager)))

    unfoldable pub after_parse : Parsed → Proc W (Unit {0})
    after_parse (flags f) = with_flags f
    after_parse (exits n) = exit n

    unfoldable pub main : Proc W (Unit {0})
    main p =
        let (parsed, w) = z.parse_flags default_flags p.world in
        after_parse parsed (record p { world = w })

    -- Go runs the init functions, and then main.
    unfoldable pub program : Proc W (Unit {0})
    program =
        must z.add_client_go_to_scheme (must (z.add_to_scheme group_version registered_types) main)
