-- ===== src/Manager/Ready.antt =====
-- The profiling server beside main, and what has been set up when the manager starts.
use mathlib.Core.Path.{subst}
use stale_secrets_check.Prelude.{String, none, List, [], ◌∷◌, ◌++◌, ◌≡◌, inl, inr, refl, sym, In}
use stale_secrets_check.Cluster.{System}
use stale_secrets_check.Manager.{
  Flags, Runtime, Step, go_pprof, build_controller, build_webhook, add_healthz, add_readyz,
  log_starting, start_manager, Trace, Process, End, exited, program,
}
use stale_secrets_check.Manager.Startup.{
  Ran, all_done, failed, done, plan_of, Unstarted, init_panicked, parse_exited, program-Ran,
}

-- What a process does whose main goroutine, left alone, ends as `o`. The goroutine that main starts
-- with the flag's address exits with status 1 as soon as the server does not listen or fails.
pub data Behaves {W : Type 0} (o : End (Unit {0}) × Process W)
    : End (Unit {0}) → Trace → Type 0 where
  main_ends : Behaves o o.0 o.1.steps
  pprof_fails :
      (address : String) (unseen seen : Trace)
      → o.1.steps ≡ unseen ++ seen
      → In (go_pprof address, none) seen
      → Behaves o (exited 1) seen

-- the steps that must be done, without an error, before this one
abbrev pub Needs : Step → Trace → Type 0
Needs log_starting before =
    In (build_controller (record { recorder = "stale-secret-watch" }), none) before
    × In (build_webhook "StaleSecretWatch", none) before
    × In (add_healthz "healthz", none) before
    × In (add_readyz "readyz", none) before
Needs start_manager before = In (log_starting, none) before
Needs _ before = Unit

abbrev pub IsReady : Trace → Type 0
IsReady [] = Unit
IsReady (x ∷ before) = Needs x.0 before × IsReady before

abbrev Orders : List Step → Trace → Type 0
Orders [] before = Unit
Orders (s ∷ plan) before = Needs s before × Orders plan ((s, none) ∷ before)

Ran-IsReady :
    {W : Type 0} {plan : List Step} {before : Trace} {o : End (Unit {0}) × Process W}
    → Ran plan before o
    → IsReady before
    → Orders plan before
    → IsReady o.1.steps
Ran-IsReady (all_done e) ready orders = subst IsReady (sym e) ready
Ran-IsReady (failed x e) ready (needs, orders) = subst IsReady (sym e) (needs, ready)
Ran-IsReady (done r) ready (needs, orders) = Ran-IsReady r (needs, ready) orders

IsReady-earlier : (unseen seen : Trace) → IsReady (unseen ++ seen) → IsReady seen
IsReady-earlier [] seen h = h
IsReady-earlier (x ∷ unseen) seen (n, h) = IsReady-earlier unseen seen h

plan_of-Orders : (f : Flags) → Orders (plan_of f) []
plan_of-Orders f = (
  tt,
  (
    tt,
    (
      tt,
      (
        tt,
        (
          tt,
          (
            tt,
            (
              tt,
              (
                tt,
                (
                  tt,
                  (
                    tt,
                    (
                      (inr (inr (inr (inl refl))), inr (inr (inl refl)), inr (inl refl), inl refl),
                      (inl refl, tt),
                    ),
                  ),
                ),
              ),
            ),
          ),
        ),
      ),
    ),
  ),
)

Unstarted-IsReady : {W : Type 0} {o : End (Unit {0}) × Process W} → Unstarted o → IsReady o.1.steps
Unstarted-IsReady (init_panicked e) = subst IsReady (sym e) tt
Unstarted-IsReady (parse_exited n e) = subst IsReady (sym e) tt

module _ {W : Type 0} (y : System W) (z : Runtime W) where
  program-IsReady : (p : Process W) → p.steps ≡ [] → IsReady (program y z p).1.steps
  program-IsReady p e = elim (program-Ran y z p e) [
    | inl unstarted ↦ Unstarted-IsReady unstarted
    | inr (f, _, ran) ↦ Ran-IsReady ran tt (plan_of-Orders f)
  ]

  -- However the profiling server fares, at every point of a process that began with no step the
  -- manager has been started only after the controller, the webhook and both checks were set up
  -- without an error.
  pub Behaves-IsReady :
      (p : Process W) (e : End (Unit {0})) (seen : Trace)
      → p.steps ≡ []
      → Behaves (program y z p) e seen
      → IsReady seen
  Behaves-IsReady p e seen none_yet main_ends = program-IsReady p none_yet
  Behaves-IsReady p e seen none_yet (pprof_fails address unseen seen' same there) =
      IsReady-earlier unseen seen (subst IsReady same (program-IsReady p none_yet))
