-- ===== src/Exec/Yields.antt =====
-- What holds of the results of a method, by its last part.
use mathlib.Core.Path.{subst}
use stale_secrets_check.Prelude.{◌≡◌}
use stale_secrets_check.Exec.{pure, Outcome, panic, ret, Sys, Exec, ◌>>=◌, >>=-eq-ret}

module _ {W A : Type 0} (Q : A → Sys W → Type 0) where
  -- Where the method returns, its result and the state behind it satisfy Q.
  abbrev pub Yields : Exec W A → Type 0
  Yields m = (a : A) (s s' : Sys W) → m s ≡ (ret a, s') → Q a s'

  pub bind-Yields :
      {B : Type 0} (m : Exec W B) (f : B → Exec W A) → ((b : B) → Yields (f b)) → Yields (m >>= f)
  bind-Yields m f h a s s' e = let (b, t, first, rest) = >>=-eq-ret m f a s s' e in h b a t s' rest

  abbrev Result : Outcome A × Sys W → Type 0
  Result (ret a, s) = Q a s
  Result (panic, s) = Unit

  pub pure-Yields : (b a : A) (s s' : Sys W) → Q b s → pure b s ≡ (ret a, s') → Q a s'
  pure-Yields b a s s' q e = subst Result e q
