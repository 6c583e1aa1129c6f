-- ===== src/Exec/Keeps.antt =====
-- Methods that end well and whose effects all satisfy a predicate, by their parts.
use stale_secrets_check.Prelude.{inl, inr, All, ◌≡◌, refl}
use stale_secrets_check.Exec.{
  Effect, Outcome, ret, panic, Sys, Exec, Fallible, ok, err, ask, act, ◌>>=◌, Outcome-cases,
  and_then,
}

-- An outcome that is a panic only if Z: with Z empty the method returns, and with Z trivial nothing
-- is said.
abbrev pub Ends {ℓ} : Type 0 → {A : Type ℓ} → Outcome A → Type 0
Ends Z (ret a) = Unit
Ends Z panic = Z

pub Ends-eq-ret {ℓ} : {A : Type ℓ} (r : Outcome A) → Ends ⊥ r → (a : A) × (r ≡ ret a)
Ends-eq-ret (ret a) h = (a, refl)
Ends-eq-ret panic h = absurd h

module _ {W : Type 0} (P : Effect → Type 0) (Z : Type 0) where
  -- From a state whose effects all satisfy P the method panics only if Z, and all effects satisfy P
  -- behind it, however it ends.
  abbrev pub Keeps : {A : Type 0} → Exec W A → Type 0
  Keeps m = (s : Sys W) → All P s.effects → Ends Z (m s).0 × All P (m s).1.effects

  module _ {A : Type 0} where
    pub act-Keeps : (e : Effect) (f : W → A × W) → P e → Keeps (act e f)
    act-Keeps e f p s h = (tt, (p, h))

  module _ {A B : Type 0} where
    pub bind-Keeps :
        (m : Exec W A) (f : A → Exec W B) → Keeps m → ((a : A) → Keeps (f a)) → Keeps (m >>= f)
    bind-Keeps m f h k s p =
        let (ends, kept) = h s p in
        elim (Outcome-cases (m s).0) [
          | inl (a, e) ↦ rw (e, ◌>>=◌) (k a (m s).1 kept)
          | inr e ↦ rw (e, ◌>>=◌) (rw e at ends, kept)
        ]

    -- behind a question, with what is known of its answer
    pub ask_bind-Keeps :
        (f : W → A × W) (k : A → Exec W B) → ((w : W) → Keeps (k (f w).0)) → Keeps (ask f >>= k)
    ask_bind-Keeps f k h s p = h s.world (record s { world = (f s.world).1 }) p

    pub and_then-Keeps :
        (k : A → Exec W (Fallible B)) (r : Fallible A)
        → ((a : A) → Keeps (k a))
        → Keeps (and_then k r)
    and_then-Keeps k (err e) h s p = (tt, p)
    and_then-Keeps k (ok a) h s p = h a s p
