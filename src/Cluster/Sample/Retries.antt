-- ===== src/Cluster/Sample/Retries.antt =====
-- A function that is called again and again keeps what each call keeps.
use stale_secrets_check.Prelude.{
  ℕ, zero, suc, Bool, Option, none, some, List, [], ◌++◌, ◌≡◌, refl, sym, ap, ◌∙◌, append_assoc,
  Bool-cases, inl, inr,
}
use stale_secrets_check.Api.{StaleSecretWatch}
use stale_secrets_check.Exec.{Effect, Error, Sys, Outcome-cases, ◌>>=◌}
use stale_secrets_check.Exec.Keeps.{Ends}
use stale_secrets_check.Cluster.Sample.{World, Attempt, tries, again}

-- what a call keeps, and how it ends
abbrev Held : (Sys World → Type 0) → Type 0 → Attempt → Type 0
Held I Z f = (x : StaleSecretWatch) (s : Sys World) → I s → Ends Z (f x s).0 × I (f x s).1

module _ (I : Sys World → Type 0) (Z : Type 0) (retriable : Error → Bool) (f : Attempt)
    (held : Held I Z f) where
  again-Held :
      (g : Attempt)
      → Held I Z g
      → (r : StaleSecretWatch × Option Error) (s : Sys World) → I s
      → Ends Z (again retriable g r s).0 × I (again retriable g r s).1
  again-Held g h (x, none) s i = (tt, i)
  again-Held g h (x, some e) s i = elim (Bool-cases (retriable e)) [
    | inl retried ↦ rw (retried, again) (h x s i)
    | inr final ↦ rw (final, again) (tt, i)
  ]

  pub tries-Held :
      (n : ℕ) (x : StaleSecretWatch) (s : Sys World)
      → I s
      → Ends Z (tries n retriable f x s).0 × I (tries n retriable f x s).1
  tries-Held zero x s i = held x s i
  tries-Held (suc n) x s i =
      let (ends, kept) = held x s i in
      elim (Outcome-cases (f x s).0) [
        | inl (r, e) ↦
            rw (e, ◌>>=◌) (again-Held (tries n retriable f) (tries-Held n) r (f x s).1 kept)
        | inr e ↦ rw (e, ◌>>=◌) (rw e at ends, kept)
      ]

-- A call that only adds effects.
abbrev pub Adds : Attempt → Type 0
Adds f =
    (x : StaleSecretWatch) (s : Sys World)
    → (l : List Effect) × ((f x s).1.effects ≡ l ++ s.effects)

module _ (retriable : Error → Bool) (f : Attempt) (adds : Adds f) where
  again-Adds :
      (g : Attempt)
      → Adds g
      → (r : StaleSecretWatch × Option Error) (s : Sys World)
      → (l : List Effect) × ((again retriable g r s).1.effects ≡ l ++ s.effects)
  again-Adds g h (x, none) s = ([], refl)
  again-Adds g h (x, some e) s = elim (Bool-cases (retriable e)) [
    | inl retried ↦ rw (retried, again) (h x s)
    | inr final ↦ rw (final, again) ([], refl)
  ]

  bind-Adds :
      (g : Attempt)
      → Adds g
      → (x : StaleSecretWatch) (s : Sys World)
      → (l : List Effect) × (((f x >>= again retriable g) s).1.effects ≡ l ++ (f x s).1.effects)
  bind-Adds g h x s = elim (Outcome-cases (f x s).0) [
    | inl (r, e) ↦ rw (e, ◌>>=◌) (again-Adds g h r (f x s).1)
    | inr e ↦ rw (e, ◌>>=◌) ([], refl)
  ]

  tries-Adds : (n : ℕ) → Adds (tries n retriable f)
  tries-Adds zero x s = adds x s
  tries-Adds (suc n) x s =
      let (l, first) = adds x s in
      let (l', rest) = bind-Adds (tries n retriable f) (tries-Adds n) x s in
      (l' ++ l, rest ∙ ap (λ r. l' ++ r) first ∙ sym (append_assoc l' l s.effects))

  -- what further calls add behind the first
  pub tries-Adds_later :
      (n : ℕ) (x : StaleSecretWatch) (s : Sys World)
      → (l : List Effect) × ((tries n retriable f x s).1.effects ≡ l ++ (f x s).1.effects)
  tries-Adds_later zero x s = ([], refl)
  tries-Adds_later (suc n) x s = bind-Adds (tries n retriable f) (tries-Adds n) x s
