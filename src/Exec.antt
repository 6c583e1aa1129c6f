-- ===== src/Exec.antt =====
-- The effects of the operator's methods: a state with what they have written, errors as values,
-- and panics. A method is a function from the state to its outcome and the new state.
pub mod Keeps
pub mod Yields
use stale_secrets_check.Prelude.{
  ℕ, ◌+◌, String, List, ◌∷◌, Bool, false, eqb, ◌≡◌, ◌⊎◌, inl, inr, refl, ap, arith,
}
use stale_secrets_check.Api.{NamespacedName, StaleSecretWatch, ConfigMap, Bytes}

-- An `error` value. `text_error a s` is the value at address `a` made by errors.New or by fmt.Errorf
-- (which wraps nothing here, since no format has %w), with the text `s`. `foreign n` is an error
-- that a library returned: the code learns of it only through the library's own functions.
pub data Error : Type 0 where
  text_error : ℕ → String → Error
  foreign : ℕ → Error

-- What the operator does to the outside: writes through the client, events, and messages to Slack.
pub data Effect : Type 0 where
  event : NamespacedName → String → String → String → Effect
  update_watch : StaleSecretWatch → Effect
  update_watch_status : StaleSecretWatch → Effect
  create_config_map : ConfigMap → Effect
  update_config_map : ConfigMap → Effect
  -- the URL, the Authorization header and the body
  post : String → String → Bytes → Effect

-- `W` is the world outside: the cluster, the clock, the environment. `effects` has the latest first.
pub record Sys {ℓ} (W : Type ℓ) : Type ℓ where
  pub world : W
  pub effects : List Effect
  pub next_address : ℕ

pub data Outcome {ℓ} (A : Type ℓ) : Type ℓ where
  ret : A → Outcome A
  panic : Outcome A

abbrev pub Exec {ℓ} : Type ℓ → Type ℓ → Type ℓ
Exec W A = Sys W → Outcome A × Sys W

module _ {ℓ} {W A : Type ℓ} where
  abbrev pub pure : A → Exec W A
  pure a s = (ret a, s)

  abbrev pub throw : Exec W A
  throw s = (panic, s)

  -- a question to the world
  abbrev pub ask : (W → A × W) → Exec W A
  ask f s = let (a, w) = f s.world in (ret a, record s { world = w })

  -- a write to the world, which is noted whether or not it succeeds
  abbrev pub act : Effect → (W → A × W) → Exec W A
  act e f s = let (a, w) = f s.world in (ret a, record s { world = w; effects = e ∷ s.effects })

infixl 5 ◌>>=◌ ◌>>◌
abbrev pub ◌>>=◌ {ℓ} : {W A B : Type ℓ} → Exec W A → (A → Exec W B) → Exec W B
◌>>=◌ m f s = let (r, s') = m s in elim r [ ret a ↦ f a s' | panic ↦ (panic, s') ]

abbrev pub ◌>>◌ {ℓ} : {W A B : Type ℓ} → Exec W A → Exec W B → Exec W B
m >> k = m >>= λ _. k

module _ {W : Type 0} where
  -- errors.New and fmt.Errorf: each call makes a new value.
  abbrev pub new_error : String → Exec W Error
  new_error text s =
      (ret (text_error s.next_address text), record s { next_address = s.next_address + 1 })

  -- r.Recorder.Event
  abbrev pub record_event : NamespacedName → String → String → String → Exec W (Unit {0})
  record_event about type reason message s =
      (ret tt, record s { effects = event about type reason message ∷ s.effects })

-- `e == f` on errors: the dynamic types and the addresses.
unfoldable pub same_error : Error → Error → Bool
same_error (text_error a _) (text_error b _) = eqb a b
same_error (foreign m) (foreign n) = eqb m n
same_error _ _ = false

-- A Go result with an error: the value is not looked at where there is one.
pub data Fallible {ℓ} (A : Type ℓ) : Type ℓ where
  ok : A → Fallible A
  err : Error → Fallible A

-- To split on a computed result and keep the equation.
pub Fallible-cases :
    {A : Type 0} (o : Fallible A) → ((a : A) × (o ≡ ok a)) ⊎ ((e : Error) × (o ≡ err e))
Fallible-cases (ok a) = inl (a, refl)
Fallible-cases (err e) = inr (e, refl)

pub Outcome-cases {ℓ} : {A : Type ℓ} (o : Outcome A) → ((a : A) × (o ≡ ret a)) ⊎ (o ≡ panic)
Outcome-cases (ret a) = inl (a, refl)
Outcome-cases panic = inr refl

-- A method that returned did so after its first part had returned.
pub >>=-eq-ret {ℓ} :
    {W A B : Type ℓ} (m : Exec W A) (f : A → Exec W B) (b : B) (s s' : Sys W)
    → (m >>= f) s ≡ (ret b, s')
    → (a : A) × (t : Sys W) × (m s ≡ (ret a, t)) × (f a t ≡ (ret b, s'))
>>=-eq-ret m f b s s' h = elim (Outcome-cases (m s).0) [
  | inl (a, e) ↦ (a, (m s).1, ap (λ o. (o, (m s).1)) e, rw (e, ◌>>=◌) at h)
  | inr e ↦ absurd (ground arith)
]

-- `if err != nil { return err }`, and on with the value
abbrev pub and_then {ℓ} :
    {W A B : Type ℓ} → (A → Exec W (Fallible B)) → Fallible A → Exec W (Fallible B)
and_then k (err e) = pure (err e)
and_then k (ok a) = k a

pub and_then-ok {ℓ} :
    {W A B : Type ℓ} (k : A → Exec W (Fallible B)) (r : Fallible A) (b : B) (s s' : Sys W)
    → and_then k r s ≡ (ret (ok b), s')
    → (a : A) × (r ≡ ok a) × (k a s ≡ (ret (ok b), s'))
and_then-ok k (err e) b s s' h = absurd (ground arith)
and_then-ok k (ok a) b s s' h = (a, refl, h)
