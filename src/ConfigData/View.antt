-- ===== src/ConfigData/View.antt =====
-- A ConfigData as a map from a namespace and a name to a secret's record, which forgets where the
-- record stands: what its readers can ask for.
use stale_secrets_check.Prelude.{
  ℕ, zero, suc, String, ◌≡◌, ◌≢◌, ◌⊎◌, refl, Option, none, some, List, [], ◌∷◌, ◌++◌, arith, ◌==◌,
  eq_iff, Bool-cases, Option-cases, text_cases, inl, inr, if◌then◌else◌, ◌&&◌,
}
use mathlib.Core.Option
use stale_secrets_check.ConfigData.{
  Secret, Namespace, ConfigData, find_secret, find_pointer, modify_nth, append_secret,
}

unfoldable pub secret_named : String → List Secret → Option Secret
secret_named name [] = none
secret_named name (s ∷ ss) = if s.name == name then some s else secret_named name ss

unfoldable pub secret_at : String → String → List Namespace → Option Secret
unfolding secret_named
secret_at namespace name [] = none
secret_at namespace name (n ∷ ns) =
    let rest = secret_at namespace name ns in
    if n.name == namespace
    then elim (secret_named name n.secrets) [ some s ↦ some s | none ↦ rest ]
    else rest

unfoldable pub view : ConfigData → String → String → Option Secret
unfolding secret_at
view config namespace name = secret_at namespace name config.namespaces

abbrev pub KeepsName : (Secret → Secret) → Type 0
KeepsName f = (s : Secret) → (f s).name ≡ s.name

module _ (name : String) where
  secret_named-none : (ss : List Secret) → find_secret name ss ≡ none → secret_named name ss ≡ none
  unfolding find_secret secret_named
  secret_named-none [] h = refl
  secret_named-none (s ∷ ss) h = ground (arith, secret_named-none ss)

  secret_named-some :
      (ss : List Secret) (j : ℕ)
      → find_secret name ss ≡ some j
      → (s : Secret) × (secret_named name ss ≡ some s)
  unfolding find_secret secret_named
  secret_named-some [] j h = ground arith
  secret_named-some (s ∷ ss) j h = elim (Bool-cases (s.name == name)) [
    | inl e ↦ (s, rw e refl)
    | inr e ↦ elim (Option-cases (find_secret name ss)) [
      | inl lacking ↦ ground arith
      | inr (i, found) ↦ rw e (secret_named-some ss i found)
    ]
  ]

  secret_named-modify_nth :
      (other : String) (f : Secret → Secret) (k : KeepsName f) (ss : List Secret) (j : ℕ)
      → find_secret name ss ≡ some j
      → secret_named other (modify_nth j f ss)
        ≡ (if name == other then Option.map f (secret_named other ss) else secret_named other ss)
  unfolding find_secret secret_named modify_nth
  secret_named-modify_nth other f k [] j h = ground arith
  secret_named-modify_nth other f k (s ∷ ss) zero h =
      ground (arith, k s, eq_iff s.name name, eq_iff name other, eq_iff s.name other)
  secret_named-modify_nth other f k (s ∷ ss) (suc j) h = ground (
    arith,
    secret_named-modify_nth other f k ss j,
    eq_iff s.name name,
    eq_iff name other,
    eq_iff s.name other,
  )

  secret_named-append :
      (other : String) (s : Secret) (ss : List Secret)
      → s.name ≡ name
      → find_secret name ss ≡ none
      → secret_named other (ss ++ s ∷ [])
        ≡ (if name == other then some s else secret_named other ss)
  unfolding find_secret secret_named
  secret_named-append other s [] e h = rw e refl
  secret_named-append other s (t ∷ ss) e h = ground (
    arith,
    secret_named-append other s ss e,
    eq_iff t.name name,
    eq_iff name other,
    eq_iff t.name other,
  )

module _ (namespace name : String) where
  find_pointer-zero :
      (n : Namespace) (ns : List Namespace) (j : ℕ)
      → find_pointer namespace name (n ∷ ns) ≡ some (zero, j)
      → (n.name ≡ namespace) × (find_secret name n.secrets ≡ some j)
  unfolding find_pointer
  find_pointer-zero n ns j h = ground (arith, eq_iff n.name namespace)

  find_pointer-suc :
      (n : Namespace) (ns : List Namespace) (i j : ℕ)
      → find_pointer namespace name (n ∷ ns) ≡ some (suc i, j)
      → (find_pointer namespace name ns ≡ some (i, j))
        × ((n.name ≢ namespace) ⊎ (find_secret name n.secrets ≡ none))
  unfolding find_pointer
  find_pointer-suc n ns i j h = ground (arith, eq_iff n.name namespace)

  pub secret_at-modify_nth :
      (namespace' name' : String) (f : Secret → Secret) (k : KeepsName f) (ns : List Namespace)
      (i j : ℕ)
      → find_pointer namespace name ns ≡ some (i, j)
      → secret_at namespace' name'
          (modify_nth i (λ n. record n { secrets = modify_nth j f n.secrets }) ns)
        ≡ (if namespace == namespace' && name == name'
            then Option.map f (secret_at namespace' name' ns)
            else secret_at namespace' name' ns)
  unfolding secret_at modify_nth
  secret_at-modify_nth namespace' name' f k [] i j h = unfold find_pointer in ground arith
  secret_at-modify_nth namespace' name' f k (n ∷ ns) zero j h =
      let (same, found) = find_pointer-zero n ns j h in
      let (s, here) = secret_named-some name n.secrets j found in
      elim (text_cases name name') [
        | inl e ↦ ground (
          arith,
          secret_named-modify_nth name name' f k n.secrets j,
          eq_iff n.name namespace',
          eq_iff namespace namespace',
          eq_iff name name',
        )
        | inr e ↦ ground (
          arith,
          secret_named-modify_nth name name' f k n.secrets j,
          eq_iff n.name namespace',
          eq_iff namespace namespace',
          eq_iff name name',
        )
      ]
  secret_at-modify_nth namespace' name' f k (n ∷ ns) (suc i) j h =
      let (later, passed) = find_pointer-suc n ns i j h in
      let ih = secret_at-modify_nth namespace' name' f k ns i j later in
      elim passed [
        | inl other ↦
            ground (arith, eq_iff n.name namespace', eq_iff namespace namespace', eq_iff name name')
        | inr lacking ↦ ground (
          arith,
          secret_named-none name n.secrets lacking,
          eq_iff n.name namespace',
          eq_iff namespace namespace',
          eq_iff name name',
        )
      ]

  pub secret_at-append_secret :
      (namespace' name' : String) (s : Secret) (ns : List Namespace)
      → s.name ≡ name
      → find_pointer namespace name ns ≡ none
      → secret_at namespace' name' (append_secret namespace s ns) ≡ (
          if namespace == namespace' && name == name'
          then some s
          else secret_at namespace' name' ns)
  unfolding find_pointer secret_at append_secret
  secret_at-append_secret namespace' name' s [] e h =
      ground (arith, eq_iff namespace namespace', eq_iff name name')
  secret_at-append_secret namespace' name' s (n ∷ ns) e h = ground (
    arith,
    secret_at-append_secret namespace' name' s ns e,
    secret_named-append name name' s n.secrets e,
    secret_named-none name n.secrets,
    eq_iff n.name namespace,
    eq_iff n.name namespace',
    eq_iff namespace namespace',
    eq_iff name name',
  )

  pub secret_at-none :
      (ns : List Namespace)
      → find_pointer namespace name ns ≡ none
      → secret_at namespace name ns ≡ none
  unfolding find_pointer secret_at
  secret_at-none [] h = refl
  secret_at-none (n ∷ ns) h = ground (arith, secret_at-none ns, secret_named-none name n.secrets)

  pub secret_at-some :
      (ns : List Namespace) (i j : ℕ)
      → find_pointer namespace name ns ≡ some (i, j)
      → (s : Secret) × (secret_at namespace name ns ≡ some s)
  unfolding secret_at
  secret_at-some [] i j h = unfold find_pointer in ground arith
  secret_at-some (n ∷ ns) zero j h =
      let (same, found) = find_pointer-zero n ns j h in
      let (s, here) = secret_named-some name n.secrets j found in
      (s, ground (arith, eq_iff n.name namespace))
  secret_at-some (n ∷ ns) (suc i) j h =
      let (later, passed) = find_pointer-suc n ns i j h in
      let (s, there) = secret_at-some ns i j later in
      elim passed [
        | inl other ↦ (s, ground (arith, eq_iff n.name namespace))
        | inr lacking ↦ (s, ground (arith, secret_named-none name n.secrets lacking))
      ]
