-- ===== src/ConfigData/Valid.antt =====
-- The well-formedness of a ConfigData, and that the operations keep it.
use stale_secrets_check.Prelude.{
  Distinct, ℕ, String, ◌≡◌, ◌≢◌, refl, none, List, [], ◌∷◌, ◌++◌, arith, ◌==◌, eq_iff, Option-cases,
  some, inl, inr, All, Bool-cases,
}
use mathlib.Core.Bool.{true, false≢true}
use stale_secrets_check.ConfigData.{
  History, Secret, Namespace, ConfigData, Reading, new_secret, has_hash,
  update_or_append_secret_data, find_secret, find_pointer, secret_data_exists, modify_nth,
  append_secret, store_reading,
}
use stale_secrets_check.ConfigData.Hashes.{NoRepeats, update_lem}
use stale_secrets_check.ConfigData.Names.{
  All-modify_nth, Distinct-modify_nth, All-append_one, Distinct-append_one,
}

pub record IsValidSecret (s : Secret) : Type 0 where
  pub nonempty : s.history ≢ []
  pub no_repeats : NoRepeats s.history

pub record IsValidNamespace (n : Namespace) : Type 0 where
  pub distinct : Distinct (λ s. s.name) n.secrets
  pub secrets : All IsValidSecret n.secrets

-- Namespaces have distinct names, the secrets of each have distinct names, and every history has
-- a hash and repeats none.
pub record IsValid (c : ConfigData) : Type 0 where
  pub distinct : Distinct (λ n. n.name) c.namespaces
  pub namespaces : All IsValidNamespace c.namespaces

find_secret-none :
    (name : String) (ss : List Secret) → find_secret name ss ≡ none → All (λ s. s.name ≢ name) ss
unfolding find_secret
find_secret-none name [] h = tt
find_secret-none name (s ∷ ss) h = ground (arith, eq_iff s.name name, find_secret-none name ss)

module _ (namespace name : String) where
  find_pointer-here :
      (n : Namespace) (ns : List Namespace)
      → find_pointer namespace name (n ∷ ns) ≡ none
      → n.name ≡ namespace
      → find_secret name n.secrets ≡ none
  unfolding find_pointer
  find_pointer-here n ns h e = ground (arith, eq_iff n.name namespace)

  find_pointer-later :
      (n : Namespace) (ns : List Namespace)
      → find_pointer namespace name (n ∷ ns) ≡ none
      → find_pointer namespace name ns ≡ none
  unfolding find_pointer
  find_pointer-later n ns h = ground (arith, eq_iff n.name namespace)

All-append_secret :
    (namespace other : String) (s : Secret) (ns : List Namespace)
    → namespace ≢ other
    → All (λ n. n.name ≢ other) ns
    → All (λ n. n.name ≢ other) (append_secret namespace s ns)
unfolding append_secret
All-append_secret namespace other s [] ne h = (ne, tt)
All-append_secret namespace other s (n ∷ ns) ne h =
    ground (arith, eq_iff n.name namespace, All-append_secret namespace other s ns ne)

Distinct-append_secret :
    (namespace : String) (s : Secret) (ns : List Namespace)
    → Distinct (λ n. n.name) ns
    → Distinct (λ n. n.name) (append_secret namespace s ns)
unfolding append_secret
Distinct-append_secret namespace s [] d = (tt, tt)
Distinct-append_secret namespace s (n ∷ ns) d = ground (
  arith,
  eq_iff n.name namespace,
  Distinct-append_secret namespace s ns,
  All-append_secret namespace n.name s ns,
)

valid_append :
    (namespace : String) (s : Secret) (n : Namespace)
    → IsValidSecret s
    → find_secret s.name n.secrets ≡ none
    → IsValidNamespace n
    → IsValidNamespace (record n { secrets = n.secrets ++ s ∷ [] })
valid_append namespace s n p new v = record {
  distinct =
      Distinct-append_one (λ s. s.name) s n.secrets (find_secret-none s.name n.secrets new)
        v.distinct;
  secrets = All-append_one (λ s. s.name) IsValidSecret s n.secrets v.secrets p;
}

namespaces-append_secret :
    (namespace : String) (s : Secret) (ns : List Namespace)
    → IsValidSecret s
    → find_pointer namespace s.name ns ≡ none
    → All IsValidNamespace ns
    → All IsValidNamespace (append_secret namespace s ns)
unfolding append_secret
namespaces-append_secret namespace s [] p new h =
    (record { distinct = (tt, tt); secrets = (p, tt) }, tt)
namespaces-append_secret namespace s (n ∷ ns) p new (v, h) =
    elim (Bool-cases (n.name == namespace)) [
      | inl same ↦ rw same (
        valid_append namespace s n p
            (find_pointer-here namespace s.name n ns new ((eq_iff _ _).0 same)) v,
        h,
      )
      | inr other ↦ rw other (
        v,
        namespaces-append_secret namespace s ns p (find_pointer-later namespace s.name n ns new) h,
      )
    ]

name-update : (h m : String) (s : Secret) → (update_or_append_secret_data h m s).name ≡ s.name
unfolding update_or_append_secret_data
name-update h m s = refl

has_hash-nonempty : (h : String) (hs : List History) → has_hash h hs ≡ true → hs ≢ []
unfolding has_hash
has_hash-nonempty h [] e = absurd (false≢true e)
has_hash-nonempty h (x ∷ hs) e = λ p. cc

update-IsValidSecret :
    (h m : String) (s : Secret)
    → IsValidSecret s
    → IsValidSecret (update_or_append_secret_data h m s)
update-IsValidSecret h m s v =
    let (has, _, kept, _) = update_lem h m s v.no_repeats in
    record { nonempty = λ e. has_hash-nonempty h _ has e; no_repeats = kept }

abbrev pub added : Reading → Secret
added r = new_secret r.name r.new_hash r.created r.last_modified r.secret_type

added-IsValidSecret : (r : Reading) → IsValidSecret (added r)
unfolding has_hash
added-IsValidSecret r = record { nonempty = λ e. cc; no_repeats = (refl, tt) }

abbrev pub rewrite : Reading → ℕ → Namespace → Namespace
rewrite r j n = record n {
  secrets = modify_nth j (update_or_append_secret_data r.new_hash r.last_modified) n.secrets;
}

rewrite-IsValidNamespace :
    (r : Reading) (j : ℕ) (n : Namespace) → IsValidNamespace n → IsValidNamespace (rewrite r j n)
rewrite-IsValidNamespace r j n v =
    let update = update_or_append_secret_data r.new_hash r.last_modified in
    record {
      distinct =
          Distinct-modify_nth (λ s. s.name) j update n.secrets
            (name-update r.new_hash r.last_modified) v.distinct;
      secrets =
          All-modify_nth IsValidSecret j update n.secrets
            (update-IsValidSecret r.new_hash r.last_modified) v.secrets;
    }

pub store_reading-new :
    (r : Reading) (c : ConfigData)
    → secret_data_exists c r.namespace r.name ≡ none
    → (store_reading r c).0
      ≡ record c { namespaces = append_secret r.namespace (added r) c.namespaces }
unfolding store_reading
store_reading-new r c h = ground arith

pub store_reading-old :
    (r : Reading) (c : ConfigData) (i j : ℕ)
    → secret_data_exists c r.namespace r.name ≡ some (i, j)
    → (store_reading r c).0 ≡ record c { namespaces = modify_nth i (rewrite r j) c.namespaces }
unfolding store_reading
store_reading-old r c i j h = ground arith

-- One round of the loop keeps a ConfigData well-formed.
pub store_reading-IsValid :
    (r : Reading) (c : ConfigData) → IsValid c → IsValid (store_reading r c).0
unfolding secret_data_exists
store_reading-IsValid r c v = elim (Option-cases (secret_data_exists c r.namespace r.name)) [
  | inl new ↦ rw (store_reading-new r c new) (record {
    distinct = Distinct-append_secret r.namespace (added r) c.namespaces v.distinct;
    namespaces =
        namespaces-append_secret r.namespace (added r) c.namespaces (added-IsValidSecret r) new
          v.namespaces;
  })
  | inr ((i, j), old) ↦ rw (store_reading-old r c i j old) (record {
    distinct =
        Distinct-modify_nth (λ n. n.name) i (rewrite r j) c.namespaces (λ n. refl) v.distinct;
    namespaces =
        All-modify_nth IsValidNamespace i (rewrite r j) c.namespaces (rewrite-IsValidNamespace r j)
          v.namespaces;
  })
]
