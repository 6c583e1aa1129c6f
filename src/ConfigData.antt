-- ===== src/ConfigData.antt =====
-- internal/controller/configmap_structure.go, and the functions of
-- internal/controller/stalesecretwatch_controller.go that look up and change a ConfigData:
-- updateOrAppendSecretData, secretDataExists, addSecretData, and the body of the inner loop of
-- calculateAndStoreHashedSecrets, which chooses between them.
pub mod View
pub mod Update
pub mod Hashes
pub mod Kept
pub mod Order
pub mod Each
pub mod Names
pub mod Valid
mod Tests
use stale_secrets_check.Prelude.{
  ℕ, zero, suc, String, Bool, Option, none, some, List, [], ◌∷◌, ◌++◌, any, ◌==◌, if◌then◌else◌,
}

-- History.Data is the hash of a secret's data, in hexadecimal.
pub record History : Type 0 where
  pub data_hash : String

pub record Secret : Type 0 where
  pub name : String
  pub created : String
  pub last_modified : String
  pub history : List History
  pub type : String

pub record Namespace : Type 0 where
  pub name : String
  pub secrets : List Secret

pub record ConfigData : Type 0 where
  pub namespaces : List Namespace

abbrev pub empty : ConfigData
empty = record { namespaces = [] }

-- the loop of updateOrAppendSecretData over the history
unfoldable pub has_hash : String → List History → Bool
has_hash h hs = any (λ x. x.data_hash == h) hs

unfoldable pub update_or_append_secret_data : String → String → Secret → Secret
unfolding has_hash
update_or_append_secret_data new_hash last_modified secret = record secret {
  history =
      if has_hash new_hash secret.history
      then secret.history
      else secret.history ++ record { data_hash = new_hash } ∷ [];
  last_modified = last_modified;
}

-- A pointer into a ConfigData: the position of the namespace, and in it of the secret.
abbrev pub Pointer : Type 0
Pointer = ℕ × ℕ

-- the inner loop of secretDataExists
unfoldable pub find_secret : String → List Secret → Option ℕ
find_secret name [] = none
find_secret name (s ∷ ss) =
    if s.name == name
    then some zero
    else elim (find_secret name ss) [ none ↦ none | some j ↦ some (suc j) ]

-- The outer loop goes on after a namespace of the right name that lacks the secret.
unfoldable pub find_pointer : String → String → List Namespace → Option Pointer
unfolding find_secret
find_pointer namespace name [] = none
find_pointer namespace name (n ∷ ns) =
    let rest : Option Pointer = elim (find_pointer namespace name ns) [
      | none ↦ none
      | some (i, j) ↦ some (suc i, j)
    ] in
    if n.name == namespace
    then elim (find_secret name n.secrets) [ some j ↦ some (zero, j) | none ↦ rest ]
    else rest

unfoldable pub secret_data_exists : ConfigData → String → String → Option Pointer
unfolding find_pointer
secret_data_exists config namespace name = find_pointer namespace name config.namespaces

-- a write through an index, and through a pointer
unfoldable pub modify_nth {ℓ} : {A : Type ℓ} → ℕ → (A → A) → List A → List A
modify_nth i f [] = []
modify_nth zero f (x ∷ xs) = f x ∷ xs
modify_nth (suc i) f (x ∷ xs) = x ∷ modify_nth i f xs

unfoldable pub modify_secret : Pointer → (Secret → Secret) → ConfigData → ConfigData
unfolding modify_nth
modify_secret (i, j) f config = record config {
  namespaces =
      modify_nth i (λ n. record n { secrets = modify_nth j f n.secrets }) config.namespaces;
}

-- the loop of addSecretData: the first namespace of that name, or else a new one at the end
unfoldable pub append_secret : String → Secret → List Namespace → List Namespace
append_secret namespace s [] = record { name = namespace; secrets = s ∷ [] } ∷ []
append_secret namespace s (n ∷ ns) =
    if n.name == namespace
    then record n { secrets = n.secrets ++ s ∷ [] } ∷ ns
    else n ∷ append_secret namespace s ns

abbrev pub new_secret : String → String → String → String → String → Secret
new_secret name new_hash created last_modified secret_type = record {
  name = name;
  created = created;
  last_modified = last_modified;
  history = record { data_hash = new_hash } ∷ [];
  type = secret_type;
}

unfoldable pub add_secret_data :
    ConfigData → String → String → String → String → String → String → ConfigData
unfolding append_secret
add_secret_data config namespace name new_hash created last_modified secret_type = record config {
  namespaces =
      append_secret namespace (new_secret name new_hash created last_modified secret_type)
        config.namespaces;
}

-- What the loop has read of one secret of the cluster.
pub record Reading : Type 0 where
  pub namespace : String
  pub name : String
  pub new_hash : String
  pub created : String
  pub last_modified : String
  pub secret_type : String

-- The choice that the loop makes for one secret; `true` says that it had an entry.
unfoldable pub store_reading : Reading → ConfigData → ConfigData × Bool
unfolding secret_data_exists modify_secret add_secret_data update_or_append_secret_data
store_reading r config = elim (secret_data_exists config r.namespace r.name) [
  | some p ↦
      (modify_secret p (update_or_append_secret_data r.new_hash r.last_modified) config, Bool.true)
  | none ↦ (
    add_secret_data config r.namespace r.name r.new_hash r.created r.last_modified r.secret_type,
    Bool.false,
  )
]
