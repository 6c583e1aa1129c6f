-- ===== src/Maps.antt =====
-- Go maps from strings, as their entries: the reading and the assignment of a key.
use stale_secrets_check.Prelude.{String, Option, none, some, [], ◌∷◌, ◌==◌, if◌then◌else◌}
use stale_secrets_check.Api.{GoMap}

module _ {ℓ} {V : Type ℓ} where
  -- v, ok := m[key]
  unfoldable pub lookup : String → GoMap V → Option V
  lookup key [] = none
  lookup key (entry ∷ others) = if entry.0 == key then some entry.1 else lookup key others

  -- m[key] = value; a new key stands at the end
  unfoldable pub insert : String → V → GoMap V → GoMap V
  insert key value [] = (key, value) ∷ []
  insert key value (entry ∷ others) =
      let rest = insert key value others in
      if entry.0 == key then (entry.0, value) ∷ others else entry ∷ rest
