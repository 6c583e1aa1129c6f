-- ===== src/ConfigData/Kept.antt =====
-- What any number of rounds of the loop keep and add.
use stale_secrets_check.Prelude.{
  String, true, ◌≡◌, some, none, List, [], ◌∷◌, In, arith, ◌==◌, eq_refl, Bool-cases, Option-cases,
  inl, inr, ◌&&◌,
}
use stale_secrets_check.ConfigData.{Secret, ConfigData, Reading, has_hash, store_reading}
use stale_secrets_check.ConfigData.View.{view}
use stale_secrets_check.ConfigData.Update.{touched, view-store_reading}
use stale_secrets_check.ConfigData.Hashes.{has_hash-update, has_hash-kept}

-- the readings, one after the other
abbrev pub store_all : List Reading → ConfigData → ConfigData
store_all [] c = c
store_all (r ∷ rs) c = store_all rs (store_reading r c).0

-- A secret has the hash on record.
abbrev pub Has : ConfigData → String → String → String → Type 0
Has c namespace name h =
    (s : Secret) × (view c namespace name ≡ some s) × (has_hash h s.history ≡ true)

store_reading-Has :
    (r : Reading) (c : ConfigData) → Has (store_reading r c).0 r.namespace r.name r.new_hash
unfolding has_hash
store_reading-Has r c =
    let v = view-store_reading r c r.namespace r.name in
    elim (Option-cases (view c r.namespace r.name)) [
      | inl new ↦ (
        touched r none,
        ground (arith, eq_refl r.namespace, eq_refl r.name),
        ground (arith, eq_refl r.new_hash),
      )
      | inr (s, old) ↦ (
        touched r (some s),
        ground (arith, eq_refl r.namespace, eq_refl r.name),
        has_hash-update r.new_hash r.last_modified s,
      )
    ]

store_reading-Has_still :
    (r : Reading) (c : ConfigData) (namespace name h : String)
    → Has c namespace name h
    → Has (store_reading r c).0 namespace name h
store_reading-Has_still r c namespace name h (s, there, has) =
    let v = view-store_reading r c namespace name in
    elim (Bool-cases (r.namespace == namespace && r.name == name)) [
      | inl same ↦
          (touched r (some s), ground arith, has_hash-kept r.new_hash r.last_modified s h has)
      | inr other ↦ (s, ground arith, has)
    ]

-- Whatever the readings, no hash that was on record for a secret is lost.
pub store_all-Has :
    (rs : List Reading) (c : ConfigData) (namespace name h : String)
    → Has c namespace name h
    → Has (store_all rs c) namespace name h
store_all-Has [] c namespace name h k = k
store_all-Has (r ∷ rs) c namespace name h k =
    store_all-Has rs (store_reading r c).0 namespace name h
      (store_reading-Has_still r c namespace name h k)

-- Of every reading that was stored, the hash is on record for its secret.
pub store_all-Has_new :
    (rs : List Reading) (c : ConfigData) (r : Reading)
    → In r rs
    → Has (store_all rs c) r.namespace r.name r.new_hash
store_all-Has_new [] c r h = absurd h
store_all-Has_new (q ∷ rs) c r (inl e) =
    rw e
      (store_all-Has rs (store_reading q c).0 q.namespace q.name q.new_hash (store_reading-Has q c))
store_all-Has_new (q ∷ rs) c r (inr h) = store_all-Has_new rs (store_reading q c).0 r h
