-- ===== src/ConfigData/Hashes.antt =====
-- The history of a secret under updateOrAppendSecretData.
use stale_secrets_check.Prelude.{
  String, ◌≡◌, refl, true, false, List, [], ◌∷◌, ◌++◌, map, arith, ◌==◌, eq_iff, eq_refl,
  Bool-cases, inl, inr, ◌⊎◌, In, ◌↔◌, ◌||◌,
}
use stale_secrets_check.ConfigData.{History, Secret, has_hash, update_or_append_secret_data}

abbrev pub hashes : Secret → List String
hashes s = map (λ h. h.data_hash) s.history

-- No hash stands twice in a history.
abbrev pub NoRepeats : List History → Type 0
NoRepeats [] = Unit
NoRepeats (h ∷ hs) = (has_hash h.data_hash hs ≡ false) × NoRepeats hs

pub has_hash_iff :
    (h : String) (hs : List History) → (has_hash h hs ≡ true) ↔ In h (map (λ x. x.data_hash) hs)
unfolding has_hash
has_hash_iff h [] = ground arith
has_hash_iff h (x ∷ hs) = ground (arith, eq_iff x.data_hash h, has_hash_iff h hs)

has_hash-append :
    (h k : String) (hs : List History)
    → has_hash h (hs ++ record { data_hash = k } ∷ []) ≡ (has_hash h hs || k == h)
unfolding has_hash
has_hash-append h k [] = ground arith
has_hash-append h k (x ∷ hs) = ground (arith, has_hash-append h k hs)

NoRepeats-append :
    (k : String) (hs : List History)
    → has_hash k hs ≡ false
    → NoRepeats hs
    → NoRepeats (hs ++ record { data_hash = k } ∷ [])
unfolding has_hash
NoRepeats-append k [] new n = ground arith
NoRepeats-append k (x ∷ hs) new n = ground (
  arith,
  NoRepeats-append k hs,
  has_hash-append x.data_hash k hs,
  eq_iff k x.data_hash,
  eq_iff x.data_hash k,
)

pub has_hash-update :
    (new_hash last_modified : String) (s : Secret)
    → has_hash new_hash (update_or_append_secret_data new_hash last_modified s).history ≡ true
unfolding update_or_append_secret_data
has_hash-update new_hash last_modified s =
    ground (arith, has_hash-append new_hash new_hash s.history, eq_refl new_hash)

pub has_hash-kept :
    (new_hash last_modified : String) (s : Secret) (h : String)
    → has_hash h s.history ≡ true
    → has_hash h (update_or_append_secret_data new_hash last_modified s).history ≡ true
unfolding update_or_append_secret_data
has_hash-kept new_hash last_modified s h k = ground (arith, has_hash-append h new_hash s.history)

module _ (new_hash last_modified : String) (s : Secret) where
  -- For a history that repeats no hash: the new hash is in the history, the old history is its beginning with at most one entry behind
  -- it, no hash is repeated, and the time is the new one.
  pub update_lem :
      NoRepeats s.history
      → let s' = update_or_append_secret_data new_hash last_modified s in
        (has_hash new_hash s'.history ≡ true)
        × (s'.history ≡ s.history ⊎ s'.history ≡ s.history ++ record { data_hash = new_hash } ∷ [])
        × NoRepeats s'.history
        × (s'.last_modified ≡ last_modified)
  unfolding update_or_append_secret_data
  update_lem n = elim (Bool-cases (has_hash new_hash s.history)) [
    | inl old ↦ rw old (old, inl refl, n, refl)
    | inr new ↦
        let now = has_hash-append new_hash new_hash s.history in
        let kept = NoRepeats-append new_hash s.history new n in
        rw new (ground (arith, now, eq_refl new_hash), inr refl, kept, refl)
  ]

  -- A second reading of the same data changes nothing.
  pub update_idempotent :
      let once = update_or_append_secret_data new_hash last_modified s in
      update_or_append_secret_data new_hash last_modified once ≡ once
  unfolding update_or_append_secret_data
  update_idempotent = ground (arith, has_hash-append new_hash new_hash s.history, eq_refl new_hash)
