-- ===== src/ConfigData/Each.antt =====
-- What holds of every recorded secret, and the loop keeps.
use stale_secrets_check.Prelude.{
  String, List, [], ◌∷◌, All, All-append, Option-cases, Bool-cases, inl, inr, ◌==◌,
}
use stale_secrets_check.ConfigData.{
  Secret, Namespace, ConfigData, Reading, append_secret, update_or_append_secret_data,
  secret_data_exists, store_reading,
}
use stale_secrets_check.ConfigData.Kept.{store_all}
use stale_secrets_check.ConfigData.Names.{All-modify_nth}
use stale_secrets_check.ConfigData.Valid.{added, rewrite, store_reading-new, store_reading-old}

module _ (P : Secret → Type 0) where
  abbrev pub EachSecret : List Namespace → Type 0
  EachSecret ns = All (λ n. All P n.secrets) ns

  -- A reading that makes and keeps such secrets.
  abbrev pub Fits : Reading → Type 0
  Fits r =
      P (added r)
      × ((s : Secret) → P s → P (update_or_append_secret_data r.new_hash r.last_modified s))

  append_secret-EachSecret :
      (namespace : String) (s : Secret) (ns : List Namespace)
      → P s
      → EachSecret ns
      → EachSecret (append_secret namespace s ns)
  unfolding append_secret
  append_secret-EachSecret namespace s [] p h = ((p, tt), tt)
  append_secret-EachSecret namespace s (n ∷ ns) p (q, h) = elim (Bool-cases (n.name == namespace)) [
    | inl same ↦ rw same (All-append P n.secrets (s ∷ []) q (p, tt), h)
    | inr other ↦ rw other (q, append_secret-EachSecret namespace s ns p h)
  ]

  store_reading-EachSecret :
      (r : Reading) (c : ConfigData)
      → Fits r
      → EachSecret c.namespaces
      → EachSecret (store_reading r c).0.namespaces
  store_reading-EachSecret r c (new, kept) h =
      elim (Option-cases (secret_data_exists c r.namespace r.name)) [
        | inl absent ↦
            rw (store_reading-new r c absent)
              (append_secret-EachSecret r.namespace (added r) c.namespaces new h)
        | inr ((i, j), old) ↦ rw (store_reading-old r c i j old) (
            All-modify_nth (λ n. All P n.secrets) i (rewrite r j) c.namespaces
              (λ n p.
                All-modify_nth P j (update_or_append_secret_data r.new_hash r.last_modified)
                  n.secrets kept p)
              h)
      ]

  -- Any number of readings that make and keep secrets with P keep that all recorded secrets have P.
  pub store_all-EachSecret :
      (rs : List Reading) (c : ConfigData)
      → All Fits rs
      → EachSecret c.namespaces
      → EachSecret (store_all rs c).namespaces
  store_all-EachSecret [] c fits h = h
  store_all-EachSecret (r ∷ rs) c (fit, fits) h =
      store_all-EachSecret rs (store_reading r c).0 fits (store_reading-EachSecret r c fit h)
