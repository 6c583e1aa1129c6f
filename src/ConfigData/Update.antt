-- ===== src/ConfigData/Update.antt =====
-- One round of the loop of calculateAndStoreHashedSecrets, on the view of the ConfigData.
use stale_secrets_check.Prelude.{
  String, ◌≡◌, refl, Option, none, some, arith, ◌==◌, eq_iff, Option-cases, inl, inr, if◌then◌else◌,
  ◌&&◌,
}
use stale_secrets_check.ConfigData.{
  Secret, ConfigData, Reading, new_secret, update_or_append_secret_data, secret_data_exists,
  store_reading,
}
use stale_secrets_check.ConfigData.View.{
  view, KeepsName, secret_at-modify_nth, secret_at-append_secret, secret_at-none, secret_at-some,
}

-- The record that a secret has after a reading, by the record that it had.
abbrev pub touched : Reading → Option Secret → Secret
touched r none = new_secret r.name r.new_hash r.created r.last_modified r.secret_type
touched r (some s) = update_or_append_secret_data r.new_hash r.last_modified s

module _ (r : Reading) (config : ConfigData) where
  update-KeepsName : KeepsName (update_or_append_secret_data r.new_hash r.last_modified)
  unfolding update_or_append_secret_data
  update-KeepsName s = refl

  -- After a reading the record of that secret is the touched one, and every other secret's record,
  -- in whichever namespace, is what it was.
  pub view-store_reading :
      (namespace name : String)
      → view (store_reading r config).0 namespace name ≡ (
          if r.namespace == namespace && r.name == name
          then some (touched r (view config namespace name))
          else view config namespace name)
  unfolding store_reading view
  view-store_reading namespace name =
      elim (Option-cases (secret_data_exists config r.namespace r.name)) [
        | inl new ↦ ground (
          arith,
          eq_iff r.namespace namespace,
          eq_iff r.name name,
          secret_at-none r.namespace r.name config.namespaces new,
          secret_at-append_secret r.namespace r.name namespace name
              (new_secret r.name r.new_hash r.created r.last_modified r.secret_type)
              config.namespaces refl new,
        )
        | inr ((i, j), old) ↦
            let (s, here) = secret_at-some r.namespace r.name config.namespaces i j old in
            ground (
              arith,
              eq_iff r.namespace namespace,
              eq_iff r.name name,
              secret_at-modify_nth r.namespace r.name namespace name
                  (update_or_append_secret_data r.new_hash r.last_modified) update-KeepsName
                  config.namespaces i j old,
            )
      ]
