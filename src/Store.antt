-- ===== src/Store.antt =====
-- The ConfigMap of hashes: calculateAndStoreHashedSecrets, createOrUpdateConfigMap,
-- configMapForStaleSecretWatch and getSecret of internal/controller/stalesecretwatch_controller.go.
pub mod Readings
pub mod Written
pub mod Faithful
pub mod Reports
pub mod Recorded
mod Tests
use stale_secrets_check.Prelude.{
  String, Bool, true, false, Option, none, some, List, [], ◌∷◌, if◌then◌else◌, ap,
}
use stale_secrets_check.Api.{
  GoMap, NamespacedName, ObjectMeta, StaleSecretWatch, ConfigMap, KubeSecret, key_of,
}
use stale_secrets_check.Exec.{
  Error, Fallible, ok, err, Exec, ask, act, pure, and_then, record_event, create_config_map,
  update_config_map, ◌>>=◌, ◌>>◌,
}
use stale_secrets_check.Strings.{concat}
use stale_secrets_check.Hash.{calculate_hash, bytes_at}
use stale_secrets_check.ConfigData.{ConfigData, Reading, empty, store_reading}
use stale_secrets_check.Cluster.{System}
use stale_secrets_check.Clock.{zero_time}
use stale_secrets_check.Utils.{
  errorf, retrieve_modified_time, labels_for_stale_secret_watch_config_map,
}

abbrev pub config_map_name : String
config_map_name = "hashed-secrets-stalesecretwatch"

abbrev pub config_map_key : NamespacedName
config_map_key = record { name = config_map_name; namespace = "default" }

abbrev pub empty_meta : ObjectMeta
empty_meta = record {
  name = "";
  namespace = "";
  resource_version = "";
  labels = [];
  annotations = none;
  finalizers = [];
  creation_timestamp = zero_time;
  deletion_timestamp = none;
  managed_fields = [];
}

abbrev pub empty_config_map : ConfigMap
empty_config_map = record { meta = empty_meta; string_data = []; binary_data = [] }

-- the event of a secret, by whether it had an entry
abbrev pub reading_reason : Bool → String
reading_reason true = "SecretUpdated"
reading_reason false = "SecretAdded"

abbrev pub reading_message : Bool → String → String → String
reading_message true ns name = concat ("Updated existing secret data: " ∷ ns ∷ "/" ∷ name ∷ [])
reading_message false ns name = concat ("Added new secret data: " ∷ ns ∷ "/" ∷ name ∷ [])

module _ {W : Type 0} (y : System W) where
  unfoldable pub config_map_for_stale_secret_watch : StaleSecretWatch → Fallible ConfigMap
  unfolding labels_for_stale_secret_watch_config_map
  config_map_for_stale_secret_watch ssw = y.set_controller_reference ssw (record {
    meta = record empty_meta {
      name = config_map_name;
      namespace = "default";
      labels = labels_for_stale_secret_watch_config_map ssw.meta.name;
    };
    string_data = [];
    binary_data = [];
  })

  unfoldable pub get_secret : String → String → Exec W (Fallible KubeSecret)
  get_secret ns name = ask (y.get_secret (record { name = name; namespace = ns }))

  abbrev pub created_or : ConfigMap × Option Error → Exec W (ConfigMap × Option Error)
  created_or (cm, none) = pure (cm, none)
  created_or (cm, some e) = do e' ← errorf y "failed to create ConfigMap: " e; pure (cm, some e')

  abbrev pub updated_or : ConfigMap → ConfigMap × Option Error → Exec W (ConfigMap × Option Error)
  updated_or cm (found, none) = pure (cm, none)
  updated_or cm (found, some e) = do
    e' ← errorf y "failed to update ConfigMap: " e
    pure (cm, some e')

  -- the branches behind the read in createOrUpdateConfigMap
  unfoldable pub create_or_update_found :
      ConfigMap → ConfigMap × Option Error → Exec W (ConfigMap × Option Error)
  create_or_update_found cm (found, none) =
      let found' = record found { binary_data = cm.binary_data } in
      act (update_config_map found') (y.update_config_map found') >>= updated_or cm
  create_or_update_found cm (found, some e) =
      if y.is_not_found e
      then act (create_config_map cm) (y.create_config_map cm) >>= created_or
      else (do e' ← errorf y "failed to check if ConfigMap exists: " e; pure (cm, some e'))

  -- The object that is given comes back, since Create may write to it.
  unfoldable pub create_or_update_config_map : ConfigMap → Exec W (ConfigMap × Option Error)
  unfolding create_or_update_found
  create_or_update_config_map cm =
      ask (y.get_config_map (key_of cm.meta) empty_config_map) >>= create_or_update_found cm

  -- the data that the ConfigMap held, by how it was read
  unfoldable pub load_config : ConfigMap → Option Error → Exec W (Fallible ConfigData)
  load_config cm none = elim (bytes_at "data" cm.binary_data) [
    | [] ↦ pure (ok empty)
    | b ∷ bs ↦ elim (y.unmarshal_config (bytes_at "data" cm.binary_data)) [
      | ok config ↦ pure (ok config)
      | err e ↦ do e' ← errorf y "failed to decode ConfigMap data: " e; pure (err e')
    ]
  ]
  load_config cm (some e) =
      if y.is_not_found e
      then pure (ok empty)
      else (do e' ← errorf y "failed to get ConfigMap: " e; pure (err e'))

  abbrev pub reading_of : String → String → KubeSecret → String → Reading
  reading_of ns name secret last_modified = record {
    namespace = ns;
    name = name;
    new_hash = calculate_hash y.sha256_hex secret.secret_data;
    created = y.format_rfc3339 secret.meta.creation_timestamp;
    last_modified = last_modified;
    secret_type = secret.type;
  }

  -- the event behind storing a reading
  unfoldable pub store_and_record :
      NamespacedName → Reading → ConfigData → Exec W (Fallible (ConfigData × Bool))
  store_and_record cm r config = do
    let stored = store_reading r config
    record_event cm "Normal" (reading_reason stored.1) (reading_message stored.1 r.namespace r.name)
    pure (ok (stored.0, true))

  -- one round of the inner loop, for a secret as it was got
  unfoldable pub store_secret :
      NamespacedName
      → String
      → String
      → ConfigData
      → Fallible KubeSecret
      → Exec W (Fallible (ConfigData × Bool))
  unfolding retrieve_modified_time store_and_record
  store_secret cm ns name config (err e) = do
    e' ← errorf y (concat ("failed to get secret " ∷ name ∷ " in namespace " ∷ ns ∷ ": " ∷ [])) e
    pure (err e')
  store_secret cm ns name config (ok secret) = do
    last_modified ← retrieve_modified_time y secret.meta
    store_and_record cm (reading_of ns name secret last_modified) config

  -- The loops. The flag says whether there was a round.
  unfoldable pub store_secrets :
      NamespacedName
      → String
      → List String
      → ConfigData × Bool
      → Exec W (Fallible (ConfigData × Bool))
  unfolding get_secret store_secret
  store_secrets cm ns [] acc = pure (ok acc)
  store_secrets cm ns (name ∷ names) (config, updated) = do
    got ← get_secret ns name
    store_secret cm ns name config got >>= and_then (store_secrets cm ns names)

  unfoldable pub store_namespaces :
      NamespacedName
      → GoMap (List String)
      → ConfigData × Bool
      → Exec W (Fallible (ConfigData × Bool))
  unfolding store_secrets
  store_namespaces cm [] acc = pure (ok acc)
  store_namespaces cm ((ns, names) ∷ m) acc =
      store_secrets cm ns names acc >>= and_then (store_namespaces cm m)

  -- behind createOrUpdateConfigMap
  unfoldable pub report_written : ConfigMap × Option Error → Exec W (ConfigMap × Option Error)
  report_written (cm, some e) = do
    e' ← errorf y "failed to create or update ConfigMap: " e
    pure (cm, some e')
  report_written (cm, none) = do
    record_event (key_of cm.meta) "Normal" "ConfigMapUpdated" "ConfigMap updated successfully"
    pure (cm, none)

  -- behind the loops
  unfoldable pub write_config :
      ConfigMap → Fallible (ConfigData × Bool) → Exec W (ConfigMap × Option Error)
  unfolding create_or_update_config_map report_written
  write_config cm (err e) = pure (cm, some e)
  write_config cm (ok (config, false)) = do
    record_event (key_of cm.meta) "Normal" "NoUpdateNeeded" "No updates made to ConfigMap"
    pure (cm, none)
  write_config cm (ok (config, true)) = elim (y.marshal_config config) [
    | err e ↦ do e' ← errorf y "failed to encode ConfigData to JSON: " e; pure (cm, some e')
    | ok json ↦
        create_or_update_config_map (record cm { binary_data = ("data", json) ∷ [] })
        >>= report_written
  ]

  unfoldable pub hash_secrets :
      NamespacedName
      → GoMap (List String)
      → Fallible ConfigData
      → Exec W (Fallible (ConfigData × Bool))
  unfolding store_namespaces
  hash_secrets cm secrets_to_watch (err e) = pure (err e)
  hash_secrets cm secrets_to_watch (ok config) = do
    entries ← ask (y.range_order secrets_to_watch)
    store_namespaces cm entries (config, false)

  unfoldable pub calculate_and_store_hashed_secrets :
      GoMap (List String) → ConfigMap → Exec W (ConfigMap × Option Error)
  unfolding load_config hash_secrets write_config
  calculate_and_store_hashed_secrets secrets_to_watch cm0 = do
    got ← ask (y.get_config_map (key_of cm0.meta) cm0)
    loaded ← load_config got.0 got.1
    stored ← hash_secrets (key_of got.0.meta) secrets_to_watch loaded
    write_config got.0 stored
