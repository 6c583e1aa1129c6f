-- ===== src/Controller/Safety/Storing.antt =====
-- The effects of prepareWatchList and of calculateAndStoreHashedSecrets.
use stale_secrets_check.Prelude.{
  some, get_last?, String, Bool, Option, none, some, List, [], ◌∷◌, ◌≡◌, refl, ◌∙◌, arith, inl, inr,
}
use stale_secrets_check.Api.{
  GoMap, NamespacedName, StaleSecretWatch, ConfigMap, KubeSecret, ExcludeList, key_of,
}
use stale_secrets_check.Exec.{Error, Fallible, ok, err, Fallible-cases, and_then, ◌>>=◌}
use stale_secrets_check.Exec.Keeps.{Keeps, bind-Keeps, ask_bind-Keeps, and_then-Keeps}
use stale_secrets_check.ConfigData.{ConfigData}
use stale_secrets_check.Cluster.{System}
use stale_secrets_check.WatchList.{
  namespaces_to_watch, watch_namespaces, watch_secrets, announce, watch_wanted, prepare_watch_list,
}
use stale_secrets_check.Store.{
  config_map_key, empty_config_map, create_or_update_found, create_or_update_config_map,
  load_config, store_secret, store_secrets, store_namespaces, write_config, report_written,
  hash_secrets, calculate_and_store_hashed_secrets,
}
use stale_secrets_check.Controller.Safety.{IsAllowed, IsLawful, PanicsOnly}

module _ {W : Type 0} (y : System W) {Z : Type 0} (only : PanicsOnly y Z) where
  namespaces_to_watch-Keeps :
      (ssw : StaleSecretWatch) → Keeps IsAllowed Z (namespaces_to_watch y ssw)
  unfolding namespaces_to_watch
  namespaces_to_watch-Keeps ssw s p = ground arith

  watch_namespaces-Keeps :
      (entries : List ExcludeList) (nss : List String) (m : GoMap (List String))
      → Keeps IsAllowed Z (watch_namespaces y entries nss m)
  unfolding watch_namespaces
  watch_namespaces-Keeps entries [] m s p = (tt, p)
  watch_namespaces-Keeps entries (ns ∷ nss) m s p =
      let (listed, w) = y.list_secrets ns s.world in
      elim (Fallible-cases listed) [
        | inl (items, good) ↦
            rw (good, watch_namespaces)
              (watch_namespaces-Keeps entries nss (watch_secrets entries ns items m)
                (record s { world = w }) p)
        | inr (e, bad) ↦ rw (bad, watch_namespaces) (tt, p)
      ]

  announce-Keeps :
      (ssw : StaleSecretWatch) (r : Fallible (GoMap (List String)))
      → Keeps IsAllowed Z (announce y ssw r)
  unfolding announce
  announce-Keeps ssw r s p = ground arith

  watch_wanted-Keeps :
      (ssw : StaleSecretWatch) (r : Fallible (List String))
      → Keeps IsAllowed Z (watch_wanted y ssw r)
  unfolding watch_wanted
  watch_wanted-Keeps ssw (err e) s p = (tt, p)
  watch_wanted-Keeps ssw (ok nss) s p =
      let entries = ssw.spec.stale_secret_to_watch.exclude_list in
      bind-Keeps IsAllowed Z (watch_namespaces y entries nss []) (announce y ssw)
        (watch_namespaces-Keeps entries nss []) (announce-Keeps ssw) s p

  pub prepare_watch_list-Keeps :
      (ssw : StaleSecretWatch) → Keeps IsAllowed Z (prepare_watch_list y ssw)
  unfolding prepare_watch_list
  prepare_watch_list-Keeps ssw =
      bind-Keeps IsAllowed Z (namespaces_to_watch y ssw) (watch_wanted y ssw)
        (namespaces_to_watch-Keeps ssw) (watch_wanted-Keeps ssw)

  load_config-Keeps : (cm : ConfigMap) (e : Option Error) → Keeps IsAllowed Z (load_config y cm e)
  unfolding load_config
  load_config-Keeps cm none s p = ground arith
  load_config-Keeps cm (some e) s p = ground arith

  store_secret-Keeps :
      (k : NamespacedName) (ns name : String) (c : ConfigData) (got : Fallible KubeSecret)
      → ((secret : KubeSecret)
          → got ≡ ok secret
          → get_last? secret.meta.managed_fields ≡ some none
          → Z)
      → Keeps IsAllowed Z (store_secret y k ns name c got)
  unfolding store_secret
  store_secret-Keeps k ns name c (err e) timed s p = (tt, p)
  store_secret-Keeps k ns name c (ok secret) timed s p =
      let z = timed secret refl in ground (arith, z)

  store_secrets-Keeps :
      (k : NamespacedName) (ns : String) (names : List String) (acc : ConfigData × Bool)
      → Keeps IsAllowed Z (store_secrets y k ns names acc)
  unfolding store_secrets
  store_secrets-Keeps k ns [] acc s p = (tt, p)
  store_secrets-Keeps k ns (name ∷ names) (c, u) s p =
      let (got, w) = y.get_secret (record { name = name; namespace = ns }) s.world in
      bind-Keeps IsAllowed Z (store_secret y k ns name c got)
        (and_then (store_secrets y k ns names))
        (store_secret-Keeps k ns name c got
          (only.times (record { name = name; namespace = ns }) s.world))
        (λ r.
          and_then-Keeps IsAllowed Z (store_secrets y k ns names) r
            (store_secrets-Keeps k ns names))
        (record s { world = w }) p

  store_namespaces-Keeps :
      (k : NamespacedName) (m : GoMap (List String)) (acc : ConfigData × Bool)
      → Keeps IsAllowed Z (store_namespaces y k m acc)
  unfolding store_namespaces
  store_namespaces-Keeps k [] acc s p = (tt, p)
  store_namespaces-Keeps k ((ns, names) ∷ m) acc s p =
      bind-Keeps IsAllowed Z (store_secrets y k ns names acc) (and_then (store_namespaces y k m))
        (store_secrets-Keeps k ns names acc)
        (λ r. and_then-Keeps IsAllowed Z (store_namespaces y k m) r (store_namespaces-Keeps k m)) s
        p

  hash_secrets-Keeps :
      (k : NamespacedName) (m : GoMap (List String)) (r : Fallible ConfigData)
      → Keeps IsAllowed Z (hash_secrets y k m r)
  unfolding hash_secrets
  hash_secrets-Keeps k m (err e) s p = (tt, p)
  hash_secrets-Keeps k m (ok c) s p =
      let (entries, w) = y.range_order m s.world in
      store_namespaces-Keeps k entries (c, Bool.false) (record s { world = w }) p

  module _ (lawful : IsLawful y) where
    create_or_update_found-Keeps :
        (cm found : ConfigMap) (e : Option Error)
        → key_of cm.meta ≡ config_map_key
        → (e ≡ none → key_of found.meta ≡ config_map_key)
        → Keeps IsAllowed Z (create_or_update_found y cm (found, e))
    unfolding create_or_update_found
    create_or_update_found-Keeps cm found none own same s p =
        let key = same refl in ground (arith, key)
    create_or_update_found-Keeps cm found (some e) own same s p = ground arith

    create_or_update_config_map-Keeps :
        (cm : ConfigMap)
        → key_of cm.meta ≡ config_map_key
        → Keeps IsAllowed Z (create_or_update_config_map y cm)
    unfolding create_or_update_config_map
    create_or_update_config_map-Keeps cm own =
        ask_bind-Keeps IsAllowed Z (y.get_config_map (key_of cm.meta) empty_config_map)
          (create_or_update_found y cm)
          (λ w.
            create_or_update_found-Keeps cm
              (y.get_config_map (key_of cm.meta) empty_config_map w).0.0
              (y.get_config_map (key_of cm.meta) empty_config_map w).0.1 own
              (λ e. lawful.get_key (key_of cm.meta) empty_config_map w e ∙ own))

    report_written-Keeps : (r : ConfigMap × Option Error) → Keeps IsAllowed Z (report_written y r)
    unfolding report_written
    report_written-Keeps (cm, e) s p = ground arith

    write_config-Keeps :
        (cm : ConfigMap) (r : Fallible (ConfigData × Bool))
        → key_of cm.meta ≡ config_map_key
        → Keeps IsAllowed Z (write_config y cm r)
    unfolding write_config
    write_config-Keeps cm (err e) own s p = (tt, p)
    write_config-Keeps cm (ok (c, Bool.false)) own s p = (tt, (tt, p))
    write_config-Keeps cm (ok (c, Bool.true)) own s p = elim (Fallible-cases (y.marshal_config c)) [
      | inr (e, bad) ↦ rw (bad, write_config) (tt, p)
      | inl (json, good) ↦
          let cm' = record cm { binary_data = ("data", json) ∷ [] } in
          rw (good, write_config)
            (bind-Keeps IsAllowed Z (create_or_update_config_map y cm') (report_written y)
              (create_or_update_config_map-Keeps cm' own) report_written-Keeps s p)
    ]

    -- The ConfigMap that is given is the operator's own.
    pub calculate_and_store_hashed_secrets-Keeps :
        (m : GoMap (List String)) (cm : ConfigMap)
        → key_of cm.meta ≡ config_map_key
        → Keeps IsAllowed Z (calculate_and_store_hashed_secrets y m cm)
    unfolding calculate_and_store_hashed_secrets
    calculate_and_store_hashed_secrets-Keeps m cm own s p =
        let ((cm', e), w) = y.get_config_map (key_of cm.meta) cm s.world in
        let still = lawful.keep_key (key_of cm.meta) cm s.world refl ∙ own in
        bind-Keeps IsAllowed Z (load_config y cm' e)
          (λ loaded. hash_secrets y (key_of cm'.meta) m loaded >>= write_config y cm')
          (load_config-Keeps cm' e)
          (λ loaded.
            bind-Keeps IsAllowed Z (hash_secrets y (key_of cm'.meta) m loaded) (write_config y cm')
              (hash_secrets-Keeps (key_of cm'.meta) m loaded) (λ r. write_config-Keeps cm' r still))
          (record s { world = w }) p
