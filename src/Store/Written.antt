-- ===== src/Store/Written.antt =====
-- calculateAndStoreHashedSecrets as a whole: what is in the ConfigMap when it reports success.
use stale_secrets_check.Prelude.{
  String, Bool, false, ◌≡◌, ◌≢◌, ◌⊎◌, inl, inr, refl, ap, ◌∙◌, Option, none, some, List, [], ◌∷◌,
  arith, Option-cases,
}
use stale_secrets_check.Api.{Bytes, GoMap, NamespacedName, ConfigMap, key_of}
use stale_secrets_check.Exec.{
  Effect, event, update_watch, update_watch_status, create_config_map, update_config_map, post,
  Error, Sys, ret, ok, err, Fallible, Fallible-cases, >>=-eq-ret, ◌>>=◌,
}
use stale_secrets_check.ConfigData.{ConfigData, Reading, empty}
use stale_secrets_check.ConfigData.Kept.{store_all}
use stale_secrets_check.Hash.{bytes_at}
use stale_secrets_check.Cluster.{System}
use stale_secrets_check.Store.{
  create_or_update_found, create_or_update_config_map, load_config, report_written, write_config,
  hash_secrets, calculate_and_store_hashed_secrets, empty_config_map,
}
use stale_secrets_check.Store.Readings.{ReadAll, also, store_namespaces_lem}

-- A write of a ConfigMap whose binary data is the one entry.
abbrev pub IsWriteOf : Bytes → Effect → Type 0
IsWriteOf json (create_config_map cm) = cm.binary_data ≡ ("data", json) ∷ []
IsWriteOf json (update_config_map cm) = cm.binary_data ≡ ("data", json) ∷ []
IsWriteOf json (event _ _ _ _) = ⊥
IsWriteOf json (update_watch _) = ⊥
IsWriteOf json (update_watch_status _) = ⊥
IsWriteOf json (post _ _ _) = ⊥

module _ {W : Type 0} (y : System W) where
  create_or_update_IsWriteOf :
      (json : Bytes) (cm cm' : ConfigMap) (s s' : Sys W)
      → cm.binary_data ≡ ("data", json) ∷ []
      → create_or_update_config_map y cm s ≡ (ret (cm', none), s')
      → (x : Effect) × (s'.effects ≡ x ∷ s.effects) × IsWriteOf json x
  unfolding create_or_update_config_map create_or_update_found
  create_or_update_IsWriteOf json cm cm' s s' e h =
      let ((found, missing), w) = y.get_config_map (key_of cm.meta) empty_config_map s.world in
      elim (Option-cases missing) [
        | inl there ↦
            (update_config_map (record found { binary_data = cm.binary_data }), ground arith, e)
        | inr (o, absent) ↦ (create_config_map cm, ground arith, e)
      ]

  -- What success says of the readings, and of the effects, the latest first: either there was no
  -- reading and nothing was written, or the ConfigMap was written once, and its data is the encoding
  -- of the data that was loaded with all readings stored.
  abbrev pub Stored : ConfigData → List Reading → Sys W → Type 0
  Stored loaded [] s = Unit
  Stored loaded (r ∷ rs) s =
      (json : Bytes) × (done : Effect) × (x : Effect) × (older : List Effect) × (y.marshal_config
          (store_all (r ∷ rs) loaded)
        ≡ ok json)
      × (s.effects ≡ done ∷ x ∷ older)
      × IsWriteOf json x

  pub report_written_lem :
      (r : ConfigMap × Option Error) (cm' : ConfigMap) (s s' : Sys W)
      → report_written y r s ≡ (ret (cm', none), s')
      → (r.1 ≡ none) × ((done : Effect) × (s'.effects ≡ done ∷ s.effects))
  unfolding report_written
  report_written_lem (cm, some e) cm' s s' h = absurd (ground arith)
  report_written_lem (cm, none) cm' s s' h = (
    refl,
    (
      event (key_of cm.meta) "Normal" "ConfigMapUpdated" "ConfigMap updated successfully",
      ground arith,
    ),
  )

  write_config-Stored :
      (cm cm' : ConfigMap) (loaded : ConfigData) (rs : List Reading) (s s' : Sys W)
      → write_config y cm (ok (store_all rs loaded, also false rs)) s ≡ (ret (cm', none), s')
      → Stored loaded rs s'
  unfolding write_config
  write_config-Stored cm cm' loaded [] s s' h = tt
  write_config-Stored cm cm' loaded (r ∷ rs) s s' h =
      elim (Fallible-cases (y.marshal_config (store_all (r ∷ rs) loaded))) [
        | inr (e, bad) ↦ absurd (ground arith)
        | inl (json, good) ↦
            let new = record cm { binary_data = ("data", json) ∷ [] } in
            let ((cm1, e), t, first, last) =
              >>=-eq-ret (create_or_update_config_map y new) (report_written y) (cm', none) s s'
                (rw (good, write_config) at h) in
            let (fine, (done, latest)) = report_written_lem (cm1, e) cm' t s' last in
            let (x, before, is) =
              create_or_update_IsWriteOf json new cm1 s t refl
                (first ∙ ap (λ o. (ret (cm1, o), t)) fine) in
            (json, done, x, s.effects, good, latest ∙ ap (λ l. done ∷ l) before, is)
      ]

  write_config_of-Stored :
      (cm cm' : ConfigMap) (loaded : ConfigData) (rs : List Reading) (c : ConfigData) (u : Bool)
      (s s' : Sys W)
      → c ≡ store_all rs loaded
      → u ≡ also false rs
      → write_config y cm (ok (c, u)) s ≡ (ret (cm', none), s')
      → Stored loaded rs s'
  write_config_of-Stored cm cm' loaded rs c u s s' built flag h =
      write_config-Stored cm cm' loaded rs s s' (rw (built, flag) at h)

  pub write_config_failed :
      (cm : ConfigMap) (e : Error) (cm' : ConfigMap) (s s' : Sys W)
      → write_config y cm (err e) s ≡ (ret (cm', none), s')
      → ⊥
  unfolding write_config
  write_config_failed cm e cm' s s' h = ground arith

  -- What was loaded from the ConfigMap as it was read: its decoded data, or nothing where it has no
  -- data or was not read.
  abbrev pub IsLoaded : ConfigMap × Option Error → ConfigData → Type 0
  IsLoaded (cm, e) loaded =
      ((bytes_at "data" cm.binary_data ≡ [] ⊎ e ≢ none) × (loaded ≡ empty))
      ⊎ ((e ≡ none) × (y.unmarshal_config (bytes_at "data" cm.binary_data) ≡ ok loaded))

  pub load_config-IsLoaded :
      (cm : ConfigMap) (e : Option Error) (loaded : ConfigData) (s s' : Sys W)
      → load_config y cm e s ≡ (ret (ok loaded), s')
      → IsLoaded (cm, e) loaded
  unfolding load_config
  load_config-IsLoaded cm none loaded s s' h = ground arith
  load_config-IsLoaded cm (some e) loaded s s' h = ground arith

  -- The world in which calculateAndStoreHashedSecrets ranges over the watch list.
  abbrev pub read_from : ConfigMap → Sys W → W
  read_from cm s = (y.get_config_map (key_of cm.meta) cm s.world).1

  pub load_config-world :
      (cm : ConfigMap) (e : Option Error) (r : Fallible ConfigData) (s s' : Sys W)
      → load_config y cm e s ≡ (ret r, s')
      → s'.world ≡ s.world
  unfolding load_config
  load_config-world cm none r s s' h = ground arith
  load_config-world cm (some e) r s s' h = ground arith

  -- What a run that reports success has done.
  pub record IsStored (m : GoMap (List String)) (cm : ConfigMap) (s s' : Sys W) : Type 0 where
    pub loaded : ConfigData
    pub is_loaded : IsLoaded (y.get_config_map (key_of cm.meta) cm s.world).0 loaded
    pub before : W
    pub is_before : before ≡ read_from cm s
    pub order : GoMap (List String) × W
    pub is_order : y.range_order m before ≡ order
    pub readings : List Reading
    pub behind : W
    pub read : ReadAll y order.0 order.1 readings behind
    pub stored : Stored loaded readings s'

  pub hash_secrets_lem :
      (k : NamespacedName) (m : GoMap (List String)) (r : Fallible ConfigData) (c' : ConfigData)
      (u : Bool) (s s' : Sys W)
      → hash_secrets y k m r s ≡ (ret (ok (c', u)), s')
      → (c : ConfigData) × (rs : List Reading) × (r ≡ ok c)
        × ReadAll y (y.range_order m s.world).0 (y.range_order m s.world).1 rs s'.world
        × (c' ≡ store_all rs c)
        × (u ≡ also false rs)
  unfolding hash_secrets
  hash_secrets_lem k m (err e) c' u s s' h = absurd (ground arith)
  hash_secrets_lem k m (ok c) c' u s s' h =
      let (entries, w) = y.range_order m s.world in
      let (rs, read, built, flag) =
        store_namespaces_lem y k entries c c' false u (record s { world = w }) s' h in
      (c, rs, refl, read, built, flag)

  -- Where calculateAndStoreHashedSecrets reports no error, every secret of the watch list was got
  -- from the client, in the order in which the map was ranged over. If there was none, nothing is
  -- said of the effects; otherwise the last effect but the final event is a write of a ConfigMap whose
  -- data is the encoding of what was loaded with all the readings stored.
  pub calculate_and_store_hashed_secrets-IsStored :
      (m : GoMap (List String)) (cm cm' : ConfigMap) (s s' : Sys W)
      → calculate_and_store_hashed_secrets y m cm s ≡ (ret (cm', none), s')
      → IsStored m cm s s'
  unfolding calculate_and_store_hashed_secrets
  calculate_and_store_hashed_secrets-IsStored m cm cm' s s' h =
      let ((got, e), w) = y.get_config_map (key_of cm.meta) cm s.world in
      let (r, t, first, rest) =
        >>=-eq-ret (load_config y got e)
          (λ loaded. hash_secrets y (key_of got.meta) m loaded >>= write_config y got) (cm', none)
          (record s { world = w }) s' h in
      let (stored, v, second, last) =
        >>=-eq-ret (hash_secrets y (key_of got.meta) m r) (write_config y got) (cm', none) t s'
          rest in
      elim (Fallible-cases stored) [
        | inr (bad, is_bad) ↦ absurd (write_config_failed got bad cm' v s' (rw is_bad at last))
        | inl ((c, u), is_good) ↦
            let (c0, rs, loaded, read, built, flag) =
              hash_secrets_lem (key_of got.meta) m r c u t v (rw is_good at second) in
            record {
              loaded = c0;
              is_loaded =
                  load_config-IsLoaded got e c0 (record s { world = w }) t (rw loaded at first);
              before = t.world;
              is_before = load_config-world got e r (record s { world = w }) t first;
              order = y.range_order m t.world;
              is_order = refl;
              readings = rs;
              behind = v.world;
              read = read;
              stored =
                  write_config_of-Stored got cm' c0 rs c u v s' built flag (rw is_good at last);
            }
      ]
