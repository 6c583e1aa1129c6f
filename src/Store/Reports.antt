-- ===== src/Store/Reports.antt =====
-- What calculateAndStoreHashedSecrets has written, as updateSecretStatuses reads it.
use stale_secrets_check.Prelude.{
  String, ◌≡◌, ◌⊎◌, inl, inr, refl, sym, ap, ◌∙◌, none, List, [], ◌∷◌,
}
use mathlib.Core.Path.{subst}
use stale_secrets_check.Api.{Bytes, GoMap, ConfigMap, StaleSecretWatch, key_of}
use stale_secrets_check.Exec.{
  Effect, event, update_watch, update_watch_status, create_config_map, update_config_map, post, Sys,
  ret, ok,
}
use stale_secrets_check.ConfigData.{ConfigData, Reading}
use stale_secrets_check.ConfigData.Kept.{store_all}
use stale_secrets_check.ConfigData.Each.{EachSecret, store_all-EachSecret}
use stale_secrets_check.Hash.{bytes_at}
use stale_secrets_check.Staleness.{check_namespaces}
use stale_secrets_check.Staleness.Failure.{check_namespaces-none_iff}
use stale_secrets_check.Cluster.{System}
use stale_secrets_check.Controller.Status.{update_secret_statuses}
use stale_secrets_check.Store.{calculate_and_store_hashed_secrets}
use stale_secrets_check.Store.Readings.{ReadAll}
use stale_secrets_check.Store.Written.{
  read_from, IsLoaded, Stored, IsWriteOf, calculate_and_store_hashed_secrets-IsStored,
}
use stale_secrets_check.Store.Faithful.{IsFaithful, TimesParse, ReadAll-Fits}

module _ {W : Type 0} (y : System W) where
  update_secret_statuses-none :
      (found : ConfigMap) (config : ConfigData) (ssw : StaleSecretWatch) (s : Sys W)
      → y.unmarshal_config (bytes_at "data" found.binary_data) ≡ ok config
      → EachSecret (TimesParse y) config.namespaces
      → (ssw' : StaleSecretWatch) × ((update_secret_statuses y found ssw s).0 ≡ ret (ssw', none))
  unfolding update_secret_statuses
  update_secret_statuses-none found config ssw s decoded parse =
      let (now, w) = y.now s.world in
      let checked =
        check_namespaces y.parse_rfc3339 now ssw.spec.stale_threshold_in_days config.namespaces
          ssw.status in
      (
        record ssw { status = checked.0 },
        rw (decoded, update_secret_statuses)
            (ap (λ e. ret (record ssw { status = checked.0 }, e))
              ((check_namespaces-none_iff y.parse_rfc3339 now ssw.spec.stale_threshold_in_days
                  config.namespaces ssw.status).1
                parse)),
      )

  -- What the ConfigMap held before, where it can be decoded, has times that parse.
  abbrev pub WasFit : ConfigMap → Sys W → Type 0
  WasFit cm s =
      (c : ConfigData)
      → y.unmarshal_config
          (bytes_at "data" (y.get_config_map (key_of cm.meta) cm s.world).0.0.binary_data)
        ≡ ok c
      → EachSecret (TimesParse y) c.namespaces

  loaded-Parses :
      (cm : ConfigMap) (s : Sys W) (c : ConfigData)
      → WasFit cm s
      → IsLoaded y (y.get_config_map (key_of cm.meta) cm s.world).0 c
      → EachSecret (TimesParse y) c.namespaces
  loaded-Parses cm s c fit (inl (_, e)) = rw e tt
  loaded-Parses cm s c fit (inr (_, e)) = fit c e

  -- The entries of the watch list, as they are ranged over behind the read of the ConfigMap, name no
  -- secret.
  abbrev pub IsIdle : GoMap (List String) → ConfigMap → Sys W → Type 0
  IsIdle m cm s =
      (behind : W) × ReadAll y (y.range_order m (read_from y cm s)).0
        (y.range_order m (read_from y cm s)).1 [] behind

  -- The last effect but one was a Create or an Update with a ConfigMap on which updateSecretStatuses
  -- reports no error, for the object and in the state.
  abbrev pub WritesReadable : StaleSecretWatch → Sys W → Sys W → Type 0
  WritesReadable ssw t s =
      (found : ConfigMap) × (last : Effect) × (x : Effect) × (older : List Effect)
      × (ssw' : StaleSecretWatch) × (s.effects ≡ last ∷ x ∷ older)
      × ((x ≡ create_config_map found) ⊎ (x ≡ update_config_map found))
      × ((update_secret_statuses y found ssw t).0 ≡ ret (ssw', none))

  IsWriteOf-found :
      (json : Bytes) (x : Effect)
      → IsWriteOf json x
      → (found : ConfigMap) × (bytes_at "data" found.binary_data ≡ json)
        × ((x ≡ create_config_map found) ⊎ (x ≡ update_config_map found))
  unfolding bytes_at
  IsWriteOf-found json (create_config_map cm) h = (cm, rw h refl, inl refl)
  IsWriteOf-found json (update_config_map cm) h = (cm, rw h refl, inr refl)
  IsWriteOf-found json (event _ _ _ _) h = absurd h
  IsWriteOf-found json (update_watch _) h = absurd h
  IsWriteOf-found json (update_watch_status _) h = absurd h
  IsWriteOf-found json (post _ _ _) h = absurd h

  Stored-WritesReadable :
      (m : GoMap (List String)) (cm : ConfigMap) (c : ConfigData) (rs : List Reading)
      (ssw : StaleSecretWatch) (w' : W) (s s' t : Sys W)
      → IsFaithful y
      → EachSecret (TimesParse y) c.namespaces
      → ReadAll y
          (y.range_order m (read_from y cm s)).0
          (y.range_order m (read_from y cm s)).1
          rs
          w'
      → Stored y c rs s'
      → IsIdle m cm s ⊎ WritesReadable ssw t s'
  Stored-WritesReadable m cm c [] ssw w' s s' t faithful parse read stored = inl (w', read)
  Stored-WritesReadable m cm c (r ∷ rs) ssw w' s s' t faithful parse read
        (json, last, x, older, good, effects, is) =
      let (found, data_is, sent) = IsWriteOf-found json x is in
      let config = store_all (r ∷ rs) c in
      let (ssw', fine) =
        update_secret_statuses-none found config ssw t
          (ap y.unmarshal_config data_is ∙ faithful.decodes config json good)
          (store_all-EachSecret (TimesParse y) (r ∷ rs) c (ReadAll-Fits y faithful read) parse) in
      inr (found, last, x, older, ssw', effects, sent, fine)

  -- Where data that was encoded decodes to itself, and the times of the secrets that the client answers
  -- parse when they were formatted: where calculateAndStoreHashedSecrets reports no error, and the times
  -- of what was on record before it parse, either there was no secret to read, or the last effect but the
  -- final event is a Create or an Update with a ConfigMap on which updateSecretStatuses reports no error,
  -- for any object and in any state.
  pub calculate_and_store_hashed_secrets-update_secret_statuses :
      (m : GoMap (List String)) (cm cm' : ConfigMap) (ssw : StaleSecretWatch) (s s' t : Sys W)
      → IsFaithful y
      → WasFit cm s
      → calculate_and_store_hashed_secrets y m cm s ≡ (ret (cm', none), s')
      → IsIdle m cm s ⊎ WritesReadable ssw t s'
  calculate_and_store_hashed_secrets-update_secret_statuses m cm cm' ssw s s' t faithful fit h =
      let i = calculate_and_store_hashed_secrets-IsStored y m cm cm' s s' h in
      let order = sym i.is_order ∙ ap (y.range_order m) i.is_before in
      let read = subst (λ o. ReadAll y o.0 o.1 i.readings i.behind) order i.read in
      Stored-WritesReadable m cm i.loaded i.readings ssw i.behind s s' t faithful
        (loaded-Parses cm s i.loaded fit i.is_loaded) read i.stored
