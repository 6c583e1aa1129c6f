-- ===== src/Store/Tests.antt =====
-- Storing the readings of one secret.
use mathlib.Core.List.Permᴰ
use stale_secrets_check.Strings.{split_commas, trim_space}
use stale_secrets_check.WatchList.{
  is_token, is_excluded, append_at, watch_secret, watch_secrets, prepare_watch_list,
}
use stale_secrets_check.WatchList.Members.{names_at}
use stale_secrets_check.WatchList.Answers.{IsPrepared, prepare_watch_list_exact}
use stale_secrets_check.Prelude.{In, inl, ◌⊎◌, pos, arith, refl, List, [], ◌∷◌, String}
use stale_secrets_check.Api.{key_of, ConfigMap, GoMap}
use stale_secrets_check.Exec.{event}
use stale_secrets_check.ConfigData.{store_reading}
use stale_secrets_check.Store.Written.{IsStored, calculate_and_store_hashed_secrets-IsStored}
use stale_secrets_check.Hash.{bytes_at, calculate_hash}
use stale_secrets_check.Store.Faithful.{IsFaithful}
use stale_secrets_check.Store.Recorded.{Ranges, IsRecorded, listed-IsRecorded}
use stale_secrets_check.Store.Reports.{
  WasFit, IsIdle, WritesReadable, calculate_and_store_hashed_secrets-update_secret_statuses,
}
use stale_secrets_check.Store.{
  empty_config_map, config_map_name, calculate_and_store_hashed_secrets,
}
use stale_secrets_check.Cluster.Sample.Encoding.{encoding, encoded, one_stored, encoded-decodes}
use stale_secrets_check.Cluster.Sample.{sample_watch, meta_of, sample, sample_world, sample_state}

abbrev watched : GoMap (List String)
watched = ("app", "db" ∷ []) ∷ []

abbrev own : ConfigMap
own = record empty_config_map { meta = meta_of config_map_name "default" }

calculate_and_store_hashed_secrets-IsStored_example :
    IsStored sample watched own sample_state
      (calculate_and_store_hashed_secrets sample watched own sample_state).1
unfolding calculate_and_store_hashed_secrets
calculate_and_store_hashed_secrets-IsStored_example =
    calculate_and_store_hashed_secrets-IsStored sample watched own
      (record own { binary_data = ("data", 1 ∷ []) ∷ [] }) sample_state
      (calculate_and_store_hashed_secrets sample watched own sample_state).1 refl

encoding-IsFaithful : IsFaithful encoding
encoding-IsFaithful = record {
  created = λ k w w' secret h. (pos 0, refl);
  modified = λ k w w' secret u h there. (pos 0, refl);
  decodes = encoded-decodes;
}

own-WasFit : WasFit encoding own sample_state
unfolding bytes_at
own-WasFit c h = absurd (ground arith)

-- the ConfigMap as the store step leaves it
abbrev filled : ConfigMap
filled = record own { binary_data = ("data", encoded one_stored) ∷ [] }

calculate_and_store_hashed_secrets-update_secret_statuses_example :
    IsIdle encoding watched own sample_state
    ⊎ WritesReadable encoding sample_watch sample_state
        (calculate_and_store_hashed_secrets encoding watched own sample_state).1
unfolding calculate_and_store_hashed_secrets store_reading calculate_hash
calculate_and_store_hashed_secrets-update_secret_statuses_example =
    calculate_and_store_hashed_secrets-update_secret_statuses encoding watched own filled
      sample_watch sample_state
      (calculate_and_store_hashed_secrets encoding watched own sample_state).1 sample_state
      encoding-IsFaithful own-WasFit refl

sample-Ranges : Ranges sample
sample-Ranges m w = Permᴰ.refl m

prepared : IsPrepared sample sample_watch watched sample_world sample_world
unfolding prepare_watch_list split_commas watch_secrets watch_secret is_token is_excluded append_at
    trim_space
prepared =
    prepare_watch_list_exact sample sample_watch watched sample_state
      (record sample_state {
        effects =
            event (key_of sample_watch.meta) "Normal" "prepared list of secrets"
              "list of secrets present in different namespaces prepared for watch"
            ∷ [];
      })
      refl

db-In : In "db" (names_at "app" watched)
unfolding names_at
db-In = inl refl

listed-IsRecorded_example :
    IsRecorded sample "app" "db"
      (calculate_and_store_hashed_secrets sample watched own sample_state).1
unfolding calculate_and_store_hashed_secrets
listed-IsRecorded_example =
    listed-IsRecorded sample sample_watch watched own
      (record own { binary_data = ("data", 1 ∷ []) ∷ [] }) "app" "db" sample_world sample_world
      sample_state (calculate_and_store_hashed_secrets sample watched own sample_state).1
      sample-Ranges prepared refl ((prepared.members "app" "db").0 db-In)
