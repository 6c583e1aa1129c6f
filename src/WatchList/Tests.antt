-- ===== src/WatchList/Tests.antt =====
-- The watch list of a small cluster.
use stale_secrets_check.Prelude.{◌≡◌, refl, true, false, List, [], ◌∷◌, String}
use stale_secrets_check.Api.{GoMap, key_of}
use stale_secrets_check.Exec.{event}
use stale_secrets_check.Strings.{split_commas, trim_space, contains}
use stale_secrets_check.WatchList.{
  is_token, is_excluded, append_at, watch_secret, watch_secrets, prepare_watch_list,
}
use stale_secrets_check.WatchList.Answers.{IsPrepared, prepare_watch_list_exact}
use stale_secrets_check.Cluster.Sample.{sample, sample_watch, sample_world, sample_state}

is_excluded_tests :
    (is_excluded (record { namespace = "app"; secret_name = "tls, db" } ∷ []) "app" "db" ≡ true)
    × (is_excluded (record { namespace = "app"; secret_name = "tls, db" } ∷ []) "web" "db" ≡ false)
    × (is_token "Opaque" ≡ false)
unfolding is_excluded contains is_token
is_excluded_tests = (refl, refl, refl)

abbrev watched : GoMap (List String)
watched = ("app", "db" ∷ []) ∷ []

prepare_watch_list_exact_example : IsPrepared sample sample_watch watched sample_world sample_world
unfolding prepare_watch_list split_commas watch_secrets watch_secret is_token is_excluded append_at
    trim_space
prepare_watch_list_exact_example =
    prepare_watch_list_exact sample sample_watch watched sample_state
      (record sample_state {
        effects =
            event (key_of sample_watch.meta) "Normal" "prepared list of secrets"
              "list of secrets present in different namespaces prepared for watch"
            ∷ [];
      })
      refl
