-- ===== src/WatchList.antt =====
-- prepareWatchList of internal/controller/stalesecretwatch_controller.go: which secrets are watched.
pub mod Members
pub mod Listed
pub mod Answers
mod Tests
use mathlib.Core.List.{map}
use stale_secrets_check.Prelude.{
  String, Bool, ◌||◌, ◌&&◌, List, [], ◌∷◌, ◌++◌, any, ◌==◌, if◌then◌else◌,
}
use stale_secrets_check.Api.{GoMap, ExcludeList, StaleSecretWatch, KubeSecret, key_of}
use stale_secrets_check.Exec.{
  Fallible, ok, err, Exec, ask, pure, new_error, record_event, ◌>>=◌, ◌>>◌,
}
use stale_secrets_check.Strings.{concat, contains, split_commas, trim_space}
use stale_secrets_check.Cluster.{System}

unfoldable pub is_token : String → Bool
is_token type =
    type == "kubernetes.io/service-account-token" || type == "bootstrap.kubernetes.io/token"

-- the loop over the exclude list
unfoldable pub is_excluded : List ExcludeList → String → String → Bool
is_excluded entries namespace name =
    any (λ e. e.namespace == namespace && contains e.secret_name name) entries

-- m[ns] = append(m[ns], name); a new key stands at the end of the entries
unfoldable pub append_at : String → String → GoMap (List String) → GoMap (List String)
append_at ns name [] = (ns, name ∷ []) ∷ []
append_at ns name ((k, names) ∷ m) =
    if k == ns then (k, names ++ name ∷ []) ∷ m else (k, names) ∷ append_at ns name m

-- one round of the loop over the secrets of a namespace
unfoldable pub watch_secret :
    List ExcludeList → String → KubeSecret → GoMap (List String) → GoMap (List String)
watch_secret entries ns secret m =
    if is_token secret.type
    then m
    else if is_excluded entries ns secret.meta.name
    then m
    else append_at ns secret.meta.name m

unfoldable pub watch_secrets :
    List ExcludeList → String → List KubeSecret → GoMap (List String) → GoMap (List String)
watch_secrets entries ns [] m = m
watch_secrets entries ns (s ∷ ss) m = watch_secrets entries ns ss (watch_secret entries ns s m)

module _ {W : Type 0} (y : System W) where
  unfoldable pub namespaces_to_watch : StaleSecretWatch → Exec W (Fallible (List String))
  namespaces_to_watch ssw =
      let wanted = ssw.spec.stale_secret_to_watch.namespace in
      if wanted == "all"
      then (do
        listed ← ask y.list_namespaces
        elim listed [
          | ok items ↦ pure (ok (map (λ m. m.name) items))
          | err e ↦ do
            e' ← new_error (concat ("failed to list namespaces: " ∷ y.error_text e ∷ []))
            pure (err e')
        ])
      else pure (ok (map trim_space (split_commas wanted)))

  -- The loop over the namespaces. The second half of its test, IsNotFound(err), holds only where
  -- the first does.
  unfoldable pub watch_namespaces :
      List ExcludeList → List String → GoMap (List String) → Exec W (Fallible (GoMap (List String)))
  watch_namespaces entries [] m = pure (ok m)
  watch_namespaces entries (ns ∷ nss) m = do
    listed ← ask (y.list_secrets ns)
    elim listed [
      | ok items ↦ watch_namespaces entries nss (watch_secrets entries ns items m)
      | err e ↦ do
        e' ←
            new_error
              (concat ("failed to list secrets in namespace " ∷ ns ∷ ": " ∷ y.error_text e ∷ []))
        pure (err e')
    ]

  -- the last event
  unfoldable pub announce :
      StaleSecretWatch → Fallible (GoMap (List String)) → Exec W (Fallible (GoMap (List String)))
  announce ssw (err e) = pure (err e)
  announce ssw (ok m) = do
    record_event (key_of ssw.meta) "Normal" "prepared list of secrets"
        "list of secrets present in different namespaces prepared for watch"
    pure (ok m)

  unfoldable pub watch_wanted :
      StaleSecretWatch → Fallible (List String) → Exec W (Fallible (GoMap (List String)))
  unfolding watch_namespaces announce
  watch_wanted ssw (err e) = pure (err e)
  watch_wanted ssw (ok nss) =
      watch_namespaces ssw.spec.stale_secret_to_watch.exclude_list nss [] >>= announce ssw

  unfoldable pub prepare_watch_list : StaleSecretWatch → Exec W (Fallible (GoMap (List String)))
  unfolding namespaces_to_watch watch_wanted
  prepare_watch_list ssw = namespaces_to_watch ssw >>= watch_wanted ssw
