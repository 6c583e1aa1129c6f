-- ===== src/Controller/History/Hashing.antt =====
-- The loops of calculateAndStoreHashedSecrets leave the content of the ConfigMap.
use stale_secrets_check.Prelude.{
  String, Bool, false, Option, none, some, List, [], ◌∷◌, refl, ◌∙◌, arith,
}
use stale_secrets_check.Api.{GoMap, NamespacedName, ConfigMap, KubeSecret}
use stale_secrets_check.Exec.{Error, ok, err, Fallible, and_then}
use stale_secrets_check.ConfigData.{ConfigData}
use stale_secrets_check.Cluster.{System}
use stale_secrets_check.Store.{
  load_config, store_secret, store_secrets, store_namespaces, hash_secrets,
}
use stale_secrets_check.Controller.History.{Keeper, Same, bind-Same, and_then-Same}

module _ {W : Type 0} (y : System W) (k : Keeper y) where
  pub load_config-Same : (cm : ConfigMap) (e : Option Error) → Same y k (load_config y cm e)
  unfolding load_config
  load_config-Same cm none s = ground arith
  load_config-Same cm (some e) s = ground arith

  store_secret-Same :
      (key : NamespacedName) (ns name : String) (c : ConfigData) (got : Fallible KubeSecret)
      → Same y k (store_secret y key ns name c got)
  unfolding store_secret
  store_secret-Same key ns name c (err e) s = refl
  store_secret-Same key ns name c (ok secret) s = ground arith

  store_secrets-Same :
      (key : NamespacedName) (ns : String) (names : List String) (acc : ConfigData × Bool)
      → Same y k (store_secrets y key ns names acc)
  unfolding store_secrets
  store_secrets-Same key ns [] acc s = refl
  store_secrets-Same key ns (name ∷ names) (c, u) s =
      let wanted : NamespacedName = record { name = name; namespace = ns } in
      let (got, w) = y.get_secret wanted s.world in
      bind-Same y k (store_secret y key ns name c got) (and_then (store_secrets y key ns names))
        (store_secret-Same key ns name c got)
        (λ r. and_then-Same y k (store_secrets y key ns names) r (store_secrets-Same key ns names))
        (record s { world = w })
      ∙ k.get_secret wanted s.world

  store_namespaces-Same :
      (key : NamespacedName) (m : GoMap (List String)) (acc : ConfigData × Bool)
      → Same y k (store_namespaces y key m acc)
  unfolding store_namespaces
  store_namespaces-Same key [] acc s = refl
  store_namespaces-Same key ((ns, names) ∷ m) acc s =
      bind-Same y k (store_secrets y key ns names acc) (and_then (store_namespaces y key m))
        (store_secrets-Same key ns names acc)
        (λ r. and_then-Same y k (store_namespaces y key m) r (store_namespaces-Same key m)) s

  pub hash_secrets-Same :
      (key : NamespacedName) (m : GoMap (List String)) (r : Fallible ConfigData)
      → Same y k (hash_secrets y key m r)
  unfolding hash_secrets
  hash_secrets-Same key m (err e) s = refl
  hash_secrets-Same key m (ok c) s =
      let (entries, w) = y.range_order m s.world in
      store_namespaces-Same key entries (c, false) (record s { world = w })
      ∙ k.range_order m s.world
