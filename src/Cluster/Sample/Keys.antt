-- ===== src/Cluster/Sample/Keys.antt =====
-- The small world answers the object of the key that it is asked for.
use stale_secrets_check.Prelude.{none, ◌≡◌, arith, eq_iff, Option-cases, inl, inr}
use stale_secrets_check.Api.{NamespacedName, ConfigMap, key_of}
use stale_secrets_check.Cluster.Sample.{World, sample}

pub get_sample_key :
    (k : NamespacedName) (cm : ConfigMap) (w : World)
    → (sample.get_config_map k cm w).0.1 ≡ none
    → key_of (sample.get_config_map k cm w).0.0.meta ≡ k
get_sample_key k cm w h = elim (Option-cases w.config_map) [
  | inl missing ↦ absurd (ground arith)
  | inr (c, there) ↦ ground (arith, eq_iff c.meta.name k.name, eq_iff c.meta.namespace k.namespace)
]

pub keep_sample_key :
    (k : NamespacedName) (cm : ConfigMap) (w : World)
    → key_of cm.meta ≡ k
    → key_of (sample.get_config_map k cm w).0.0.meta ≡ k
keep_sample_key k cm w h = elim (Option-cases w.config_map) [
  | inl missing ↦ ground arith
  | inr (c, there) ↦ ground (arith, eq_iff c.meta.name k.name, eq_iff c.meta.namespace k.namespace)
]
