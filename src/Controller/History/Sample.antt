-- ===== src/Controller/History/Sample.antt =====
-- Test data: a small cluster that keeps the ConfigMap.
use mathlib.Core.List.Permᴰ
use stale_secrets_check.Store.Recorded.{Ranges}
use stale_secrets_check.Controller.Reconcile.{ten_minutes}
use stale_secrets_check.Controller.History.Fresh.{Puts}
use stale_secrets_check.Prelude.{
  String, ◌∷◌, pos, ◌&&◌, ◌==◌, if◌then◌else◌, Bool, true, Bool-cases, Option, none, some, [], ◌≡◌,
  ◌≢◌, ◌⊎◌, refl, inl, inr, arith, Option-cases,
}
use stale_secrets_check.Api.{Bytes, NamespacedName, ConfigMap, StaleSecretWatch}
use stale_secrets_check.Exec.{Error, ok, foreign}
use stale_secrets_check.Hash.{bytes_at}
use stale_secrets_check.Cluster.{System}
use stale_secrets_check.Cluster.Sample.{World}
use stale_secrets_check.Cluster.Sample.Retries.{tries-Held}
use stale_secrets_check.Cluster.Sample.{is_refusal}
use stale_secrets_check.Cluster.Sample.Keys.{get_sample_key, keep_sample_key}
use stale_secrets_check.Cluster.Sample.Encoding.{encoding, encoded-decodes, encoded-nonempty}
use stale_secrets_check.Store.{config_map_name, config_map_key}
use stale_secrets_check.Controller.Safety.{IsLawful}
use stale_secrets_check.Controller.History.{Keeper}
use stale_secrets_check.Controller.History.Runs.{IsEncoding}

-- whether an object has the key of the operator's ConfigMap
abbrev pub is_own : ConfigMap → Bool
is_own cm = cm.meta.name == config_map_name && cm.meta.namespace == "default"

abbrev refused : ConfigMap → World → (ConfigMap × Option Error) × World
refused cm w = ((cm, some (foreign 409)), w)

abbrev create : Option ConfigMap → ConfigMap → World → (ConfigMap × Option Error) × World
create (some old) cm w = refused cm w
create none cm w =
    if is_own cm then ((cm, none), record w { config_map = some cm }) else refused cm w

abbrev update : ConfigMap → World → (ConfigMap × Option Error) × World
update cm w = if is_own cm then ((cm, none), record w { config_map = some cm }) else refused cm w

-- a hash that tells one byte from other data
abbrev digest : Bytes → String
digest (b ∷ []) = "digest"
digest _ = "other digest"

-- The small world, which keeps no ConfigMap but the operator's.
abbrev pub kept : System World
kept = record encoding {
  kube = record encoding.kube {
    create_config_map = λ cm w. create w.config_map cm w;
    update_config_map = update;
  };
  codec = record encoding.codec { sha256_hex = digest };
}

abbrev pub kept_data : Option ConfigMap → Bytes
kept_data none = []
kept_data (some cm) = if is_own cm then bytes_at "data" cm.binary_data else []

pub got_kept :
    (cm : ConfigMap) (w : World)
    → (kept.get_config_map config_map_key cm w).0.1 ≡ none
    → bytes_at "data" (kept.get_config_map config_map_key cm w).0.0.binary_data
      ≡ kept_data w.config_map
got_kept cm w h = elim (Option-cases w.config_map) [
  | inl nothing ↦ absurd (ground arith)
  | inr (c, there) ↦ elim (Bool-cases (is_own c)) [
    | inl own ↦ ground arith
    | inr other ↦ ground arith
  ]
]

pub missing_kept :
    (cm : ConfigMap) (w : World) (e : Error)
    → (kept.get_config_map config_map_key cm w).0.1 ≡ some e
    → kept.is_not_found e ≡ true
    → kept_data w.config_map ≡ []
missing_kept cm w e h absent = elim (Option-cases w.config_map) [
  | inl nothing ↦ rw nothing refl
  | inr (c, there) ↦ elim (Bool-cases (is_own c)) [
    | inl own ↦ ground arith
    | inr other ↦ ground arith
  ]
]

pub created_kept :
    (cm : ConfigMap) (w : World) (o : Option ConfigMap)
    → o ≡ w.config_map
    → (kept_data (create o cm w).1.config_map ≡ kept_data w.config_map)
      ⊎ ((kept_data w.config_map ≡ [])
          × (kept_data (create o cm w).1.config_map ≡ bytes_at "data" cm.binary_data))
created_kept cm w (some old) e = inl refl
created_kept cm w none e = elim (Bool-cases (is_own cm)) [
  | inl own ↦ inr (rw (← e) refl, ground arith)
  | inr other ↦ inl (ground arith)
]

pub updated_kept :
    (cm : ConfigMap) (w : World)
    → (kept_data (update cm w).1.config_map ≡ kept_data w.config_map)
      ⊎ (kept_data (update cm w).1.config_map ≡ bytes_at "data" cm.binary_data)
updated_kept cm w = elim (Bool-cases (is_own cm)) [
  | inl own ↦ inr (ground arith)
  | inr other ↦ inl (ground arith)
]

pub secret_kept :
    (k : NamespacedName) (w : World)
    → kept_data (kept.get_secret k w).1.config_map ≡ kept_data w.config_map
secret_kept k w = ground arith

pub kept_reference :
    (x : StaleSecretWatch) (cm cm' : ConfigMap)
    → kept.set_controller_reference x cm ≡ ok cm'
    → cm'.binary_data ≡ cm.binary_data
kept_reference x cm cm' h = ground arith

creates_kept :
    (cm : ConfigMap) (w : World)
    → (kept.create_config_map cm w).0.1 ≡ none
    → kept_data (kept.create_config_map cm w).1.config_map ≡ bytes_at "data" cm.binary_data
creates_kept cm w h = elim (Option-cases w.config_map) [
  | inr (old, there) ↦ absurd (ground arith)
  | inl nothing ↦ elim (Bool-cases (is_own cm)) [
    | inl own ↦ ground arith
    | inr other ↦ absurd (ground arith)
  ]
]

updates_kept :
    (cm : ConfigMap) (w : World)
    → (kept.update_config_map cm w).0.1 ≡ none
    → kept_data (kept.update_config_map cm w).1.config_map ≡ bytes_at "data" cm.binary_data
updates_kept cm w h = elim (Bool-cases (is_own cm)) [
  | inl own ↦ ground arith
  | inr other ↦ absurd (ground arith)
]

pub ten_minutes-delay : ten_minutes ≢ pos 0
ten_minutes-delay e = absurd (ground arith)

abbrev pub kept-Keeper : Keeper kept
kept-Keeper = record {
  content = λ w. kept_data w.config_map;
  got = got_kept;
  missing = missing_kept;
  created = λ cm w. created_kept cm w w.config_map refl;
  updated = updated_kept;
  reference = kept_reference;
  get_config_map = λ k cm w. refl;
  get_watch = λ k x w. refl;
  update_watch = λ x w. refl;
  update_watch_status = λ x w. refl;
  get_secret = secret_kept;
  list_namespaces = λ w. refl;
  list_secrets = λ ns w. refl;
  now = λ w. refl;
  getenv = λ name w. refl;
  user_home_dir = λ w. refl;
  build_config_from_flags = λ path w. refl;
  load_from_file = λ path w. refl;
  new_request = λ url body w. refl;
  do_request = λ url auth body w. refl;
  range_order = λ m w. refl;
}

pub kept-IsLawful : IsLawful kept
kept-IsLawful = record {
  get_key = get_sample_key;
  keep_key = keep_sample_key;
  reference_key = λ x cm cm' h. ground arith;
  on_error = λ I Z p f h. tries-Held I Z p f h 4;
  on_conflict = λ I Z f h. tries-Held I Z is_refusal f h 4;
}

pub kept-IsEncoding : IsEncoding kept
kept-IsEncoding = record {
  nonempty = λ c e. encoded-nonempty c (ground arith);
  decodes = encoded-decodes;
}

pub kept-Puts : Puts kept kept-Keeper
kept-Puts = record {
  creates = λ cm w own. creates_kept cm w;
  updates = λ cm w own. updates_kept cm w;
}

pub kept-Ranges : Ranges kept
kept-Ranges m w = Permᴰ.refl m
