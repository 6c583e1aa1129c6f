-- ===== src/Cluster/Sample.antt =====
-- Test data: a small world with one object of each kind, and a client on it that always answers.
pub mod Encoding
pub mod Keys
pub mod Texts
pub mod Retries
use stale_secrets_check.Prelude.{
  ◌&&◌, ℕ, zero, suc, String, Bool, false, Option, none, some, [], ◌∷◌, ◌+◌, ◌==◌, if◌then◌else◌,
  pos, eqb, any,
}
use stale_secrets_check.Api.{NamespacedName, ObjectMeta, StaleSecretWatch, ConfigMap, KubeSecret}
use stale_secrets_check.Exec.{Error, text_error, foreign, Fallible, ok, err, Sys, Exec, pure, ◌>>=◌}
use stale_secrets_check.ConfigData.{empty}
use stale_secrets_check.Cluster.{System, Kube, Host, Codec}

pub record World : Type 0 where
  pub watch : Option StaleSecretWatch
  pub config_map : Option ConfigMap
  pub secret : KubeSecret
  pub clock : ℕ
  pub token : String

abbrev pub not_found : Error
not_found = foreign 404

abbrev pub or_missing : {A : Type 0} → Option A → A → A × Option Error
or_missing none old = (old, some not_found)
or_missing (some a) old = (a, none)

abbrev is_missing : Error → Bool
is_missing (foreign n) = eqb n 404
is_missing (text_error _ _) = false

abbrev pub is_refusal : Error → Bool
is_refusal (foreign n) = eqb n 409
is_refusal (text_error _ _) = false

-- the ConfigMap, if it has that key
abbrev of_key : NamespacedName → Option ConfigMap → Option ConfigMap
of_key k none = none
of_key k (some cm) =
    if cm.meta.name == k.name && cm.meta.namespace == k.namespace then some cm else none

abbrev get_sample_secret : NamespacedName → World → Fallible KubeSecret × World
get_sample_secret k w =
    if k.name == w.secret.meta.name then (ok w.secret, w) else (err not_found, w)

-- what a function that is tried is, and what it answers
abbrev pub Attempt : Type 0
Attempt = StaleSecretWatch → Exec World (StaleSecretWatch × Option Error)

-- behind a call: another one, where the error satisfies the test
abbrev pub again :
    (Error → Bool)
    → Attempt
    → StaleSecretWatch × Option Error
    → Exec World (StaleSecretWatch × Option Error)
again retriable f (x, none) = pure (x, none)
again retriable f (x, some e) = if retriable e then f x else pure (x, some e)

-- a call, and at most so many more
abbrev pub tries : ℕ → (Error → Bool) → Attempt → Attempt
tries zero retriable f x = f x
tries (suc n) retriable f x = f x >>= again retriable (tries n retriable f)

abbrev sample_kube : Kube World
sample_kube = record {
  get_watch = λ k old w. (or_missing w.watch old, w);
  update_watch = λ x w. ((x, none), record w { watch = some x });
  update_watch_status = λ x w. ((x, none), record w { watch = some x });
  list_watches = λ w. (ok [], w);
  get_config_map = λ k old w. (or_missing (of_key k w.config_map) old, w);
  create_config_map = λ c w. ((c, none), record w { config_map = some c });
  update_config_map = λ c w. ((c, none), record w { config_map = some c });
  get_secret = get_sample_secret;
  list_namespaces = λ w. (ok (w.secret.meta ∷ []), w);
  list_secrets = λ ns w. (ok (w.secret ∷ []), w);
  is_not_found = is_missing;
  is_conflict = is_refusal;
  ignore_not_found = λ e. if is_missing e then none else some e;
  error_text = λ e. "not found";
  contains_finalizer = λ x f. any (λ g. g == f) x.meta.finalizers;
  add_finalizer = λ x f. record x { meta = record x.meta { finalizers = f ∷ x.meta.finalizers } };
  remove_finalizer = λ x f. record x { meta = record x.meta { finalizers = [] } };
  set_status_condition = λ cs c. c ∷ cs;
  set_controller_reference = λ x c. ok c;
  retry_on_error = tries 4;
  retry_on_conflict = tries 4 is_refusal;
}

-- The clock goes on by a second with each reading.
abbrev sample_host : Host World
sample_host = record {
  now = λ w. (pos w.clock, record w { clock = w.clock + 1000000000 });
  getenv = λ name w. (if name == "KUBECONFIG" then "config" else w.token, w);
  user_home_dir = λ w. (ok "/root", w);
  build_config_from_flags = λ p w. (none, w);
  load_from_file = λ p w. (ok (record { current_context = ""; contexts = [] }), w);
  new_request = λ url body w. (none, w);
  do_request = λ url auth body w. (none, w);
  range_order = λ m w. (m, w);
}

-- The encodings are not those of Go: times are all written alike.
abbrev sample_codec : Codec
sample_codec = record {
  marshal_config = λ c. ok (1 ∷ []);
  unmarshal_config = λ b. ok empty;
  marshal_payload = λ p. ok (2 ∷ []);
  sha256_hex = λ b. "digest";
  format_rfc3339 = λ t. "written";
  format_rfc3339_local = λ t. "local";
  parse_rfc3339 = λ t. ok (pos 0);
  format_time = λ t. "shown";
}

abbrev pub sample : System World
sample = record { kube = sample_kube; host = sample_host; codec = sample_codec }

abbrev pub meta_of : String → String → ObjectMeta
meta_of name namespace = record {
  name = name;
  namespace = namespace;
  resource_version = "1";
  labels = [];
  annotations = none;
  finalizers = [];
  creation_timestamp = pos 0;
  deletion_timestamp = none;
  managed_fields = [];
}

abbrev pub sample_secret : KubeSecret
sample_secret = record {
  meta = meta_of "db" "app";
  type = "Opaque";
  secret_data = ("user", 97 ∷ []) ∷ [];
}

abbrev pub sample_watch : StaleSecretWatch
sample_watch = record {
  meta = meta_of "watch" "default";
  spec = record {
    stale_secret_to_watch = record { namespace = " app"; exclude_list = [] };
    stale_threshold_in_days = pos 30;
    refresh_interval = none;
  };
  status = record { conditions = []; secret_status = []; stale_secrets_count = pos 0 };
}

-- noon of the first of January 1971
abbrev pub sample_world : World
sample_world = record {
  watch = some sample_watch;
  config_map = none;
  secret = sample_secret;
  clock = 31579200000000000;
  token = "";
}

abbrev pub sample_state : Sys World
sample_state = record { world = sample_world; effects = []; next_address = 0 }
