-- ===== src/Cluster/Sample/Encoding.antt =====
-- Test data: an encoding of every ConfigData, in the place of JSON.
use stale_secrets_check.Prelude.{Option, none, some, ◌≡◌, ◌≢◌, refl, List, [], ◌∷◌}
use stale_secrets_check.Api.{Bytes}
use stale_secrets_check.Exec.{Fallible, ok, err, foreign}
use stale_secrets_check.ConfigData.{History, Secret, Namespace, ConfigData}
use stale_secrets_check.Cluster.{System}
use stale_secrets_check.Cluster.Sample.{World, sample}
use stale_secrets_check.Cluster.Sample.Texts.{
  Reader, put_text, get_text, get_text-put_text, put_list, get_list, get_list-put_list, ◌>>=◌,
}

abbrev put_history : History → Bytes → Bytes
put_history h b = put_text h.data_hash b

abbrev read_history : Reader History
read_history b = get_text b >>= λ d b'. some (record { data_hash = d }, b')

read_history-put_history : (h : History) (b : Bytes) → read_history (put_history h b) ≡ some (h, b)
read_history-put_history h b = rw (get_text-put_text h.data_hash b, ◌>>=◌) refl

abbrev put_secret : Secret → Bytes → Bytes
put_secret s b = put_text s.name (
    put_text s.created
      (put_text s.last_modified (put_list put_history s.history (put_text s.type b))))

abbrev read_secret : Reader Secret
read_secret b = get_text b >>= λ name b1. get_text b1 >>= λ created b2.
    get_text b2 >>= λ last_modified b3. get_list read_history b3 >>= λ history b4.
    get_text b4 >>= λ type b5. some (
      record {
        name = name;
        created = created;
        last_modified = last_modified;
        history = history;
        type = type;
      },
      b5,
    )

read_secret-put_secret : (s : Secret) (b : Bytes) → read_secret (put_secret s b) ≡ some (s, b)
read_secret-put_secret s b =
    let b4 = put_text s.type b in
    let b3 = put_list put_history s.history b4 in
    let b2 = put_text s.last_modified b3 in
    rw (get_text-put_text s.name (put_text s.created b2), ◌>>=◌)
      (rw (get_text-put_text s.created b2, ◌>>=◌)
        (rw (get_text-put_text s.last_modified b3, ◌>>=◌)
          (rw
            (
              get_list-put_list put_history read_history read_history-put_history s.history b4,
              ◌>>=◌,
            )
            (rw (get_text-put_text s.type b, ◌>>=◌) refl))))

abbrev put_namespace : Namespace → Bytes → Bytes
put_namespace n b = put_text n.name (put_list put_secret n.secrets b)

abbrev read_namespace : Reader Namespace
read_namespace b = get_text b >>= λ name b1.
    get_list read_secret b1 >>= λ secrets b2. some (record { name = name; secrets = secrets }, b2)

read_namespace-put_namespace :
    (n : Namespace) (b : Bytes) → read_namespace (put_namespace n b) ≡ some (n, b)
read_namespace-put_namespace n b =
    rw (get_text-put_text n.name (put_list put_secret n.secrets b), ◌>>=◌)
      (rw (get_list-put_list put_secret read_secret read_secret-put_secret n.secrets b, ◌>>=◌) refl)

abbrev pub encoded : ConfigData → Bytes
encoded c = put_list put_namespace c.namespaces []

-- All of the bytes are to be read.
abbrev decoded : Option (List Namespace × Bytes) → Fallible ConfigData
decoded (some (ns, [])) = ok (record { namespaces = ns })
decoded (some (ns, b ∷ bs)) = err (foreign 1)
decoded none = err (foreign 1)

abbrev pub decode : Bytes → Fallible ConfigData
decode b = decoded (get_list read_namespace b)

pub decode-encoded : (c : ConfigData) → decode (encoded c) ≡ ok c
decode-encoded c =
    rw
      (
        get_list-put_list put_namespace read_namespace read_namespace-put_namespace c.namespaces [],
        decoded,
      )
      refl

pub encoded-decodes :
    (c : ConfigData) (json : Bytes) → Fallible.ok (encoded c) ≡ ok json → decode json ≡ ok c
encoded-decodes c json h = let e : encoded c ≡ json = cc in rw (← e) (decode-encoded c)

pub encoded-nonempty : (c : ConfigData) → encoded c ≢ []
encoded-nonempty c = λ e. cc

abbrev pub encoding : System World
encoding = record sample {
  codec = record sample.codec { marshal_config = λ c. ok (encoded c); unmarshal_config = decode };
}

abbrev pub one_secret : Secret
one_secret = record {
  name = "db";
  created = "written";
  last_modified = "written";
  history = record { data_hash = "digest" } ∷ [];
  type = "Opaque";
}

abbrev pub one_stored : ConfigData
one_stored = record { namespaces = record { name = "app"; secrets = one_secret ∷ [] } ∷ [] }
