-- ===== src/Utils.antt =====
-- RetrieveModifiedTime, MarshalConfigData, LabelsForStaleSecretWatchConfigMap and ParseTime of
-- internal/controller/utils.go.
use stale_secrets_check.Prelude.{String, none, some, [], ◌∷◌, get_last?}
use stale_secrets_check.Api.{Bytes, GoMap, Time, ObjectMeta}
use stale_secrets_check.Exec.{Error, Fallible, ok, err, Exec, pure, throw, new_error, ◌>>=◌}
use stale_secrets_check.Strings.{concat}
use stale_secrets_check.ConfigData.{ConfigData}
use stale_secrets_check.Cluster.{System}

unfoldable pub labels_for_stale_secret_watch_config_map : String → GoMap String
labels_for_stale_secret_watch_config_map name =
    ("app.kubernetes.io/name", "StaleSecretWatch")
    ∷ ("app.kubernetes.io/instance", name)
    ∷ ("app.kubernetes.io/part-of", "StaleSecretWatch-operator")
    ∷ ("app.kubernetes.io/created-by", "controller-manager-stalesecretwatch")
    ∷ []

module _ {W : Type 0} (y : System W) where
  -- fmt.Errorf with a text, and with %v of an error behind it
  abbrev pub errorf : String → Error → Exec W Error
  errorf text e = new_error (concat (text ∷ y.error_text e ∷ []))

  -- The last managed field's time is a pointer, and a nil pointer panics.
  unfoldable pub retrieve_modified_time : ObjectMeta → Exec W String
  retrieve_modified_time om = elim (get_last? om.managed_fields) [
    | none ↦ pure (y.format_rfc3339 om.creation_timestamp)
    | some none ↦ throw
    | some (some t) ↦ pure (y.format_rfc3339 t)
  ]

  unfoldable pub marshal_config_data : ConfigData → Exec W (Fallible Bytes)
  marshal_config_data config = elim (y.marshal_config config) [
    | ok json ↦ pure (ok json)
    | err e ↦ do e' ← errorf "failed to encode ConfigData to JSON: " e; pure (err e')
  ]

  abbrev pub parse_time : String → Fallible Time
  parse_time text = y.parse_rfc3339 text
