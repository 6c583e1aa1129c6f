-- ===== src/Staleness/Exact.antt =====
-- Exactly which statuses the loops of updateSecretStatuses add, and when they fail.
use stale_secrets_check.Prelude.{
  String, ◌≡◌, refl, sym, ◌∙◌, Option, none, List, [], ◌∷◌, ◌++◌, All, append_assoc, append-nil,
  arith, if◌then◌else◌,
}
use stale_secrets_check.Api.{Time, Int64, SecretStatus, StaleSecretWatchStatus}
use stale_secrets_check.Exec.{Error, Fallible, ok, err}
use stale_secrets_check.ConfigData.{Secret, Namespace}
use stale_secrets_check.Staleness.{
  stale_threshold, is_stale, status_of, add_status, check_secret, check_secrets, check_namespaces,
}

module _ (parse_time : String → Fallible Time) (current_time : Time) (days : Int64) where
  abbrev pub Parses : String → Type 0
  Parses t = (a : Time) × (parse_time t ≡ ok a)

  abbrev pub SecretParses : Secret → Type 0
  SecretParses s = Parses s.created × Parses s.last_modified

  -- Both times of every recorded secret parse.
  abbrev pub AllParse : List Namespace → Type 0
  AllParse ns = All (λ n. All SecretParses n.secrets) ns

  -- The status of a secret whose times parse, if it is stale.
  abbrev pub stale_entry : String → Secret → List SecretStatus
  stale_entry namespace s = elim (parse_time s.created) [
    | err e ↦ []
    | ok c ↦ elim (parse_time s.last_modified) [
      | err e ↦ []
      | ok m ↦
          if is_stale current_time (stale_threshold days) m
          then status_of days namespace s c m ∷ []
          else []
    ]
  ]

  -- The statuses of all stale secrets, in the order of the ConfigData.
  abbrev pub stale_entries : String → List Secret → List SecretStatus
  stale_entries namespace [] = []
  stale_entries namespace (s ∷ ss) = stale_entry namespace s ++ stale_entries namespace ss

  abbrev pub report : List Namespace → List SecretStatus
  report [] = []
  report (n ∷ ns) = stale_entries n.name n.secrets ++ report ns

  -- The outcome of a loop that adds `xs` to `st` and does not fail.
  abbrev Adds :
      List SecretStatus → StaleSecretWatchStatus → StaleSecretWatchStatus × Option Error → Type 0
  Adds xs st (st', e) =
      (e ≡ none) × (st'.secret_status ≡ st.secret_status ++ xs) × (st'.conditions ≡ st.conditions)

  check_secret-Adds :
      (n : String) (s : Secret) (st : StaleSecretWatchStatus)
      → SecretParses s
      → Adds (stale_entry n s) st (check_secret parse_time current_time days n s st)
  unfolding check_secret add_status
  check_secret-Adds n s st ((c, good), (m, fine)) = ground (arith, append-nil st.secret_status)

  check_secrets-Adds :
      (n : String) (ss : List Secret) (st : StaleSecretWatchStatus)
      → All SecretParses ss
      → Adds (stale_entries n ss) st (check_secrets parse_time current_time days n ss st)
  unfolding check_secrets
  check_secrets-Adds n [] st h = (refl, sym (append-nil _), refl)
  check_secrets-Adds n (s ∷ ss) st (h, hs) =
      let (st', e) = check_secret parse_time current_time days n s st in
      let (fine, added, same) = check_secret-Adds n s st h in
      let (fine', added', same') = check_secrets-Adds n ss st' hs in
      rw (fine, check_secrets) (fine', added' ∙ rw (added, append_assoc), same' ∙ same)

  -- Where all times parse the loops do not fail, and add exactly the statuses of the stale secrets,
  -- in their order, and leave the conditions.
  pub check_namespaces-Adds :
      (ns : List Namespace) (st : StaleSecretWatchStatus)
      → AllParse ns
      → let (st', e) = check_namespaces parse_time current_time days ns st in
        (e ≡ none)
        × (st'.secret_status ≡ st.secret_status ++ report ns)
        × (st'.conditions ≡ st.conditions)
  unfolding check_namespaces
  check_namespaces-Adds [] st h = (refl, sym (append-nil _), refl)
  check_namespaces-Adds (n ∷ ns) st (h, hs) =
      let (st', e) = check_secrets parse_time current_time days n.name n.secrets st in
      let (fine, added, same) = check_secrets-Adds n.name n.secrets st h in
      let (fine', added', same') = check_namespaces-Adds ns st' hs in
      rw (fine, check_namespaces) (fine', added' ∙ rw (added, append_assoc), same' ∙ same)
