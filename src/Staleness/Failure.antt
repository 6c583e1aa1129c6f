-- ===== src/Staleness/Failure.antt =====
-- When the loops of updateSecretStatuses fail.
use stale_secrets_check.Prelude.{
  String, ◌≡◌, ◌↔◌, none, List, [], ◌∷◌, All, arith, inl, inr, Option-cases,
}
use stale_secrets_check.Api.{Time, Int64, StaleSecretWatchStatus}
use stale_secrets_check.Exec.{Fallible, Fallible-cases}
use stale_secrets_check.ConfigData.{Secret, Namespace}
use stale_secrets_check.Staleness.{check_secret, check_secrets, check_namespaces}
use stale_secrets_check.Staleness.Exact.{SecretParses, AllParse, check_namespaces-Adds}

module _ (parse_time : String → Fallible Time) (current_time : Time) (days : Int64) where
  check_secret-SecretParses :
      (n : String) (s : Secret) (st : StaleSecretWatchStatus)
      → (check_secret parse_time current_time days n s st).1 ≡ none
      → SecretParses parse_time current_time days s
  unfolding check_secret
  check_secret-SecretParses n s st h = elim (Fallible-cases (parse_time s.created)) [
    | inr (e, bad) ↦ absurd (ground arith)
    | inl (c, good) ↦ elim (Fallible-cases (parse_time s.last_modified)) [
      | inr (e, bad) ↦ absurd (ground arith)
      | inl (m, fine) ↦ ((c, good), (m, fine))
    ]
  ]

  check_secrets-SecretParses :
      (n : String) (ss : List Secret) (st : StaleSecretWatchStatus)
      → (check_secrets parse_time current_time days n ss st).1 ≡ none
      → All (SecretParses parse_time current_time days) ss
  unfolding check_secrets
  check_secrets-SecretParses n [] st h = tt
  check_secrets-SecretParses n (s ∷ ss) st h =
      elim (Option-cases (check_secret parse_time current_time days n s st).1) [
        | inr (e, bad) ↦ absurd (ground arith)
        | inl fine ↦ (
          check_secret-SecretParses n s st fine,
          check_secrets-SecretParses n ss (check_secret parse_time current_time days n s st).0
              (rw (fine, check_secrets) at h),
        )
      ]

  check_namespaces-AllParse :
      (ns : List Namespace) (st : StaleSecretWatchStatus)
      → (check_namespaces parse_time current_time days ns st).1 ≡ none
      → AllParse parse_time current_time days ns
  unfolding check_namespaces
  check_namespaces-AllParse [] st h = tt
  check_namespaces-AllParse (n ∷ ns) st h =
      elim (Option-cases (check_secrets parse_time current_time days n.name n.secrets st).1) [
        | inr (e, bad) ↦ absurd (ground arith)
        | inl fine ↦ (
          check_secrets-SecretParses n.name n.secrets st fine,
          check_namespaces-AllParse ns
              (check_secrets parse_time current_time days n.name n.secrets st).0
              (rw (fine, check_namespaces) at h),
        )
      ]

  -- The loops return no error exactly if both times of every recorded secret parse.
  pub check_namespaces-none_iff :
      (ns : List Namespace) (st : StaleSecretWatchStatus)
      → ((check_namespaces parse_time current_time days ns st).1 ≡ none)
        ↔ AllParse parse_time current_time days ns
  check_namespaces-none_iff ns st = (
    check_namespaces-AllParse ns st,
    λ h. (check_namespaces-Adds parse_time current_time days ns st h).0,
  )
