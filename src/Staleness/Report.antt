-- ===== src/Staleness/Report.antt =====
-- What the loops of updateSecretStatuses add to the status.
use stale_secrets_check.Prelude.{
  ℕ, ◌+◌, String, ◌≡◌, refl, List, [], ◌∷◌, length, length-append, pos, ◌+ℤ◌, arith, Bool-cases,
  inl, inr, Option-cases,
}
use stale_secrets_check.Api.{Time, Int64, SecretStatus, StaleSecretWatchStatus}
use stale_secrets_check.Exec.{Fallible, Fallible-cases}
use stale_secrets_check.Clock.{wrap64}
use stale_secrets_check.ConfigData.{Secret, Namespace}
use stale_secrets_check.Staleness.{
  stale_threshold, is_stale, add_status, check_secret, check_secrets, check_namespaces,
}

-- The count is that of the statuses, as an int.
abbrev pub IsCounted : StaleSecretWatchStatus → Type 0
IsCounted st = st.stale_secrets_count ≡ wrap64 (pos (length st.secret_status))

wrap64-suc : (n : ℕ) → wrap64 (wrap64 (pos n) +ℤ pos 1) ≡ wrap64 (pos (n + 1))
unfolding wrap64 ◌+ℤ◌
wrap64-suc n = ground arith

add_status-IsCounted :
    (x : SecretStatus) (st : StaleSecretWatchStatus) → IsCounted st → IsCounted (add_status x st)
unfolding add_status
add_status-IsCounted x st h = rw (h, wrap64-suc, length-append st.secret_status (x ∷ [])) refl

module _ (parse_time : String → Fallible Time) (current_time : Time) (days : Int64) where
  -- What every appending of a status keeps, the loops keep, also where they stop with an error.
  module _ (P : StaleSecretWatchStatus → Type 0)
      (keep : (x : SecretStatus) (st : StaleSecretWatchStatus) → P st → P (add_status x st)) where
    check_secret_inv :
        (n : String) (s : Secret) (st : StaleSecretWatchStatus)
        → P st
        → P (check_secret parse_time current_time days n s st).0
    unfolding check_secret
    check_secret_inv n s st h = elim (Fallible-cases (parse_time s.created)) [
      | inr (e, bad) ↦ rw (bad, check_secret) h
      | inl (c, good) ↦ elim (Fallible-cases (parse_time s.last_modified)) [
        | inr (e, bad) ↦ rw (good, bad, check_secret) h
        | inl (m, fine) ↦ elim (Bool-cases (is_stale current_time (stale_threshold days) m)) [
          | inl stale ↦ rw (good, fine, stale, check_secret) (keep _ st h)
          | inr fresh ↦ rw (good, fine, fresh, check_secret) h
        ]
      ]
    ]

    check_secrets_inv :
        (n : String) (ss : List Secret) (st : StaleSecretWatchStatus)
        → P st
        → P (check_secrets parse_time current_time days n ss st).0
    unfolding check_secrets
    check_secrets_inv n [] st h = h
    check_secrets_inv n (s ∷ ss) st h =
        let h' = check_secret_inv n s st h in
        elim (Option-cases (check_secret parse_time current_time days n s st).1) [
          | inl fine ↦ rw (fine, check_secrets) (check_secrets_inv n ss _ h')
          | inr (e, bad) ↦ rw (bad, check_secrets) h'
        ]

    check_namespaces_inv :
        (ns : List Namespace) (st : StaleSecretWatchStatus)
        → P st
        → P (check_namespaces parse_time current_time days ns st).0
    unfolding check_namespaces
    check_namespaces_inv [] st h = h
    check_namespaces_inv (n ∷ ns) st h =
        let h' = check_secrets_inv n.name n.secrets st h in
        elim (Option-cases (check_secrets parse_time current_time days n.name n.secrets st).1) [
          | inl fine ↦ rw (fine, check_namespaces) (check_namespaces_inv ns _ h')
          | inr (e, bad) ↦ rw (bad, check_namespaces) h'
        ]

  -- Whatever the times parse to, and also where the loops stop with an error, the count stays the
  -- number of statuses.
  pub check_namespaces-IsCounted :
      (ns : List Namespace) (st : StaleSecretWatchStatus)
      → IsCounted st
      → IsCounted (check_namespaces parse_time current_time days ns st).0
  check_namespaces-IsCounted = check_namespaces_inv IsCounted add_status-IsCounted
