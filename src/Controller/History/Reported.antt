-- ===== src/Controller/History/Reported.antt =====
-- What a check reports of the record, behind Reconciles.
use stale_secrets_check.Prelude.{
  String, true, none, ◌≡◌, ◌≢◌, sym, ap, ◌∙◌, arith, [], ◌∷◌, In, inl, inr, Option-cases,
}
use stale_secrets_check.Api.{Bytes, Time, Result, StaleSecretWatch}
use stale_secrets_check.Exec.{Sys, ret, ok, update_watch_status}
use stale_secrets_check.ConfigData.{ConfigData}
use stale_secrets_check.ConfigData.Kept.{Has}
use stale_secrets_check.ConfigData.Valid.{IsValid}
use stale_secrets_check.Staleness.Exact.{report}
use stale_secrets_check.Cluster.{System}
use stale_secrets_check.Store.{config_map_key, empty_config_map}
use stale_secrets_check.Controller.Daily.{run_checks}
use stale_secrets_check.Controller.Reported.{CallsOnce, run_checks-IsReported}
use stale_secrets_check.Controller.Safety.{IsLawful}
use stale_secrets_check.Controller.History.{Keeper, recorded}
use stale_secrets_check.Controller.History.Runs.{IsEncoding, IsKept, Run, Run-IsKept}

module _ {W : Type 0} (y : System W) where
  -- Empty data cannot be decoded.
  abbrev pub RejectsEmpty : Type 0
  RejectsEmpty = (c : ConfigData) → y.unmarshal_config [] ≢ ok c

  abbrev pub checked_at : W → Time
  checked_at w = (y.now (y.get_config_map config_map_key empty_config_map w).1).0

  recorded-decoded :
      (d : Bytes) (c : ConfigData)
      → RejectsEmpty
      → y.unmarshal_config d ≡ ok c
      → recorded y d ≡ ok c
  recorded-decoded [] c rejects good = absurd (rejects c good)
  recorded-decoded (b ∷ bs) c rejects good = good

  run_checks-got :
      (ssw : StaleSecretWatch) (result : Result) (s s' : Sys W)
      → run_checks y ssw s ≡ (ret (true, result, none), s')
      → (y.get_config_map config_map_key empty_config_map s.world).0.1 ≡ none
  unfolding run_checks
  run_checks-got ssw result s s' h =
      elim (Option-cases (y.get_config_map config_map_key empty_config_map s.world).0.1) [
        | inl fine ↦ fine
        | inr (e, bad) ↦ absurd (ground arith)
      ]

module _ {W : Type 0} (y : System W) (k : Keeper y) where
  -- For a check that starts in a world: a StaleSecretWatch was written whose statuses are those of the
  -- stale secrets of the data on record, which is well-formed and has the hash for the secret, at the
  -- instant that the clock answers behind the read of the ConfigMap.
  pub record IsInReport (ns name h : String) (ssw : StaleSecretWatch) (w : W) (s : Sys W)
      : Type 0 where
    pub config : ConfigData
    pub is : recorded y (k.content w) ≡ ok config
    pub valid : IsValid config
    pub has : Has config ns name h
    pub object : StaleSecretWatch
    pub written : In (update_watch_status object) s.effects
    pub statuses :
        object.status.secret_status
        ≡ report y.parse_rfc3339 (checked_at y w) ssw.spec.stale_threshold_in_days config.namespaces

  -- For a lawful client on a cluster that keeps the ConfigMap, an encoding that is not empty and decodes
  -- to what was encoded, empty data that cannot be decoded, and a RetryOnConflict that calls the function
  -- with the argument that it was given: if a hash was on record for a secret in well-formed data, then
  -- a check in the window that is done without an error behind any run from there has written to the
  -- status of a StaleSecretWatch the statuses of exactly the stale secrets on record, at the instant
  -- that the clock answered behind the read of the ConfigMap, and the hash is in that record.
  pub run_checks-IsInReport :
      {w : W} (ns name h : String) (ssw : StaleSecretWatch) (result : Result) (s s' : Sys W)
      → IsLawful y
      → IsEncoding y
      → RejectsEmpty y
      → CallsOnce y
      → IsKept y k ns name h (k.content w)
      → Run y k w s.world
      → run_checks y ssw s ≡ (ret (true, result, none), s')
      → IsInReport ns name h ssw s.world s'
  run_checks-IsInReport ns name h ssw result s s' lawful encoding rejects calls was run done =
      let kept = Run-IsKept y k ns name h lawful encoding was run in
      let (config, x, good, there, same) = run_checks-IsReported y calls ssw result s s' done in
      let same_data = k.got empty_config_map s.world (run_checks-got y ssw result s s' done) in
      let e : recorded y (k.content s.world) ≡ ok config =
        recorded-decoded y (k.content s.world) config rejects
          (sym (ap y.unmarshal_config same_data) ∙ good) in
      let c : config ≡ kept.config = ground (arith, kept.is, e) in
      record {
        config = kept.config;
        is = kept.is;
        valid = kept.valid;
        has = kept.has;
        object = x;
        written = there;
        statuses =
            same
            ∙ ap
                (λ (d : ConfigData).
                  report y.parse_rfc3339 (checked_at y s.world) ssw.spec.stale_threshold_in_days
                    d.namespaces)
                c;
      }
