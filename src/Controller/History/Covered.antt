-- ===== src/Controller/History/Covered.antt =====
-- The secrets that a Reconcile covers, with the hashes on record for them.
pub mod Reconciling
use stale_secrets_check.Prelude.{String, List, ◌≡◌, In}
use stale_secrets_check.Api.{Bytes, NamespacedName, KubeSecret, Result}
use stale_secrets_check.Exec.{Sys, ok}
use stale_secrets_check.ConfigData.{ConfigData, Reading}
use stale_secrets_check.ConfigData.Valid.{IsValid}
use stale_secrets_check.Hash.{calculate_hash}
use stale_secrets_check.Cluster.{System}
use stale_secrets_check.WatchList.Listed.{IsListed}
use stale_secrets_check.WatchList.Answers.{IsPrepared}
use stale_secrets_check.Store.{empty_config_map, reading_of}
use stale_secrets_check.Store.Written.{read_from}
use stale_secrets_check.Controller.Safety.{IsLawful}
use stale_secrets_check.Controller.History.{Keeper, recorded}
use stale_secrets_check.Controller.History.Fresh.{ReadAsRanged}
use stale_secrets_check.Controller.History.Runs.{IsEncoding, IsKept, Run, Run-IsKept}
use stale_secrets_check.Controller.History.Steps.{Steps, behind_get, got_map}

module _ {W : Type 0} (y : System W) (k : Keeper y) where
  -- What is on record is well-formed.
  abbrev pub IsSound : Bytes → Type 0
  IsSound d = (c : ConfigData) × (recorded y d ≡ ok c) × IsValid c

  -- The watch list of the Reconcile was prepared from what the client answered between the first read
  -- of the ConfigMap and the condition behind the list; its secrets were got from the client one after
  -- the other, from the world on in which the store step ranges over it; and for every secret that the
  -- client had listed there, less the tokens and those that the object excludes, there is a reading of a
  -- secret that the client returned, of which the hash is on record in well-formed data.
  pub record IsCovered (req : NamespacedName) (result : Result) (s s' : Sys W) (d : Bytes)
      : Type 0 where
    pub steps : Steps y req result s s'
    pub prepared :
        IsPrepared y steps.added.0 steps.listing.watched
          (behind_get y empty_config_map steps.marked).world
          steps.listing.listed.world
    pub readings : List Reading
    pub behind : W
    pub read :
        let cm = got_map y empty_config_map steps.marked in
        let noted = steps.listing.noted in
        ReadAsRanged y k steps.listing.watched
          (read_from y (got_map y cm noted) (behind_get y cm noted))
          readings
          behind
    pub kept :
        (ns name : String)
        → IsListed steps.added.0.spec.stale_secret_to_watch.exclude_list prepared.answers ns name
        → (secret : KubeSecret) × (t : String) × (w : W) × ((y.get_secret
              (record { name = name; namespace = ns })
              w).0
            ≡ ok secret)
          × In (reading_of y ns name secret t) readings
          × IsKept y k ns name (calculate_hash y.sha256_hex secret.secret_data) d

  pub Run-IsCovered :
      {w w' : W} {req : NamespacedName} {result : Result} {s s' : Sys W}
      → IsLawful y
      → IsEncoding y
      → IsCovered req result s s' (k.content w)
      → Run y k w w'
      → IsCovered req result s s' (k.content w')
  Run-IsCovered lawful encoding c run = record {
    steps = c.steps;
    prepared = c.prepared;
    readings = c.readings;
    behind = c.behind;
    read = c.read;
    kept = λ ns name listed.
        let (secret, t, w, got, there, kept) = c.kept ns name listed in
        let hash = calculate_hash y.sha256_hex secret.secret_data in
        (secret, t, w, got, there, Run-IsKept y k ns name hash lawful encoding kept run);
  }
