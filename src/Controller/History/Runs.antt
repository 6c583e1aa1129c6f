-- ===== src/Controller/History/Runs.antt =====
-- Runs: Reconciles one after the other, with what happens outside between them.
use mathlib.Core.Path.{subst}
use stale_secrets_check.Prelude.{ℕ, String, List, [], ◌∷◌, ◌≡◌, ◌≢◌, inl, inr, sym, arith}
use stale_secrets_check.Api.{Bytes, NamespacedName}
use stale_secrets_check.Exec.{Effect, ok}
use stale_secrets_check.ConfigData.{ConfigData}
use stale_secrets_check.ConfigData.Kept.{Has, store_all, store_all-Has}
use stale_secrets_check.ConfigData.Valid.{IsValid}
use stale_secrets_check.Cluster.{System}
use stale_secrets_check.Store.Readings.{store_all-IsValid}
use stale_secrets_check.Controller.Reconcile.{reconcile}
use stale_secrets_check.Controller.Safety.{IsLawful}
use stale_secrets_check.Controller.History.{Keeper, recorded, Grows}
use stale_secrets_check.Controller.History.Reconciling.{reconcile-Grows}

-- An encoding that is not empty and that decodes to what was encoded.
pub record IsEncoding {W : Type 0} (y : System W) : Type 0 where
  pub nonempty : (c : ConfigData) → y.marshal_config c ≢ ok []
  pub decodes :
      (c : ConfigData) (json : Bytes)
      → y.marshal_config c ≡ ok json
      → y.unmarshal_config json ≡ ok c

module _ {W : Type 0} (y : System W) (k : Keeper y) where
  -- A Reconcile of any object, however it ends, with what it finds in its process, or anything else
  -- that leaves the content of the ConfigMap.
  pub data Run (w : W) : W → Type 0 where
    start : Run w w
    reconciled :
        {v : W}
        → Run w v
        → (req : NamespacedName) (effects : List Effect) (next_address : ℕ)
        → Run w
            (reconcile y req
              (record { world = v; effects = effects; next_address = next_address })).1.world
    outside : {v v' : W} → Run w v → k.content v' ≡ k.content v → Run w v'

  -- A secret has the hash in well-formed data on record.
  pub record IsKept (ns name h : String) (d : Bytes) : Type 0 where
    pub config : ConfigData
    pub is : recorded y d ≡ ok config
    pub valid : IsValid config
    pub has : Has config ns name h

  pub encoded-recorded :
      (d : Bytes) (c : ConfigData) → IsEncoding y → y.marshal_config c ≡ ok d → recorded y d ≡ ok c
  encoded-recorded [] c encoding good = absurd (encoding.nonempty c good)
  encoded-recorded (b ∷ bs) c encoding good = encoding.decodes c (b ∷ bs) good

  Grows-IsKept :
      (ns name h : String) (d d' : Bytes)
      → IsEncoding y
      → IsKept ns name h d
      → Grows y d d'
      → IsKept ns name h d'
  Grows-IsKept ns name h d d' encoding kept (inl same) = subst (IsKept ns name h) (sym same) kept
  Grows-IsKept ns name h d d' encoding kept (inr (c, rs, was, good)) =
      let e : kept.config ≡ c = ground (arith, kept.is, was) in
      record {
        config = store_all rs c;
        is = encoded-recorded d' (store_all rs c) encoding good;
        valid = store_all-IsValid rs c (subst IsValid e kept.valid);
        has = store_all-Has rs c ns name h (subst (λ x. Has x ns name h) e kept.has);
      }

  -- For a lawful client on a cluster that keeps the ConfigMap, and an encoding that is not empty and
  -- decodes to what was encoded: over any number of Reconciles, of any objects and however they end,
  -- and whatever else happens that leaves the content of the ConfigMap, a hash that was on record for
  -- a secret in well-formed data stays on record for it, in well-formed data.
  pub Run-IsKept :
      {w w' : W} (ns name h : String)
      → IsLawful y
      → IsEncoding y
      → IsKept ns name h (k.content w)
      → Run w w'
      → IsKept ns name h (k.content w')
  Run-IsKept ns name h lawful encoding kept start = kept
  Run-IsKept ns name h lawful encoding kept (reconciled run req effects a) =
      Grows-IsKept ns name h _ _ encoding (Run-IsKept ns name h lawful encoding kept run)
        (reconcile-Grows y k lawful req _)
  Run-IsKept ns name h lawful encoding kept (outside run same) =
      subst (IsKept ns name h) (sym same) (Run-IsKept ns name h lawful encoding kept run)
