-- ===== src/ConfigData/Order.antt =====
-- The order in which the loop takes the secrets, as the view of the ConfigData shows it.
use mathlib.Core.List.{Permᴰ}
use stale_secrets_check.Prelude.{
  String, ◌≡◌, ◌≢◌, refl, ap, ◌∙◌, sym, Option, some, List, [], ◌∷◌, arith, ◌==◌, eq_iff, ◌&&◌,
  if◌then◌else◌, Distinct, Distinct-perm,
}
use stale_secrets_check.ConfigData.{Secret, ConfigData, Reading, store_reading}
use stale_secrets_check.ConfigData.View.{view}
use stale_secrets_check.ConfigData.Update.{touched, view-store_reading}
use stale_secrets_check.ConfigData.Kept.{store_all}

-- which secret a reading is of
abbrev pub secret_key : Reading → String × String
secret_key r = (r.namespace, r.name)

module _ (namespace name : String) where
  -- what a reading does to the record of the one secret
  abbrev effect : Reading → Option Secret → Option Secret
  effect r o = if r.namespace == namespace && r.name == name then some (touched r o) else o

  abbrev after : List Reading → Option Secret → Option Secret
  after [] o = o
  after (r ∷ rs) o = after rs (effect r o)

  view-store_all :
      (rs : List Reading) (c : ConfigData)
      → view (store_all rs c) namespace name ≡ after rs (view c namespace name)
  view-store_all [] c = refl
  view-store_all (r ∷ rs) c =
      view-store_all rs (store_reading r c).0
      ∙ ap (after rs) (view-store_reading r c namespace name)

  effect-swap :
      (q r : Reading) (o : Option Secret)
      → secret_key q ≢ secret_key r
      → effect q (effect r o) ≡ effect r (effect q o)
  effect-swap q r o h = ground (
    arith,
    eq_iff q.namespace namespace,
    eq_iff q.name name,
    eq_iff r.namespace namespace,
    eq_iff r.name name,
  )

  after-perm :
      {rs rs' : List Reading} (o : Option Secret)
      → Permᴰ rs rs'
      → Distinct secret_key rs
      → after rs o ≡ after rs' o
  after-perm o Permᴰ.nil d = refl
  after-perm o (Permᴰ.cons {a} e p) (h, d) = rw (← e) (after-perm (effect a o) p d)
  after-perm o (Permᴰ.swap {l} e f) ((ne, h), d) =
      rw (← e, ← f) (ap (after l) (effect-swap _ _ o ne))
  after-perm o (Permᴰ.trans p q) d =
      after-perm o p d ∙ after-perm o q (Distinct-perm secret_key p d)

-- Where no secret is read twice, the order of the readings makes no difference to the record of any
-- secret.
pub view-store_all_perm :
    {rs rs' : List Reading} (c : ConfigData) (namespace name : String)
    → Permᴰ rs rs'
    → Distinct secret_key rs
    → view (store_all rs c) namespace name ≡ view (store_all rs' c) namespace name
view-store_all_perm {rs} {rs'} c namespace name p d =
    view-store_all namespace name rs c
    ∙ after-perm namespace name (view c namespace name) p d
    ∙ sym (view-store_all namespace name rs' c)
