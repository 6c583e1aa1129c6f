-- ===== src/Controller/History.antt =====
-- What is in the operator's ConfigMap, over Reconciles one after the other.
pub mod Marking
pub mod Checking
pub mod Hashing
pub mod Storing
pub mod Reconciling
pub mod Runs
pub mod Fresh
pub mod Prompt
pub mod Steps
pub mod Covered
pub mod Reported
mod Sample
mod Tests
use mathlib.Core.Path.{subst}
use stale_secrets_check.Prelude.{
  String, Bool, true, Option, none, some, List, [], ◌∷◌, ◌≡◌, ◌⊎◌, inl, inr, refl, ap, sym, ◌∙◌,
}
use stale_secrets_check.Api.{Bytes, GoMap, NamespacedName, StaleSecretWatch, ConfigMap}
use stale_secrets_check.Exec.{
  Error, Fallible, ok, err, Exec, Outcome, ret, panic, Outcome-cases, Sys, ◌>>=◌, and_then,
}
use stale_secrets_check.Exec.Keeps.{Ends}
use stale_secrets_check.ConfigData.{ConfigData, Reading, empty}
use stale_secrets_check.ConfigData.Kept.{store_all}
use stale_secrets_check.Hash.{bytes_at}
use stale_secrets_check.Cluster.{System}
use stale_secrets_check.Store.{config_map_key}
use stale_secrets_check.Controller.Safety.{IsLawful}

-- A cluster that keeps the operator's ConfigMap, of which `content` is the entry "data", empty where
-- there is none. Get answers what is kept; Create and Update put the data of the object that they are
-- given there or leave what is kept, and Create does the former only where nothing is kept;
-- SetControllerReference leaves the data of the object; and no other call changes what is kept.
pub record Keeper {W : Type 0} (y : System W) : Type 0 where
  pub content : W → Bytes
  pub got :
      (cm : ConfigMap) (w : W)
      → (y.get_config_map config_map_key cm w).0.1 ≡ none
      → bytes_at "data" (y.get_config_map config_map_key cm w).0.0.binary_data ≡ content w
  pub missing :
      (cm : ConfigMap) (w : W) (e : Error)
      → (y.get_config_map config_map_key cm w).0.1 ≡ some e
      → y.is_not_found e ≡ true
      → content w ≡ []
  pub created :
      (cm : ConfigMap) (w : W)
      → (content (y.create_config_map cm w).1 ≡ content w)
        ⊎ ((content w ≡ [])
            × (content (y.create_config_map cm w).1 ≡ bytes_at "data" cm.binary_data))
  pub updated :
      (cm : ConfigMap) (w : W)
      → (content (y.update_config_map cm w).1 ≡ content w)
        ⊎ (content (y.update_config_map cm w).1 ≡ bytes_at "data" cm.binary_data)
  pub reference :
      (x : StaleSecretWatch) (cm cm' : ConfigMap)
      → y.set_controller_reference x cm ≡ ok cm'
      → cm'.binary_data ≡ cm.binary_data
  pub get_config_map :
      (k : NamespacedName) (cm : ConfigMap) (w : W)
      → content (y.get_config_map k cm w).1 ≡ content w
  pub get_watch :
      (k : NamespacedName) (x : StaleSecretWatch) (w : W)
      → content (y.get_watch k x w).1 ≡ content w
  pub update_watch : (x : StaleSecretWatch) (w : W) → content (y.update_watch x w).1 ≡ content w
  pub update_watch_status :
      (x : StaleSecretWatch) (w : W) → content (y.update_watch_status x w).1 ≡ content w
  pub get_secret : (k : NamespacedName) (w : W) → content (y.get_secret k w).1 ≡ content w
  pub list_namespaces : (w : W) → content (y.list_namespaces w).1 ≡ content w
  pub list_secrets : (ns : String) (w : W) → content (y.list_secrets ns w).1 ≡ content w
  pub now : (w : W) → content (y.now w).1 ≡ content w
  pub getenv : (name : String) (w : W) → content (y.getenv name w).1 ≡ content w
  pub user_home_dir : (w : W) → content (y.user_home_dir w).1 ≡ content w
  pub build_config_from_flags :
      (path : String) (w : W) → content (y.build_config_from_flags path w).1 ≡ content w
  pub load_from_file : (path : String) (w : W) → content (y.load_from_file path w).1 ≡ content w
  pub new_request :
      (url : String) (body : Bytes) (w : W) → content (y.new_request url body w).1 ≡ content w
  pub do_request :
      (url auth : String) (body : Bytes) (w : W)
      → content (y.do_request url auth body w).1 ≡ content w
  pub range_order : (m : GoMap (List String)) (w : W) → content (y.range_order m w).1 ≡ content w

Ends-Unit {ℓ} : {A : Type ℓ} (r : Outcome A) → Ends Unit r
Ends-Unit (ret a) = tt
Ends-Unit panic = tt

module _ {W : Type 0} (y : System W) where
  -- What is on record in a content: nothing where it is empty, and else what it decodes to.
  abbrev pub recorded : Bytes → Fallible ConfigData
  recorded [] = ok empty
  recorded (b ∷ bs) = y.unmarshal_config (b ∷ bs)

  -- The content stayed, or became the encoding of what was on record with some readings stored.
  abbrev pub Grows : Bytes → Bytes → Type 0
  Grows d d' =
      (d' ≡ d)
      ⊎ ((c : ConfigData) × (rs : List Reading) × (recorded d ≡ ok c)
          × (y.marshal_config (store_all rs c) ≡ ok d'))

module _ {W : Type 0} (y : System W) (k : Keeper y) where
  -- The method leaves the content as it was, however it ends.
  abbrev pub Same : {A : Type 0} → Exec W A → Type 0
  Same m = (s : Sys W) → k.content (m s).1.world ≡ k.content s.world

  -- what the last part leaves, is the first part's
  pub bind-content :
      {A B : Type 0} (m : Exec W A) (f : A → Exec W B)
      → ((a : A) → Same (f a))
      → (s : Sys W) → k.content ((m >>= f) s).1.world ≡ k.content (m s).1.world
  bind-content m f g s = elim (Outcome-cases (m s).0) [
    | inl (a, e) ↦ rw (e, ◌>>=◌) (g a (m s).1)
    | inr e ↦ rw (e, ◌>>=◌) refl
  ]

  pub bind-Same :
      {A B : Type 0} (m : Exec W A) (f : A → Exec W B)
      → Same m
      → ((a : A) → Same (f a))
      → Same (m >>= f)
  bind-Same m f h g s = bind-content m f g s ∙ h s

  -- a first part that leaves the content, and a last part that grows it
  pub bind-Grows :
      {A B : Type 0} (m : Exec W A) (f : A → Exec W B) (d : Bytes) (s : Sys W)
      → k.content (m s).1.world ≡ d
      → ((a : A) (t : Sys W) → m s ≡ (ret a, t) → Grows y d (k.content (f a t).1.world))
      → Grows y d (k.content ((m >>= f) s).1.world)
  bind-Grows m f d s same h = elim (Outcome-cases (m s).0) [
    | inl (a, e) ↦ rw (e, ◌>>=◌) (h a (m s).1 (ap (λ o. (o, (m s).1)) e))
    | inr e ↦ rw (e, ◌>>=◌) (inl same)
  ]

  -- a first part that grows the content, and a last part that leaves it
  pub Grows-bind :
      {A B : Type 0} (m : Exec W A) (f : A → Exec W B) (d : Bytes) (s : Sys W)
      → ((a : A) → Same (f a))
      → Grows y d (k.content (m s).1.world)
      → Grows y d (k.content ((m >>= f) s).1.world)
  Grows-bind m f d s g h = subst (Grows y d) (sym (bind-content m f g s)) h

  pub and_then-Same :
      {A B : Type 0} (f : A → Exec W (Fallible B)) (r : Fallible A)
      → ((a : A) → Same (f a))
      → Same (and_then f r)
  and_then-Same f (err e) h s = refl
  and_then-Same f (ok a) h s = h a s

  module _ (lawful : IsLawful y) (f : StaleSecretWatch → Exec W (StaleSecretWatch × Option Error))
      (same : (x : StaleSecretWatch) → Same (f x)) where
    pub retry_on_error-Same :
        (p : Error → Bool) (x : StaleSecretWatch) → Same (y.retry_on_error p f x)
    retry_on_error-Same p x s =
        (lawful.on_error (λ t. k.content t.world ≡ k.content s.world) Unit p f
          (λ x t e. (Ends-Unit (f x t).0, same x t ∙ e)) x s refl).1

    pub retry_on_conflict-Same : (x : StaleSecretWatch) → Same (y.retry_on_conflict f x)
    retry_on_conflict-Same x s =
        (lawful.on_conflict (λ t. k.content t.world ≡ k.content s.world) Unit f
          (λ x t e. (Ends-Unit (f x t).0, same x t ∙ e)) x s refl).1
