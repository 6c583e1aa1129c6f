-- ===== src/Store/Readings.antt =====
-- The loops of calculateAndStoreHashedSecrets against what the client answered.
use stale_secrets_check.Prelude.{
  String, Bool, true, ◌≡◌, refl, sym, ap, ◌∙◌, none, some, List, [], ◌∷◌, ◌++◌, arith, get_last?,
}
use mathlib.Core.Path.{subst}
use stale_secrets_check.Api.{GoMap, NamespacedName, KubeSecret, ObjectMeta}
use stale_secrets_check.Exec.{
  Sys, ret, ok, err, Fallible, Outcome, >>=-eq-ret, and_then, and_then-ok,
}
use stale_secrets_check.ConfigData.{ConfigData, Reading, store_reading}
use stale_secrets_check.ConfigData.Kept.{store_all}
use stale_secrets_check.ConfigData.Valid.{IsValid, store_reading-IsValid}
use stale_secrets_check.Cluster.{System}
use stale_secrets_check.Utils.{retrieve_modified_time}
use stale_secrets_check.Store.{
  reading_of, store_and_record, store_secret, store_secrets, store_namespaces,
}

store_all-append :
    (rs rs' : List Reading) (c : ConfigData)
    → store_all (rs ++ rs') c ≡ store_all rs' (store_all rs c)
store_all-append [] rs' c = refl
store_all-append (r ∷ rs) rs' c = store_all-append rs rs' (store_reading r c).0

-- Any number of rounds keeps a ConfigData well-formed.
pub store_all-IsValid : (rs : List Reading) (c : ConfigData) → IsValid c → IsValid (store_all rs c)
store_all-IsValid [] c v = v
store_all-IsValid (r ∷ rs) c v = store_all-IsValid rs _ (store_reading-IsValid r c v)

-- the flag behind some rounds
abbrev pub also : Bool → List Reading → Bool
also u [] = u
also u (r ∷ rs) = true

also-true : (rs : List Reading) → also true rs ≡ true
also-true [] = refl
also-true (r ∷ rs) = refl

also-append : (u : Bool) (rs rs' : List Reading) → also (also u rs) rs' ≡ also u (rs ++ rs')
also-append u [] rs' = refl
also-append u (r ∷ rs) rs' = also-true rs'

module _ {W : Type 0} (y : System W) where
  -- The time that RetrieveModifiedTime returns, where it returns.
  abbrev pub ModifiedTime : ObjectMeta → String → Type 0
  ModifiedTime om t = elim (get_last? om.managed_fields) [
    | none ↦ t ≡ y.format_rfc3339 om.creation_timestamp
    | some none ↦ ⊥
    | some (some u) ↦ t ≡ y.format_rfc3339 u
  ]

  -- The client got some secrets of a namespace by name, one after the other, and these readings
  -- were made of them.
  pub data Read : String → List String → W → List Reading → W → Type 0 where
    done : {ns : String} {w : W} → Read ns [] w [] w
    more :
        {ns name : String} {names : List String} {w w' w'' : W} {secret : KubeSecret} {t : String}
        {rs : List Reading}
        → y.get_secret (record { name = name; namespace = ns }) w ≡ (ok secret, w')
        → ModifiedTime secret.meta t
        → Read ns names w' rs w''
        → Read ns (name ∷ names) w (reading_of y ns name secret t ∷ rs) w''

  -- The same for the entries of a watch list.
  pub data ReadAll : GoMap (List String) → W → List Reading → W → Type 0 where
    none_left : {w : W} → ReadAll [] w [] w
    next :
        {ns : String} {names : List String} {m : GoMap (List String)} {w w' w'' : W}
        {rs rs' : List Reading}
        → Read ns names w rs w'
        → ReadAll m w' rs' w''
        → ReadAll ((ns, names) ∷ m) w (rs ++ rs') w''

  retrieve_modified_time_lem :
      (om : ObjectMeta) (t : String) (s s' : Sys W)
      → retrieve_modified_time y om s ≡ (ret t, s')
      → ModifiedTime om t × (s'.world ≡ s.world)
  unfolding retrieve_modified_time
  retrieve_modified_time_lem om t s s' h = ground arith

  store_and_record_lem :
      (cm : NamespacedName) (r : Reading) (c c' : ConfigData) (u : Bool) (s s' : Sys W)
      → store_and_record y cm r c s ≡ (ret (ok (c', u)), s')
      → (c' ≡ (store_reading r c).0) × (u ≡ true) × (s'.world ≡ s.world)
  unfolding store_and_record
  store_and_record_lem cm r c c' u s s' h = ground arith

  store_secret_lem :
      (cm : NamespacedName) (ns name : String) (c c' : ConfigData) (u : Bool)
      (got : Fallible KubeSecret) (s s' : Sys W)
      → store_secret y cm ns name c got s ≡ (ret (ok (c', u)), s')
      → (secret : KubeSecret) × (t : String) × (got ≡ ok secret)
        × ModifiedTime secret.meta t
        × (c' ≡ (store_reading (reading_of y ns name secret t) c).0)
        × (u ≡ true)
        × (s'.world ≡ s.world)
  unfolding store_secret
  store_secret_lem cm ns name c c' u (err e) s s' h = absurd (ground arith)
  store_secret_lem cm ns name c c' u (ok secret) s s' h =
      let (t, v, first, rest) =
        >>=-eq-ret (retrieve_modified_time y secret.meta)
          (λ t. store_and_record y cm (reading_of y ns name secret t) c) (ok (c', u)) s s' h in
      let (time, still) = retrieve_modified_time_lem secret.meta t s v first in
      let (stored, flag, still') =
        store_and_record_lem cm (reading_of y ns name secret t) c c' u v s' rest in
      (secret, t, refl, time, stored, flag, still' ∙ still)

  store_secrets_lem :
      (cm : NamespacedName) (ns : String) (names : List String) (c c' : ConfigData) (u u' : Bool)
      (s s' : Sys W)
      → store_secrets y cm ns names (c, u) s ≡ (ret (ok (c', u')), s')
      → (rs : List Reading) × Read ns names s.world rs s'.world
        × (c' ≡ store_all rs c)
        × (u' ≡ also u rs)
  unfolding store_secrets
  store_secrets_lem cm ns [] c c' u u' s s' h =
      let e : s.world ≡ s'.world =
        ap (λ (r : Outcome (Fallible (ConfigData × Bool)) × Sys W). r.1.world) h in
      ([], subst (λ w. Read ns [] s.world [] w) e done, ground arith, ground arith)
  store_secrets_lem cm ns (name ∷ names) c c' u u' s s' h =
      let (got, w) = y.get_secret (record { name = name; namespace = ns }) s.world in
      let (r, v, first, rest) =
        >>=-eq-ret (store_secret y cm ns name c got) (and_then (store_secrets y cm ns names))
          (ok (c', u')) (record s { world = w }) s' h in
      let ((c1, u1), stored, later) =
        and_then-ok (store_secrets y cm ns names) r (c', u') v s' rest in
      let (secret, t, was, time, now, flag, still) =
        store_secret_lem cm ns name c c1 u1 got (record s { world = w }) v (rw stored at first) in
      let (rs, read, built, flagged) = store_secrets_lem cm ns names c1 c' u1 u' v s' later in
      (
        reading_of y ns name secret t ∷ rs,
        more (ap (λ a. (a, w)) was) time (subst (λ x. Read ns names x rs s'.world) still read),
        built ∙ ap (store_all rs) now,
        flagged ∙ ap (λ b. also b rs) flag ∙ also-true rs,
      )

  -- Where the loops return data, they have stored the readings of exactly the secrets of the watch
  -- list, in the order of the entries, each got from the client; the flag is set exactly if there
  -- was a reading.
  pub store_namespaces_lem :
      (cm : NamespacedName) (m : GoMap (List String)) (c c' : ConfigData) (u u' : Bool)
      (s s' : Sys W)
      → store_namespaces y cm m (c, u) s ≡ (ret (ok (c', u')), s')
      → (rs : List Reading) × ReadAll m s.world rs s'.world
        × (c' ≡ store_all rs c)
        × (u' ≡ also u rs)
  unfolding store_namespaces
  store_namespaces_lem cm [] c c' u u' s s' h =
      let e : s.world ≡ s'.world =
        ap (λ (r : Outcome (Fallible (ConfigData × Bool)) × Sys W). r.1.world) h in
      ([], subst (λ w. ReadAll [] s.world [] w) e none_left, ground arith, ground arith)
  store_namespaces_lem cm ((ns, names) ∷ m) c c' u u' s s' h =
      let (r, v, first, rest) =
        >>=-eq-ret (store_secrets y cm ns names (c, u)) (and_then (store_namespaces y cm m))
          (ok (c', u')) s s' h in
      let ((c1, u1), stored, later) = and_then-ok (store_namespaces y cm m) r (c', u') v s' rest in
      let (rs, read, built, flag) =
        store_secrets_lem cm ns names c c1 u u1 s v (rw stored at first) in
      let (rs', reads, built', flag') = store_namespaces_lem cm m c1 c' u1 u' v s' later in
      (
        rs ++ rs',
        next read reads,
        built' ∙ ap (store_all rs') built ∙ sym (store_all-append rs rs' c),
        flag' ∙ ap (λ b. also b rs') flag ∙ also-append u rs rs',
      )
