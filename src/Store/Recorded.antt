-- ===== src/Store/Recorded.antt =====
-- Every watched secret is on record in the ConfigMap that calculateAndStoreHashedSecrets writes.
use mathlib.Core.Path.{subst}
use mathlib.Core.List.{Permᴰ}
use stale_secrets_check.Prelude.{
  eq_iff, text_cases, String, ◌≡◌, refl, sym, ap, ◌∙◌, none, List, [], ◌∷◌, In, In-append_left,
  In-append_right, inl, inr,
}
use stale_secrets_check.Api.{Bytes, GoMap, ConfigMap, KubeSecret, StaleSecretWatch}
use stale_secrets_check.Exec.{Effect, Sys, ret, ok}
use stale_secrets_check.ConfigData.{ConfigData, Reading}
use stale_secrets_check.ConfigData.Kept.{Has, store_all, store_all-Has_new}
use stale_secrets_check.Hash.{calculate_hash}
use stale_secrets_check.Cluster.{System}
use stale_secrets_check.WatchList.Members.{names_at}
use stale_secrets_check.WatchList.Listed.{IsListed}
use stale_secrets_check.WatchList.Answers.{IsPrepared}
use stale_secrets_check.Store.{reading_of, calculate_and_store_hashed_secrets}
use stale_secrets_check.Store.Readings.{Read, done, more, ReadAll, none_left, next}
use stale_secrets_check.Store.Written.{
  IsWriteOf, Stored, calculate_and_store_hashed_secrets-IsStored,
}

In-perm : {A : Type 0} {xs ys : List A} (a : A) → Permᴰ xs ys → In a xs → In a ys
In-perm a Permᴰ.nil h = h
In-perm a (Permᴰ.cons e p) (inl q) = inl (q ∙ e)
In-perm a (Permᴰ.cons e p) (inr h) = inr (In-perm a p h)
In-perm a (Permᴰ.swap e f) (inl q) = inr (inl (q ∙ e))
In-perm a (Permᴰ.swap e f) (inr (inl q)) = inl (q ∙ f)
In-perm a (Permᴰ.swap e f) (inr (inr h)) = inr (inr h)
In-perm a (Permᴰ.trans p q) h = In-perm a q (In-perm a p h)

names_at-In :
    (ns name : String) (m : GoMap (List String))
    → In name (names_at ns m)
    → (names : List String) × In (ns, names) m × In name names
unfolding names_at
names_at-In ns name [] h = absurd h
names_at-In ns name ((k, names) ∷ m) h = elim (text_cases k ns) [
  | inl same ↦ (names, inl (rw same refl), rw ((eq_iff k ns).1 same, names_at) at h)
  | inr (other, test) ↦
      let (names', there, named) = names_at-In ns name m (rw (test, names_at) at h) in
      (names', inr there, named)
]

module _ {W : Type 0} (y : System W) where
  -- Ranging over a map visits each entry once.
  abbrev pub Ranges : Type 0
  Ranges = (m : GoMap (List String)) (w : W) → Permᴰ m (y.range_order m w).0

  -- A reading of a secret as the client returned it.
  abbrev pub IsOf : String → String → List Reading → Type 0
  IsOf ns name rs =
      (secret : KubeSecret) × (t : String) × (w : W) × ((y.get_secret
          (record { name = name; namespace = ns }) w).0
        ≡ ok secret)
      × In (reading_of y ns name secret t) rs

  Read-IsOf :
      {ns : String} {names : List String} {w w' : W} {rs : List Reading} (name : String)
      → Read y ns names w rs w'
      → In name names
      → IsOf ns name rs
  Read-IsOf name done h = absurd h
  Read-IsOf name (more {w = w} {secret = secret} {t = t} e time read) (inl q) =
      (secret, t, w, rw q (ap (λ r. r.0) e), inl (rw q refl))
  Read-IsOf name (more e time read) (inr h) =
      let (secret, t, w, got, there) = Read-IsOf name read h in (secret, t, w, got, inr there)

  ReadAll-IsOf :
      {m : GoMap (List String)} {w w' : W} {rs : List Reading} (ns : String) (names : List String)
      (name : String)
      → ReadAll y m w rs w'
      → In (ns, names) m
      → In name names
      → IsOf ns name rs
  ReadAll-IsOf ns names name none_left h k = absurd h
  ReadAll-IsOf ns names name (next {ns = ns'} {names = names'} {rs = rs} {rs' = rs'} read reads)
        (inl q) k =
      let found = Read-IsOf name read (subst (λ (e : String × List String). In name e.1) q k) in
      let (secret, t, w, got, there) =
        subst (λ (e : String × List String). IsOf e.0 name rs) (sym q) found in
      (secret, t, w, got, In-append_left _ rs rs' there)
  ReadAll-IsOf ns names name (next {rs = rs} {rs' = rs'} read reads) (inr h) k =
      let (secret, t, w, got, there) = ReadAll-IsOf ns names name reads h k in
      (secret, t, w, got, In-append_right _ rs rs' there)

  -- What is written, with a hash on record.
  abbrev pub IsRecorded : String → String → Sys W → Type 0
  IsRecorded ns name s =
      (secret : KubeSecret) × (w : W) × (config : ConfigData) × (json : Bytes) × (last : Effect)
      × (x : Effect) × (older : List Effect) × ((y.get_secret
            (record { name = name; namespace = ns }) w).0
          ≡ ok secret)
      × Has config ns name (calculate_hash y.sha256_hex secret.secret_data)
      × (y.marshal_config config ≡ ok json)
      × (s.effects ≡ last ∷ x ∷ older)
      × IsWriteOf json x

  Stored-IsRecorded :
      (ns name : String) (loaded : ConfigData) (rs : List Reading) (s : Sys W)
      → IsOf ns name rs
      → Stored y loaded rs s
      → IsRecorded ns name s
  Stored-IsRecorded ns name loaded [] s (secret, t, w, got, there) stored = absurd there
  Stored-IsRecorded ns name loaded (r ∷ rs) s (secret, t, w, got, there)
        (json, last, x, older, good, effects, is) =
      (
        secret,
        w,
        store_all (r ∷ rs) loaded,
        json,
        last,
        x,
        older,
        got,
        store_all-Has_new (r ∷ rs) loaded (reading_of y ns name secret t) there,
        good,
        effects,
        is,
      )

  -- Of a secret that was listed, a reading is among those of the watch list.
  pub listed-IsOf :
      (ssw : StaleSecretWatch) (m : GoMap (List String)) (ns name : String) (w w' before behind : W)
      (rs : List Reading)
      → Ranges
      → (p : IsPrepared y ssw m w w')
      → ReadAll y (y.range_order m before).0 (y.range_order m before).1 rs behind
      → IsListed ssw.spec.stale_secret_to_watch.exclude_list p.answers ns name
      → IsOf ns name rs
  listed-IsOf ssw m ns name w w' before behind rs ranges p read listed =
      let (names, there, named) = names_at-In ns name m ((p.members ns name).1 listed) in
      ReadAll-IsOf ns names name read (In-perm (ns, names) (ranges m before) there) named

  -- For a watch list that was prepared, where ranging over a map visits each entry once: if
  -- calculateAndStoreHashedSecrets reports no error, then for every secret that the client listed in
  -- the wanted namespaces, less the tokens and those on the exclude list, the client has returned a
  -- secret of that name, and the hash of its data is on record in the data whose encoding was written
  -- to the ConfigMap by the last effect but the final event.
  pub listed-IsRecorded :
      (ssw : StaleSecretWatch) (m : GoMap (List String)) (cm cm' : ConfigMap) (ns name : String)
      (w w' : W) (s s' : Sys W)
      → Ranges
      → (p : IsPrepared y ssw m w w')
      → calculate_and_store_hashed_secrets y m cm s ≡ (ret (cm', none), s')
      → IsListed ssw.spec.stale_secret_to_watch.exclude_list p.answers ns name
      → IsRecorded ns name s'
  listed-IsRecorded ssw m cm cm' ns name w w' s s' ranges p h listed =
      let i = calculate_and_store_hashed_secrets-IsStored y m cm cm' s s' h in
      let read = subst (λ o. ReadAll y o.0 o.1 i.readings i.behind) (sym i.is_order) i.read in
      Stored-IsRecorded ns name i.loaded i.readings s'
        (listed-IsOf ssw m ns name w w' i.before i.behind i.readings ranges p read listed) i.stored
