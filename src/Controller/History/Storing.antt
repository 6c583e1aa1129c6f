-- ===== src/Controller/History/Storing.antt =====
-- calculateAndStoreHashedSecrets, as it grows the content of the ConfigMap.
use mathlib.Core.Path.{subst}
use stale_secrets_check.Prelude.{
  String, Bool, true, false, Option, none, some, List, [], ◌∷◌, ◌≡◌, ◌⊎◌, inl, inr, refl, sym, ap,
  ◌∙◌, arith, Bool-cases,
}
use stale_secrets_check.Api.{Bytes, GoMap, NamespacedName, ConfigMap, key_of}
use stale_secrets_check.Exec.{
  create_config_map, update_config_map, Error, Sys, ret, ok, err, Fallible, Fallible-cases, ◌>>=◌,
}
use stale_secrets_check.ConfigData.{ConfigData, Reading}
use stale_secrets_check.ConfigData.Kept.{store_all}
use stale_secrets_check.Hash.{bytes_at}
use stale_secrets_check.Cluster.{System}
use stale_secrets_check.Store.{
  config_map_key, empty_config_map, create_or_update_found, create_or_update_config_map,
  load_config, report_written, write_config, updated_or, created_or, hash_secrets,
  calculate_and_store_hashed_secrets,
}
use stale_secrets_check.Store.Written.{hash_secrets_lem}
use stale_secrets_check.Controller.History.Hashing.{load_config-Same, hash_secrets-Same}
use stale_secrets_check.Controller.History.{Keeper, Same, bind-Grows, Grows-bind, recorded, Grows}

module _ {W : Type 0} (y : System W) (k : Keeper y) where
  -- The content behind the writing of a ConfigMap.
  abbrev Written : ConfigMap → Sys W → Sys W → Type 0
  Written cm s s' =
      (k.content s'.world ≡ k.content s.world)
      ⊎ (k.content s'.world ≡ bytes_at "data" cm.binary_data)

  Written-behind :
      (cm : ConfigMap) (s t : Sys W) (s' : Sys W)
      → k.content s'.world ≡ k.content t.world
      → Written cm s t
      → Written cm s s'
  Written-behind cm s t s' h (inl e) = inl (h ∙ e)
  Written-behind cm s t s' h (inr e) = inr (h ∙ e)

  updated_or-Same : (cm : ConfigMap) (r : ConfigMap × Option Error) → Same y k (updated_or y cm r)
  updated_or-Same cm (found, none) s = refl
  updated_or-Same cm (found, some e) s = refl

  created_or-Same : (r : ConfigMap × Option Error) → Same y k (created_or y r)
  created_or-Same (cm, none) s = refl
  created_or-Same (cm, some e) s = refl

  create_or_update_found-Written :
      (cm found : ConfigMap) (e : Option Error) (s : Sys W)
      → Written cm s (create_or_update_found y cm (found, e) s).1
  unfolding create_or_update_found
  create_or_update_found-Written cm found none s =
      let new = record found { binary_data = cm.binary_data } in
      let (r, w) = y.update_config_map new s.world in
      let t = record s { world = w; effects = update_config_map new ∷ s.effects } in
      Written-behind cm s t (updated_or y cm r t).1 (updated_or-Same cm r t) (k.updated new s.world)
  create_or_update_found-Written cm found (some e) s = elim (Bool-cases (y.is_not_found e)) [
    | inr other ↦ rw (other, create_or_update_found) (inl refl)
    | inl absent ↦
        let (r, w) = y.create_config_map cm s.world in
        let t = record s { world = w; effects = create_config_map cm ∷ s.effects } in
        rw (absent, create_or_update_found)
          (Written-behind cm s t (created_or y r t).1 (created_or-Same r t)
            (elim (k.created cm s.world) [ inl same ↦ inl same | inr (_, new) ↦ inr new ]))
  ]

  create_or_update_config_map-Written :
      (cm : ConfigMap) (s : Sys W) → Written cm s (create_or_update_config_map y cm s).1
  unfolding create_or_update_config_map
  create_or_update_config_map-Written cm s =
      let ((found, e), w) = y.get_config_map (key_of cm.meta) empty_config_map s.world in
      let still = k.get_config_map (key_of cm.meta) empty_config_map s.world in
      elim (create_or_update_found-Written cm found e (record s { world = w })) [
        | inl same ↦ inl (same ∙ still)
        | inr new ↦ inr new
      ]

  pub report_written-Same : (r : ConfigMap × Option Error) → Same y k (report_written y r)
  unfolding report_written
  report_written-Same (cm, none) s = refl
  report_written-Same (cm, some e) s = refl

  data-Grows :
      (d d' json : Bytes) (cm : ConfigMap) (c c' : ConfigData) (rs : List Reading)
      → cm.binary_data ≡ ("data", json) ∷ []
      → recorded y d ≡ ok c
      → c' ≡ store_all rs c
      → y.marshal_config c' ≡ ok json
      → (d' ≡ d) ⊎ (d' ≡ bytes_at "data" cm.binary_data)
      → Grows y d d'
  unfolding bytes_at
  data-Grows d d' json cm c c' rs is was built good (inl same) = inl same
  data-Grows d d' json cm c c' rs is was built good (inr new) =
      let here : d' ≡ json = new ∙ ap (bytes_at "data") is in
      inr (c, rs, was, sym (ap y.marshal_config built) ∙ good ∙ ap ok (sym here))

  write_config-Grows :
      (cm : ConfigMap) (c c' : ConfigData) (u : Bool) (rs : List Reading) (s : Sys W)
      → recorded y (k.content s.world) ≡ ok c
      → c' ≡ store_all rs c
      → Grows y (k.content s.world) (k.content (write_config y cm (ok (c', u)) s).1.world)
  unfolding write_config
  write_config-Grows cm c c' false rs s was built = inl refl
  write_config-Grows cm c c' true rs s was built = elim (Fallible-cases (y.marshal_config c')) [
    | inr (e, bad) ↦ rw (bad, write_config) (inl refl)
    | inl (json, good) ↦
        let new = record cm { binary_data = ("data", json) ∷ [] } in
        rw (good, write_config)
          (Grows-bind y k (create_or_update_config_map y new) (report_written y) (k.content s.world)
            s report_written-Same
            (data-Grows (k.content s.world)
              (k.content (create_or_update_config_map y new s).1.world) json new c c' rs refl was
              built good (create_or_update_config_map-Written new s)))
  ]

  -- What was loaded is on record, where `d` is what the ConfigMap had.
  pub load_config-recorded :
      (cm : ConfigMap) (e : Option Error) (d : Bytes) (c : ConfigData) (s s' : Sys W)
      → (e ≡ none → bytes_at "data" cm.binary_data ≡ d)
      → ((x : Error) → e ≡ some x → y.is_not_found x ≡ true → d ≡ [])
      → load_config y cm e s ≡ (ret (ok c), s')
      → recorded y d ≡ ok c
  unfolding load_config
  load_config-recorded cm none [] c s s' there absent h =
      let here = there refl in ground (arith, here)
  load_config-recorded cm none (b ∷ bs) c s s' there absent h =
      let here = there refl in ground (arith, here)
  load_config-recorded cm (some x) d c s s' there absent h = elim (Bool-cases (y.is_not_found x)) [
    | inl missing ↦ rw (absent x refl missing) (ground arith)
    | inr other ↦ absurd (ground arith)
  ]

  module _ (key : NamespacedName) (own : key ≡ config_map_key) (cm : ConfigMap) (w : W) where
    pub got_own :
        (y.get_config_map key cm w).0.1 ≡ none
        → bytes_at "data" (y.get_config_map key cm w).0.0.binary_data ≡ k.content w
    got_own = rw own (k.got cm w)

    pub missing_own :
        (x : Error)
        → (y.get_config_map key cm w).0.1 ≡ some x
        → y.is_not_found x ≡ true
        → k.content w ≡ []
    missing_own = rw own (k.missing cm w)

  hash_and_write-Grows :
      (cm : ConfigMap) (m : GoMap (List String)) (r : Fallible ConfigData) (d : Bytes) (t : Sys W)
      → k.content t.world ≡ d
      → ((c : ConfigData) → r ≡ ok c → recorded y d ≡ ok c)
      → Grows y d
          (k.content ((hash_secrets y (key_of cm.meta) m r >>= write_config y cm) t).1.world)
  unfolding write_config
  hash_and_write-Grows cm m r d t same was =
      bind-Grows y k (hash_secrets y (key_of cm.meta) m r) (write_config y cm) d t
        (hash_secrets-Same y k (key_of cm.meta) m r t ∙ same)
        (λ stored v h.
          let still : k.content v.world ≡ d =
            ap (λ o. k.content o.1.world) (sym h)
            ∙ hash_secrets-Same y k (key_of cm.meta) m r t
            ∙ same in
          hashed stored v h still)
    where
      hashed :
          (stored : Fallible (ConfigData × Bool)) (v : Sys W)
          → hash_secrets y (key_of cm.meta) m r t ≡ (ret stored, v)
          → k.content v.world ≡ d
          → Grows y d (k.content (write_config y cm stored v).1.world)
      hashed (err e) v h still = inl still
      hashed (ok (c', u)) v h still =
          let (c, rs, is, read, built, flag) = hash_secrets_lem y (key_of cm.meta) m r c' u t v h in
          subst (λ x. Grows y x (k.content (write_config y cm (ok (c', u)) v).1.world)) still
            (write_config-Grows cm c c' u rs v (ap (recorded y) still ∙ was c is) built)

  -- The ConfigMap that is given is the operator's own.
  pub calculate_and_store_hashed_secrets-Grows :
      (m : GoMap (List String)) (cm : ConfigMap) (s : Sys W)
      → key_of cm.meta ≡ config_map_key
      → Grows y
          (k.content s.world)
          (k.content (calculate_and_store_hashed_secrets y m cm s).1.world)
  unfolding calculate_and_store_hashed_secrets
  calculate_and_store_hashed_secrets-Grows m cm s own =
      let ((got, e), w) = y.get_config_map (key_of cm.meta) cm s.world in
      let still = k.get_config_map (key_of cm.meta) cm s.world in
      let s1 = record s { world = w } in
      let same = load_config-Same y k got e s1 ∙ still in
      bind-Grows y k (load_config y got e)
        (λ loaded. hash_secrets y (key_of got.meta) m loaded >>= write_config y got)
        (k.content s.world) s1 same
        (λ r t h.
          hash_and_write-Grows got m r (k.content s.world) t
            (ap (λ o. k.content o.1.world) (sym h) ∙ same)
            (λ c is.
              load_config-recorded got e (k.content s.world) c s1 t
                (got_own (key_of cm.meta) own cm s.world)
                (missing_own (key_of cm.meta) own cm s.world) (h ∙ ap (λ o. (ret o, t)) is)))
