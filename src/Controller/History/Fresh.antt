-- ===== src/Controller/History/Fresh.antt =====
-- What calculateAndStoreHashedSecrets has stored without an error, and what becomes of it.
use mathlib.Core.Path.{subst}
use stale_secrets_check.Prelude.{
  String, Bool, true, none, List, [], ◌∷◌, ◌≡◌, ◌≢◌, false, inl, inr, refl, sym, ap, ◌∙◌, arith, In,
  Option-cases,
}
use stale_secrets_check.Api.{GoMap, ConfigMap, KubeSecret, key_of}
use stale_secrets_check.Exec.{Sys, ret, ok, Fallible-cases, >>=-eq-ret, ◌>>=◌}
use stale_secrets_check.ConfigData.{ConfigData, Reading}
use stale_secrets_check.ConfigData.Kept.{store_all, store_all-Has_new}
use stale_secrets_check.ConfigData.Valid.{IsValid}
use stale_secrets_check.Hash.{bytes_at, calculate_hash}
use stale_secrets_check.Cluster.{System}
use stale_secrets_check.Store.{
  config_map_key, empty_config_map, create_or_update_found, create_or_update_config_map,
  load_config, report_written, write_config, hash_secrets, calculate_and_store_hashed_secrets,
  reading_of,
}
use stale_secrets_check.Store.Readings.{ReadAll, also, store_all-IsValid}
use stale_secrets_check.Store.Written.{
  hash_secrets_lem, write_config_failed, report_written_lem, load_config-world, read_from,
}
use stale_secrets_check.Controller.Safety.{IsLawful}
use stale_secrets_check.Controller.History.{Keeper, recorded}
use stale_secrets_check.Controller.History.Storing.{
  report_written-Same, load_config-recorded, got_own, missing_own,
}
use stale_secrets_check.Controller.History.Runs.{IsEncoding, IsKept, encoded-recorded}

In-nonempty : {A : Type 0} (a : A) (xs : List A) → In a xs → xs ≢ []
In-nonempty a [] h = absurd h
In-nonempty a (x ∷ xs) h = λ e. cc

module _ {W : Type 0} (y : System W) (k : Keeper y) where
  -- A Create or an Update of the operator's ConfigMap that reports no error has put the data.
  pub record Puts : Type 0 where
    pub creates :
        (cm : ConfigMap) (w : W)
        → key_of cm.meta ≡ config_map_key
        → (y.create_config_map cm w).0.1 ≡ none
        → k.content (y.create_config_map cm w).1 ≡ bytes_at "data" cm.binary_data
    pub updates :
        (cm : ConfigMap) (w : W)
        → key_of cm.meta ≡ config_map_key
        → (y.update_config_map cm w).0.1 ≡ none
        → k.content (y.update_config_map cm w).1 ≡ bytes_at "data" cm.binary_data

  create_or_update-content :
      (cm cm' : ConfigMap) (s s' : Sys W)
      → IsLawful y
      → Puts
      → key_of cm.meta ≡ config_map_key
      → create_or_update_config_map y cm s ≡ (ret (cm', none), s')
      → k.content s'.world ≡ bytes_at "data" cm.binary_data
  unfolding create_or_update_config_map create_or_update_found
  create_or_update-content cm cm' s s' lawful puts own h =
      let ((found, e), w) = y.get_config_map (key_of cm.meta) empty_config_map s.world in
      let new = record found { binary_data = cm.binary_data } in
      elim (Option-cases e) [
        | inl there ↦ elim (Option-cases (y.update_config_map new w).0.1) [
          | inl fine ↦
              let named = lawful.get_key (key_of cm.meta) empty_config_map s.world there in
              let put = puts.updates new w (named ∙ own) fine in ground (arith, put)
          | inr (x, bad) ↦ absurd (ground arith)
        ]
        | inr (x, absent) ↦ elim (Option-cases (y.create_config_map cm w).0.1) [
          | inl fine ↦ let put = puts.creates cm w own fine in ground (arith, put)
          | inr (x, bad) ↦ absurd (ground arith)
        ]
      ]

  -- The content is the encoding of the data that was given.
  write_config-content :
      (cm cm' : ConfigMap) (c : ConfigData) (s s' : Sys W)
      → IsLawful y
      → Puts
      → key_of cm.meta ≡ config_map_key
      → write_config y cm (ok (c, true)) s ≡ (ret (cm', none), s')
      → y.marshal_config c ≡ ok (k.content s'.world)
  unfolding write_config bytes_at
  write_config-content cm cm' c s s' lawful puts own h =
      elim (Fallible-cases (y.marshal_config c)) [
        | inr (e, bad) ↦ absurd (ground arith)
        | inl (json, good) ↦
            let new = record cm { binary_data = ("data", json) ∷ [] } in
            let ((cm1, e), t, first, last) =
              >>=-eq-ret (create_or_update_config_map y new) (report_written y) (cm', none) s s'
                (rw (good, write_config) at h) in
            let (fine, _) = report_written_lem y (cm1, e) cm' t s' last in
            let still : k.content s'.world ≡ k.content t.world =
              ap (λ o. k.content o.1.world) (sym last) ∙ report_written-Same y k (cm1, e) t in
            let put =
              create_or_update-content new cm1 s t lawful puts own
                (first ∙ ap (λ o. (ret (cm1, o), t)) fine) in
            good ∙ ap ok (sym (still ∙ put))
      ]

  -- The secrets were read as the map is ranged over in the world.
  abbrev pub ReadAsRanged : GoMap (List String) → W → List Reading → W → Type 0
  ReadAsRanged m w rs behind = ReadAll y (y.range_order m w).0 (y.range_order m w).1 rs behind

  -- What calculateAndStoreHashedSecrets has done where it reports no error: it has read the secrets of
  -- the watch list, and if there was one the content is the encoding of what was on record with all the
  -- readings stored.
  pub record IsFresh (m : GoMap (List String)) (cm : ConfigMap) (s s' : Sys W) : Type 0 where
    pub behind : W
    pub config : ConfigData
    pub was : recorded y (k.content s.world) ≡ ok config
    pub readings : List Reading
    pub read : ReadAsRanged m (read_from y cm s) readings behind
    pub encoded :
        readings ≢ [] → y.marshal_config (store_all readings config) ≡ ok (k.content s'.world)

  write_config-encoded :
      (cm cm' : ConfigMap) (c c' : ConfigData) (u : Bool) (rs : List Reading) (s s' : Sys W)
      → IsLawful y
      → Puts
      → key_of cm.meta ≡ config_map_key
      → c' ≡ store_all rs c
      → u ≡ also false rs
      → write_config y cm (ok (c', u)) s ≡ (ret (cm', none), s')
      → rs ≢ []
      → y.marshal_config (store_all rs c) ≡ ok (k.content s'.world)
  write_config-encoded cm cm' c c' u [] s s' lawful puts own built flag h some_read =
      absurd (some_read refl)
  write_config-encoded cm cm' c c' u (r ∷ rs) s s' lawful puts own built flag h some_read =
      write_config-content cm cm' (store_all (r ∷ rs) c) s s' lawful puts own
        (rw (built, flag) at h)

  pub calculate_and_store_hashed_secrets-IsFresh :
      (m : GoMap (List String)) (cm cm' : ConfigMap) (s s' : Sys W)
      → IsLawful y
      → Puts
      → key_of cm.meta ≡ config_map_key
      → calculate_and_store_hashed_secrets y m cm s ≡ (ret (cm', none), s')
      → IsFresh m cm s s'
  unfolding calculate_and_store_hashed_secrets
  calculate_and_store_hashed_secrets-IsFresh m cm cm' s s' lawful puts own h =
      let ((got, e), w) = y.get_config_map (key_of cm.meta) cm s.world in
      let s1 = record s { world = w } in
      let (r, t, first, rest) =
        >>=-eq-ret (load_config y got e)
          (λ loaded. hash_secrets y (key_of got.meta) m loaded >>= write_config y got) (cm', none)
          s1 s' h in
      let (stored, v, second, last) =
        >>=-eq-ret (hash_secrets y (key_of got.meta) m r) (write_config y got) (cm', none) t s'
          rest in
      elim (Fallible-cases stored) [
        | inr (bad, is_bad) ↦ absurd (write_config_failed y got bad cm' v s' (rw is_bad at last))
        | inl ((c, u), is_good) ↦
            let (c0, rs, loaded, read, built, flag) =
              hash_secrets_lem y (key_of got.meta) m r c u t v (rw is_good at second) in
            record {
              behind = v.world;
              config = c0;
              was =
                  load_config-recorded y k got e (k.content s.world) c0 s1 t
                    (got_own y k (key_of cm.meta) own cm s.world)
                    (missing_own y k (key_of cm.meta) own cm s.world) (rw loaded at first);
              readings = rs;
              read =
                  subst (λ w. ReadAsRanged m w rs v.world) (load_config-world y got e r s1 t first)
                    read;
              encoded =
                  write_config-encoded got cm' c0 c u rs v s' lawful puts
                    (lawful.keep_key (key_of cm.meta) cm s.world refl ∙ own) built flag
                    (rw is_good at last);
            }
      ]

  -- The hash of a reading that was stored is on record, in well-formed data if it was well-formed.
  pub fresh-IsKept :
      (m : GoMap (List String)) (cm : ConfigMap) (s s' : Sys W) (f : IsFresh m cm s s')
      (c : ConfigData) (ns name : String) (secret : KubeSecret) (t : String)
      → IsEncoding y
      → recorded y (k.content s.world) ≡ ok c
      → IsValid c
      → In (reading_of y ns name secret t) f.readings
      → IsKept y k ns name (calculate_hash y.sha256_hex secret.secret_data) (k.content s'.world)
  fresh-IsKept m cm s s' f c ns name secret t encoding was valid there =
      let e : c ≡ f.config = ground (arith, f.was, was) in
      record {
        config = store_all f.readings f.config;
        is =
            encoded-recorded y k (k.content s'.world) (store_all f.readings f.config) encoding
              (f.encoded (In-nonempty _ f.readings there));
        valid = store_all-IsValid f.readings f.config (subst IsValid e valid);
        has = store_all-Has_new f.readings f.config (reading_of y ns name secret t) there;
      }
