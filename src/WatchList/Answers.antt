-- ===== src/WatchList/Answers.antt =====
-- prepareWatchList against what the client answered.
use mathlib.Core.List.{map}
use mathlib.Core.Path.{subst}
use stale_secrets_check.Prelude.{
  String, ◌≡◌, ◌≢◌, ◌↔◌, ◌⊎◌, inl, inr, ap, List, [], ◌∷◌, In, arith, eq_iff, text_cases,
}
use stale_secrets_check.Api.{GoMap, ExcludeList, KubeSecret, StaleSecretWatch, ObjectMeta}
use stale_secrets_check.Exec.{Sys, ret, ok, err, Fallible, Fallible-cases, Outcome, >>=-eq-ret}
use stale_secrets_check.Strings.{split_commas, trim_space}
use stale_secrets_check.Cluster.{System}
use stale_secrets_check.WatchList.{
  watch_secrets, namespaces_to_watch, watch_namespaces, announce, watch_wanted, prepare_watch_list,
}
use stale_secrets_check.WatchList.Members.{names_at}
use stale_secrets_check.WatchList.Listed.{Answers, watch_all, IsListed, names_at-watch_all_iff}

module _ {W : Type 0} (y : System W) where
  -- The client listed the secrets of some namespaces, one after the other, while the world moved
  -- from one state to another.
  pub data Listing : List String → W → Answers → W → Type 0 where
    done : {w : W} → Listing [] w [] w
    more :
        {ns : String} {nss : List String} {w w' w'' : W} {ss : List KubeSecret} {answers : Answers}
        → y.list_secrets ns w ≡ (ok ss, w')
        → Listing nss w' answers w''
        → Listing (ns ∷ nss) w ((ns, ss) ∷ answers) w''

  watch_namespaces_answers :
      (entries : List ExcludeList) (nss : List String) (m m' : GoMap (List String)) (s s' : Sys W)
      → watch_namespaces y entries nss m s ≡ (ret (ok m'), s')
      → (answers : Answers) × Listing nss s.world answers s'.world
        × (m' ≡ watch_all entries answers m)
  unfolding watch_namespaces
  watch_namespaces_answers entries [] m m' s s' h =
      let e : s.world ≡ s'.world =
        ap (λ (r : Outcome (Fallible (GoMap (List String))) × Sys W). r.1.world) h in
      ([], subst (λ w. Listing [] s.world [] w) e done, cc)
  watch_namespaces_answers entries (ns ∷ nss) m m' s s' h =
      let (answer, w) = y.list_secrets ns s.world in
      elim (Fallible-cases answer) [
        | inr (e, bad) ↦ absurd (ground arith)
        | inl (ss, good) ↦
            let (answers, listing, same) =
              watch_namespaces_answers entries nss (watch_secrets entries ns ss m) m'
                (record s { world = w }) s' (rw (good, watch_namespaces) at h) in
            ((ns, ss) ∷ answers, more (ap (λ a. (a, w)) good) listing, same)
      ]

  -- The namespaces that the object asks for: those that the client listed, for "all", or else the
  -- parts of its namespace field, which is split at commas, without the blanks round them.
  abbrev pub Wanted : StaleSecretWatch → W → List String → W → Type 0
  Wanted ssw w nss w' =
      let field = ssw.spec.stale_secret_to_watch.namespace in
      ((field ≡ "all")
        × ((items : List ObjectMeta) × (y.list_namespaces w ≡ (ok items, w'))
            × (nss ≡ map (λ i. i.name) items)))
      ⊎ ((field ≢ "all") × (w' ≡ w) × (nss ≡ map trim_space (split_commas field)))

  namespaces_to_watch-Wanted :
      (ssw : StaleSecretWatch) (nss : List String) (s s' : Sys W)
      → namespaces_to_watch y ssw s ≡ (ret (ok nss), s')
      → Wanted ssw s.world nss s'.world
  unfolding namespaces_to_watch
  namespaces_to_watch-Wanted ssw nss s s' h =
      let field = ssw.spec.stale_secret_to_watch.namespace in
      elim (text_cases field "all") [
        | inr (other, test) ↦
            let h' = rw (test, namespaces_to_watch) at h in inr (other, ground arith, ground arith)
        | inl all ↦
            let test = (eq_iff field "all").1 all in
            let (answer, w) = y.list_namespaces s.world in
            elim (Fallible-cases answer) [
              | inr (e, bad) ↦ absurd (ground arith)
              | inl (items, good) ↦ inl (all, (items, ground arith, ground arith))
            ]
      ]

  -- What a watch list `m` that was prepared between two states holds.
  pub record IsPrepared (ssw : StaleSecretWatch) (m : GoMap (List String)) (w w' : W) : Type 0 where
    pub namespaces : List String
    pub between : W
    pub wanted : Wanted ssw w namespaces between
    pub answers : Answers
    pub listing : Listing namespaces between answers w'
    pub members :
        (ns name : String)
        → In name (names_at ns m)
          ↔ IsListed ssw.spec.stale_secret_to_watch.exclude_list answers ns name

  announce_lem :
      (ssw : StaleSecretWatch) (r : Fallible (GoMap (List String))) (m : GoMap (List String))
      (s s' : Sys W)
      → announce y ssw r s ≡ (ret (ok m), s')
      → (r ≡ ok m) × (s.world ≡ s'.world)
  unfolding announce
  announce_lem ssw (err e) m s s' h = absurd (ground arith)
  announce_lem ssw (ok n) m s s' h = ground arith

  watch_wanted-IsPrepared :
      (ssw : StaleSecretWatch) (r : Fallible (List String)) (m : GoMap (List String))
      (s t s' : Sys W)
      → namespaces_to_watch y ssw s ≡ (ret r, t)
      → watch_wanted y ssw r t ≡ (ret (ok m), s')
      → IsPrepared ssw m s.world s'.world
  unfolding watch_wanted
  watch_wanted-IsPrepared ssw (err e) m s t s' first rest = absurd (ground arith)
  watch_wanted-IsPrepared ssw (ok nss) m s t s' first rest =
      let entries = ssw.spec.stale_secret_to_watch.exclude_list in
      let (r, u, middle, last) =
        >>=-eq-ret (watch_namespaces y entries nss []) (announce y ssw) (ok m) t s' rest in
      let (same, still) = announce_lem ssw r m u s' last in
      let (answers, listing, built) =
        watch_namespaces_answers entries nss [] m t u (rw same at middle) in
      record {
        namespaces = nss;
        between = t.world;
        wanted = namespaces_to_watch-Wanted ssw nss s t first;
        answers = answers;
        listing = subst (Listing nss t.world answers) still listing;
        members = λ ns name. rw built (names_at-watch_all_iff entries ns name answers);
      }

  -- A watch list that is returned holds exactly the secrets that the client listed in the wanted
  -- namespaces, less the tokens and those on the exclude list.
  pub prepare_watch_list_exact :
      (ssw : StaleSecretWatch) (m : GoMap (List String)) (s s' : Sys W)
      → prepare_watch_list y ssw s ≡ (ret (ok m), s')
      → IsPrepared ssw m s.world s'.world
  unfolding prepare_watch_list
  prepare_watch_list_exact ssw m s s' h =
      let (r, t, first, rest) =
        >>=-eq-ret (namespaces_to_watch y ssw) (watch_wanted y ssw) (ok m) s s' h in
      watch_wanted-IsPrepared ssw r m s t s' first rest
