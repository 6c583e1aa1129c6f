-- ===== src/WatchList/Listed.antt =====
-- The watch list that the loops of prepareWatchList build from given answers of the client.
use stale_secrets_check.Prelude.{
  String, ◌≡◌, ◌↔◌, inl, inr, sym, ap, List, [], ◌∷◌, ◌++◌, In, In-append, In-append_left,
  In-append_right, arith, ◌==◌, eq_iff, eq_refl, if◌then◌else◌, Bool-cases, append-nil,
  append_assoc,
}
use stale_secrets_check.Api.{GoMap, ExcludeList, KubeSecret}
use stale_secrets_check.WatchList.{watch_secrets}
use stale_secrets_check.WatchList.Members.{
  names_at, IsWatchable, watchable_names, watch_secrets-names_at, watchable_names_iff,
}

-- the namespaces with the secrets that were listed in each
abbrev pub Answers : Type 0
Answers = List (String × List KubeSecret)

module _ (entries : List ExcludeList) where
  abbrev pub watch_all : Answers → GoMap (List String) → GoMap (List String)
  watch_all [] m = m
  watch_all ((ns, ss) ∷ answers) m = watch_all answers (watch_secrets entries ns ss m)

  abbrev names_in : String → Answers → List String
  names_in ns [] = []
  names_in ns ((k, ss) ∷ answers) =
      if k == ns then watchable_names entries k ss ++ names_in ns answers else names_in ns answers

  names_at-watch_all :
      (ns : String) (answers : Answers) (m : GoMap (List String))
      → names_at ns (watch_all answers m) ≡ names_at ns m ++ names_in ns answers
  names_at-watch_all ns [] m = sym (append-nil _)
  names_at-watch_all ns ((k, ss) ∷ answers) m = ground (
    arith,
    names_at-watch_all ns answers (watch_secrets entries k ss m),
    watch_secrets-names_at entries k ns ss m,
    append_assoc (names_at ns m) (watchable_names entries k ss) (names_in ns answers),
  )

  -- The secret was listed in the namespace, and is to be watched.
  pub record IsListed (answers : Answers) (ns name : String) : Type 0 where
    pub secrets : List KubeSecret
    pub answer : In (ns, secrets) answers
    pub secret : KubeSecret
    pub listed : In secret secrets
    pub named : secret.meta.name ≡ name
    pub watchable : IsWatchable entries ns secret

  IsListed-later :
      {answers : Answers} {ns name : String} (a : String × List KubeSecret)
      → IsListed answers ns name
      → IsListed (a ∷ answers) ns name
  IsListed-later a h = record {
    secrets = h.secrets;
    answer = inr h.answer;
    secret = h.secret;
    listed = h.listed;
    named = h.named;
    watchable = h.watchable;
  }

  names_in_sound :
      (ns name : String) (answers : Answers)
      → In name (names_in ns answers)
      → IsListed answers ns name
  names_in_sound ns name [] h = absurd h
  names_in_sound ns name ((k, ss) ∷ answers) h = elim (Bool-cases (k == ns)) [
    | inr other ↦ IsListed-later (k, ss) (names_in_sound ns name answers (rw other at h))
    | inl same ↦
        elim (In-append name (watchable_names entries k ss) (names_in ns answers) (rw same at h)) [
          | inr later ↦ IsListed-later (k, ss) (names_in_sound ns name answers later)
          | inl here ↦
              let (s, listed, named, fine) = (watchable_names_iff entries k name ss).0 here in
              let e = (eq_iff k ns).0 same in
              record {
                secrets = ss;
                answer = inl (ap (λ n. (n, ss)) (sym e));
                secret = s;
                listed = listed;
                named = named;
                watchable = rw (← e) fine;
              }
        ]
  ]

  names_in_complete :
      (ns name : String) (answers : Answers) (ss : List KubeSecret)
      → In (ns, ss) answers
      → In name (watchable_names entries ns ss)
      → In name (names_in ns answers)
  names_in_complete ns name [] ss h k = absurd h
  names_in_complete ns name ((j, ts) ∷ answers) ss (inl e) k =
      rw
        (
          ← ap (λ (a : String × List KubeSecret). a.0) e,
          ← ap (λ (a : String × List KubeSecret). a.1) e,
          eq_refl ns,
        )
        (In-append_left name (watchable_names entries ns ss) (names_in ns answers) k)
  names_in_complete ns name ((j, ts) ∷ answers) ss (inr h) k =
      let later = names_in_complete ns name answers ss h k in
      elim (Bool-cases (j == ns)) [
        | inr other ↦ rw other later
        | inl same ↦ rw same (In-append_right name (watchable_names entries j ts) _ later)
      ]

  pub names_at-watch_all_iff :
      (ns name : String) (answers : Answers)
      → In name (names_at ns (watch_all answers [])) ↔ IsListed answers ns name
  unfolding names_at
  names_at-watch_all_iff ns name answers = rw (names_at-watch_all ns answers []) (
    names_in_sound ns name answers,
    λ h. names_in_complete ns name answers h.secrets h.answer (
        (watchable_names_iff entries ns name h.secrets).1
          (h.secret, h.listed, h.named, h.watchable)),
  )
