-- ===== src/WatchList/Members.antt =====
-- The members of a watch list, for given lists of secrets.
use stale_secrets_check.Prelude.{
  String, false, ◌≡◌, ◌↔◌, inl, inr, refl, sym, List, [], ◌∷◌, ◌++◌, In, arith, ◌==◌, eq_iff,
  if◌then◌else◌, Bool-cases, ◌||◌, append-nil, append_assoc,
}
use stale_secrets_check.Api.{GoMap, ExcludeList, KubeSecret}
use stale_secrets_check.WatchList.{is_token, is_excluded, append_at, watch_secret, watch_secrets}

-- m[ns], nil where the key is missing
unfoldable pub names_at : String → GoMap (List String) → List String
names_at ns [] = []
names_at ns ((k, names) ∷ m) = if k == ns then names else names_at ns m

names_at-append_at :
    (ns name ns' : String) (m : GoMap (List String))
    → names_at ns' (append_at ns name m)
      ≡ (if ns == ns' then names_at ns' m ++ name ∷ [] else names_at ns' m)
unfolding names_at append_at
names_at-append_at ns name ns' [] = ground (arith, eq_iff ns ns')
names_at-append_at ns name ns' ((k, names) ∷ m) =
    ground (arith, names_at-append_at ns name ns' m, eq_iff k ns, eq_iff k ns', eq_iff ns ns')

-- The secret is neither a token nor on the exclude list.
abbrev pub IsWatchable : List ExcludeList → String → KubeSecret → Type 0
IsWatchable entries ns s = (is_token s.type ≡ false) × (is_excluded entries ns s.meta.name ≡ false)

module _ (entries : List ExcludeList) where
  -- The names that a namespace's secrets add to its entry.
  abbrev pub watchable_names : String → List KubeSecret → List String
  watchable_names ns [] = []
  watchable_names ns (s ∷ ss) =
      if is_token s.type || is_excluded entries ns s.meta.name
      then watchable_names ns ss
      else s.meta.name ∷ watchable_names ns ss

  pub watch_secrets-names_at :
      (ns ns' : String) (ss : List KubeSecret) (m : GoMap (List String))
      → names_at ns' (watch_secrets entries ns ss m)
        ≡ (if ns == ns' then names_at ns' m ++ watchable_names ns ss else names_at ns' m)
  unfolding watch_secrets watch_secret
  watch_secrets-names_at ns ns' [] m = ground (arith, append-nil (names_at ns' m))
  watch_secrets-names_at ns ns' (s ∷ ss) m = ground (
    arith,
    watch_secrets-names_at ns ns' ss m,
    watch_secrets-names_at ns ns' ss (append_at ns s.meta.name m),
    names_at-append_at ns s.meta.name ns' m,
    append_assoc (names_at ns' m) (s.meta.name ∷ []) (watchable_names ns ss),
  )

  watchable_names_sound :
      (ns name : String) (ss : List KubeSecret)
      → In name (watchable_names ns ss)
      → (s : KubeSecret) × In s ss × (s.meta.name ≡ name) × IsWatchable entries ns s
  watchable_names_sound ns name [] h = absurd h
  watchable_names_sound ns name (s ∷ ss) h =
      elim (Bool-cases (is_token s.type || is_excluded entries ns s.meta.name)) [
        | inl skipped ↦
            let (t, listed, named, kept) = watchable_names_sound ns name ss (rw skipped at h) in
            (t, inr listed, named, kept)
        | inr kept ↦
            let h' : In name (s.meta.name ∷ watchable_names ns ss) = rw kept at h in
            elim h' [
              | inl e ↦ (s, inl refl, sym e, (ground arith, ground arith))
              | inr later ↦
                  let (t, listed, named, fine) = watchable_names_sound ns name ss later in
                  (t, inr listed, named, fine)
            ]
      ]

  watchable_names_complete :
      (ns : String) (s : KubeSecret) (ss : List KubeSecret)
      → In s ss
      → IsWatchable entries ns s
      → In s.meta.name (watchable_names ns ss)
  watchable_names_complete ns s [] h k = absurd h
  watchable_names_complete ns s (t ∷ ss) (inl e) (p, q) = rw (← e, p, q) (inl refl)
  watchable_names_complete ns s (t ∷ ss) (inr h) k =
      let later = watchable_names_complete ns s ss h k in
      elim (Bool-cases (is_token t.type || is_excluded entries ns t.meta.name)) [
        | inl skipped ↦ rw skipped later
        | inr kept ↦ rw kept (inr later)
      ]

  -- A name is watched in a namespace exactly if a secret of that name was listed there that is
  -- neither a token nor on the exclude list.
  pub watchable_names_iff :
      (ns name : String) (ss : List KubeSecret)
      → In name (watchable_names ns ss)
        ↔ ((s : KubeSecret) × In s ss × (s.meta.name ≡ name) × IsWatchable entries ns s)
  watchable_names_iff ns name ss = (
    watchable_names_sound ns name ss,
    λ (s, listed, named, kept). rw (← named) (watchable_names_complete ns s ss listed kept),
  )
