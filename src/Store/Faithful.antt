-- ===== src/Store/Faithful.antt =====
-- The encodings, and the times of what the loops of calculateAndStoreHashedSecrets store.
use stale_secrets_check.Prelude.{
  String, ◌≡◌, inl, inr, sym, none, some, List, All, All-append, Option-cases, get_last?,
}
use mathlib.Core.Path.{subst}
use stale_secrets_check.Api.{NamespacedName, KubeSecret, Bytes, GoMap, Time}
use stale_secrets_check.Exec.{ok}
use stale_secrets_check.ConfigData.{Secret, ConfigData, Reading, update_or_append_secret_data}
use stale_secrets_check.ConfigData.Each.{Fits}
use stale_secrets_check.Cluster.{System}
use stale_secrets_check.Store.{reading_of}
use stale_secrets_check.Store.Readings.{Read, done, more, ReadAll, none_left, next, ModifiedTime}

module _ {W : Type 0} (y : System W) where
  abbrev TextParses : String → Type 0
  TextParses t = (u : Time) × (y.parse_rfc3339 t ≡ ok u)

  -- What the encodings promise: the times of a secret that the client answered parse when they were
  -- formatted, and data that was encoded decodes to itself.
  pub record IsFaithful : Type 0 where
    pub created :
        (k : NamespacedName) (w w' : W) (secret : KubeSecret)
        → y.get_secret k w ≡ (ok secret, w')
        → TextParses (y.format_rfc3339 secret.meta.creation_timestamp)
    pub modified :
        (k : NamespacedName) (w w' : W) (secret : KubeSecret) (u : Time)
        → y.get_secret k w ≡ (ok secret, w')
        → get_last? secret.meta.managed_fields ≡ some (some u)
        → TextParses (y.format_rfc3339 u)
    pub decodes :
        (c : ConfigData) (json : Bytes)
        → y.marshal_config c ≡ ok json
        → y.unmarshal_config json ≡ ok c

  -- both times of a recorded secret
  abbrev pub TimesParse : Secret → Type 0
  TimesParse s = TextParses s.created × TextParses s.last_modified

  ModifiedTime-Parses :
      (k : NamespacedName) (w w' : W) (secret : KubeSecret) (t : String)
      → IsFaithful
      → y.get_secret k w ≡ (ok secret, w')
      → ModifiedTime y secret.meta t
      → TextParses t
  ModifiedTime-Parses k w w' secret t faithful got h =
      elim (Option-cases (get_last? secret.meta.managed_fields)) [
        | inl empty_list ↦
            subst TextParses (sym (rw (empty_list, ModifiedTime) at h))
              (faithful.created k w w' secret got)
        | inr (none, nil) ↦ absurd (rw (nil, ModifiedTime) at h)
        | inr (some u, there) ↦
            subst TextParses (sym (rw (there, ModifiedTime) at h))
              (faithful.modified k w w' secret u got there)
      ]

  reading_of-Fits :
      (ns name : String) (secret : KubeSecret) (t : String)
      → TextParses (y.format_rfc3339 secret.meta.creation_timestamp)
      → TextParses t
      → Fits TimesParse (reading_of y ns name secret t)
  unfolding update_or_append_secret_data
  reading_of-Fits ns name secret t c p = ((c, p), λ s q. (q.0, p))

  Read-Fits :
      {ns : String} {names : List String} {w w' : W} {rs : List Reading}
      → IsFaithful
      → Read y ns names w rs w'
      → All (Fits TimesParse) rs
  Read-Fits faithful done = tt
  Read-Fits faithful (more {ns} {name} {w = w} {w' = v} {secret = secret} {t = t} e time read) =
      let key : NamespacedName = record { name = name; namespace = ns } in
      (
        reading_of-Fits ns name secret t (faithful.created key w v secret e)
            (ModifiedTime-Parses key w v secret t faithful e time),
        Read-Fits faithful read,
      )

  pub ReadAll-Fits :
      {m : GoMap (List String)} {w w' : W} {rs : List Reading}
      → IsFaithful
      → ReadAll y m w rs w'
      → All (Fits TimesParse) rs
  ReadAll-Fits faithful none_left = tt
  ReadAll-Fits faithful (next {rs = rs} {rs' = rs'} read reads) =
      All-append (Fits TimesParse) rs rs' (Read-Fits faithful read) (ReadAll-Fits faithful reads)
