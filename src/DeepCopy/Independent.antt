-- ===== src/DeepCopy/Independent.antt =====
-- DeepCopy and DeepCopyObject on pointers, and that the copy and the original share nothing.
use stale_secrets_check.Prelude.{Option, some, ◌≡◌, refl, ◌∙◌, arith}
use stale_secrets_check.Memory.{Heap, Address, pure}
use stale_secrets_check.Memory.Copying.{
  Rep, IsLocal, Copied, Copied-result, Pointed, Pointed-IsLocal, Extends, Agree, >>=-some,
  deep_copy_with-Copies,
}
use stale_secrets_check.Layout.{Cell}
use stale_secrets_check.Layout.Kinds.{watch_kind, watch_list_kind}
use stale_secrets_check.DeepCopy.{
  stale_secret_watch, deep_copy_object_watch, as_object, Library, stale_secret_watch_list,
  as_object, deep_copy_into_watch, deep_copy_into_watch_list, deep_copy_watch, deep_copy_watch_list,
  deep_copy_object_watch_list,
}
use stale_secrets_check.DeepCopy.Represents.{
  WatchRep, WatchRep-IsLocal, WatchListRep, WatchListRep-IsLocal, WatchValue, WatchListValue,
}
use stale_secrets_check.DeepCopy.Objects.{
  IsLawful, deep_copy_into_watch-Copies, deep_copy_into_watch_list-Copies,
}

module _ {Meta ListMeta Other V : Type 0} (y : Library Meta ListMeta Other)
    (MetaRep : Rep (Cell Meta ListMeta Other) Meta V) where
  -- a *StaleSecretWatch
  abbrev pub WatchPointed : Rep (Cell Meta ListMeta Other) (Option Address) (Option (WatchValue V))
  WatchPointed = Pointed (watch_kind y.zero_meta) (WatchRep MetaRep)

  module _ {V' : Type 0} (ListMetaRep : Rep (Cell Meta ListMeta Other) ListMeta V') where
    -- a *StaleSecretWatchList
    abbrev pub WatchListPointed :
        Rep (Cell Meta ListMeta Other) (Option Address) (Option (WatchListValue V V'))
    WatchListPointed = Pointed (watch_list_kind y.zero_list_meta) (WatchListRep MetaRep ListMetaRep)

module _ {Meta ListMeta Other V V' : Type 0} (y : Library Meta ListMeta Other)
    (MetaRep : Rep (Cell Meta ListMeta Other) Meta V)
    (ListMetaRep : Rep (Cell Meta ListMeta Other) ListMeta V')
    (lawful : IsLawful y MetaRep ListMetaRep) where
  WatchPointed-IsLocal : IsLocal (WatchPointed y MetaRep)
  WatchPointed-IsLocal =
      Pointed-IsLocal (watch_kind y.zero_meta) (WatchRep MetaRep)
        (WatchRep-IsLocal MetaRep lawful.meta_local)

  pub deep_copy_watch-Copied :
      (h : Heap (Cell Meta ListMeta Other)) (p : Option Address) (v : Option (WatchValue V))
      → WatchPointed y MetaRep 0 h.next h p v
      → Copied (WatchPointed y MetaRep) h v (deep_copy_watch y p h)
  unfolding deep_copy_watch
  deep_copy_watch-Copied =
      deep_copy_with-Copies (watch_kind y.zero_meta) (WatchRep MetaRep) (deep_copy_into_watch y)
        (λ l. refl) (WatchRep-IsLocal MetaRep lawful.meta_local)
        (deep_copy_into_watch-Copies y MetaRep ListMetaRep lawful)

  deep_copy_watch_list-Copied :
      (h : Heap (Cell Meta ListMeta Other)) (p : Option Address) (v : Option (WatchListValue V V'))
      → WatchListPointed y MetaRep ListMetaRep 0 h.next h p v
      → Copied (WatchListPointed y MetaRep ListMetaRep) h v (deep_copy_watch_list y p h)
  unfolding deep_copy_watch_list
  deep_copy_watch_list-Copied =
      deep_copy_with-Copies (watch_list_kind y.zero_list_meta) (WatchListRep MetaRep ListMetaRep)
        (deep_copy_into_watch_list y) (λ l. refl)
        (WatchListRep-IsLocal MetaRep ListMetaRep lawful.meta_local lawful.list_meta_local)
        (deep_copy_into_watch_list-Copies y MetaRep ListMetaRep lawful)

  deep_copy_object_watch-Copied :
      (h : Heap (Cell Meta ListMeta Other)) (p : Option Address) (v : Option (WatchValue V))
      → WatchPointed y MetaRep 0 h.next h p v
      → (p' : Option Address) × (h' : Heap (Cell Meta ListMeta Other)) × (deep_copy_object_watch y p
            h
          ≡ some (as_object stale_secret_watch p', h'))
        × Extends h h'
        × WatchPointed y MetaRep h.next h'.next h' p' v
  unfolding deep_copy_object_watch
  deep_copy_object_watch-Copied h p v b =
      let (p', h', e, x, b') = deep_copy_watch-Copied h p v b in
      (
        p',
        h',
        >>=-some (deep_copy_watch y p) (λ c. pure (as_object stale_secret_watch c)) p' h h' e,
        x,
        b',
      )

  -- DeepCopyObject of a list that represents v returns: the object is nil or a pointer as the list
  -- is, represents v in cells that were free before, and no cell in use was changed.
  pub deep_copy_object_watch_list-Copied :
      (h : Heap (Cell Meta ListMeta Other)) (p : Option Address) (v : Option (WatchListValue V V'))
      → WatchListPointed y MetaRep ListMetaRep 0 h.next h p v
      → (p' : Option Address) × (h' : Heap (Cell Meta ListMeta Other))
        × (deep_copy_object_watch_list y p h ≡ some (as_object stale_secret_watch_list p', h'))
        × Extends h h'
        × WatchListPointed y MetaRep ListMetaRep h.next h'.next h' p' v
  unfolding deep_copy_object_watch_list
  deep_copy_object_watch_list-Copied h p v b =
      let (p', h', e, x, b') = deep_copy_watch_list-Copied h p v b in
      (
        p',
        h',
        >>=-some (deep_copy_watch_list y p) (λ c. pure (as_object stale_secret_watch_list c)) p' h
            h' e,
        x,
        b',
      )

  -- After a DeepCopy of a StaleSecretWatch that represents v, the original represents v in every
  -- memory that differs only in cells of the copy, and the copy in every memory that has the cells
  -- of the copy.
  pub deep_copy_watch-independent :
      (h h' written rewritten : Heap (Cell Meta ListMeta Other)) (p p' : Option Address)
      (v : Option (WatchValue V))
      → WatchPointed y MetaRep 0 h.next h p v
      → deep_copy_watch y p h ≡ some (p', h')
      → Agree 0 h.next h' written
      → Agree h.next h'.next h' rewritten
      → WatchPointed y MetaRep 0 h.next written p v
        × WatchPointed y MetaRep h.next h'.next rewritten p' v
  deep_copy_watch-independent h h' written rewritten p p' v b e a a' =
      let (x, c) =
        Copied-result (WatchPointed y MetaRep) h h' v p' (deep_copy_watch y p h)
          (deep_copy_watch-Copied h p v b) e in
      (
        WatchPointed-IsLocal 0 h.next 0 h.next h written p v (omega arith) (omega arith)
            (λ q l u. a q l u ∙ x.1 q l u) b,
        WatchPointed-IsLocal h.next h'.next h.next h'.next h' rewritten p' v (omega arith)
            (omega arith) a' c,
      )
