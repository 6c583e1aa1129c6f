-- ===== src/DeepCopy/Pointers.antt =====
-- DeepCopy of the parts of a StaleSecretWatch, each behind a pointer that may be nil.
use stale_secrets_check.Prelude.{Option, refl}
use stale_secrets_check.Memory.{Heap, Address}
use stale_secrets_check.Memory.Copying.{
  Rep, Copied, Flat, Flat-IsLocal, Pointed, deep_copy_with-Copies,
}
use stale_secrets_check.Api.{ExcludeList, SecretStatus}
use stale_secrets_check.Layout.{Cell}
use stale_secrets_check.Layout.Kinds.{
  exclude_list_kind, secret_status_kind, stale_secret_to_watch_kind, spec_kind, status_kind,
}
use stale_secrets_check.DeepCopy.{
  Library, deep_copy_into_exclude_list, deep_copy_into_secret_status,
  deep_copy_into_stale_secret_to_watch, deep_copy_into_spec, deep_copy_into_status,
  deep_copy_exclude_list, deep_copy_secret_status, deep_copy_stale_secret_to_watch, deep_copy_spec,
  deep_copy_status,
}
use stale_secrets_check.DeepCopy.Represents.{
  StaleSecretToWatchRep, StaleSecretToWatchRep-IsLocal, SpecRep, SpecRep-IsLocal, StatusRep,
  StatusRep-IsLocal, StaleSecretToWatchValue, SpecValue, StatusValue,
}
use stale_secrets_check.DeepCopy.Structs.{
  deep_copy_into_exclude_list-Copies, deep_copy_into_stale_secret_to_watch-Copies,
  deep_copy_into_spec-Copies,
}
use stale_secrets_check.DeepCopy.Objects.{
  IsLawful, deep_copy_into_secret_status-Copies, deep_copy_into_status-Copies,
}

module _ {Meta ListMeta Other : Type 0} (h : Heap (Cell Meta ListMeta Other))
    (p : Option Address) where
  deep_copy_exclude_list-Copied :
      (v : Option ExcludeList)
      → Pointed exclude_list_kind Flat 0 h.next h p v
      → Copied (Pointed exclude_list_kind Flat) h v (deep_copy_exclude_list p h)
  unfolding deep_copy_exclude_list
  deep_copy_exclude_list-Copied =
      deep_copy_with-Copies exclude_list_kind Flat deep_copy_into_exclude_list (λ l. refl)
        Flat-IsLocal deep_copy_into_exclude_list-Copies h p

  deep_copy_stale_secret_to_watch-Copied :
      (v : Option StaleSecretToWatchValue)
      → Pointed stale_secret_to_watch_kind StaleSecretToWatchRep 0 h.next h p v
      → Copied
          (Pointed stale_secret_to_watch_kind StaleSecretToWatchRep)
          h
          v
          (deep_copy_stale_secret_to_watch p h)
  unfolding deep_copy_stale_secret_to_watch
  deep_copy_stale_secret_to_watch-Copied =
      deep_copy_with-Copies stale_secret_to_watch_kind StaleSecretToWatchRep
        deep_copy_into_stale_secret_to_watch (λ l. refl) StaleSecretToWatchRep-IsLocal
        deep_copy_into_stale_secret_to_watch-Copies h p

  deep_copy_spec-Copied :
      (v : Option SpecValue)
      → Pointed spec_kind SpecRep 0 h.next h p v
      → Copied (Pointed spec_kind SpecRep) h v (deep_copy_spec p h)
  unfolding deep_copy_spec
  deep_copy_spec-Copied =
      deep_copy_with-Copies spec_kind SpecRep deep_copy_into_spec (λ l. refl) SpecRep-IsLocal
        deep_copy_into_spec-Copies h p

  module _ {V V' : Type 0} (y : Library Meta ListMeta Other)
      (MetaRep : Rep (Cell Meta ListMeta Other) Meta V)
      (ListMetaRep : Rep (Cell Meta ListMeta Other) ListMeta V')
      (lawful : IsLawful y MetaRep ListMetaRep) where
    deep_copy_secret_status-Copied :
        (v : Option SecretStatus)
        → Pointed secret_status_kind Flat 0 h.next h p v
        → Copied (Pointed secret_status_kind Flat) h v (deep_copy_secret_status y p h)
    unfolding deep_copy_secret_status
    deep_copy_secret_status-Copied =
        deep_copy_with-Copies secret_status_kind Flat (deep_copy_into_secret_status y) (λ l. refl)
          Flat-IsLocal (deep_copy_into_secret_status-Copies y MetaRep ListMetaRep lawful) h p

    deep_copy_status-Copied :
        (v : Option StatusValue)
        → Pointed status_kind StatusRep 0 h.next h p v
        → Copied (Pointed status_kind StatusRep) h v (deep_copy_status y p h)
    unfolding deep_copy_status
    deep_copy_status-Copied =
        deep_copy_with-Copies status_kind StatusRep (deep_copy_into_status y) (λ l. refl)
          StatusRep-IsLocal (deep_copy_into_status-Copies y MetaRep ListMetaRep lawful) h p
