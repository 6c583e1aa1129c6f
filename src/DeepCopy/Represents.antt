-- ===== src/DeepCopy/Represents.antt =====
-- What the structs in memory represent: the same struct with the contents of its slices and pointers.
use stale_secrets_check.Prelude.{List, ◌≡◌}
use stale_secrets_check.Api.{Int64, ExcludeList, SecretStatus, Condition}
use stale_secrets_check.Memory.{Address}
use stale_secrets_check.Memory.Copying.{Rep, IsLocal, Flat, Flat-IsLocal, Pointed, Pointed-IsLocal}
use stale_secrets_check.Memory.Slices.{Each, Each-IsLocal, Sliced}
use stale_secrets_check.Layout.{
  StaleSecretToWatchOf, SpecOf, StatusOf, WatchOf, Watch, WatchListOf, WatchList, Cell,
}
use stale_secrets_check.Layout.Kinds.{
  exclude_lists_kind, duration_kind, conditions_kind, secret_statuses_kind, watches_kind,
}

abbrev pub StaleSecretToWatchValue : Type 0
StaleSecretToWatchValue = StaleSecretToWatchOf (List ExcludeList)

abbrev pub SpecValue : Type 0
SpecValue = SpecOf (List ExcludeList) Int64

abbrev pub StatusValue : Type 0
StatusValue = StatusOf (List Condition) (List SecretStatus)

abbrev pub WatchValue : Type 0 → Type 0
WatchValue V = WatchOf (List ExcludeList) Int64 (List Condition) (List SecretStatus) V

abbrev pub WatchListValue : Type 0 → Type 0 → Type 0
WatchListValue V V' = WatchListOf (List (WatchValue V)) V'

module _ {Meta ListMeta Other : Type 0} where
  abbrev pub StaleSecretToWatchRep :
      Rep (Cell Meta ListMeta Other) (StaleSecretToWatchOf Address) StaleSecretToWatchValue
  StaleSecretToWatchRep lo hi h r v =
      (r.namespace ≡ v.namespace)
      × Sliced exclude_lists_kind Flat lo hi h r.exclude_list v.exclude_list

  abbrev pub SpecRep : Rep (Cell Meta ListMeta Other) (SpecOf Address Address) SpecValue
  SpecRep lo hi h r v =
      StaleSecretToWatchRep lo hi h r.stale_secret_to_watch v.stale_secret_to_watch
      × (r.stale_threshold_in_days ≡ v.stale_threshold_in_days)
      × Pointed duration_kind Flat lo hi h r.refresh_interval v.refresh_interval

  abbrev pub StatusRep : Rep (Cell Meta ListMeta Other) (StatusOf Address Address) StatusValue
  StatusRep lo hi h r v =
      Sliced conditions_kind Flat lo hi h r.conditions v.conditions
      × Sliced secret_statuses_kind Flat lo hi h r.secret_status v.secret_status
      × (r.stale_secrets_count ≡ v.stale_secrets_count)

  pub StaleSecretToWatchRep-IsLocal : IsLocal StaleSecretToWatchRep
  StaleSecretToWatchRep-IsLocal lo hi lo' hi' h h' r v l u a (same, xs) = (
    same,
    Pointed-IsLocal exclude_lists_kind (Each Flat) (Each-IsLocal Flat Flat-IsLocal) lo hi lo' hi' h
        h' r.exclude_list v.exclude_list l u a xs,
  )

  pub SpecRep-IsLocal : IsLocal SpecRep
  SpecRep-IsLocal lo hi lo' hi' h h' r v l u a (t, same, d) = (
    StaleSecretToWatchRep-IsLocal lo hi lo' hi' h h' r.stale_secret_to_watch v.stale_secret_to_watch
        l u a t,
    same,
    Pointed-IsLocal duration_kind Flat Flat-IsLocal lo hi lo' hi' h h' r.refresh_interval
        v.refresh_interval l u a d,
  )

  pub StatusRep-IsLocal : IsLocal StatusRep
  StatusRep-IsLocal lo hi lo' hi' h h' r v l u a (cs, ss, same) = (
    Pointed-IsLocal conditions_kind (Each Flat) (Each-IsLocal Flat Flat-IsLocal) lo hi lo' hi' h h'
        r.conditions v.conditions l u a cs,
    Pointed-IsLocal secret_statuses_kind (Each Flat) (Each-IsLocal Flat Flat-IsLocal) lo hi lo' hi'
        h h' r.secret_status v.secret_status l u a ss,
    same,
  )

  module _ {V : Type 0} (MetaRep : Rep (Cell Meta ListMeta Other) Meta V) where
    abbrev pub WatchRep : Rep (Cell Meta ListMeta Other) (Watch Meta) (WatchValue V)
    WatchRep lo hi h r v =
        (r.type_meta ≡ v.type_meta)
        × MetaRep lo hi h r.meta v.meta
        × SpecRep lo hi h r.spec v.spec
        × StatusRep lo hi h r.status v.status

    pub WatchRep-IsLocal : IsLocal MetaRep → IsLocal WatchRep
    WatchRep-IsLocal local lo hi lo' hi' h h' r v l u a (same, m, spec, status) = (
      same,
      local lo hi lo' hi' h h' r.meta v.meta l u a m,
      SpecRep-IsLocal lo hi lo' hi' h h' r.spec v.spec l u a spec,
      StatusRep-IsLocal lo hi lo' hi' h h' r.status v.status l u a status,
    )

    module _ {V' : Type 0} (ListMetaRep : Rep (Cell Meta ListMeta Other) ListMeta V') where
      abbrev pub WatchListRep :
          Rep (Cell Meta ListMeta Other) (WatchList ListMeta) (WatchListValue V V')
      WatchListRep lo hi h r v =
          (r.type_meta ≡ v.type_meta)
          × ListMetaRep lo hi h r.meta v.meta
          × Sliced watches_kind WatchRep lo hi h r.items v.items

      pub WatchListRep-IsLocal : IsLocal MetaRep → IsLocal ListMetaRep → IsLocal WatchListRep
      WatchListRep-IsLocal local local' lo hi lo' hi' h h' r v l u a (same, m, items) = (
        same,
        local' lo hi lo' hi' h h' r.meta v.meta l u a m,
        Pointed-IsLocal watches_kind (Each WatchRep)
            (Each-IsLocal WatchRep (WatchRep-IsLocal local)) lo hi lo' hi' h h' r.items v.items l u
            a items,
      )
