-- ===== src/DeepCopy/Objects.antt =====
-- The deep copies of the status, of a StaleSecretWatch and of a list of them, over what the methods
-- of k8s.io/apimachinery promise.
use stale_secrets_check.Prelude.{Option, List, ◌≡◌, refl, arith}
use stale_secrets_check.Api.{Time, SecretStatus, Condition}
use stale_secrets_check.Memory.{Address, ◌>>=◌, pure, copy_slice}
use stale_secrets_check.Memory.Copying.{
  bind-Copied, Rep, IsLocal, Copies, Flat, Flat-IsLocal, copy-Copies, Pointed-IsLocal,
  Extends-trans, Extends-refl, later,
}
use stale_secrets_check.Memory.Slices.{Each, Each-IsLocal, Sliced, copy_slice-Copies}
use stale_secrets_check.Layout.{Cell}
use stale_secrets_check.Layout.Kinds.{
  zero_secret_status, zero_condition, zero_watch, conditions_kind, secret_statuses_kind,
  watches_kind,
}
use stale_secrets_check.DeepCopy.{
  Library, deep_copy_into_spec, deep_copy_into_secret_status, deep_copy_into_status,
  deep_copy_into_watch, deep_copy_into_watch_list,
}
use stale_secrets_check.DeepCopy.Represents.{
  SpecRep, SpecRep-IsLocal, StatusRep, StatusRep-IsLocal, WatchRep, WatchRep-IsLocal, WatchListRep,
  WatchValue,
}
use stale_secrets_check.DeepCopy.Structs.{deep_copy_into_spec-Copies}

module _ {Meta ListMeta Other V V' : Type 0} where
  -- What the library's methods promise: each copies what its type represents, in cells that no one
  -- else uses.
  pub record IsLawful (y : Library Meta ListMeta Other)
      (MetaRep : Rep (Cell Meta ListMeta Other) Meta V)
      (ListMetaRep : Rep (Cell Meta ListMeta Other) ListMeta V') : Type 0 where
    pub meta_local : IsLocal MetaRep
    pub list_meta_local : IsLocal ListMetaRep
    pub meta_copies : Copies MetaRep y.deep_copy_into_meta
    pub list_meta_copies : Copies ListMetaRep y.deep_copy_into_list_meta
    pub same_time : (t : Time) → y.deep_copy_into_time t ≡ t
    pub same_condition : (c : Condition) → y.deep_copy_into_condition c ≡ c

module _ {Meta ListMeta Other V V' : Type 0} (y : Library Meta ListMeta Other)
    (MetaRep : Rep (Cell Meta ListMeta Other) Meta V)
    (ListMetaRep : Rep (Cell Meta ListMeta Other) ListMeta V')
    (lawful : IsLawful y MetaRep ListMetaRep) where
  pub deep_copy_into_secret_status-Copies :
      Copies {C = Cell Meta ListMeta Other} Flat (deep_copy_into_secret_status y)
  unfolding deep_copy_into_secret_status
  deep_copy_into_secret_status-Copies =
      copy-Copies
        (λ r. record r {
          created = y.deep_copy_into_time r.created;
          last_modified = y.deep_copy_into_time r.last_modified;
        })
        (λ r. rw (lawful.same_time r.created, lawful.same_time r.last_modified) refl)

  abbrev ConditionsRep : Rep (Cell Meta ListMeta Other) (Option Address) (Option (List Condition))
  ConditionsRep = Sliced conditions_kind Flat

  abbrev StatusesRep : Rep (Cell Meta ListMeta Other) (Option Address) (Option (List SecretStatus))
  StatusesRep = Sliced secret_statuses_kind Flat

  ConditionsRep-IsLocal : IsLocal ConditionsRep
  ConditionsRep-IsLocal =
      Pointed-IsLocal conditions_kind (Each Flat) (Each-IsLocal Flat Flat-IsLocal)

  StatusesRep-IsLocal : IsLocal StatusesRep
  StatusesRep-IsLocal =
      Pointed-IsLocal secret_statuses_kind (Each Flat) (Each-IsLocal Flat Flat-IsLocal)

  pub deep_copy_into_status-Copies :
      Copies {C = Cell Meta ListMeta Other} StatusRep (deep_copy_into_status y)
  unfolding deep_copy_into_status
  deep_copy_into_status-Copies h r v (cs, ss, same) =
      bind-Copied ConditionsRep StatusRep
        (copy_slice conditions_kind zero_condition (λ c. pure (y.deep_copy_into_condition c))
          r.conditions)
        (λ q.
          copy_slice secret_statuses_kind zero_secret_status (deep_copy_into_secret_status y)
            r.secret_status
          >>= λ p. pure (record r { conditions = q; secret_status = p }))
        h.next h v.conditions v
        (copy_slice-Copies conditions_kind zero_condition Flat
          (λ c. pure (y.deep_copy_into_condition c)) (λ l. refl) Flat-IsLocal
          (copy-Copies y.deep_copy_into_condition lawful.same_condition) h r.conditions v.conditions
          cs)
        (λ q h1 x1 b1.
          bind-Copied StatusesRep StatusRep
            (copy_slice secret_statuses_kind zero_secret_status (deep_copy_into_secret_status y)
              r.secret_status)
            (λ p. pure (record r { conditions = q; secret_status = p })) h.next h1 v.secret_status v
            (copy_slice-Copies secret_statuses_kind zero_secret_status Flat
              (deep_copy_into_secret_status y) (λ l. refl) Flat-IsLocal
              deep_copy_into_secret_status-Copies h1 r.secret_status v.secret_status
              (later StatusesRep 0 0 r.secret_status v.secret_status StatusesRep-IsLocal
                (omega arith) x1 ss))
            (λ p h2 x2 b2. (
              record r { conditions = q; secret_status = p },
              h2,
              refl,
              Extends-refl h2,
              (
                later ConditionsRep h.next h.next q v.conditions ConditionsRep-IsLocal (omega arith)
                    x2 b1,
                later StatusesRep h1.next h.next p v.secret_status StatusesRep-IsLocal x1.0
                    (Extends-refl h2) b2,
                same,
              ),
            )))

  pub deep_copy_into_watch-Copies : Copies (WatchRep MetaRep) (deep_copy_into_watch y)
  unfolding deep_copy_into_watch
  deep_copy_into_watch-Copies h r v (same, m, spec, status) =
      bind-Copied MetaRep (WatchRep MetaRep) (y.deep_copy_into_meta r.meta)
        (λ a. deep_copy_into_spec r.spec >>= λ b. deep_copy_into_status y r.status >>= λ c.
          pure (record r { meta = a; spec = b; status = c }))
        h.next h v.meta v (lawful.meta_copies h r.meta v.meta m)
        (λ a h1 x1 b1.
          bind-Copied SpecRep (WatchRep MetaRep) (deep_copy_into_spec r.spec)
            (λ b. deep_copy_into_status y r.status >>= λ c.
              pure (record r { meta = a; spec = b; status = c }))
            h.next h1 v.spec v
            (deep_copy_into_spec-Copies h1 r.spec v.spec
              (later SpecRep 0 0 r.spec v.spec SpecRep-IsLocal (omega arith) x1 spec))
            (λ b h2 x2 b2.
              bind-Copied StatusRep (WatchRep MetaRep) (deep_copy_into_status y r.status)
                (λ c. pure (record r { meta = a; spec = b; status = c })) h.next h2 v.status v
                (deep_copy_into_status-Copies h2 r.status v.status (
                  later StatusRep 0 0 r.status v.status StatusRep-IsLocal (omega arith)
                    (Extends-trans x1 x2) status))
                (λ c h3 x3 b3. (
                  record r { meta = a; spec = b; status = c },
                  h3,
                  refl,
                  Extends-refl h3,
                  (
                    same,
                    later MetaRep h.next h.next a v.meta lawful.meta_local (omega arith)
                        (Extends-trans x2 x3) b1,
                    later SpecRep h1.next h.next b v.spec SpecRep-IsLocal x1.0 x3 b2,
                    later StatusRep h2.next h.next c v.status StatusRep-IsLocal
                        (Extends-trans x1 x2).0 (Extends-refl h3) b3,
                  ),
                ))))

  abbrev ItemsRep : Rep (Cell Meta ListMeta Other) (Option Address) (Option (List (WatchValue V)))
  ItemsRep = Sliced watches_kind (WatchRep MetaRep)

  ItemsRep-IsLocal : IsLocal ItemsRep
  ItemsRep-IsLocal =
      Pointed-IsLocal watches_kind (Each (WatchRep MetaRep))
        (Each-IsLocal (WatchRep MetaRep) (WatchRep-IsLocal MetaRep lawful.meta_local))

  pub deep_copy_into_watch_list-Copies :
      Copies (WatchListRep MetaRep ListMetaRep) (deep_copy_into_watch_list y)
  unfolding deep_copy_into_watch_list
  deep_copy_into_watch_list-Copies h r v (same, m, items) =
      bind-Copied ListMetaRep (WatchListRep MetaRep ListMetaRep) (y.deep_copy_into_list_meta r.meta)
        (λ a.
          copy_slice watches_kind (zero_watch y.zero_meta) (deep_copy_into_watch y) r.items >>= λ b.
          pure (record r { meta = a; items = b }))
        h.next h v.meta v (lawful.list_meta_copies h r.meta v.meta m)
        (λ a h1 x1 b1.
          bind-Copied ItemsRep (WatchListRep MetaRep ListMetaRep)
            (copy_slice watches_kind (zero_watch y.zero_meta) (deep_copy_into_watch y) r.items)
            (λ b. pure (record r { meta = a; items = b })) h.next h1 v.items v
            (copy_slice-Copies watches_kind (zero_watch y.zero_meta) (WatchRep MetaRep)
              (deep_copy_into_watch y) (λ l. refl) (WatchRep-IsLocal MetaRep lawful.meta_local)
              deep_copy_into_watch-Copies h1 r.items v.items
              (later ItemsRep 0 0 r.items v.items ItemsRep-IsLocal (omega arith) x1 items))
            (λ b h2 x2 b2. (
              record r { meta = a; items = b },
              h2,
              refl,
              Extends-refl h2,
              (
                same,
                later ListMetaRep h.next h.next a v.meta lawful.list_meta_local (omega arith) x2 b1,
                later ItemsRep h1.next h.next b v.items ItemsRep-IsLocal x1.0 (Extends-refl h2) b2,
              ),
            )))
