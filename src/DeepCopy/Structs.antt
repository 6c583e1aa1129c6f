-- ===== src/DeepCopy/Structs.antt =====
-- Every deep_copy_into copies what the struct represents into new memory.
use stale_secrets_check.Prelude.{Option, List, refl, arith}
use stale_secrets_check.Api.{Int64}
use stale_secrets_check.Memory.{Kind, Address, ◌>>=◌, pure, deep_copy_with, copy_slice}
use stale_secrets_check.Memory.Copying.{
  bind-Copied, Rep, IsLocal, Copies, Flat, Flat-IsLocal, copy-Copies, Pointed, Pointed-IsLocal,
  Extends-refl, later, deep_copy_with-Copies,
}
use stale_secrets_check.Memory.Slices.{Each, Each-IsLocal, Sliced, copy_slice-Copies}
use stale_secrets_check.Layout.{Cell}
use stale_secrets_check.Layout.Kinds.{zero_exclude_list, exclude_lists_kind, duration_kind}
use stale_secrets_check.DeepCopy.{
  deep_copy_into_exclude_list, deep_copy_into_stale_secret_to_watch, deep_copy_into_spec,
}
use stale_secrets_check.DeepCopy.Represents.{
  StaleSecretToWatchRep, SpecRep, StaleSecretToWatchRep-IsLocal,
}

module _ {Meta ListMeta Other : Type 0} where
  module _ {R V : Type 0} {P : Rep (Cell Meta ListMeta Other) R V} where
    Sliced-IsLocal :
        (k : Kind (Cell Meta ListMeta Other) (List R)) → IsLocal P → IsLocal (Sliced k P)
    Sliced-IsLocal k local = Pointed-IsLocal k (Each P) (Each-IsLocal P local)

  pub deep_copy_into_exclude_list-Copies :
      Copies {C = Cell Meta ListMeta Other} Flat deep_copy_into_exclude_list
  unfolding deep_copy_into_exclude_list
  deep_copy_into_exclude_list-Copies = copy-Copies (λ r. r) (λ r. refl)

  pub deep_copy_into_stale_secret_to_watch-Copies :
      Copies {C = Cell Meta ListMeta Other} StaleSecretToWatchRep
        deep_copy_into_stale_secret_to_watch
  unfolding deep_copy_into_stale_secret_to_watch
  deep_copy_into_stale_secret_to_watch-Copies h r v (same, xs) =
      bind-Copied (Sliced exclude_lists_kind Flat) StaleSecretToWatchRep
        (copy_slice exclude_lists_kind zero_exclude_list pure r.exclude_list)
        (λ p. pure (record r { exclude_list = p })) h.next h v.exclude_list v
        (copy_slice-Copies exclude_lists_kind zero_exclude_list Flat pure (λ l. refl) Flat-IsLocal
          (copy-Copies (λ c. c) (λ c. refl)) h r.exclude_list v.exclude_list xs)
        (λ p h1 x1 b1. (record r { exclude_list = p }, h1, refl, Extends-refl h1, (same, b1)))

  -- the interval that a pointer leads to
  abbrev DurationRep : Rep (Cell Meta ListMeta Other) (Option Address) (Option Int64)
  DurationRep = Pointed duration_kind Flat

  DurationRep-IsLocal : IsLocal DurationRep
  DurationRep-IsLocal = Pointed-IsLocal duration_kind Flat Flat-IsLocal

  copy_duration-Copies :
      Copies {C = Cell Meta ListMeta Other} DurationRep (deep_copy_with duration_kind pure)
  copy_duration-Copies =
      deep_copy_with-Copies duration_kind Flat pure (λ l. refl) Flat-IsLocal
        (copy-Copies (λ c. c) (λ c. refl))

  pub deep_copy_into_spec-Copies : Copies {C = Cell Meta ListMeta Other} SpecRep deep_copy_into_spec
  unfolding deep_copy_into_spec
  deep_copy_into_spec-Copies h r v (t, same, d) =
      bind-Copied StaleSecretToWatchRep SpecRep
        (deep_copy_into_stale_secret_to_watch r.stale_secret_to_watch)
        (λ q. deep_copy_with duration_kind pure r.refresh_interval >>= λ p.
          pure (record r { stale_secret_to_watch = q; refresh_interval = p }))
        h.next h v.stale_secret_to_watch v
        (deep_copy_into_stale_secret_to_watch-Copies h r.stale_secret_to_watch
          v.stale_secret_to_watch t)
        (λ q h1 x1 b1.
          bind-Copied DurationRep SpecRep (deep_copy_with duration_kind pure r.refresh_interval)
            (λ p. pure (record r { stale_secret_to_watch = q; refresh_interval = p })) h.next h1
            v.refresh_interval v
            (copy_duration-Copies h1 r.refresh_interval v.refresh_interval (
              later DurationRep 0 0 r.refresh_interval v.refresh_interval DurationRep-IsLocal
                (omega arith) x1 d))
            (λ p h2 x2 b2. (
              record r { stale_secret_to_watch = q; refresh_interval = p },
              h2,
              refl,
              Extends-refl h2,
              (
                later StaleSecretToWatchRep h.next h.next q v.stale_secret_to_watch
                    StaleSecretToWatchRep-IsLocal (omega arith) x2 b1,
                same,
                later DurationRep h1.next h.next p v.refresh_interval DurationRep-IsLocal x1.0
                    (Extends-refl h2) b2,
              ),
            )))
