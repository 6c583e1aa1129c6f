-- ===== src/Hash/Entries.antt =====
-- CalculateHash ranges over a Go map, whose order changes from call to call.
use mathlib.Core.Path.{fun_ext}
use mathlib.Core.List.{map, Permᴰ}
use stale_secrets_check.Prelude.{Distinct-perm, String, ◌≡◌, refl, ap, ◌∙◌, arith, eq_iff, Distinct}
use stale_secrets_check.Api.{Bytes, GoMap}
use stale_secrets_check.Hash.{sort_strings, bytes_at, calculate_hash}
use stale_secrets_check.Hash.Order.{sort_strings-swap, sort_strings-cons}

abbrev key : String × Bytes → String
key e = e.0

sort-perm :
    {xs ys : GoMap Bytes} → Permᴰ xs ys → sort_strings (map key xs) ≡ sort_strings (map key ys)
sort-perm Permᴰ.nil = refl
sort-perm (Permᴰ.cons e p) = rw e (sort_strings-cons _ _ _ (sort-perm p))
sort-perm (Permᴰ.swap {l} e f) = rw (e, f) (sort_strings-swap _ _ (map key l))
sort-perm (Permᴰ.trans p q) = sort-perm p ∙ sort-perm q

bytes_at-perm :
    {xs ys : GoMap Bytes} (k : String)
    → Permᴰ xs ys
    → Distinct key xs
    → bytes_at k xs ≡ bytes_at k ys
unfolding bytes_at
bytes_at-perm k Permᴰ.nil d = refl
bytes_at-perm k (Permᴰ.cons {a} {b} e p) (h, d) = rw (← e, bytes_at-perm k p d)
bytes_at-perm k (Permᴰ.swap {a} {b} {a'} {b'} e f) ((ne, h), d) =
    rw (← e, ← f) (ground (arith, eq_iff a.0 k, eq_iff b.0 k))
bytes_at-perm k (Permᴰ.trans p q) d =
    bytes_at-perm k p d ∙ bytes_at-perm k q (Distinct-perm key p d)

-- The hash of a secret does not depend on the order in which the map gives its entries.
pub calculate_hash-perm :
    (sha256_hex : Bytes → String) {entries entries' : GoMap Bytes}
    → Permᴰ entries entries'
    → Distinct (λ e. e.0) entries
    → calculate_hash sha256_hex entries ≡ calculate_hash sha256_hex entries'
unfolding calculate_hash
calculate_hash-perm sha256_hex {entries} p d =
    ap sha256_hex (rw (sort-perm p, fun_ext (λ k. bytes_at-perm k p d)))
