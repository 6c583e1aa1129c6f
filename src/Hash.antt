-- ===== src/Hash.antt =====
-- CalculateHash of internal/controller/utils.go. SHA-256 and its hexadecimal form are a parameter.
pub mod Order
pub mod Entries
pub mod Moved
mod Tests
use Prim.Native.String.{[], ◌∷◌}
use mathlib.Core.List.{List, [], ◌∷◌, map, flat_map}
use stale_secrets_check.Prelude.{String, code, Bool, true, false, ltb, ◌==◌, if◌then◌else◌}
use stale_secrets_check.Api.{Bytes, GoMap}

-- Go's `<=` on strings: by bytes of UTF-8, which is by code points.
unfoldable pub text_leb : String → String → Bool
text_leb [] t = true
text_leb (c ∷ s) [] = false
text_leb (c ∷ s) (d ∷ t) =
    if ltb (code c) (code d) then true else if ltb (code d) (code c) then false else text_leb s t

insert_key : String → List String → List String
insert_key k [] = k ∷ []
insert_key k (j ∷ js) = if text_leb k j then k ∷ j ∷ js else j ∷ insert_key k js

-- sort.Strings
unfoldable pub sort_strings : List String → List String
unfolding insert_key
sort_strings [] = []
sort_strings (k ∷ ks) = insert_key k (sort_strings ks)

-- m[k] on a map of byte slices: nil for a missing key
unfoldable pub bytes_at : String → GoMap Bytes → Bytes
bytes_at k [] = []
bytes_at k ((j, v) ∷ m) = if j == k then v else bytes_at k m

-- the bytes that the loop writes to the hash
unfoldable pub hash_input : GoMap Bytes → Bytes
unfolding sort_strings bytes_at
hash_input entries = flat_map (λ k. bytes_at k entries) (sort_strings (map (λ e. e.0) entries))

unfoldable pub calculate_hash : (Bytes → String) → GoMap Bytes → String
unfolding hash_input
calculate_hash sha256_hex entries = sha256_hex (hash_input entries)
