-- ===== src/Hash/Tests.antt =====
-- CalculateHash on small data, with a hash that returns a fixed text.
use mathlib.Core.List.{[], ◌∷◌, flat_map, Permᴰ}
use mathlib.Core.List.Permᴰ
use stale_secrets_check.Prelude.{String, ◌≡◌, refl, arith, eq_iff}
use stale_secrets_check.Api.{Bytes, GoMap}
use stale_secrets_check.Hash.{text_leb, hash_input, calculate_hash}
use stale_secrets_check.Hash.Moved.{Ascending, keys, with_two, calculate_hash-moved}
use stale_secrets_check.Hash.Entries.{calculate_hash-perm}

abbrev user_first : GoMap Bytes
user_first = ("user", 97 ∷ []) ∷ ("password", 98 ∷ 99 ∷ []) ∷ []

abbrev password_first : GoMap Bytes
password_first = ("password", 98 ∷ 99 ∷ []) ∷ ("user", 97 ∷ []) ∷ []

abbrev digest : Bytes → String
digest b = "digest"

hash_input_tests : hash_input user_first ≡ 98 ∷ 99 ∷ 97 ∷ []
unfolding hash_input flat_map text_leb
hash_input_tests = refl

calculate_hash-perm_example :
    calculate_hash digest user_first ≡ calculate_hash digest password_first
calculate_hash-perm_example =
    calculate_hash-perm digest (Permᴰ.swap refl refl)
      (((λ e. absurd (ground (arith, eq_iff "password" "user"))), tt), (tt, tt))

abbrev host : GoMap Bytes
host = ("host", 1 ∷ []) ∷ []

host-Ascending : Ascending (keys (with_two host [] "password" "user" (98 ∷ []) (99 ∷ 97 ∷ [])))
unfolding text_leb
host-Ascending = (
  (
    (refl, (λ e. absurd (ground (arith, eq_iff "host" "password")))),
    ((refl, (λ e. absurd (ground (arith, eq_iff "host" "user")))), tt),
  ),
  (((refl, (λ e. absurd (ground (arith, eq_iff "password" "user")))), tt), (tt, tt)),
)

calculate_hash-moved_example :
    calculate_hash digest (("password", 98 ∷ []) ∷ ("host", 1 ∷ []) ∷ ("user", 99 ∷ 97 ∷ []) ∷ [])
    ≡ calculate_hash digest (("host", 1 ∷ []) ∷ ("password", 98 ∷ 99 ∷ []) ∷ ("user", 97 ∷ []) ∷ [])
calculate_hash-moved_example =
    calculate_hash-moved host [] "password" "user" digest (98 ∷ []) (99 ∷ []) (97 ∷ [])
      host-Ascending (Permᴰ.swap refl refl) (Permᴰ.refl _)
