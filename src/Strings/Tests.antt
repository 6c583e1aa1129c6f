-- ===== src/Strings/Tests.antt =====
-- The cases of TestContains in internal/controller/utils_test.go, and small inputs.
use stale_secrets_check.Prelude.{◌≡◌, ◌↔◌, refl, true, false, [], ◌∷◌, pos, negsuc, In, map}
use stale_secrets_check.Strings.Joined.{
  join_commas, split_commas-join_commas, contains-join_commas_iff,
}
use stale_secrets_check.Strings.{has_char, trim_space, split_commas, contains, show_int}

contains_tests :
    (contains "apple,banana,orange" "banana" ≡ true)
    × (contains "apple,banana,orange" "grape" ≡ false)
    × (contains "" "grape" ≡ false)
    × (contains "apple, banana , orange" "banana" ≡ true)
unfolding contains
contains_tests = (refl, refl, refl, refl)

split_commas_tests :
    (split_commas "" ≡ "" ∷ [])
    × (split_commas "a,,b" ≡ "a" ∷ "" ∷ "b" ∷ [])
    × (trim_space "  a b " ≡ "a b")
unfolding split_commas trim_space
split_commas_tests = (refl, refl, refl)

show_int_tests :
    (show_int (pos 0) ≡ "0") × (show_int (pos 1305) ≡ "1305") × (show_int (negsuc 8) ≡ "-9")
unfolding show_int
show_int_tests = (refl, refl, refl)

split_commas-join_commas_example : split_commas (join_commas "db" ("tls" ∷ [])) ≡ "db" ∷ "tls" ∷ []
unfolding has_char
split_commas-join_commas_example = split_commas-join_commas "db" ("tls" ∷ []) refl (refl, tt)

contains-join_commas_iff_example :
    (contains (join_commas "db" (" tls " ∷ [])) "tls" ≡ true)
    ↔ In "tls" (map trim_space ("db" ∷ " tls " ∷ []))
unfolding has_char
contains-join_commas_iff_example =
    contains-join_commas_iff "db" (" tls " ∷ []) "tls" refl (refl, tt)
