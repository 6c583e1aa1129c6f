-- ===== src/Strings.antt =====
-- The functions of Go's package strings that the operator calls, Contains of
-- internal/controller/utils.go, and the %d verb of package fmt.
pub mod Joined
mod Tests
use Prim.Native.String.{[], ◌∷◌, ◌++◌}
use stale_secrets_check.Prelude.{
  ℕ, zero, suc, ◌+◌, ◌/◌, ◌%◌, String, Char, code, Bool, false, ◌&&◌, ◌||◌, any, ltb, leb, eqb,
  ◌==◌, if◌then◌else◌, ℤ, pos, negsuc,
}
use mathlib.Core.List.{List, [], ◌∷◌}

-- unicode.IsSpace
unfoldable pub is_space : Char → Bool
is_space c =
    let n = code c in
    (leb 9 n && leb n 13)
    || eqb n 0x20
    || eqb n 0x85
    || eqb n 0xa0
    || eqb n 0x1680
    || (leb 0x2000 n && leb n 0x200a)
    || eqb n 0x2028
    || eqb n 0x2029
    || eqb n 0x202f
    || eqb n 0x205f
    || eqb n 0x3000

trim_left : String → String
trim_left [] = []
trim_left (c ∷ s) = if is_space c then trim_left s else c ∷ s

-- `c` in front of a text whose end is trimmed
abbrev keep : Char → String → String
keep c [] = if is_space c then [] else c ∷ []
keep c (d ∷ s) = c ∷ d ∷ s

trim_right : String → String
trim_right [] = []
trim_right (c ∷ s) = keep c (trim_right s)

-- strings.TrimSpace
unfoldable pub trim_space : String → String
unfolding trim_left trim_right is_space
trim_space s = trim_right (trim_left s)

-- strings.Contains(s, sep), where sep has the one character of code `sep`
unfoldable pub has_char : ℕ → String → Bool
has_char sep [] = false
has_char sep (c ∷ s) = eqb (code c) sep || has_char sep s

abbrev on_first : Char → List String → List String
on_first c [] = (c ∷ []) ∷ []
on_first c (x ∷ xs) = (c ∷ x) ∷ xs

-- strings.Split(s, ",")
unfoldable pub split_commas : String → List String
split_commas [] = [] ∷ []
split_commas (c ∷ s) =
    let rest = split_commas s in if eqb (code c) b',' then [] ∷ rest else on_first c rest

-- Contains of utils.go
unfoldable pub contains : String → String → Bool
unfolding split_commas trim_space
contains comma_separated value = any (λ v. trim_space v == value) (split_commas comma_separated)

-- the parts of a format, one after the other
abbrev pub concat : List String → String
concat [] = []
concat (s ∷ ss) = s ++ concat ss

digit : ℕ → String
digit n =
    if eqb n 0
    then "0"
    else if eqb n 1
    then "1"
    else if eqb n 2
    then "2"
    else if eqb n 3
    then "3"
    else if eqb n 4
    then "4"
    else if eqb n 5
    then "5"
    else if eqb n 6
    then "6"
    else if eqb n 7
    then "7"
    else if eqb n 8
    then "8"
    else "9"

-- The fuel is one more than the number, which loses a digit in each round.
show_digits : ℕ → ℕ → String
show_digits zero n = []
show_digits (suc f) n =
    let front = show_digits f (n / 10) in if ltb n 10 then digit n else front ++ digit (n % 10)

-- the verb %d
unfoldable pub show_int : ℤ → String
unfolding show_digits digit
show_int (pos n) = show_digits (n + 1) n
show_int (negsuc n) = "-" ++ show_digits (n + 2) (n + 1)
