-- ===== src/Cluster/Sample/Texts.antt =====
-- Test data: texts and lists as numbers, each behind the count of its members, and what reads them.
use Prim.Native.Char.{Char, char, IsScalar, nul}
use mathlib.Core.Logic.{dite}
use native.Mathlib.Decide.{dec_lt}
use text.Mathlib.TextEquality.{Char-path}
use stale_secrets_check.Prelude.{
  ℕ, zero, suc, ◌<◌, String, code, Option, none, some, List, [], ◌∷◌, length, ◌≡◌, refl, ap, arith,
}
use stale_secrets_check.Api.{Bytes}

pub IsScalar-low : (n : ℕ) → n < 55296 → IsScalar n
IsScalar-low n h = ground arith

pub IsScalar-high : (n : ℕ) → 57343 < n → n < 1114112 → IsScalar n
IsScalar-high n h k = ground arith

-- the character of a number, or U+0000 where there is none
abbrev char_of : ℕ → Char
char_of n =
    dite (dec_lt n 55296) (λ h. char n (IsScalar-low n h))
      (λ _.
        dite (dec_lt 57343 n)
          (λ h. dite (dec_lt n 1114112) (λ k. char n (IsScalar-high n h k)) (λ _. nul)) (λ _. nul))

char_of-code : (c : Char) → char_of (code c) ≡ c
char_of-code (char n p) = Char-path (char_of n) (char n p) (ground arith)

-- A reader takes a value from the front of the bytes.
abbrev pub Reader : Type 0 → Type 0
Reader A = Bytes → Option (A × Bytes)

infixl 5 ◌>>=◌
abbrev pub ◌>>=◌ : {A B : Type 0} → Option (A × Bytes) → (A → Reader B) → Option (B × Bytes)
none >>= f = none
some (a, b) >>= f = f a b

get_number : Reader ℕ
get_number [] = none
get_number (n ∷ b) = some (n, b)

module _ {A : Type 0} where
  abbrev put_all : (A → Bytes → Bytes) → List A → Bytes → Bytes
  put_all put [] b = b
  put_all put (x ∷ xs) b = put x (put_all put xs b)

  abbrev pub put_list : (A → Bytes → Bytes) → List A → Bytes → Bytes
  put_list put xs b = length xs ∷ put_all put xs b

  abbrev get_all : ℕ → Reader A → Reader (List A)
  get_all zero get b = some ([], b)
  get_all (suc n) get b = get b >>= λ x b'. get_all n get b' >>= λ xs b''. some (x ∷ xs, b'')

  abbrev pub get_list : Reader A → Reader (List A)
  get_list get [] = none
  get_list get (n ∷ b) = get_all n get b

  get_all-put_all :
      (put : A → Bytes → Bytes) (get : Reader A)
      → ((a : A) (b : Bytes) → get (put a b) ≡ some (a, b))
      → (xs : List A) (b : Bytes) → get_all (length xs) get (put_all put xs b) ≡ some (xs, b)
  get_all-put_all put get round [] b = refl
  get_all-put_all put get round (x ∷ xs) b =
      rw (round x (put_all put xs b), ◌>>=◌) (rw (get_all-put_all put get round xs b, ◌>>=◌) refl)

  pub get_list-put_list :
      (put : A → Bytes → Bytes) (get : Reader A)
      → ((a : A) (b : Bytes) → get (put a b) ≡ some (a, b))
      → (xs : List A) (b : Bytes) → get_list get (put_list put xs b) ≡ some (xs, b)
  get_list-put_list put get round xs b = get_all-put_all put get round xs b

abbrev count_of : String → ℕ
count_of String.[] = 0
count_of (String.◌∷◌ c s) = suc (count_of s)

abbrev put_chars : String → Bytes → Bytes
put_chars String.[] b = b
put_chars (String.◌∷◌ c s) b = code c ∷ put_chars s b

abbrev pub put_text : String → Bytes → Bytes
put_text s b = count_of s ∷ put_chars s b

abbrev get_chars : ℕ → Reader String
get_chars zero b = some (String.[], b)
get_chars (suc n) [] = none
get_chars (suc n) (c ∷ b) = get_chars n b >>= λ s b'. some (String.◌∷◌ (char_of c) s, b')

abbrev pub get_text : Reader String
get_text [] = none
get_text (n ∷ b) = get_chars n b

get_chars-put_chars :
    (s : String) (b : Bytes) → get_chars (count_of s) (put_chars s b) ≡ some (s, b)
get_chars-put_chars String.[] b = refl
get_chars-put_chars (String.◌∷◌ c s) b =
    rw (get_chars-put_chars s b, ◌>>=◌) (ap (λ d. some (String.◌∷◌ d s, b)) (char_of-code c))

pub get_text-put_text : (s : String) (b : Bytes) → get_text (put_text s b) ≡ some (s, b)
get_text-put_text s b = get_chars-put_chars s b
