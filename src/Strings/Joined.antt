-- ===== src/Strings/Joined.antt =====
-- Split and Contains on a list of parts that was written with commas.
use Prim.Native.String.{[], ◌∷◌, ◌++◌}
use mathlib.Core.List.{List, [], ◌∷◌, map}
use text.Mathlib.TextLemmas.{nil-append, cons-append}
use stale_secrets_check.Prelude.{
  String, Char, ◌≡◌, ◌↔◌, refl, true, false, any, arith, ◌==◌, eq_iff, In, All,
}
use stale_secrets_check.Strings.{split_commas, trim_space, contains, has_char}

-- A part that can stand between commas.
abbrev pub NoComma : String → Type 0
NoComma s = has_char b',' s ≡ false

-- strings.Join(parts, ","), for a first part and the others
unfoldable pub join_commas : String → List String → String
join_commas p [] = p
join_commas p (q ∷ qs) = p ++ ("," ++ join_commas q qs)

split_commas_of_part : (s : String) → NoComma s → split_commas s ≡ s ∷ []
unfolding split_commas has_char
split_commas_of_part [] h = refl
split_commas_of_part (c ∷ s) h = ground (arith, split_commas_of_part s)

split_commas-comma : (t : String) → split_commas ("," ++ t) ≡ "" ∷ split_commas t
unfolding split_commas
split_commas-comma t = rw (cons-append, nil-append)

split_commas-cons :
    (c : Char) (s u : String) (rest : List String)
    → NoComma (c ∷ s)
    → split_commas u ≡ s ∷ rest
    → split_commas (c ∷ u) ≡ (c ∷ s) ∷ rest
unfolding split_commas has_char
split_commas-cons c s u rest h e = ground arith

NoComma-tail : (c : Char) (s : String) → NoComma (c ∷ s) → NoComma s
unfolding has_char
NoComma-tail c s h = ground arith

split_commas-append :
    (s t : String) → NoComma s → split_commas (s ++ ("," ++ t)) ≡ s ∷ split_commas t
split_commas-append [] t h = rw nil-append (split_commas-comma t)
split_commas-append (c ∷ s) t h =
    rw cons-append (split_commas-cons c s _ _ h (split_commas-append s t (NoComma-tail c s h)))

-- Splitting undoes joining, for parts without commas.
pub split_commas-join_commas :
    (p : String) (ps : List String)
    → NoComma p
    → All NoComma ps
    → split_commas (join_commas p ps) ≡ p ∷ ps
unfolding join_commas
split_commas-join_commas p [] h k = split_commas_of_part p h
split_commas-join_commas p (q ∷ qs) h (k, ks) =
    rw (split_commas-append p (join_commas q qs) h, split_commas-join_commas q qs k ks)

any-trim_iff :
    (v : String) (ps : List String)
    → (any (λ p. trim_space p == v) ps ≡ true) ↔ In v (map trim_space ps)
any-trim_iff v [] = ground arith
any-trim_iff v (p ∷ ps) = ground (arith, eq_iff (trim_space p) v, any-trim_iff v ps)

-- Of a text that joins parts by commas, Contains holds exactly for the parts, each without the
-- blanks round it.
pub contains-join_commas_iff :
    (p : String) (ps : List String) (v : String)
    → NoComma p
    → All NoComma ps
    → (contains (join_commas p ps) v ≡ true) ↔ In v (map trim_space (p ∷ ps))
unfolding contains
contains-join_commas_iff p ps v h k =
    rw (split_commas-join_commas p ps h k) (any-trim_iff v (p ∷ ps))
