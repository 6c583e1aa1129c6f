-- ===== src/Hash/Order.antt =====
-- The order of keys, and that sorting forgets in which order the keys came.
use Prim.Native.String.{[], ◌∷◌}
use mathlib.Core.List.{List, [], ◌∷◌}
use text.Mathlib.TextEquality.{Char-path}
use stale_secrets_check.Prelude.{String, ◌≡◌, refl, true, false, arith}
use stale_secrets_check.Hash.{text_leb, insert_key, sort_strings}

text_leb-total : (s t : String) → text_leb s t ≡ false → text_leb t s ≡ true
unfolding text_leb
text_leb-total [] t h = cc
text_leb-total (c ∷ s) [] h = refl
text_leb-total (c ∷ s) (d ∷ t) h = ground (arith, text_leb-total s t)

text_leb_trans : (s t u : String) → text_leb s t ≡ true → text_leb t u ≡ true → text_leb s u ≡ true
unfolding text_leb
text_leb_trans [] t u h k = refl
text_leb_trans (c ∷ s) [] u h k = cc
text_leb_trans (c ∷ s) (d ∷ t) [] h k = cc
text_leb_trans (c ∷ s) (d ∷ t) (e ∷ u) h k = ground (arith, text_leb_trans s t u)

text_leb-antisym : (s t : String) → text_leb s t ≡ true → text_leb t s ≡ true → s ≡ t
unfolding text_leb
text_leb-antisym [] [] h k = refl
text_leb-antisym [] (d ∷ t) h k = cc
text_leb-antisym (c ∷ s) [] h k = cc
text_leb-antisym (c ∷ s) (d ∷ t) h k = ground (arith, text_leb-antisym s t, Char-path c d)

insert_key_comm :
    (j k : String) (l : List String) → insert_key j (insert_key k l) ≡ insert_key k (insert_key j l)
unfolding insert_key
insert_key_comm j k [] = ground (arith, text_leb-total j k, text_leb-antisym j k)
insert_key_comm j k (x ∷ l) = ground (
  arith,
  insert_key_comm j k l,
  text_leb-total j k,
  text_leb-antisym j k,
  text_leb-total k j,
  text_leb_trans j k x,
  text_leb_trans k j x,
)

pub sort_strings-swap :
    (j k : String) (ks : List String) → sort_strings (j ∷ k ∷ ks) ≡ sort_strings (k ∷ j ∷ ks)
unfolding sort_strings
sort_strings-swap j k ks = insert_key_comm j k (sort_strings ks)

pub sort_strings-cons :
    (k : String) (js ks : List String)
    → sort_strings js ≡ sort_strings ks
    → sort_strings (k ∷ js) ≡ sort_strings (k ∷ ks)
unfolding sort_strings
sort_strings-cons k js ks e = rw e
