-- ===== src/Hash/Moved.antt =====
-- CalculateHash reads the values only, and does not see where one ends.
use mathlib.Core.List.{List, [], ◌∷◌, ◌++◌, map, flat_map, append_assoc, map-append, Permᴰ}
use stale_secrets_check.Prelude.{
  String, true, ◌≡◌, ◌≢◌, refl, sym, ◌∙◌, ap, arith, eq_iff, eq_refl, All, Distinct,
}
use stale_secrets_check.Api.{Bytes, GoMap}
use stale_secrets_check.Hash.{text_leb, sort_strings, bytes_at, hash_input, calculate_hash}
use stale_secrets_check.Hash.Entries.{calculate_hash-perm}

-- Each key is before all that follow it, in Go's order of strings.
abbrev pub Ascending : List String → Type 0
Ascending [] = Unit
Ascending (k ∷ ks) = All (λ j. (text_leb k j ≡ true) × (k ≢ j)) ks × Ascending ks

abbrev pub keys : GoMap Bytes → List String
keys = map (λ e. e.0)

-- the values, one after the other
abbrev joined : GoMap Bytes → Bytes
joined [] = []
joined ((k, v) ∷ es) = v ++ joined es

joined-append : (es fs : GoMap Bytes) → joined (es ++ fs) ≡ joined es ++ joined fs
joined-append [] fs = refl
joined-append ((k, v) ∷ es) fs =
    ap (λ b. v ++ b) (joined-append es fs) ∙ sym (append_assoc v (joined es) (joined fs))

Ascending-sort_strings : (ks : List String) → Ascending ks → sort_strings ks ≡ ks
unfolding sort_strings
Ascending-sort_strings [] h = refl
Ascending-sort_strings (k ∷ []) h = refl
Ascending-sort_strings (k ∷ j ∷ js) (((order, _), _), h) =
    rw (Ascending-sort_strings (j ∷ js) h) (ground (arith, order))

flat_map-other :
    (k : String) (v : Bytes) (es : GoMap Bytes) (ks : List String)
    → All (λ j. (text_leb k j ≡ true) × (k ≢ j)) ks
    → flat_map (λ j. bytes_at j ((k, v) ∷ es)) ks ≡ flat_map (λ j. bytes_at j es) ks
unfolding flat_map bytes_at
flat_map-other k v es [] h = refl
flat_map-other k v es (j ∷ ks) ((_, other), h) =
    rw (flat_map-other k v es ks h) (ground (arith, eq_iff k j, other))

flat_map-joined :
    (es : GoMap Bytes) → Ascending (keys es) → flat_map (λ k. bytes_at k es) (keys es) ≡ joined es
unfolding flat_map bytes_at
flat_map-joined [] h = refl
flat_map-joined ((k, v) ∷ es) (h, hs) =
    let here : bytes_at k ((k, v) ∷ es) ≡ v = ground (arith, eq_refl k) in
    ap (λ b. bytes_at k ((k, v) ∷ es) ++ b)
      (flat_map-other k v es (keys es) h ∙ flat_map-joined es hs)
    ∙ ap (λ b. b ++ joined es) here

hash_input-joined : (es : GoMap Bytes) → Ascending (keys es) → hash_input es ≡ joined es
unfolding hash_input
hash_input-joined es h = rw (Ascending-sort_strings (keys es) h) (flat_map-joined es h)

others-Distinct :
    (k : String) (es : GoMap Bytes)
    → All (λ j. (text_leb k j ≡ true) × (k ≢ j)) (keys es)
    → All (λ (e : String × Bytes). e.0 ≢ k) es
others-Distinct k [] h = tt
others-Distinct k (e ∷ es) ((_, other), h) = ((λ p. other (sym p)), others-Distinct k es h)

Ascending-Distinct :
    (es : GoMap Bytes) → Ascending (keys es) → Distinct (λ (e : String × Bytes). e.0) es
Ascending-Distinct [] h = tt
Ascending-Distinct (e ∷ es) (h, hs) = (others-Distinct e.0 es h, Ascending-Distinct es hs)

module _ (before behind : GoMap Bytes) (k l : String) where
  -- a map with two neighbouring keys
  abbrev pub with_two : Bytes → Bytes → GoMap Bytes
  with_two v w = before ++ (k, v) ∷ (l, w) ∷ behind

  with_two-keys : (v w v' w' : Bytes) → keys (with_two v w) ≡ keys (with_two v' w')
  with_two-keys v w v' w' =
      map-append (λ (e : String × Bytes). e.0) before ((k, v) ∷ (l, w) ∷ behind)
      ∙ sym (map-append (λ (e : String × Bytes). e.0) before ((k, v') ∷ (l, w') ∷ behind))

  with_two-joined : (x y z : Bytes) → joined (with_two x (y ++ z)) ≡ joined (with_two (x ++ y) z)
  with_two-joined x y z =
      joined-append before ((k, x) ∷ (l, y ++ z) ∷ behind)
      ∙ ap (λ b. joined before ++ b)
          (ap (λ b. x ++ b) (append_assoc y z (joined behind))
            ∙ sym (append_assoc x y (z ++ joined behind)))
      ∙ sym (joined-append before ((k, x ++ y) ∷ (l, z) ∷ behind))

  -- For a map with any keys, of which two follow each other in their order, and whatever the order in
  -- which its entries are ranged over: bytes that move from the beginning of the value of the second
  -- key to the end of the value of the first leave the hash as it was.
  pub calculate_hash-moved :
      (sha256_hex : Bytes → String) (x y z : Bytes) {m m' : GoMap Bytes}
      → Ascending (keys (with_two x (y ++ z)))
      → Permᴰ (with_two x (y ++ z)) m
      → Permᴰ (with_two (x ++ y) z) m'
      → calculate_hash sha256_hex m ≡ calculate_hash sha256_hex m'
  unfolding calculate_hash
  calculate_hash-moved sha256_hex x y z h p p' =
      let h' : Ascending (keys (with_two (x ++ y) z)) =
        rw (with_two-keys x (y ++ z) (x ++ y) z) at h in
      sym (calculate_hash-perm sha256_hex p (Ascending-Distinct (with_two x (y ++ z)) h))
      ∙ ap sha256_hex (
          hash_input-joined (with_two x (y ++ z)) h
          ∙ with_two-joined x y z
          ∙ sym (hash_input-joined (with_two (x ++ y) z) h'))
      ∙ calculate_hash-perm sha256_hex p' (Ascending-Distinct (with_two (x ++ y) z) h')
