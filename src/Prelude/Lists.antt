-- ===== src/Prelude/Lists.antt =====
-- Lists measured by native numbers, and predicates on their members that compute to tuples.
use Prim.Native.Nat.{ℕ, suc, ◌+◌}
use mathlib.Core.Path.{◌≡◌, sym, ap, ◌∙◌, subst}
use mathlib.Core.Logic.{◌⊎◌, inl, inr, ◌≢◌}
use mathlib.Core.Bool.{Bool, false, ◌||◌}
use mathlib.Core.Option.{Option, none, some}
use mathlib.Core.List.{List, [], ◌∷◌, ◌++◌, Permᴰ}
use native.Mathlib.Omega.{arith}

module _ {ℓ} {A : Type ℓ} where
  abbrev pub length : List A → ℕ
  length [] = 0
  length (x ∷ xs) = suc (length xs)

  abbrev pub any : (A → Bool) → List A → Bool
  any p [] = false
  any p (x ∷ xs) = p x || any p xs

  abbrev pub get_last? : List A → Option A
  get_last? [] = none
  get_last? (x ∷ []) = some x
  get_last? (x ∷ y ∷ xs) = get_last? (y ∷ xs)

  pub length-append : (xs ys : List A) → length (xs ++ ys) ≡ length xs + length ys
  length-append [] ys = omega arith
  length-append (x ∷ xs) ys = omega (arith, length-append xs ys)

-- Membership that a proof may take apart: which occurrence it is.
abbrev pub In : {A : Type 0} → A → List A → Type 0
In a [] = ⊥
In a (x ∷ xs) = (a ≡ x) ⊎ In a xs

abbrev pub All {ℓ κ} : {A : Type ℓ} → (A → Type κ) → List A → Type κ
All P [] = Unit
All P (x ∷ xs) = P x × All P xs

module _ {A : Type 0} where
  pub In-append_left : (a : A) (xs ys : List A) → In a xs → In a (xs ++ ys)
  In-append_left a [] ys h = absurd h
  In-append_left a (x ∷ xs) ys (inl e) = inl e
  In-append_left a (x ∷ xs) ys (inr h) = inr (In-append_left a xs ys h)

  pub In-append_right : (a : A) (xs ys : List A) → In a ys → In a (xs ++ ys)
  In-append_right a [] ys h = h
  In-append_right a (x ∷ xs) ys h = inr (In-append_right a xs ys h)

  pub In-append : (a : A) (xs ys : List A) → In a (xs ++ ys) → In a xs ⊎ In a ys
  In-append a [] ys h = inr h
  In-append a (x ∷ xs) ys (inl e) = inl (inl e)
  In-append a (x ∷ xs) ys (inr h) = elim (In-append a xs ys h) [
    | inl l ↦ inl (inr l)
    | inr r ↦ inr r
  ]

module _ {ℓ κ} {A : Type ℓ} (P : A → Type κ) where
  pub All-append : (xs ys : List A) → All P xs → All P ys → All P (xs ++ ys)
  All-append [] ys h k = k
  All-append (x ∷ xs) ys (p, h) k = (p, All-append xs ys h k)

-- No two members have the same key.
abbrev pub Distinct : {A B : Type 0} → (A → B) → List A → Type 0
Distinct key [] = Unit
Distinct key (x ∷ xs) = All (λ y. key y ≢ key x) xs × Distinct key xs

All-perm : {A : Type 0} {xs ys : List A} (P : A → Type 0) → Permᴰ xs ys → All P xs → All P ys
All-perm P Permᴰ.nil h = tt
All-perm P (Permᴰ.cons e p) (h, hs) = (rw (← e) h, All-perm P p hs)
All-perm P (Permᴰ.swap e f) (h, (k, hs)) = (rw (← f) k, (rw (← e) h, hs))
All-perm P (Permᴰ.trans p q) h = All-perm P q (All-perm P p h)

pub Distinct-perm :
    {A B : Type 0} {xs ys : List A} (key : A → B) → Permᴰ xs ys → Distinct key xs → Distinct key ys
Distinct-perm key Permᴰ.nil d = tt
Distinct-perm key (Permᴰ.cons {a} e p) (h, d) =
    (rw (← e) (All-perm (λ y. key y ≢ key a) p h), Distinct-perm key p d)
Distinct-perm key (Permᴰ.swap {l} e f) ((ne, h), (k, d)) = (
  (λ q. ne (ap key f ∙ sym q ∙ sym (ap key e)), subst (λ z. All (λ y. key y ≢ key z) l) f k),
  (subst (λ z. All (λ y. key y ≢ key z) l) e h, d),
)
Distinct-perm key (Permᴰ.trans p q) d = Distinct-perm key q (Distinct-perm key p d)
