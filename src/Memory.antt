-- ===== src/Memory.antt =====
-- The memory in which api/v1beta1/zz_generated.deepcopy.go copies: cells of any kind `C`, and
-- methods that fault on an address that holds no cell of the kind expected.
pub mod Copying
pub mod Slices
use stale_secrets_check.Prelude.{
  ℕ, zero, suc, ◌+◌, Option, none, some, List, [], ◌∷◌, length, if◌then◌else◌, eqb,
}

abbrev pub Address : Type 0
Address = ℕ

-- The cells from `next` on are free.
pub record Heap (C : Type 0) : Type 0 where
  pub next : Address
  pub cell : Address → Option C

abbrev pub M : Type 0 → Type 0 → Type 0
M C A = Heap C → Option (A × Heap C)

-- The variables that hold an `R`: a kind of cell, and Go's zero value.
pub record Kind (C R : Type 0) : Type 0 where
  pub put : R → C
  pub get : C → Option R
  pub zero : R

module _ {C : Type 0} where
  abbrev pub pure : {A : Type 0} → A → M C A
  pure a h = some (a, h)

  infixl 5 ◌>>=◌ ◌>>◌
  abbrev pub ◌>>=◌ : {A B : Type 0} → M C A → (A → M C B) → M C B
  ◌>>=◌ m f h = elim (m h) [ none ↦ none | some r ↦ f r.0 r.1 ]

  abbrev pub ◌>>◌ : {A B : Type 0} → M C A → M C B → M C B
  m >> k = m >>= λ _. k

  abbrev pub update : (Address → Option C) → Address → C → Address → Option C
  update f p c q = if eqb p q then some c else f q

  module _ {R : Type 0} (k : Kind C R) where
    -- *p
    abbrev pub load : Address → M C R
    load p h = elim (h.cell p) [
      | none ↦ none
      | some c ↦ elim (k.get c) [ none ↦ none | some r ↦ some (r, h) ]
    ]

    -- *p = r
    abbrev pub store : Address → R → M C (Unit {0})
    store p r h = some (tt, record h { cell = update h.cell p (k.put r) })

    -- new(R), and the array of make([]R, n) for an array kind
    abbrev pub allocate : R → M C Address
    allocate r h =
        some (h.next, record { next = suc h.next; cell = update h.cell h.next (k.put r) })

  -- in.DeepCopy() for the DeepCopyInto of the type
  abbrev pub deep_copy_with :
      {R : Type 0} → Kind C R → (R → M C R) → Option Address → M C (Option Address)
  deep_copy_with k into none = pure none
  deep_copy_with k into (some p) = do
    out ← allocate k k.zero
    x ← load k p
    x' ← into x
    store k out x'
    pure (some out)

-- Writing element `i` of an array; out of range is a fault.
abbrev pub set_elem : {R : Type 0} → ℕ → R → List R → Option (List R)
set_elem i x [] = none
set_elem zero x (y ∷ ys) = some (x ∷ ys)
set_elem (suc i) x (y ∷ ys) = elim (set_elem i x ys) [ none ↦ none | some zs ↦ some (y ∷ zs) ]

abbrev pub replicate : {R : Type 0} → ℕ → R → List R
replicate zero x = []
replicate (suc n) x = x ∷ replicate n x

module _ {C R : Type 0} (k : Kind C (List R)) where
  abbrev pub store_some : Address → Option (List R) → M C (Unit {0})
  store_some p none h = none
  store_some p (some xs) h = store k p xs h

  -- (*p)[i] = x
  abbrev pub store_elem : Address → ℕ → R → M C (Unit {0})
  store_elem p i x = load k p >>= λ xs. store_some p (set_elem i x xs)

  module _ (zero_elem : R) (into : R → M C R) where
    -- the loop over the elements from `i` on
    abbrev pub copy_elems : Address → ℕ → List R → M C (Unit {0})
    copy_elems out i [] = pure tt
    copy_elems out i (x ∷ xs) = do x' ← into x; store_elem out i x'; copy_elems out (i + 1) xs

    -- if in.F != nil { *out = make([]R, len(*in)); for i := range *in { ... } }
    abbrev pub copy_slice : Option Address → M C (Option Address)
    copy_slice none = pure none
    copy_slice (some p) = do
      xs ← load k p
      out ← allocate k (replicate (length xs) zero_elem)
      copy_elems out 0 xs
      pure (some out)
