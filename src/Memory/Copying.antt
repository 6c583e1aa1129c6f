-- ===== src/Memory/Copying.antt =====
-- What a copying method of `Memory` promises, and that loops and pointers keep the promise.
use mathlib.Core.Path.{subst}
use stale_secrets_check.Prelude.{
  ◌⊎◌, inl, inr, suc, ◌≤◌, ◌<◌, Option, none, some, ◌≡◌, ◌≢◌, refl, sym, ap, ◌∙◌, arith,
}
use stale_secrets_check.Memory.{
  Address, Heap, Kind, M, ◌>>=◌, load, store, update, pure, ◌>>◌, deep_copy_with,
}

module _ {C : Type 0} where
  -- The cells from `lo` up to `hi` are the same.
  abbrev pub Agree : Address → Address → Heap C → Heap C → Type 0
  Agree lo hi h h' = (p : Address) → lo ≤ p → p < hi → h'.cell p ≡ h.cell p

  -- No cell was freed, and none that was in use is changed.
  abbrev pub Extends : Heap C → Heap C → Type 0
  Extends h h' = (h.next ≤ h'.next) × Agree 0 h.next h h'

  pub Extends-trans : {h h' h'' : Heap C} → Extends h h' → Extends h' h'' → Extends h h''
  Extends-trans (n, a) (n', a') = (omega arith, λ p l u. a' p l (omega arith) ∙ a p l u)

-- `P lo hi h r v`: what `r` is in memory `h` represents `v`, and every address in it is of a cell
-- from `lo` up to `hi`.
abbrev pub Rep : Type 0 → Type 0 → Type 0 → Type 1
Rep C R V = Address → Address → Heap C → R → V → Type 0

-- That a representation looks at no cell outside its bounds.
abbrev pub IsLocal : {C R V : Type 0} → Rep C R V → Type 0
IsLocal {C} {R} {V} P =
    (lo hi lo' hi' : Address) (h h' : Heap C) (r : R) (v : V)
    → lo' ≤ lo
    → hi ≤ hi'
    → Agree lo hi h h'
    → P lo hi h r v
    → P lo' hi' h' r v

-- The method returned: memory in use is as it was, and the result represents `v` in the cells from
-- `lo` on.
abbrev pub CopiedFrom :
    {C R V : Type 0} → Address → Rep C R V → Heap C → V → Option (R × Heap C) → Type 0
CopiedFrom {C} {R} lo P h v o =
    (r : R) × (h' : Heap C) × (o ≡ some (r, h')) × Extends h h' × P lo h'.next h' r v

-- in new cells alone
abbrev pub Copied : {C R V : Type 0} → Rep C R V → Heap C → V → Option (R × Heap C) → Type 0
Copied P h v o = CopiedFrom h.next P h v o

abbrev pub Copies : {C R V : Type 0} → Rep C R V → (R → M C R) → Type 0
Copies {C} {R} {V} P into =
    (h : Heap C) (r : R) (v : V) → P 0 h.next h r v → Copied P h v (into r h)

-- It is still represented behind a later copy.
pub later :
    {C R V : Type 0} {h h' : Heap C} (P : Rep C R V) (lo lo' : Address) (r : R) (v : V)
    → IsLocal P
    → lo' ≤ lo
    → Extends h h'
    → P lo h.next h r v
    → P lo' h'.next h' r v
later {h = h} {h' = h'} P lo lo' r v local l (n, a) b =
    local lo h.next lo' h'.next h h' r v l n (λ p _ u. a p (omega arith) u) b

pub Extends-refl : {C : Type 0} (h : Heap C) → Extends h h
Extends-refl h = (omega arith, λ p l u. refl)

-- a value without addresses
abbrev pub Flat : {C R : Type 0} → Rep C R R
Flat lo hi h r v = r ≡ v

module _ {C R : Type 0} where
  pub Flat-IsLocal : IsLocal (Flat {C = C} {R = R})
  Flat-IsLocal lo hi lo' hi' h h' r v l u a b = b

  pub copy-Copies :
      (copy : R → R) → ((r : R) → copy r ≡ r) → Copies (Flat {C = C} {R = R}) (λ r. pure (copy r))
  copy-Copies copy same h r v b = (copy r, h, refl, Extends-refl h, same r ∙ b)

module _ {C R V : Type 0} (k : Kind C R) (P : Rep C R V) where
  -- a pointer, nil or to a variable
  abbrev pub Pointed : Rep C (Option Address) (Option V)
  Pointed lo hi h none none = Unit
  Pointed lo hi h (some p) (some v) =
      (lo ≤ p) × (p < hi) × (r : R) × (h.cell p ≡ some (k.put r)) × P lo hi h r v
  Pointed lo hi h _ _ = ⊥

  pub Pointed-IsLocal : IsLocal P → IsLocal Pointed
  Pointed-IsLocal local lo hi lo' hi' h h' none none l u a b = tt
  Pointed-IsLocal local lo hi lo' hi' h h' none (some v) l u a b = b
  Pointed-IsLocal local lo hi lo' hi' h h' (some p) none l u a b = b
  Pointed-IsLocal local lo hi lo' hi' h h' (some p) (some v) l u a (lp, ph, r, e, b) =
      (omega arith, omega arith, r, a p lp ph ∙ e, local lo hi lo' hi' h h' r v l u a b)

module _ {C : Type 0} where
  pub update-same : (f : Address → Option C) (p : Address) (c : C) → update f p c p ≡ some c
  update-same f p c = ground arith

  pub update-other : (f : Address → Option C) (p q : Address) (c : C) → p ≢ q → update f p c q ≡ f q
  update-other f p q c ne = ground arith

  pub >>=-some :
      {A B : Type 0} (m : M C A) (f : A → M C B) (a : A) (h h' : Heap C)
      → m h ≡ some (a, h')
      → (m >>= f) h ≡ f a h'
  >>=-some m f a h h' e = rw (e, ◌>>=◌) refl

  module _ {R : Type 0} (k : Kind C R) where
    abbrev pub IsSound : Type 0
    IsSound = (r : R) → k.get (k.put r) ≡ some r

    pub load-some :
        (p : Address) (r : R) (h : Heap C)
        → IsSound
        → h.cell p ≡ some (k.put r)
        → load k p h ≡ some (r, h)
    load-some p r h sound e = ground (arith, sound r)

    -- a new variable
    abbrev pub with_new : R → Heap C → Heap C
    with_new r h = record { next = suc h.next; cell = update h.cell h.next (k.put r) }

    pub with_new-Agree : (r : R) (h : Heap C) → Agree 0 h.next h (with_new r h)
    with_new-Agree r h q l u = update-other h.cell h.next q (k.put r) (λ x. omega arith)

    -- a variable with a new value
    abbrev pub with_value : Address → R → Heap C → Heap C
    with_value p r h = record h { cell = update h.cell p (k.put r) }

    pub with_value-Agree :
        (p : Address) (r : R) (h : Heap C) (lo hi : Address)
        → hi ≤ p ⊎ p < lo
        → Agree lo hi h (with_value p r h)
    with_value-Agree p r h lo hi out q l u =
        update-other h.cell p q (k.put r)
          (λ x. elim out [ inl o ↦ omega arith | inr o ↦ omega arith ])

abbrev some_or : {A : Type 0} → A → Option A → A
some_or a none = a
some_or a (some b) = b

-- what is known of the result of a copy
pub Copied-result :
    {C R V : Type 0} (P : Rep C R V) (h h' : Heap C) (v : V) (r : R) (o : Option (R × Heap C))
    → Copied P h v o
    → o ≡ some (r, h')
    → Extends h h' × P h.next h'.next h' r v
Copied-result P h h' v r o (q, k, e, x, b) e' =
    subst (λ z. Extends h z.1 × P h.next z.1.next z.1 z.0 v) (ap (some_or (q, k)) (sym e ∙ e'))
      (x, b)

-- One copy, and what is made of it.
pub bind-Copied :
    {C R S V W : Type 0} (P : Rep C R V) (Q : Rep C S W) (m : M C R) (f : R → M C S) (lo : Address)
    (h : Heap C) (v : V) (w : W)
    → Copied P h v (m h)
    → ((r : R) (h' : Heap C)
        → Extends h h'
        → P h.next h'.next h' r v
        → CopiedFrom lo Q h' w (f r h'))
    → CopiedFrom lo Q h w ((m >>= f) h)
bind-Copied P Q m f lo h v w (r, h1, e1, x1, b1) k =
    let (s, h2, e2, x2, b2) = k r h1 x1 b1 in
    (s, h2, >>=-some m f r h h1 e1 ∙ e2, Extends-trans x1 x2, b2)

module _ {C R V : Type 0} (k : Kind C R) (P : Rep C R V) (into : R → M C R) where
  pub deep_copy_with-Copies :
      IsSound k → IsLocal P → Copies P into → Copies (Pointed k P) (deep_copy_with k into)
  deep_copy_with-Copies sound local copies h none none b = (none, h, refl, Extends-refl h, tt)
  deep_copy_with-Copies sound local copies h none (some v) b = absurd b
  deep_copy_with-Copies sound local copies h (some p) none b = absurd b
  deep_copy_with-Copies sound local copies h (some p) (some v) (lp, ph, r, e, b) =
      let h1 : Heap C = with_new k k.zero h in
      let same : Agree 0 h.next h h1 = with_new-Agree k k.zero h in
      let (r', h2, e2, (n, a), b') =
        copies h1 r v (local 0 h.next 0 h1.next h h1 r v (omega arith) (omega arith) same b) in
      let h3 : Heap C = with_value k h.next r' h2 in
      (
        some h.next,
        h3,
        >>=-some (load k p) (λ x. into x >>= λ x'. store k h.next x' >> pure (some h.next)) r h1 h1
              (load-some k p r h1 sound (same p lp ph ∙ e))
            ∙ >>=-some (into r) (λ x'. store k h.next x' >> pure (some h.next)) r' h1 h2 e2,
        (
          omega arith,
          λ q l u.
              with_value-Agree k h.next r' h2 0 h.next (inl (omega arith)) q l u
              ∙ a q l (omega arith)
              ∙ same q l u,
        ),
        (
          omega arith,
          omega arith,
          r',
          update-same h2.cell h.next (k.put r'),
          local h1.next h2.next h.next h3.next h2 h3 r' v (omega arith) (omega arith)
              (with_value-Agree k h.next r' h2 h1.next h2.next (inr (omega arith))) b',
        ),
      )
