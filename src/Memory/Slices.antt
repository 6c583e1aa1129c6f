-- ===== src/Memory/Slices.antt =====
-- The loops of DeepCopyInto over a slice, element by element.
use stale_secrets_check.Memory.Copying.{
  Extends-refl, Agree, Rep, IsLocal, Copies, Pointed, update-same, update-other, >>=-some, IsSound,
  load-some, with_new, with_new-Agree, with_value, with_value-Agree,
}
use stale_secrets_check.Prelude.{
  inl, ℕ, suc, ◌+◌, ◌≤◌, ◌<◌, Option, none, some, List, [], ◌∷◌, ◌++◌, ◌≡◌, ◌≢◌, refl, sym, ap, ◌∙◌,
  length, append_assoc, length-append, arith,
}
use stale_secrets_check.Memory.{
  Address, Heap, Kind, M, ◌>>=◌, load, pure, ◌>>◌, allocate, set_elem, replicate, store_some,
  store_elem, copy_elems, copy_slice,
}

module _ {C R V : Type 0} (P : Rep C R V) where
  -- element by element
  abbrev pub Each : Rep C (List R) (List V)
  Each lo hi h [] [] = Unit
  Each lo hi h (r ∷ rs) (v ∷ vs) = P lo hi h r v × Each lo hi h rs vs
  Each lo hi h _ _ = ⊥

  pub Each-IsLocal : IsLocal P → IsLocal Each
  Each-IsLocal local lo hi lo' hi' h h' [] [] l u a b = tt
  Each-IsLocal local lo hi lo' hi' h h' [] (v ∷ vs) l u a b = b
  Each-IsLocal local lo hi lo' hi' h h' (r ∷ rs) [] l u a b = b
  Each-IsLocal local lo hi lo' hi' h h' (r ∷ rs) (v ∷ vs) l u a (b, bs) =
      (local lo hi lo' hi' h h' r v l u a b, Each-IsLocal local lo hi lo' hi' h h' rs vs l u a bs)

-- a slice: nil, or the array of its elements
abbrev pub Sliced :
    {C R V : Type 0} → Kind C (List R) → Rep C R V → Rep C (Option Address) (Option (List V))
Sliced k P = Pointed k (Each P)

module _ {R : Type 0} where
  set_elem-append :
      (done rest : List R) (x y : R)
      → set_elem (length done) x (done ++ y ∷ rest) ≡ some (done ++ x ∷ rest)
  set_elem-append [] rest x y = refl
  set_elem-append (z ∷ done) rest x y = rw (set_elem-append done rest x y) refl

module _ {C R V : Type 0} (k : Kind C (List R)) (zero_elem : R) (P : Rep C R V)
    (into : R → M C R) where
  -- What the loop does to the array at `p`, whose elements before `done` it has written.
  abbrev Looped : Address → List R → Heap C → List V → Option (Unit {0} × Heap C) → Type 0
  Looped p done h vs o =
      (rs : List R) × (h' : Heap C) × (o ≡ some (tt, h'))
      × (h.next ≤ h'.next)
      × ((q : Address) → q < h.next → q ≢ p → h'.cell q ≡ h.cell q)
      × (h'.cell p ≡ some (k.put (done ++ rs)))
      × Each P (suc p) h'.next h' rs vs

  store_elem-some :
      (p : Address) (done rest : List R) (x y : R) (h : Heap C)
      → IsSound k
      → h.cell p ≡ some (k.put (done ++ y ∷ rest))
      → store_elem k p (length done) x h ≡ some (tt, with_value k p (done ++ x ∷ rest) h)
  store_elem-some p done rest x y h sound e =
      >>=-some (load k p) (λ xs. store_some k p (set_elem (length done) x xs)) (done ++ y ∷ rest) h
        h (load-some k p (done ++ y ∷ rest) h sound e)
      ∙ ap (λ o. store_some k p o h) (set_elem-append done rest x y)

  copy_elems-cons :
      (p : Address) (i : ℕ) (done xs : List R) (x x' y : R) (rest : List R) (h h1 : Heap C)
      → IsSound k
      → i ≡ length done
      → into x h ≡ some (x', h1)
      → h1.cell p ≡ some (k.put (done ++ y ∷ rest))
      → copy_elems k zero_elem into p i (x ∷ xs) h
        ≡ copy_elems k zero_elem into p (i + 1) xs (with_value k p (done ++ x' ∷ rest) h1)
  copy_elems-cons p i done xs x x' y rest h h1 sound ei e1 there =
      >>=-some (into x) (λ z. store_elem k p i z >> copy_elems k zero_elem into p (i + 1) xs) x' h
        h1 e1
      ∙ >>=-some (store_elem k p i x') (λ _. copy_elems k zero_elem into p (i + 1) xs) tt h1
          (with_value k p (done ++ x' ∷ rest) h1)
          (rw ei (store_elem-some p done rest x' y h1 sound there))

  copy_elems-Looped :
      (p : Address) (i : ℕ) (done xs : List R) (vs : List V) (h : Heap C)
      → IsSound k
      → IsLocal P
      → Copies P into
      → i ≡ length done
      → p < h.next
      → h.cell p ≡ some (k.put (done ++ replicate (length xs) zero_elem))
      → Each P 0 p h xs vs
      → Looped p done h vs (copy_elems k zero_elem into p i xs h)
  copy_elems-Looped p i done [] [] h sound local copies ei lt e b =
      ([], h, refl, omega arith, λ q l ne. refl, e, tt)
  copy_elems-Looped p i done [] (v ∷ vs) h sound local copies ei lt e b = absurd b
  copy_elems-Looped p i done (x ∷ xs) [] h sound local copies ei lt e b = absurd b
  copy_elems-Looped p i done (x ∷ xs) (v ∷ vs) h sound local copies ei lt e (b, bs) =
      let (x', h1, e1, (n, a), b') =
        copies h x v (local 0 p 0 h.next h h x v (omega arith) (omega arith) (λ q l u. refl) b) in
      let rest : List R = replicate (length xs) zero_elem in
      let h2 : Heap C = with_value k p (done ++ x' ∷ rest) h1 in
      let kept : Agree 0 p h h2 = λ q l u.
        with_value-Agree k p (done ++ x' ∷ rest) h1 0 p (inl (omega arith)) q l u
        ∙ a q l (omega arith) in
      let (rs, h3, e3, n3, a3, c3, b3) =
        copy_elems-Looped p (i + 1) (done ++ x' ∷ []) xs vs h2 sound local copies
          (omega (arith, length-append done (x' ∷ []))) (omega arith)
          (update-same h1.cell p (k.put (done ++ x' ∷ rest))
            ∙ ap (λ ys. some (k.put ys)) (sym (append_assoc done (x' ∷ []) rest)))
          (Each-IsLocal P local 0 p 0 p h h2 xs vs (omega arith) (omega arith) kept bs) in
      (
        x' ∷ rs,
        h3,
        copy_elems-cons p i done xs x x' zero_elem rest h h1 sound ei e1 (a p (omega arith) lt ∙ e)
            ∙ e3,
        omega arith,
        λ q l ne.
            a3 q (omega arith) ne
            ∙ update-other h1.cell p q (k.put (done ++ x' ∷ rest)) (λ w. ne (sym w))
            ∙ a q (omega arith) l,
        c3 ∙ ap (λ ys. some (k.put ys)) (append_assoc done (x' ∷ []) rs),
        (
          local h.next h1.next (suc p) h3.next h1 h3 x' v (omega arith) (omega arith)
              (λ q l u.
                a3 q u (λ w. omega arith)
                ∙ update-other h1.cell p q (k.put (done ++ x' ∷ rest)) (λ w. omega arith))
              b',
          b3,
        ),
      )

  pub copy_slice-Copies :
      IsSound k → IsLocal P → Copies P into → Copies (Sliced k P) (copy_slice k zero_elem into)
  copy_slice-Copies sound local copies h none none b = (none, h, refl, Extends-refl h, tt)
  copy_slice-Copies sound local copies h none (some v) b = absurd b
  copy_slice-Copies sound local copies h (some p) none b = absurd b
  copy_slice-Copies sound local copies h (some p) (some vs) (lp, ph, xs, e, bs) =
      let zeros : List R = replicate (length xs) zero_elem in
      let h1 : Heap C = with_new k zeros h in
      let same : Agree 0 h.next h h1 = with_new-Agree k zeros h in
      let (rs, h2, e2, n2, a2, c2, b2) =
        copy_elems-Looped h.next 0 [] xs vs h1 sound local copies refl (omega arith)
          (update-same h.cell h.next (k.put zeros))
          (Each-IsLocal P local 0 h.next 0 h.next h h1 xs vs (omega arith) (omega arith) same bs) in
      (
        some h.next,
        h2,
        >>=-some (load k p)
              (λ ys. allocate k (replicate (length ys) zero_elem) >>= λ out.
                copy_elems k zero_elem into out 0 ys >> pure (some out))
              xs h h (load-some k p xs h sound e)
            ∙ >>=-some (copy_elems k zero_elem into h.next 0 xs) (λ _. pure (some h.next)) tt h1 h2
                e2,
        (omega arith, λ q l u. a2 q (omega arith) (λ w. omega arith) ∙ same q l u),
        (
          omega arith,
          omega arith,
          rs,
          c2,
          Each-IsLocal P local (suc h.next) h2.next h.next h2.next h2 h2 rs vs (omega arith)
              (omega arith) (λ q l u. refl) b2,
        ),
      )
