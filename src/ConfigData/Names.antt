-- ===== src/ConfigData/Names.antt =====
-- Lists whose members have distinct names: a write at a position, and an append.
use stale_secrets_check.Prelude.{
  Distinct, ℕ, zero, suc, String, ◌≡◌, ◌≢◌, sym, ◌∙◌, List, [], ◌∷◌, ◌++◌, All,
}
use stale_secrets_check.ConfigData.{modify_nth}

module _ {A : Type 0} where
  pub All-modify_nth :
      (P : A → Type 0) (i : ℕ) (f : A → A) (xs : List A)
      → ((x : A) → P x → P (f x))
      → All P xs
      → All P (modify_nth i f xs)
  unfolding modify_nth
  All-modify_nth P zero f [] k h = tt
  All-modify_nth P (suc i) f [] k h = tt
  All-modify_nth P zero f (x ∷ xs) k (p, h) = (k x p, h)
  All-modify_nth P (suc i) f (x ∷ xs) k (p, h) = (p, All-modify_nth P i f xs k h)

  module _ (name : A → String) where
    pub Distinct-modify_nth :
        (i : ℕ) (f : A → A) (xs : List A)
        → ((x : A) → name (f x) ≡ name x)
        → Distinct name xs
        → Distinct name (modify_nth i f xs)
    unfolding modify_nth
    Distinct-modify_nth zero f [] k d = tt
    Distinct-modify_nth (suc i) f [] k d = tt
    Distinct-modify_nth zero f (x ∷ xs) k (a, d) = (rw (k x) a, d)
    Distinct-modify_nth (suc i) f (x ∷ xs) k (a, d) = (
      All-modify_nth (λ y. name y ≢ name x) i f xs (λ y p e. p (sym (k y) ∙ e)) a,
      Distinct-modify_nth i f xs k d,
    )

    pub All-append_one :
        (P : A → Type 0) (x : A) (xs : List A) → All P xs → P x → All P (xs ++ x ∷ [])
    All-append_one P x [] h p = (p, tt)
    All-append_one P x (y ∷ xs) (q, h) p = (q, All-append_one P x xs h p)

    pub Distinct-append_one :
        (x : A) (xs : List A)
        → All (λ y. name y ≢ name x) xs
        → Distinct name xs
        → Distinct name (xs ++ x ∷ [])
    Distinct-append_one x [] a d = (tt, tt)
    Distinct-append_one x (y ∷ xs) (p, a) (b, d) = (
      All-append_one (λ z. name z ≢ name y) x xs b (λ e. p (sym e)),
      Distinct-append_one x xs a d,
    )
