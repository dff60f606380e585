-- ===== src/Prelude/Quantifiers.antt =====
-- Laws of `All`, `Any` and `Pairs`.
use llm_proxy_pii_rust.Prelude.Tests.{Bool-cases}
use llm_proxy_pii_rust.Prelude.Lists.{All, Any, Pairs, select, any, find}
use mathlib.Core.Option.{some}
use mathlib.Core.Path.{◌≡◌}
use mathlib.Core.Bool.{Bool, true, false}
use mathlib.Core.Logic.{inl, inr}
use mathlib.Core.List.{List, [], ◌∷◌, ◌++◌}
use native.Mathlib.Omega.{arith}

module _ {ℓ κ μ} {A : Type ℓ} {P : A → Type κ} {Q : A → Type μ} where
  pub All-imp : (f : (a : A) → P a → Q a) (xs : List A) → All P xs → All Q xs
  All-imp f [] h = tt
  All-imp f (x ∷ xs) h = (f x h.0, All-imp f xs h.1)

module _ {ℓ κ μ ν} {A : Type ℓ} {P : A → Type κ} {Q : A → Type μ} {R : A → Type ν} where
  pub All-imp₂ : (f : (a : A) → P a → Q a → R a) (xs : List A) → All P xs → All Q xs → All R xs
  All-imp₂ f [] h k = tt
  All-imp₂ f (x ∷ xs) h k = (f x h.0 k.0, All-imp₂ f xs h.1 k.1)

module _ {ℓ κ} {A : Type ℓ} (P : A → Type κ) where
  pub All-append : (xs ys : List A) → All P xs → All P ys → All P (xs ++ ys)
  All-append [] ys h k = k
  All-append (x ∷ xs) ys h k = (h.0, All-append xs ys h.1 k)

  pub append-All : (xs ys : List A) → All P (xs ++ ys) → All P xs × All P ys
  append-All [] ys h = (tt, h)
  append-All (x ∷ xs) ys h = let r = append-All xs ys h.1 in ((h.0, r.0), r.1)

  pub All-intro : (f : (a : A) → P a) (xs : List A) → All P xs
  All-intro f [] = tt
  All-intro f (x ∷ xs) = (f x, All-intro f xs)

  pub All-select : (p : A → Bool) (xs : List A) → All P xs → All P (select p xs)
  unfolding select
  All-select p [] h = h
  All-select p (x ∷ xs) h = elim (Bool-cases (p x)) [
    | inl e ↦ rw e (h.0, All-select p xs h.1)
    | inr e ↦ rw e (All-select p xs h.1)
  ]

  pub select-All :
      (p : A → Bool) (xs : List A) → All P (select p xs) → All (λ x. p x ≡ true → P x) xs
  unfolding select
  select-All p [] h = h
  select-All p (x ∷ xs) h = elim (Bool-cases (p x)) [
    | inl e ↦ let k : P x × All P (select p xs) = rw e at h in ((λ _. k.0), select-All p xs k.1)
    | inr e ↦ ((λ t. cc), select-All p xs (rw e at h))
  ]

module _ {ℓ} {A : Type ℓ} where
  pub All-any : (p : A → Bool) (xs : List A) → any p xs ≡ false → All (λ x. p x ≡ false) xs
  unfolding any
  All-any p [] h = tt
  All-any p (x ∷ xs) h = (ground arith, All-any p xs (ground arith))

  pub Any-any : (p : A → Bool) (xs : List A) → any p xs ≡ true → Any (λ x. p x ≡ true) xs
  unfolding any
  Any-any p [] h = cc
  Any-any p (x ∷ xs) h = elim (Bool-cases (p x)) [
    | inl e ↦ inl e
    | inr e ↦ inr (Any-any p xs (ground arith))
  ]

module _ {A : Type 0} where
  -- What `find` returns passes the test, and stands in the list.
  pub find-eq_some :
      (p : A → Bool) (xs : List A) (a : A) → find p xs ≡ some a → (p a ≡ true) × Any (λ x. x ≡ a) xs
  unfolding find
  find-eq_some p [] a h = cc
  find-eq_some p (x ∷ xs) a h = elim (Bool-cases (p x)) [
    | inl e ↦ let same : x ≡ a = ground arith in (rw (← same) e, inl same)
    | inr e ↦ let r = find-eq_some p xs a (rw e at h) in (r.0, inr r.1)
  ]

module _ {ℓ} {A : Type ℓ} {P : A → Type 0} {Q : A → Type 0} where
  pub Any-imp : (f : (a : A) → P a → Q a) (xs : List A) → Any P xs → Any Q xs
  Any-imp f [] h = h
  Any-imp f (x ∷ xs) (inl p) = inl (f x p)
  Any-imp f (x ∷ xs) (inr h) = inr (Any-imp f xs h)

module _ {ℓ} {A : Type ℓ} (P : A → Type 0) where
  pub Any-append_left : (xs ys : List A) → Any P xs → Any P (xs ++ ys)
  Any-append_left [] ys h = absurd h
  Any-append_left (x ∷ xs) ys (inl p) = inl p
  Any-append_left (x ∷ xs) ys (inr h) = inr (Any-append_left xs ys h)

  pub Any-append_right : (xs ys : List A) → Any P ys → Any P (xs ++ ys)
  Any-append_right [] ys h = h
  Any-append_right (x ∷ xs) ys h = inr (Any-append_right xs ys h)

module _ {ℓ} {A : Type ℓ} {R : A → A → Type 0} {S : A → A → Type 0} where
  pub Pairs-imp : (f : (a b : A) → R a b → S a b) (xs : List A) → Pairs R xs → Pairs S xs
  Pairs-imp f [] h = tt
  Pairs-imp f (x ∷ xs) h = (All-imp (f x) xs h.0, Pairs-imp f xs h.1)

module _ {ℓ} {A : Type ℓ} (R : A → A → Type 0) where
  pub Pairs-append_one :
      (xs : List A) (c : A) → Pairs R xs → All (λ x. R x c) xs → Pairs R (xs ++ c ∷ [])
  Pairs-append_one [] c p h = (tt, tt)
  Pairs-append_one (x ∷ xs) c p h =
      (All-append (R x) xs (c ∷ []) p.0 (h.0, tt), Pairs-append_one xs c p.1 h.1)
