-- ===== src/Prelude/Sort.antt =====
-- `slice::sort_by`: a stable sort. `le a b` is "the comparator does not answer Greater".
use llm_proxy_pii_rust.Prelude.Tests.{if◌then◌else◌, Bool-cases}
use llm_proxy_pii_rust.Prelude.Lists.{All, Any, Pairs}
use mathlib.Core.Path.{◌≡◌}
use mathlib.Core.Bool.{Bool, true, false}
use mathlib.Core.Logic.{◌⊎◌, inl, inr}
use mathlib.Core.List.{List, [], ◌∷◌}

module _ {ℓ} {A : Type ℓ} where
  -- In front of the first element that is not below `x`: equal elements keep their order.
  unfoldable pub insert_by : (A → A → Bool) → A → List A → List A
  insert_by le x [] = x ∷ []
  insert_by le x (y ∷ ys) = if le x y then x ∷ y ∷ ys else y ∷ insert_by le x ys

  unfoldable pub sort_by : (A → A → Bool) → List A → List A
  sort_by le [] = []
  sort_by le (x ∷ xs) = insert_by le x (sort_by le xs)

-- Each element is not after any that follows it.
abbrev pub SortedBy {ℓ} : {A : Type ℓ} → (A → A → Bool) → List A → Type 0
SortedBy le = Pairs (λ x y. le x y ≡ true)

module _ {ℓ κ} {A : Type ℓ} (P : A → Type κ) (le : A → A → Bool) where
  pub All-insert_by : (x : A) (xs : List A) → P x → All P xs → All P (insert_by le x xs)
  unfolding insert_by
  All-insert_by x [] p h = (p, tt)
  All-insert_by x (y ∷ ys) p h = elim (Bool-cases (le x y)) [
    | inl e ↦ rw e (p, h)
    | inr e ↦ rw e (h.0, All-insert_by x ys p h.1)
  ]

  pub All-sort_by : (xs : List A) → All P xs → All P (sort_by le xs)
  unfolding sort_by
  All-sort_by [] h = h
  All-sort_by (x ∷ xs) h = All-insert_by x (sort_by le xs) h.0 (All-sort_by xs h.1)

  -- The other way round: what holds of the sorted list holds of the list.
  pub insert_by-All : (x : A) (xs : List A) → All P (insert_by le x xs) → P x × All P xs
  unfolding insert_by
  insert_by-All x [] h = h
  insert_by-All x (y ∷ ys) h = elim (Bool-cases (le x y)) [
    | inl e ↦ rw e at h
    | inr e ↦
        let h' : P y × All P (insert_by le x ys) = rw e at h in
        let r = insert_by-All x ys h'.1 in (r.0, (h'.0, r.1))
  ]

  pub sort_by-All : (xs : List A) → All P (sort_by le xs) → All P xs
  unfolding sort_by
  sort_by-All [] h = h
  sort_by-All (x ∷ xs) h = let r = insert_by-All x (sort_by le xs) h in (r.0, sort_by-All xs r.1)

module _ {ℓ} {A : Type ℓ} (P : A → Type 0) (le : A → A → Bool) where
  pub Any-insert_by : (x : A) (xs : List A) → P x ⊎ Any P xs → Any P (insert_by le x xs)
  unfolding insert_by
  Any-insert_by x [] h = h
  Any-insert_by x (y ∷ ys) h = elim (Bool-cases (le x y)) [
    | inl e ↦ rw e h
    | inr e ↦ rw e (elim h [
      | inl p ↦ inr (Any-insert_by x ys (inl p))
      | inr (inl q) ↦ inl q
      | inr (inr r) ↦ inr (Any-insert_by x ys (inr r))
    ])
  ]

  pub Any-sort_by : (xs : List A) → Any P xs → Any P (sort_by le xs)
  unfolding sort_by
  Any-sort_by [] h = h
  Any-sort_by (x ∷ xs) (inl p) = Any-insert_by x (sort_by le xs) (inl p)
  Any-sort_by (x ∷ xs) (inr q) = Any-insert_by x (sort_by le xs) (inr (Any-sort_by xs q))

module _ {ℓ} {A : Type ℓ} (R : A → A → Type 0) (le : A → A → Bool)
    (flip : (a b : A) → R a b → R b a) where
  All-flip : (x : A) (ys : List A) → All (R x) ys → All (λ y. R y x) ys
  All-flip x [] h = h
  All-flip x (y ∷ ys) h = (flip x y h.0, All-flip x ys h.1)

  Pairs-insert_by : (x : A) (xs : List A) → All (R x) xs → Pairs R xs → Pairs R (insert_by le x xs)
  unfolding insert_by
  Pairs-insert_by x [] a p = (a, p)
  Pairs-insert_by x (y ∷ ys) a p = elim (Bool-cases (le x y)) [
    | inl e ↦ rw e (a, p)
    | inr e ↦ rw e (All-insert_by (R y) le x ys (flip x y a.0) p.0, Pairs-insert_by x ys a.1 p.1)
  ]

  -- A symmetric relation between all pairs survives the sort.
  pub Pairs-sort_by : (xs : List A) → Pairs R xs → Pairs R (sort_by le xs)
  unfolding sort_by
  Pairs-sort_by [] p = p
  Pairs-sort_by (x ∷ xs) p =
      Pairs-insert_by x (sort_by le xs) (All-sort_by (R x) le xs p.0) (Pairs-sort_by xs p.1)

module _ {ℓ} {A : Type ℓ} (le : A → A → Bool) (total : (a b : A) → le a b ≡ false → le b a ≡ true)
    (trans : (a b c : A) → le a b ≡ true → le b c ≡ true → le a c ≡ true) where
  All-le :
      (x y : A) (ys : List A)
      → le x y ≡ true
      → All (λ z. le y z ≡ true) ys
      → All (λ z. le x z ≡ true) ys
  All-le x y [] e h = tt
  All-le x y (z ∷ zs) e h = (trans x y z e h.0, All-le x y zs e h.1)

  SortedBy-insert_by : (x : A) (xs : List A) → SortedBy le xs → SortedBy le (insert_by le x xs)
  unfolding insert_by
  SortedBy-insert_by x [] s = (tt, tt)
  SortedBy-insert_by x (y ∷ ys) s = elim (Bool-cases (le x y)) [
    | inl e ↦ rw e ((e, All-le x y ys e s.0), s)
    | inr e ↦
        rw e (
          All-insert_by (λ z. le y z ≡ true) le x ys (total x y e) s.0,
          SortedBy-insert_by x ys s.1,
        )
  ]

  pub sort_by-SortedBy : (xs : List A) → SortedBy le (sort_by le xs)
  unfolding sort_by
  sort_by-SortedBy [] = tt
  sort_by-SortedBy (x ∷ xs) = SortedBy-insert_by x (sort_by le xs) (sort_by-SortedBy xs)
