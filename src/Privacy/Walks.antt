-- ===== src/Privacy/Walks.antt =====
-- What a walk gives, what it spares, and that it forgets no refusal, for each way in which walks are put together.
use llm_proxy_pii_rust.Prelude.{
  ℕ, ◌+◌, ◌≡◌, refl, sym, subst, ◌⊎◌, inl, inr, false, Option, none, some, Bytes, bytes_beq,
  Option-cases,
}
use llm_proxy_pii_rust.Json.{
  Value, null, bool, number, other_number, string, array, object, Items, nil, cons, get,
  change_field, on_field, on_items_from, on_items,
}
use llm_proxy_pii_rust.Json.Access.{get-set, get-set_other}
use llm_proxy_pii_rust.Privacy.{Walked, refuse, both, unless_refused}
use llm_proxy_pii_rust.Privacy.Paths.{AllItems, OnSome, OnItems}

abbrev pub Walk : Type 0 → Type 0
Walk S = Value → Walked S → Value × Walked S

-- Two properties, each of which holds unless the request is blocked.
pub also : {B Q R : Type 0} → B ⊎ Q → B ⊎ R → B ⊎ (Q × R)
also (inl b) r = inl b
also (inr q) (inl b) = inl b
also (inr q) (inr r) = inr (q, r)

module _ {S : Type 0} (Bad : S → Type 0) where
  -- The request will not be forwarded.
  abbrev pub Blocked : Walked S → Type 0
  Blocked w = Bad w.state ⊎ ((reason : Bytes) × (w.refusal ≡ some reason))

  abbrev pub Keeps : Walk S → Type 0
  Keeps g = (v : Value) (w : Walked S) → Blocked w → Blocked (g v w).1

  -- After the walk the value has the property, or the request is blocked.
  abbrev pub Gives : Walk S → (Value → Type 0) → Type 0
  Gives g Q = (v : Value) (w : Walked S) → Blocked (g v w).1 ⊎ Q (g v w).0

  -- The same for a value that has a property before the walk.
  abbrev pub GivesIf : Walk S → (Value → Type 0) → (Value → Type 0) → Type 0
  GivesIf g C Q = (v : Value) (w : Walked S) → C v → Blocked (g v w).1 ⊎ Q (g v w).0

  abbrev pub Spares : Walk S → (Value → Type 0) → Type 0
  Spares g Q = (v : Value) (w : Walked S) → Q v → Q (g v w).0

  pub refuse-Keeps : (reason : Bytes) → Keeps (refuse reason)
  unfolding refuse
  refuse-Keeps reason v w h = inr (reason, refl)

  pub refuse-Gives : (reason : Bytes) (Q : Value → Type 0) → Gives (refuse reason) Q
  unfolding refuse
  refuse-Gives reason Q v w = inl (inr (reason, refl))

  both-cases :
      (g h : Walk S) (v : Value) (w : Walked S)
      → (Blocked (g v w).1 × (both g h v w ≡ g v w)) ⊎ (both g h v w ≡ h (g v w).0 (g v w).1)
  unfolding both
  both-cases g h v w = elim (Option-cases (g v w).1.refusal) [
    | inl e ↦ inr (
        subst
          (λ (o : Option Bytes).
            (elim o [ some reason ↦ g v w | none ↦ h (g v w).0 (g v w).1 ]) ≡ h (g v w).0 (g v w).1)
          (sym e) refl)
    | inr (reason, e) ↦ inl (
      inr (reason, e),
      subst
          (λ (o : Option Bytes).
            (elim o [ some reason ↦ g v w | none ↦ h (g v w).0 (g v w).1 ]) ≡ g v w)
          (sym e) refl,
    )
  ]

  pub both-Keeps : (g h : Walk S) → Keeps g → Keeps h → Keeps (both g h)
  both-Keeps g h kg kh v w b = elim (both-cases g h v w) [
    | inl r ↦ subst (λ (x : Value × Walked S). Blocked x.1) (sym r.1) r.0
    | inr e ↦
        subst (λ (x : Value × Walked S). Blocked x.1) (sym e) (kh (g v w).0 (g v w).1 (kg v w b))
  ]

  pub both-Gives_first :
      (g h : Walk S) (Q : Value → Type 0) → Gives g Q → Keeps h → Spares h Q → Gives (both g h) Q
  both-Gives_first g h Q gg kh sh v w = elim (both-cases g h v w) [
    | inl r ↦ inl (subst (λ (x : Value × Walked S). Blocked x.1) (sym r.1) r.0)
    | inr e ↦
        subst (λ (x : Value × Walked S). Blocked x.1 ⊎ Q x.0) (sym e)
          (elim (gg v w) [
            | inl b ↦ inl (kh (g v w).0 (g v w).1 b)
            | inr q ↦ inr (sh (g v w).0 (g v w).1 q)
          ])
  ]

  pub both-GivesIf_second :
      (g h : Walk S) (C Q : Value → Type 0) → Spares g C → GivesIf h C Q → GivesIf (both g h) C Q
  both-GivesIf_second g h C Q sg gh v w c = elim (both-cases g h v w) [
    | inl r ↦ inl (subst (λ (x : Value × Walked S). Blocked x.1) (sym r.1) r.0)
    | inr e ↦
        subst (λ (x : Value × Walked S). Blocked x.1 ⊎ Q x.0) (sym e)
          (gh (g v w).0 (g v w).1 (sg v w c))
  ]

  pub both-Gives_second : (g h : Walk S) (Q : Value → Type 0) → Gives h Q → Gives (both g h) Q
  both-Gives_second g h Q gh v w =
      both-GivesIf_second g h (λ x. Unit) Q (λ x y c. tt) (λ x y c. gh x y) v w tt

  pub both-Spares :
      (g h : Walk S) (Q : Value → Type 0) → Spares g Q → Spares h Q → Spares (both g h) Q
  both-Spares g h Q sg sh v w q = elim (both-cases g h v w) [
    | inl r ↦ subst (λ (x : Value × Walked S). Q x.0) (sym r.1) (sg v w q)
    | inr e ↦ subst (λ (x : Value × Walked S). Q x.0) (sym e) (sh (g v w).0 (g v w).1 (sg v w q))
  ]

  change-Keeps :
      (key : Bytes) (v : Value) (o : Option Value) (g : Walk S) (w : Walked S)
      → Keeps g
      → Blocked w
      → Blocked (change_field key v o g w).1
  unfolding change_field
  change-Keeps key v none g w k b = b
  change-Keeps key v (some x) g w k b = k x w b

  pub on_field-Keeps : (key : Bytes) (g : Walk S) → Keeps g → Keeps (on_field key g)
  unfolding on_field
  on_field-Keeps key g k v w b = change-Keeps key v (get key v) g w k b

  any_some : (o : Option Value) → OnSome (λ v. Unit) o
  any_some none = tt
  any_some (some v) = tt

  change-Gives :
      (key : Bytes) (v : Value) (o : Option Value) (g : Walk S) (C Q : Value → Type 0)
      (w : Walked S)
      → get key v ≡ o
      → GivesIf g C Q
      → OnSome C o
      → Blocked (change_field key v o g w).1 ⊎ OnSome Q (get key (change_field key v o g w).0)
  unfolding change_field
  change-Gives key v none g C Q w e gg c = inr (subst (OnSome Q) (sym e) tt)
  change-Gives key v (some x) g C Q w e gg c = elim (gg x w c) [
    | inl b ↦ inl b
    | inr q ↦ inr (subst (OnSome Q) (sym (get-set key (g x w).0 v x e)) q)
  ]

  pub on_field-Gives :
      (key : Bytes) (g : Walk S) (Q : Value → Type 0)
      → Gives g Q
      → Gives (on_field key g) (λ v. OnSome Q (get key v))
  unfolding on_field
  on_field-Gives key g Q gg v w =
      change-Gives key v (get key v) g (λ x. Unit) Q w refl (λ x y c. gg x y) (any_some (get key v))

  pub on_field-GivesIf :
      (key : Bytes) (g : Walk S) (C Q : Value → Type 0)
      → GivesIf g C Q
      → GivesIf (on_field key g) (λ v. OnSome C (get key v)) (λ v. OnSome Q (get key v))
  unfolding on_field
  on_field-GivesIf key g C Q gg v w c = change-Gives key v (get key v) g C Q w refl gg c

  change-Spares :
      (key : Bytes) (v : Value) (o : Option Value) (g : Walk S) (Q : Value → Type 0) (w : Walked S)
      → get key v ≡ o
      → Spares g Q
      → OnSome Q (get key v)
      → OnSome Q (get key (change_field key v o g w).0)
  unfolding change_field
  change-Spares key v none g Q w e s q = q
  change-Spares key v (some x) g Q w e s q =
      subst (OnSome Q) (sym (get-set key (g x w).0 v x e)) (s x w (subst (OnSome Q) e q))

  pub on_field-Spares :
      (key : Bytes) (g : Walk S) (Q : Value → Type 0)
      → Spares g Q
      → Spares (on_field key g) (λ v. OnSome Q (get key v))
  unfolding on_field
  on_field-Spares key g Q s v w q = change-Spares key v (get key v) g Q w refl s q

  change-Spares_other :
      (key other : Bytes) (v : Value) (o : Option Value) (g : Walk S) (R : Option Value → Type 0)
      (w : Walked S)
      → bytes_beq key other ≡ false
      → R (get other v)
      → R (get other (change_field key v o g w).0)
  unfolding change_field
  change-Spares_other key other v none g R w e q = q
  change-Spares_other key other v (some x) g R w e q =
      subst R (sym (get-set_other key other (g x w).0 v e)) q

  -- A walk over one field changes no other.
  pub on_field-Spares_other :
      (key other : Bytes) (g : Walk S) (R : Option Value → Type 0)
      → bytes_beq key other ≡ false
      → Spares (on_field key g) (λ v. R (get other v))
  unfolding on_field
  on_field-Spares_other key other g R e v w q =
      change-Spares_other key other v (get key v) g R w e q

  items-Keeps :
      (g : ℕ → Walk S) (pos : ℕ) (xs : Items) (w : Walked S)
      → ((n : ℕ) → Keeps (g n))
      → Blocked w
      → Blocked (on_items_from g pos xs w).1
  unfolding on_items_from
  items-Keeps g pos nil w k b = b
  items-Keeps g pos (cons x xs) w k b = items-Keeps g (pos + 1) xs (g pos x w).1 k (k pos x w b)

  pub on_items-Keeps : (g : ℕ → Walk S) → ((n : ℕ) → Keeps (g n)) → Keeps (on_items g)
  unfolding on_items
  on_items-Keeps g k (array xs) w b = items-Keeps g 0 xs w k b
  on_items-Keeps g k _ w b = b

  items-Gives :
      (g : ℕ → Walk S) (C Q : Value → Type 0) (pos : ℕ) (xs : Items) (w : Walked S)
      → ((n : ℕ) → Keeps (g n))
      → ((n : ℕ) → GivesIf (g n) C Q)
      → AllItems C xs
      → Blocked (on_items_from g pos xs w).1 ⊎ AllItems Q (on_items_from g pos xs w).0
  unfolding on_items_from
  items-Gives g C Q pos nil w k gg c = inr tt
  items-Gives g C Q pos (cons x xs) w k gg c = elim (gg pos x w c.0) [
    | inl b ↦ inl (items-Keeps g (pos + 1) xs (g pos x w).1 k b)
    | inr q ↦ elim (items-Gives g C Q (pos + 1) xs (g pos x w).1 k gg c.1) [
      | inl b ↦ inl b
      | inr qs ↦ inr (q, qs)
    ]
  ]

  pub on_items-GivesIf :
      (g : ℕ → Walk S) (C Q : Value → Type 0)
      → ((n : ℕ) → Keeps (g n))
      → ((n : ℕ) → GivesIf (g n) C Q)
      → GivesIf (on_items g) (OnItems C) (OnItems Q)
  unfolding on_items
  on_items-GivesIf g C Q k gg (array xs) w c = items-Gives g C Q 0 xs w k gg c
  on_items-GivesIf g C Q k gg (string s) w c = inr tt
  on_items-GivesIf g C Q k gg (object fs) w c = inr tt
  on_items-GivesIf g C Q k gg null w c = inr tt
  on_items-GivesIf g C Q k gg (bool b) w c = inr tt
  on_items-GivesIf g C Q k gg (number n) w c = inr tt
  on_items-GivesIf g C Q k gg (other_number n) w c = inr tt

  any_items : (xs : Items) → AllItems (λ v. Unit) xs
  any_items nil = tt
  any_items (cons x xs) = (tt, any_items xs)

  any_item : (v : Value) → OnItems (λ x. Unit) v
  any_item (array xs) = any_items xs
  any_item (string s) = tt
  any_item (object fs) = tt
  any_item null = tt
  any_item (bool b) = tt
  any_item (number n) = tt
  any_item (other_number n) = tt

  pub on_items-Gives :
      (g : ℕ → Walk S) (Q : Value → Type 0)
      → ((n : ℕ) → Keeps (g n))
      → ((n : ℕ) → Gives (g n) Q)
      → Gives (on_items g) (OnItems Q)
  on_items-Gives g Q k gg v w =
      on_items-GivesIf g (λ x. Unit) Q k (λ n x y c. gg n x y) v w (any_item v)

  pub unless_refused-Keeps : (g : Walk S) → Keeps g → (n : ℕ) → Keeps (unless_refused g n)
  unfolding unless_refused
  unless_refused-Keeps g k n v w b = elim (Option-cases w.refusal) [
    | inl e ↦ rw (e, unless_refused) (k v w b)
    | inr (reason, e) ↦ rw (e, unless_refused) b
  ]

  pub unless_refused-Gives :
      (g : Walk S) (Q : Value → Type 0) → Gives g Q → (n : ℕ) → Gives (unless_refused g n) Q
  unfolding unless_refused
  unless_refused-Gives g Q gg n v w = elim (Option-cases w.refusal) [
    | inl e ↦ rw (e, unless_refused) (gg v w)
    | inr (reason, e) ↦ rw (e, unless_refused) (inl (inr (reason, e)))
  ]
