-- ===== src/Checks/Digits.antt =====
-- What the checksums of national numbers find: a single wrong digit, wherever it stands.
use llm_proxy_pii_rust.Prelude.{
  ℕ, ◌-◌, ◌≤◌, ◌<◌, ◌≡◌, ◌≢◌, refl, sym, ap, ◌∙◌, subst, Bool, true, false, List, [], ◌∷◌, ◌++◌,
  inl, inr, arith, Bool-cases, Bytes, length, nat_beq,
}
use llm_proxy_pii_rust.Text.{is_ascii_digit}
use llm_proxy_pii_rust.Checks.{digits_of}
use llm_proxy_pii_rust.Checks.Luhn.{digits_of-append, is_ascii_digit-range}
use llm_proxy_pii_rust.Checks.National.{with_length, iso7064_step, iso7064_check, de_vat_valid}

digits_of-here :
    (before after : Bytes) (c : ℕ)
    → is_ascii_digit c ≡ true
    → digits_of (before ++ c ∷ after) ≡ digits_of before ++ (c - b'0') ∷ digits_of after
digits_of-here before after c h =
    digits_of-append before (c ∷ after)
    ∙ ap (λ (l : List ℕ). digits_of before ++ l) (unfold digits_of in rw (h, digits_of) refl)

with_length-true :
    (d : List ℕ) (n : ℕ) (check : List ℕ → Bool)
    → with_length d n check ≡ true
    → (length d ≡ n) × (check d ≡ true)
with_length-true d n check h = elim (Bool-cases (nat_beq (length d) n)) [
  | inl e ↦ (ground arith, rw e at h)
  | inr e ↦ let h' : false ≡ true = rw e at h in absurd (cc)
]

-- A check of a fixed number of digits that tells two lists apart, if they differ in one digit.
unfoldable pub Telling : (List ℕ → Bool) → ℕ → Type 0
Telling check n =
    (u v : List ℕ) (d e : ℕ)
    → d < 10
    → e < 10
    → d ≢ e
    → length (u ++ d ∷ v) ≡ n
    → check (u ++ d ∷ v) ≡ true
    → check (u ++ e ∷ v) ≡ true
    → ⊥

pub one_wrong_digit :
    (check : List ℕ → Bool) (n : ℕ) (before after : Bytes) (c wrong : ℕ)
    → Telling check n
    → is_ascii_digit c ≡ true
    → is_ascii_digit wrong ≡ true
    → c ≢ wrong
    → with_length (digits_of (before ++ c ∷ after)) n check ≡ true
    → with_length (digits_of (before ++ wrong ∷ after)) n check ≡ false
unfolding Telling
one_wrong_digit check n before after c wrong tells h k ne valid =
    elim (Bool-cases (with_length (digits_of (before ++ wrong ∷ after)) n check)) [
      | inr e ↦ e
      | inl e ↦
          let low = is_ascii_digit-range c h in
          let low' = is_ascii_digit-range wrong k in
          let right = with_length-true (digits_of before ++ (c - b'0') ∷ digits_of after) n check (
            subst (λ (l : List ℕ). with_length l n check ≡ true) (digits_of-here before after c h)
              valid) in
          let other =
            with_length-true (digits_of before ++ (wrong - b'0') ∷ digits_of after) n check (
              subst (λ (l : List ℕ). with_length l n check ≡ true)
                (digits_of-here before after wrong k) e) in
          absurd (
            tells (digits_of before) (digits_of after) (c - b'0') (wrong - b'0') (omega arith)
              (omega arith) (λ q. ne (omega arith)) right.0 right.1 other.1)
    ]

-- ISO 7064 Mod 11,10: a round keeps different products, and different digits, apart.
step-range : (p x : ℕ) → (1 ≤ iso7064_step p x) × (iso7064_step p x ≤ 10)
unfolding iso7064_step
step-range p x = (ground arith, ground arith)

step-product :
    (p q x : ℕ) → 1 ≤ p → p ≤ 10 → 1 ≤ q → q ≤ 10 → iso7064_step p x ≡ iso7064_step q x → p ≡ q
unfolding iso7064_step
step-product p q x a b c d h = ground arith

step-digit : (p x y : ℕ) → x < 10 → y < 10 → iso7064_step p x ≡ iso7064_step p y → x ≡ y
unfolding iso7064_step
step-digit p x y a b h = ground arith

check-product :
    (v : List ℕ) (p q : ℕ)
    → 1 ≤ p
    → p ≤ 10
    → 1 ≤ q
    → q ≤ 10
    → p ≢ q
    → iso7064_check p v ≡ true
    → iso7064_check q v ≡ true
    → ⊥
unfolding iso7064_check
check-product [] p q a b c d ne h k = cc
check-product (x ∷ []) p q a b c d ne h k = ne (ground arith)
check-product (x ∷ y ∷ v) p q a b c d ne h k =
    let r = step-range p x in
    let s = step-range q x in
    check-product (y ∷ v) (iso7064_step p x) (iso7064_step q x) r.0 r.1 s.0 s.1
      (λ e. ne (step-product p q x a b c d e)) h k

check-step :
    (p x d : ℕ) (u v : List ℕ)
    → iso7064_check p (x ∷ (u ++ d ∷ v)) ≡ iso7064_check (iso7064_step p x) (u ++ d ∷ v)
unfolding iso7064_check
check-step p x d [] v = refl
check-step p x d (y ∷ u) v = refl

check-digit :
    (u v : List ℕ) (p d e : ℕ)
    → d < 10
    → e < 10
    → d ≢ e
    → iso7064_check p (u ++ d ∷ v) ≡ true
    → iso7064_check p (u ++ e ∷ v) ≡ true
    → ⊥
unfolding iso7064_check
check-digit [] [] p d e a b ne h k = ne (ground arith)
check-digit [] (x ∷ v) p d e a b ne h k =
    let r = step-range p d in
    let s = step-range p e in
    check-product (x ∷ v) (iso7064_step p d) (iso7064_step p e) r.0 r.1 s.0 s.1
      (λ q. ne (step-digit p d e a b q)) h k
check-digit (x ∷ u) v p d e a b ne h k =
    check-digit u v (iso7064_step p x) d e a b ne (sym (check-step p x d u v) ∙ h)
      (sym (check-step p x e u v) ∙ k)

iso7064-Telling : (n : ℕ) → Telling (iso7064_check 10) n
unfolding Telling
iso7064-Telling n u v d e a b ne l h k = check-digit u v 10 d e a b ne h k

-- If a German VAT number is valid, then no number that differs from it in exactly one digit is, whatever other
-- characters stand between the digits.
pub de_vat_valid-one_wrong_digit :
    (before after : Bytes) (c wrong : ℕ)
    → is_ascii_digit c ≡ true
    → is_ascii_digit wrong ≡ true
    → c ≢ wrong
    → de_vat_valid (before ++ c ∷ after) ≡ true
    → de_vat_valid (before ++ wrong ∷ after) ≡ false
unfolding de_vat_valid
de_vat_valid-one_wrong_digit before after c wrong h k ne valid =
    one_wrong_digit (iso7064_check 10) 9 before after c wrong (iso7064-Telling 9) h k ne valid
