-- ===== src/Checks/Luhn.antt =====
-- The Luhn sum finds every single wrong digit.
use llm_proxy_pii_rust.Prelude.{
  ℕ, ◌+◌, ◌-◌, ◌%◌, ◌≤◌, ◌<◌, ◌≡◌, ◌≢◌, refl, sym, ap, ◌∙◌, inl, inr, Bool, true, false, not, List,
  [], ◌∷◌, ◌++◌, append_assoc, append-nil, arith, Bool-cases,
}
use llm_proxy_pii_rust.Text.{is_ascii_digit}
use llm_proxy_pii_rust.Checks.{Chars, digits_of, reversed, luhn_term, luhn_sum, luhn_valid}

pub is_ascii_digit-range : (c : ℕ) → is_ascii_digit c ≡ true → (48 ≤ c) × (c ≤ 57)
unfolding is_ascii_digit
is_ascii_digit-range c h = ground arith

luhn_term-injective :
    (odd : Bool) (d e r : ℕ)
    → d < 10
    → e < 10
    → d ≢ e
    → (luhn_term odd d + r) % 10 ≢ (luhn_term odd e + r) % 10
unfolding luhn_term
luhn_term-injective true d e r h k ne q = ground arith
luhn_term-injective false d e r h k ne q = omega arith

-- One digit adds its term to what the others add.
luhn_sum-split :
    (u v : List ℕ) (odd : Bool)
    → (place : Bool) × (others : ℕ) × ((d : ℕ)
        → luhn_sum odd (u ++ d ∷ v) ≡ luhn_term place d + others)
unfolding luhn_sum
luhn_sum-split [] v odd = (odd, luhn_sum (not odd) v, λ d. refl)
luhn_sum-split (x ∷ u) v odd =
    let (place, others, sums) = luhn_sum-split u v (not odd) in
    (place, luhn_term odd x + others, λ d. let sum = sums d in omega arith)

pub digits_of-append : (a b : Chars) → digits_of (a ++ b) ≡ digits_of a ++ digits_of b
unfolding digits_of
digits_of-append [] b = refl
digits_of-append (c ∷ a) b = elim (Bool-cases (is_ascii_digit c)) [
  | inl e ↦ rw (e, digits_of) (ap (λ (l : List ℕ). (c - b'0') ∷ l) (digits_of-append a b))
  | inr e ↦ rw (e, digits_of) (digits_of-append a b)
]

reversed-append : (a b : List ℕ) → reversed (a ++ b) ≡ reversed b ++ reversed a
unfolding reversed
reversed-append [] b = sym (append-nil (reversed b))
reversed-append (d ∷ a) b =
    ap (λ (l : List ℕ). l ++ d ∷ []) (reversed-append a b)
    ∙ append_assoc (reversed b) (reversed a) (d ∷ [])

-- The digits from the last one on, round one of them.
digits-round :
    (before after : Chars) (c : ℕ)
    → is_ascii_digit c ≡ true
    → reversed (digits_of (before ++ c ∷ after))
      ≡ reversed (digits_of after) ++ ((c - b'0') ∷ reversed (digits_of before))
digits-round before after c h =
    ap reversed (digits_of-append before (c ∷ after))
    ∙ ap (λ (l : List ℕ). reversed (digits_of before ++ l)) here
    ∙ reversed-append (digits_of before) ((c - b'0') ∷ digits_of after)
    ∙ unfold reversed in
      append_assoc (reversed (digits_of after)) ((c - b'0') ∷ []) (reversed (digits_of before))
  where
    here : digits_of (c ∷ after) ≡ (c - b'0') ∷ digits_of after
    here = unfold digits_of in rw (h, digits_of) refl

luhn_valid-sum :
    (input : Chars) → luhn_valid input ≡ true → luhn_sum false (reversed (digits_of input)) % 10 ≡ 0
unfolding luhn_valid
luhn_valid-sum input h = ground arith

-- If a number is valid, then no number that differs from it in exactly one digit is, whatever other
-- characters stand between the digits.
pub luhn_valid-one_wrong_digit :
    (before after : Chars) (c wrong : ℕ)
    → is_ascii_digit c ≡ true
    → is_ascii_digit wrong ≡ true
    → c ≢ wrong
    → luhn_valid (before ++ c ∷ after) ≡ true
    → luhn_valid (before ++ wrong ∷ after) ≡ false
luhn_valid-one_wrong_digit before after c wrong h k ne valid =
    elim (Bool-cases (luhn_valid (before ++ wrong ∷ after))) [
      | inr e ↦ e
      | inl e ↦
          let (place, others, sums) =
            luhn_sum-split (reversed (digits_of after)) (reversed (digits_of before)) false in
          let right : (luhn_term place (c - b'0') + others) % 10 ≡ 0 =
            ap (λ (n : ℕ). n % 10)
              (sym (ap (luhn_sum false) (digits-round before after c h) ∙ sums (c - b'0')))
            ∙ luhn_valid-sum (before ++ c ∷ after) valid in
          let other : (luhn_term place (wrong - b'0') + others) % 10 ≡ 0 =
            ap (λ (n : ℕ). n % 10)
              (sym (ap (luhn_sum false) (digits-round before after wrong k) ∙ sums (wrong - b'0')))
            ∙ luhn_valid-sum (before ++ wrong ∷ after) e in
          let low = is_ascii_digit-range c h in
          let low' = is_ascii_digit-range wrong k in
          absurd (
            luhn_term-injective place (c - b'0') (wrong - b'0') others (omega arith) (omega arith)
              (λ q. ne (omega arith)) (right ∙ sym other))
    ]
