-- ===== src/Checks/Weights.antt =====
-- Weighted sums: the check of Dutch BSN numbers finds every single wrong digit, and the Italian one is the
-- Luhn check.
use llm_proxy_pii_rust.Prelude.{
  ℕ, ◌+◌, ◌-◌, ◌*◌, ◌%◌, ◌<◌, ◌≡◌, ◌≢◌, refl, sym, ap, ◌∙◌, Bool, true, false, not, ◌&&◌, List, [],
  ◌∷◌, ◌++◌, inl, inr, arith, Bool-cases, Bytes, length, length-append, take, drop, All, nat_beq,
  if◌then◌else◌, ltb,
}
use llm_proxy_pii_rust.Text.{is_ascii_digit}
use llm_proxy_pii_rust.Checks.{digits_of, reversed, luhn_term, luhn_sum, is_empty_list, luhn_valid}
use llm_proxy_pii_rust.Checks.Luhn.{is_ascii_digit-range}
use llm_proxy_pii_rust.Checks.National.{
  weighted, with_length, bsn_check, nl_bsn_valid, piva_sum, it_piva_valid,
}
use llm_proxy_pii_rust.Checks.Digits.{Telling, one_wrong_digit}

weighted-append :
    (ws vs ds : List ℕ)
    → weighted (ws ++ vs) ds ≡ weighted ws (take (length ws) ds) + weighted vs (drop (length ws) ds)
unfolding weighted
weighted-append [] vs ds = omega arith
weighted-append (w ∷ ws) [] [] = refl
weighted-append (w ∷ ws) (x ∷ vs) [] = refl
weighted-append (w ∷ ws) vs (d ∷ ds) = let rest = weighted-append ws vs ds in omega arith

-- Multiples of the weight by different digits differ modulo 11.
Regular : ℕ → Type 0
Regular w = (d e r : ℕ) → d < 10 → e < 10 → (d * w + r) % 11 ≡ 0 → (e * w + r) % 11 ≡ 0 → d ≡ e

weighted-at :
    (ws u v : List ℕ)
    → length u < length ws
    → All Regular ws
    → (w : ℕ) × (others : ℕ) × (Regular w) × ((d : ℕ) → weighted ws (u ++ d ∷ v) ≡ d * w + others)
unfolding weighted
weighted-at [] u v h g = absurd (omega arith)
weighted-at (w ∷ ws) [] v h g = (w, weighted ws v, g.0, λ d. refl)
weighted-at (w ∷ ws) (x ∷ u) v h g =
    let (at, others, regular, sums) = weighted-at ws u v (omega arith) g.1 in
    (at, x * w + others, regular, λ d. let sum = sums d in omega arith)

abbrev bsn_weights : List ℕ
bsn_weights = 9 ∷ 8 ∷ 7 ∷ 6 ∷ 5 ∷ 4 ∷ 3 ∷ 2 ∷ []

bsn_weights-Regular : All Regular (9 ∷ 8 ∷ 7 ∷ 6 ∷ 5 ∷ 4 ∷ 3 ∷ 2 ∷ 10 ∷ [])
unfolding Regular
bsn_weights-Regular = (
  λ d e r a b h k. omega arith,
  (
    λ d e r a b h k. omega arith,
    (
      λ d e r a b h k. omega arith,
      (
        λ d e r a b h k. omega arith,
        (
          λ d e r a b h k. omega arith,
          (
            λ d e r a b h k. omega arith,
            (
              λ d e r a b h k. omega arith,
              (λ d e r a b h k. omega arith, (λ d e r a b h k. omega arith, tt)),
            ),
          ),
        ),
      ),
    ),
  ),
)

last_weight : (ds : List ℕ) → weighted (10 ∷ []) ds ≡ 10 * weighted (1 ∷ []) ds
unfolding weighted
last_weight [] = refl
last_weight (d ∷ []) = omega arith
last_weight (d ∷ e ∷ ds) = omega arith

-- The last digit with the weight 10 in place of -1.
bsn_check-sum :
    (ds : List ℕ)
    → bsn_check ds ≡ true
    → weighted (9 ∷ 8 ∷ 7 ∷ 6 ∷ 5 ∷ 4 ∷ 3 ∷ 2 ∷ 10 ∷ []) ds % 11 ≡ 0
unfolding bsn_check
bsn_check-sum ds h =
    let whole = weighted-append bsn_weights (10 ∷ []) ds in
    let last = last_weight (drop 8 ds) in
    let sum = weighted bsn_weights (take 8 ds) in
    let one = weighted (1 ∷ []) (drop 8 ds) in
    let same : sum % 11 ≡ one % 11 = ground arith in omega arith

bsn_check-Telling : Telling bsn_check 9
unfolding Telling Regular
bsn_check-Telling u v d e a b ne l h k =
    let sized = length-append u (d ∷ v) in
    let (w, others, regular, sums) =
      weighted-at (9 ∷ 8 ∷ 7 ∷ 6 ∷ 5 ∷ 4 ∷ 3 ∷ 2 ∷ 10 ∷ []) u v (omega arith) bsn_weights-Regular in
    ne (
      regular d e others a b (ap (λ (n : ℕ). n % 11) (sym (sums d)) ∙ bsn_check-sum (u ++ d ∷ v) h)
        (ap (λ (n : ℕ). n % 11) (sym (sums e)) ∙ bsn_check-sum (u ++ e ∷ v) k))

-- If a Dutch BSN number is valid, then no number that differs from it in exactly one digit is, whatever other
-- characters stand between the digits.
pub nl_bsn_valid-one_wrong_digit :
    (before after : Bytes) (c wrong : ℕ)
    → is_ascii_digit c ≡ true
    → is_ascii_digit wrong ≡ true
    → c ≢ wrong
    → nl_bsn_valid (before ++ c ∷ after) ≡ true
    → nl_bsn_valid (before ++ wrong ∷ after) ≡ false
unfolding nl_bsn_valid
nl_bsn_valid-one_wrong_digit before after c wrong h k ne valid =
    one_wrong_digit bsn_check 9 before after c wrong bsn_check-Telling h k ne valid

digits_of-small : (s : Bytes) → All (λ d. d < 10) (digits_of s)
unfolding digits_of
digits_of-small [] = tt
digits_of-small (c ∷ s) = elim (Bool-cases (is_ascii_digit c)) [
  | inl e ↦ let low = is_ascii_digit-range c e in rw (e, digits_of) (omega arith, digits_of-small s)
  | inr e ↦ rw (e, digits_of) (digits_of-small s)
]

piva : List ℕ → Bool
unfolding piva_sum weighted
piva d = nat_beq ((10 - piva_sum (take 10 d) % 10) % 10) (weighted (1 ∷ []) (drop 10 d))

luhn : List ℕ → Bool
unfolding reversed luhn_sum is_empty_list
luhn d = not (is_empty_list d) && nat_beq (luhn_sum false (reversed d) % 10) 0

check_digit : (s k : ℕ) → k < 10 → nat_beq ((10 - s % 10) % 10) k ≡ nat_beq ((k + s) % 10) 0
check_digit s k h = ground arith

unit : (k : ℕ) → k * 1 + 0 ≡ k
unit k = omega arith

turned :
    (a b c d e f g h i j k : ℕ)
    → k + (a + b + (c + d + (e + f + (g + h + (i + j + 0)))))
      ≡ k + (j + (i + (h + (g + (f + (e + (d + (c + (b + (a + 0))))))))))
turned a b c d e f g h i j k = omega arith

piva-luhn : (d : List ℕ) → length d ≡ 11 → All (λ x. x < 10) d → piva d ≡ luhn d
unfolding piva luhn piva_sum weighted reversed luhn_sum luhn_term is_empty_list
piva-luhn [] sized small = absurd (omega arith)
piva-luhn (a ∷ []) sized small = absurd (omega arith)
piva-luhn (a ∷ b ∷ []) sized small = absurd (omega arith)
piva-luhn (a ∷ b ∷ c ∷ []) sized small = absurd (omega arith)
piva-luhn (a ∷ b ∷ c ∷ d ∷ []) sized small = absurd (omega arith)
piva-luhn (a ∷ b ∷ c ∷ d ∷ e ∷ []) sized small = absurd (omega arith)
piva-luhn (a ∷ b ∷ c ∷ d ∷ e ∷ f ∷ []) sized small = absurd (omega arith)
piva-luhn (a ∷ b ∷ c ∷ d ∷ e ∷ f ∷ g ∷ []) sized small = absurd (omega arith)
piva-luhn (a ∷ b ∷ c ∷ d ∷ e ∷ f ∷ g ∷ h ∷ []) sized small = absurd (omega arith)
piva-luhn (a ∷ b ∷ c ∷ d ∷ e ∷ f ∷ g ∷ h ∷ i ∷ []) sized small = absurd (omega arith)
piva-luhn (a ∷ b ∷ c ∷ d ∷ e ∷ f ∷ g ∷ h ∷ i ∷ j ∷ []) sized small = absurd (omega arith)
piva-luhn (a ∷ b ∷ c ∷ d ∷ e ∷ f ∷ g ∷ h ∷ i ∷ j ∷ k ∷ x ∷ rest) sized small = absurd (omega arith)
piva-luhn (a ∷ b ∷ c ∷ d ∷ e ∷ f ∷ g ∷ h ∷ i ∷ j ∷ k ∷ []) sized small =
    let term : ℕ → ℕ = λ x. if ltb 9 (x * 2) then x * 2 - 9 else x * 2 in
    let sum = a + term b + (c + term d + (e + term f + (g + term h + (i + term j + 0)))) in
    ap (nat_beq ((10 - sum % 10) % 10)) (unit k)
    ∙ check_digit sum k (small.1.1.1.1.1.1.1.1.1.1.0)
    ∙ ap (λ (n : ℕ). nat_beq (n % 10) 0)
        (turned a (term b) c (term d) e (term f) g (term h) i (term j) k)

with_length-same :
    (d : List ℕ) (n : ℕ) (f g : List ℕ → Bool)
    → (length d ≡ n → f d ≡ g d)
    → with_length d n f ≡ with_length d n g
with_length-same d n f g h = elim (Bool-cases (nat_beq (length d) n)) [
  | inl e ↦ let sized : length d ≡ n = ground arith in rw e (h sized)
  | inr e ↦ rw e refl
]

-- The check of the Italian VAT number is the Luhn check, on a text with exactly eleven digits in it.
pub it_piva_valid-luhn_valid :
    (matched : Bytes)
    → it_piva_valid matched
      ≡ (if nat_beq (length (digits_of matched)) 11 then luhn_valid matched else false)
unfolding it_piva_valid luhn_valid piva luhn
it_piva_valid-luhn_valid matched =
    with_length-same (digits_of matched) 11 piva luhn
      (λ sized. piva-luhn (digits_of matched) sized (digits_of-small matched))
