-- ===== src/Checks/Iban.antt =====
-- The running remainder is the remainder of the whole numeral.
use llm_proxy_pii_rust.Prelude.{
  ℕ, ◌+◌, ◌-◌, ◌&&◌, ◌*◌, ◌%◌, ◌≤◌, ◌≡◌, ◌↔◌, refl, sym, ap, ◌∙◌, length-take, true, inl, inr, [],
  ◌∷◌, ◌++◌, Option, none, some, arith, leb, ltb, not, if◌then◌else◌, Bool-cases, Option-cases,
  select, take, drop, length,
}
use llm_proxy_pii_rust.Text.{
  is_ascii_digit, is_ascii_alphabetic, is_ascii_uppercase, is_ascii_lowercase, to_upper,
}
use llm_proxy_pii_rust.Checks.{Chars, is_whitespace, iban_value, fold_all, is_one, iban_mod97}

-- ISO 13616: the digits stand for themselves, the letters A to Z, in either case, for 10 to 35. The numbers are
-- those of the characters.
unfoldable pub iso_value : ℕ → Option ℕ
iso_value c =
    if leb 48 c && leb c 57
    then some (c - 48)
    else if leb 65 c && leb c 90
    then some (c - 65 + 10)
    else if leb 97 c && leb c 122
    then some (c - 97 + 10)
    else none

-- The numeral that ISO 13616 speaks of: a digit is written as one decimal place, a letter as two.
unfoldable pub numeral : ℕ → Chars → Option ℕ
unfolding iso_value
numeral front [] = some front
numeral front (c ∷ cs) = elim (iso_value c) [
  | some value ↦ numeral (front * (if leb 10 value then 100 else 10) + value) cs
  | none ↦ none
]

iban_value-iso_value : (c : ℕ) → iban_value c ≡ iso_value c
unfolding iban_value iso_value is_ascii_digit is_ascii_alphabetic is_ascii_uppercase
    is_ascii_lowercase to_upper
iban_value-iso_value c = ground arith

abbrev remainder_of : Option ℕ → Option ℕ
remainder_of (some n) = some (n % 97)
remainder_of none = none

step-remainder :
    (front value : ℕ)
    → (if leb 10 value then (front % 97 * 100 + value) % 97 else (front % 97 * 10 + value) % 97)
      ≡ (front * (if leb 10 value then 100 else 10) + value) % 97
step-remainder front value = elim (Bool-cases (leb 10 value)) [
  | inl e ↦ rw e (omega arith)
  | inr e ↦ rw e (omega arith)
]

fold_all-numeral :
    (front : ℕ) (cs : Chars) → fold_all (front % 97) cs ≡ remainder_of (numeral front cs)
unfolding fold_all numeral
fold_all-numeral front [] = refl
fold_all-numeral front (c ∷ cs) = elim (Option-cases (iso_value c)) [
  | inl e ↦ let coded = iban_value-iso_value c ∙ e in rw (coded, e, fold_all, numeral) refl
  | inr (value, e) ↦
      let coded = iban_value-iso_value c ∙ e in
      rw (coded, e, fold_all, numeral)
        (ap (λ (r : ℕ). fold_all r cs) (step-remainder front value)
          ∙ fold_all-numeral (front * (if leb 10 value then 100 else 10) + value) cs)
]

is_one-remainder_of :
    (o : Option ℕ) → (is_one (remainder_of o) ≡ true) ↔ ((n : ℕ) × (o ≡ some n) × (n % 97 ≡ 1))
is_one-remainder_of none = ((λ h. absurd (cc)), (λ h. let (n, e, r) = h in absurd (cc)))
is_one-remainder_of (some m) = (
  (λ h. (m, refl, ground arith)),
  (λ h. let (n, e, r) = h in let same : m ≡ n = ground arith in ground arith),
)

-- An IBAN passes exactly if it has four characters or more that are not white space, each of them, with
-- the first four put behind the others, is an ASCII digit or letter, and the decimal numeral that they
-- write, the letters A to Z of either case as the numbers 10 to 35, leaves the remainder 1 when it is divided by 97.
pub iban_mod97-numeral :
    (iban : Chars)
    → (let significant = select (λ c. not (is_whitespace c)) iban in
        (iban_mod97 iban ≡ true) ↔ (
          (4 ≤ length significant)
          × ((n : ℕ) × (numeral 0 (drop 4 significant ++ take 4 significant) ≡ some n)
              × (n % 97 ≡ 1))))
unfolding iban_mod97
iban_mod97-numeral iban =
    let significant = select (λ c. not (is_whitespace c)) iban in
    let rearranged = drop 4 significant ++ take 4 significant in
    let size = length-take 4 significant in
    let law = is_one-remainder_of (numeral 0 rearranged) in
    let folded : fold_all 0 rearranged ≡ remainder_of (numeral 0 rearranged) =
      fold_all-numeral 0 rearranged in
    elim (Bool-cases (ltb (length (take 4 significant)) 4)) [
      | inl e ↦ (
        (λ h. absurd (let bad = rw (e, iban_mod97) at h in cc)),
        (λ h. let enough = h.0 in absurd (ground (arith, size, e, enough))),
      )
      | inr e ↦
          let value : iban_mod97 iban ≡ is_one (remainder_of (numeral 0 rearranged)) =
            rw (e, iban_mod97) (ap is_one folded) in
          ((λ h. (ground (arith, size, e), law.0 (sym value ∙ h))), (λ h. value ∙ law.1 h.1))
    ]
