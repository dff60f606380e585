-- ===== src/Checks.antt =====
-- src/pii/recognizers.rs: the checksums by which candidates are told from numbers of no meaning. A text
-- is the list of its characters, each as its number.
pub mod Luhn
pub mod Iban
pub mod National
pub mod Letters
pub mod Digits
pub mod Weights
pub mod Tables
mod Examples
use llm_proxy_pii_rust.Prelude.{
  ℕ, zero, suc, ◌+◌, ◌-◌, ◌*◌, ◌%◌, Bool, true, false, not, ◌&&◌, ◌||◌, List, [], ◌∷◌, ◌++◌, Option,
  none, some, ltb, leb, nat_beq, if◌then◌else◌, length, take, drop, select,
}
use llm_proxy_pii_rust.Text.{is_ascii_alphabetic, is_ascii_digit, to_upper}

abbrev pub Chars : Type 0
Chars = List ℕ

-- `char::is_whitespace`
unfoldable pub is_whitespace : ℕ → Bool
is_whitespace c =
    (leb 9 c && leb c 13)
    || nat_beq c 32
    || nat_beq c 0x85
    || nat_beq c 0xa0
    || nat_beq c 0x1680
    || (leb 0x2000 c && leb c 0x200a)
    || nat_beq c 0x2028
    || nat_beq c 0x2029
    || nat_beq c 0x202f
    || nat_beq c 0x205f
    || nat_beq c 0x3000

-- `filter_map(|c| c.to_digit(10))`
unfoldable pub digits_of : Chars → List ℕ
unfolding is_ascii_digit
digits_of [] = []
digits_of (c ∷ cs) = let rest = digits_of cs in if is_ascii_digit c then (c - b'0') ∷ rest else rest

unfoldable pub reversed : List ℕ → List ℕ
reversed [] = []
reversed (d ∷ ds) = reversed ds ++ d ∷ []

-- What one digit adds, at an even place from the end or at an odd one.
unfoldable pub luhn_term : Bool → ℕ → ℕ
luhn_term true d = let doubled = d * 2 in if ltb 9 doubled then doubled - 9 else doubled
luhn_term false d = d

-- The sum over the digits from the last one on; the flag is `i % 2 == 1`.
unfoldable pub luhn_sum : Bool → List ℕ → ℕ
unfolding luhn_term
luhn_sum odd [] = 0
luhn_sum odd (d ∷ ds) = luhn_term odd d + luhn_sum (not odd) ds

unfoldable pub is_empty_list : List ℕ → Bool
is_empty_list [] = true
is_empty_list _ = false

unfoldable pub luhn_valid : Chars → Bool
unfolding digits_of reversed luhn_sum is_empty_list
luhn_valid input =
    let digits = digits_of input in
    not (is_empty_list digits) && nat_beq (luhn_sum false (reversed digits) % 10) 0

unfoldable pub credit_card_valid : Chars → Bool
unfolding luhn_valid select is_ascii_digit
credit_card_valid matched =
    let digit_count = length (select is_ascii_digit matched) in
    leb 13 digit_count && leb digit_count 19 && luhn_valid matched

-- A digit as itself, a letter as 10 to 35, any other character as nothing.
unfoldable pub iban_value : ℕ → Option ℕ
unfolding is_ascii_digit is_ascii_alphabetic to_upper
iban_value c =
    if is_ascii_digit c
    then some (c - b'0')
    else if is_ascii_alphabetic c
    then some (to_upper c - b'A' + 10)
    else none

-- The loop over the characters, with the remainder so far; nothing if a character belongs to no IBAN.
unfoldable pub fold_all : ℕ → Chars → Option ℕ
unfolding iban_value
fold_all remainder [] = some remainder
fold_all remainder (c ∷ cs) = elim (iban_value c) [
  | some value ↦
      fold_all
        (if leb 10 value then (remainder * 100 + value) % 97 else (remainder * 10 + value) % 97) cs
  | none ↦ none
]

abbrev pub is_one : Option ℕ → Bool
is_one (some remainder) = nat_beq remainder 1
is_one none = false

unfoldable pub iban_mod97 : Chars → Bool
unfolding is_whitespace select fold_all
iban_mod97 iban =
    let significant = select (λ c. not (is_whitespace c)) iban in
    if ltb (length (take 4 significant)) 4
    then false
    else is_one (fold_all 0 (drop 4 significant ++ take 4 significant))
