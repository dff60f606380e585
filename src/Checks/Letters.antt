-- ===== src/Checks/Letters.antt =====
-- src/pii/recognizers.rs: the checks of numbers with letters in them. Where the source slices or indexes and
-- would panic beyond the end, the answer is `none`. A text is the list of its bytes, except that
-- `zh_resident_id_valid` and `iban_length_ok` read the list of its characters.
use llm_proxy_pii_rust.Prelude.{
  ℕ, ◌+◌, ◌-◌, ◌*◌, ◌%◌, Bool, true, false, not, ◌&&◌, List, [], ◌∷◌, Option, none, some, nat_beq,
  if◌then◌else◌, leb, length, get_elem?, take, any, select, Bytes, bytes_beq, ◌==◌, bytes_eq, codes,
}
use llm_proxy_pii_rust.Text.{
  is_ascii_digit, is_ascii_uppercase, is_ascii_alphabetic, to_upper, to_ascii_uppercase,
}
use llm_proxy_pii_rust.Checks.{Chars, digits_of, is_whitespace}
use llm_proxy_pii_rust.Checks.National.{parsed}

-- `&l[..n]`, on which the source would panic if the list is shorter.
unfoldable pub front : ℕ → List ℕ → Option (List ℕ)
front n l = if leb n (length l) then some (take n l) else none

-- `expected == l[i]`
unfoldable pub equals_at : List ℕ → ℕ → ℕ → Option Bool
equals_at l i expected = elim (get_elem? l i) [ some c ↦ some (nat_beq expected c) | none ↦ none ]

-- `table[i] == c`
unfoldable pub look_up : Bytes → ℕ → ℕ → Option Bool
look_up table i c = elim (get_elem? table i) [
  | some expected ↦ some (nat_beq expected c)
  | none ↦ none
]

abbrev pub contains : ℕ → Bytes → Bool
contains c = any (λ x. nat_beq x c)

abbrev pub dni_control : Bytes
dni_control = codes "TRWAGMYFPDXBNJZSQVHLCKE"

-- The digit that the first letter of a NIE stands for.
unfoldable pub nie_digit : ℕ → Option ℕ
nie_digit c =
    if nat_beq c b'X'
    then some 0
    else if nat_beq c b'Y'
    then some 1
    else if nat_beq c b'Z'
    then some 2
    else none

abbrev pub all_ascii_digits : Bytes → Bool
all_ascii_digits s = not (any (λ b. not (is_ascii_digit b)) s)

-- The number that stands before the check letter, if it is one.
unfoldable pub dni_number : Bytes → Option ℕ
unfolding is_ascii_digit any nie_digit digits_of parsed
dni_number [] = none
dni_number (c ∷ cs) = elim (nie_digit c) [
  | some d ↦ if all_ascii_digits cs then some (parsed d (digits_of cs)) else none
  | none ↦ if all_ascii_digits (c ∷ cs) then some (parsed 0 (digits_of (c ∷ cs))) else none
]

-- What is read of the text once its length is known: the check letter, and the bytes before it.
unfoldable pub dni_check : Bytes → Option Bool
unfolding front dni_number look_up
dni_check bytes = elim (get_elem? bytes 8) [
  | none ↦ none
  | some check ↦ elim (front 8 bytes) [
    | none ↦ none
    | some body ↦ elim (dni_number body) [
      | some n ↦ look_up dni_control (n % 23) check
      | none ↦ some false
    ]
  ]
]

unfoldable pub es_dni_nie_valid : Bytes → Option Bool
unfolding to_ascii_uppercase dni_check
es_dni_nie_valid matched =
    let bytes = to_ascii_uppercase matched in
    if not (nat_beq (length bytes) 9) then some false else dni_check bytes

-- A digit or a capital letter as its even code.
unfoldable pub even_val : ℕ → Option ℕ
unfolding is_ascii_digit is_ascii_uppercase
even_val c =
    if is_ascii_digit c
    then some (c - b'0')
    else if is_ascii_uppercase c
    then some (c - b'A')
    else none

abbrev pub odd_table : List ℕ
odd_table =
    1 ∷ 0 ∷ 5 ∷ 7 ∷ 9 ∷ 13 ∷ 15 ∷ 17 ∷ 19 ∷ 21 ∷ 2 ∷ 4 ∷ 18 ∷ 20 ∷ 11 ∷ 3 ∷ 6 ∷ 8 ∷ 12 ∷ 14 ∷ 16
    ∷ 10 ∷ 22 ∷ 25 ∷ 24 ∷ 23 ∷ []

-- How the loop over the first fifteen characters ends: with the sum, on a character that is none of these,
-- or on an index that is not in the table.
pub data Summed : Type 0 where
  total : ℕ → Summed
  unknown panic : Summed

unfoldable pub cf_sum : Bool → ℕ → Bytes → Summed
unfolding even_val
cf_sum even_index sum [] = total sum
cf_sum even_index sum (c ∷ cs) = elim (even_val c) [
  | none ↦ unknown
  | some even ↦ elim (get_elem? odd_table even) [
    | some odd ↦ cf_sum (not even_index) (sum + (if even_index then odd else even)) cs
    | none ↦ if even_index then panic else cf_sum (not even_index) (sum + even) cs
  ]
]

-- The last character against the sum over the others.
unfoldable pub cf_ends : Bytes → Summed → Option Bool
unfolding equals_at
cf_ends bytes (total sum) = equals_at bytes 15 (b'A' + sum % 26)
cf_ends bytes unknown = some false
cf_ends bytes panic = none

unfoldable pub cf_check : Bytes → Option Bool
unfolding front cf_sum cf_ends
cf_check bytes = elim (front 15 bytes) [
  | some body ↦ cf_ends bytes (cf_sum true 0 body)
  | none ↦ none
]

unfoldable pub cf_check_valid : Bytes → Option Bool
unfolding to_ascii_uppercase cf_check
cf_check_valid matched =
    let bytes = to_ascii_uppercase matched in
    if not (nat_beq (length bytes) 16) then some false else cf_check bytes

abbrev pub zh_weights : List ℕ
zh_weights = 7 ∷ 9 ∷ 10 ∷ 5 ∷ 8 ∷ 4 ∷ 2 ∷ 1 ∷ 6 ∷ 3 ∷ 7 ∷ 9 ∷ 10 ∷ 5 ∷ 8 ∷ 4 ∷ 2 ∷ []

-- The loop over the first characters, one for each weight; a character that is no digit ends it.
unfoldable pub zh_sum : ℕ → List ℕ → Chars → Summed
unfolding is_ascii_digit
zh_sum sum weights [] = total sum
zh_sum sum [] (c ∷ cs) = if is_ascii_digit c then panic else unknown
zh_sum sum (w ∷ weights) (c ∷ cs) =
    let rest = zh_sum (sum + (c - b'0') * w) weights cs in
    if is_ascii_digit c then rest else unknown

-- The last character against the table: the table is read before it.
unfoldable pub zh_ends : Chars → Summed → Option Bool
unfolding look_up to_upper
zh_ends chars (total sum) = elim (get_elem? chars 17) [
  | some c ↦ look_up (codes "10X98765432") (sum % 11) (to_upper c)
  | none ↦ none
]
zh_ends chars unknown = some false
zh_ends chars panic = none

unfoldable pub zh_check : Chars → Option Bool
unfolding front zh_sum zh_ends
zh_check chars = elim (front 17 chars) [
  | some body ↦ zh_ends chars (zh_sum 0 zh_weights body)
  | none ↦ none
]

unfoldable pub zh_resident_id_valid : Chars → Option Bool
unfolding zh_check
zh_resident_id_valid chars = if not (nat_beq (length chars) 18) then some false else zh_check chars

unfoldable pub nino_pair : Bytes → Bool
unfolding any bytes_beq
nino_pair (first ∷ second ∷ rest) =
    not (contains first (codes "DFIQUV"))
    && not (contains second (codes "DFIOQUV"))
    && not (
        any (λ (pair : Bytes). pair == (first ∷ second ∷ []))
          (codes "BG"
            ∷ codes "GB"
            ∷ codes "KN"
            ∷ codes "NK"
            ∷ codes "NT"
            ∷ codes "TN"
            ∷ codes "ZZ"
            ∷ []))
nino_pair _ = false

unfoldable pub nino_prefix_valid : Bytes → Bool
unfolding nino_pair select is_ascii_alphabetic to_ascii_uppercase
nino_prefix_valid matched = nino_pair (to_ascii_uppercase (select is_ascii_alphabetic matched))

-- A row of the table of lengths.
abbrev pub country : Bytes → ℕ → Bytes × ℕ
country code len = (code, len)

abbrev pub country_lengths : List (Bytes × ℕ)
country_lengths =
    country (codes "AD") 24
    ∷ country (codes "AE") 23
    ∷ country (codes "AT") 20
    ∷ country (codes "BE") 16
    ∷ country (codes "BG") 22
    ∷ country (codes "CH") 21
    ∷ country (codes "CY") 28
    ∷ country (codes "CZ") 24
    ∷ country (codes "DE") 22
    ∷ country (codes "DK") 18
    ∷ country (codes "EE") 20
    ∷ country (codes "ES") 24
    ∷ country (codes "FI") 18
    ∷ country (codes "FR") 27
    ∷ country (codes "GB") 22
    ∷ country (codes "GR") 27
    ∷ country (codes "HR") 21
    ∷ country (codes "HU") 28
    ∷ country (codes "IE") 22
    ∷ country (codes "IS") 26
    ∷ country (codes "IT") 27
    ∷ country (codes "LI") 21
    ∷ country (codes "LT") 20
    ∷ country (codes "LU") 20
    ∷ country (codes "LV") 21
    ∷ country (codes "MC") 27
    ∷ country (codes "MT") 31
    ∷ country (codes "NL") 18
    ∷ country (codes "NO") 15
    ∷ country (codes "PL") 28
    ∷ country (codes "PT") 25
    ∷ country (codes "RO") 24
    ∷ country (codes "SE") 24
    ∷ country (codes "SI") 19
    ∷ country (codes "SK") 24
    ∷ country (codes "SM") 27
    ∷ []

unfoldable pub length_in : List (Bytes × ℕ) → Bytes → Option ℕ
unfolding bytes_beq
length_in [] cc = none
length_in ((code, len) ∷ rows) cc = if code == cc then some len else length_in rows cc

unfoldable pub iban_country_length : Bytes → Option ℕ
unfolding length_in
iban_country_length cc = length_in country_lengths cc

unfoldable pub iban_length_of : Chars → Bool
unfolding is_ascii_alphabetic to_upper iban_country_length
iban_length_of (a ∷ b ∷ rest) =
    if is_ascii_alphabetic a && is_ascii_alphabetic b
    then elim (iban_country_length (to_upper a ∷ to_upper b ∷ [])) [
      | some len ↦ nat_beq (2 + length rest) len
      | none ↦ true
    ]
    else true
iban_length_of _ = true

unfoldable pub iban_length_ok : Chars → Bool
unfolding select is_whitespace iban_length_of
iban_length_ok text = iban_length_of (select (λ c. not (is_whitespace c)) text)
