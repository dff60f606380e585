-- ===== src/Checks/Examples.antt =====
-- Numbers that are in use as examples.
use llm_proxy_pii_rust.Prelude.{
  ℕ, ◌≡◌, ◌↔◌, ◌≤◌, ◌%◌, ◌++◌, refl, true, false, not, some, codes, if◌then◌else◌, arith, select,
  take, drop, length, nat_beq, bytes_beq,
}
use llm_proxy_pii_rust.Text.{is_ascii_digit}
use llm_proxy_pii_rust.Checks.{Chars, is_whitespace, luhn_valid, iban_mod97}
use llm_proxy_pii_rust.Checks.{digits_of}
use llm_proxy_pii_rust.Checks.National.{
  nl_bsn_valid, pt_nif_valid, de_vat_valid, de_steuerid_valid, it_piva_valid, gb_vat_valid,
  fr_nir_valid, lv_code_valid,
}
use llm_proxy_pii_rust.Checks.Letters.{
  es_dni_nie_valid, cf_check_valid, zh_resident_id_valid, nino_prefix_valid, iban_length_ok,
}
use llm_proxy_pii_rust.Checks.Digits.{de_vat_valid-one_wrong_digit}
use llm_proxy_pii_rust.Checks.Weights.{nl_bsn_valid-one_wrong_digit, it_piva_valid-luhn_valid}
use llm_proxy_pii_rust.Checks.Tables.{Answers, table_checks-Answers}
use llm_proxy_pii_rust.Checks.Luhn.{luhn_valid-one_wrong_digit}
use llm_proxy_pii_rust.Checks.Iban.{numeral, iban_mod97-numeral}

card : luhn_valid (codes "4111-1111-1111-1111") ≡ true
unfolding luhn_valid
card = refl

four : is_ascii_digit b'4' ≡ true
unfolding is_ascii_digit
four = refl

seven : is_ascii_digit b'7' ≡ true
unfolding is_ascii_digit
seven = refl

luhn_valid-one_wrong_digit_example : luhn_valid (codes "" ++ codes "7111-1111-1111-1111") ≡ false
luhn_valid-one_wrong_digit_example =
    luhn_valid-one_wrong_digit (codes "") (codes "111-1111-1111-1111") b'4' b'7' four seven
      (λ same. omega arith) card

abbrev account : Chars
account = codes "GB82 WEST 1234 5698 7654 32"

account_valid : iban_mod97 account ≡ true
unfolding iban_mod97
account_valid = refl

iban_mod97-numeral_example :
    let significant = select (λ c. not (is_whitespace c)) account in
    (iban_mod97 account ≡ true) ↔ (
      (4 ≤ length significant)
      × ((n : ℕ) × (numeral 0 (drop 4 significant ++ take 4 significant) ≡ some n) × (n % 97 ≡ 1)))
iban_mod97-numeral_example = iban_mod97-numeral account

-- The documented test vector of the German administration.
vat : de_vat_valid (codes "DE136695976") ≡ true
unfolding de_vat_valid
vat = refl

de_vat_valid-one_wrong_digit_example : de_vat_valid (codes "DE1366" ++ codes "45976") ≡ false
de_vat_valid-one_wrong_digit_example =
    de_vat_valid-one_wrong_digit (codes "DE1366") (codes "5976") b'9' b'4'
      (unfold is_ascii_digit in refl) four (λ same. omega arith) vat

bsn : nl_bsn_valid (codes "111222333") ≡ true
unfolding nl_bsn_valid
bsn = refl

nl_bsn_valid-one_wrong_digit_example : nl_bsn_valid (codes "11122233" ++ codes "7") ≡ false
nl_bsn_valid-one_wrong_digit_example =
    nl_bsn_valid-one_wrong_digit (codes "11122233") (codes "") b'3' b'7'
      (unfold is_ascii_digit in refl) seven (λ same. omega arith) bsn

piva : it_piva_valid (codes "IT00743110157") ≡ true
unfolding it_piva_valid
piva = refl

it_piva_valid-luhn_valid_example : it_piva_valid (codes "IT00743110157") ≡ (
    if nat_beq (length (digits_of (codes "IT00743110157"))) 11
    then luhn_valid (codes "IT00743110157")
    else false)
it_piva_valid-luhn_valid_example = it_piva_valid-luhn_valid (codes "IT00743110157")

table_checks-Answers_example :
    Answers (es_dni_nie_valid (codes "12345678Z"))
    × (Answers (cf_check_valid (codes "12345678Z"))
        × Answers (zh_resident_id_valid (codes "12345678Z")))
table_checks-Answers_example = table_checks-Answers (codes "12345678Z")

-- A DNI, a NIE, a codice fiscale, a resident identity card and a NINO.
dni : es_dni_nie_valid (codes "12345678Z") ≡ some true
unfolding es_dni_nie_valid
dni = refl

nie : es_dni_nie_valid (codes "X1234567L") ≡ some true
unfolding es_dni_nie_valid
nie = refl

codice : cf_check_valid (codes "RSSMRA85T10A562S") ≡ some true
unfolding cf_check_valid
codice = refl

resident : zh_resident_id_valid (codes "11010519491231002X") ≡ some true
unfolding zh_resident_id_valid
resident = refl

nino : nino_prefix_valid (codes "AB123456C") ≡ true
unfolding nino_prefix_valid bytes_beq
nino = refl

order_code : nino_prefix_valid (codes "PO123456A") ≡ false
unfolding nino_prefix_valid bytes_beq
order_code = refl

british_vat : gb_vat_valid (codes "GB123456782") ≡ true
unfolding gb_vat_valid
british_vat = refl

nir : fr_nir_valid (codes "255081416802538") ≡ true
unfolding fr_nir_valid
nir = refl

steuer : de_steuerid_valid (codes "86095742719") ≡ true
unfolding de_steuerid_valid
steuer = refl

nif : pt_nif_valid (codes "123456789") ≡ true
unfolding pt_nif_valid
nif = refl

latvian : lv_code_valid (codes "320000-00000") ≡ true
unfolding lv_code_valid
latvian = refl

short_iban : iban_length_ok (codes "GB82 WEST 1234") ≡ false
unfolding iban_length_ok bytes_beq
short_iban = refl
