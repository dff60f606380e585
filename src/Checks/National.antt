-- ===== src/Checks/National.antt =====
-- src/pii/recognizers.rs: the checksums of national numbers. A text is the list of its bytes here; a byte
-- of a character that is not ASCII is no ASCII digit and no ASCII letter.
use llm_proxy_pii_rust.Prelude.{
  ℕ, ◌+◌, ◌-◌, ◌*◌, ◌%◌, Bool, false, not, ◌&&◌, ◌||◌, List, [], ◌∷◌, leb, ltb, nat_beq,
  if◌then◌else◌, length, get_or, take, drop, any, select, Bytes,
}
use llm_proxy_pii_rust.Checks.{digits_of}

-- Σ dᵢ·wᵢ, over the shorter of the two.
unfoldable pub weighted : List ℕ → List ℕ → ℕ
weighted (w ∷ ws) (d ∷ ds) = d * w + weighted ws ds
weighted _ _ = 0

-- A check of digits, of which there must be a fixed number.
abbrev pub with_length : List ℕ → ℕ → (List ℕ → Bool) → Bool
with_length d n check = if nat_beq (length d) n then check d else false

-- The last digit has the weight -1, so the sum is the first eight less the last.
unfoldable pub bsn_check : List ℕ → Bool
unfolding weighted
bsn_check d =
    let sum = weighted (9 ∷ 8 ∷ 7 ∷ 6 ∷ 5 ∷ 4 ∷ 3 ∷ 2 ∷ []) (take 8 d) in
    let last = weighted (1 ∷ []) (drop 8 d) in
    not (nat_beq sum last) && nat_beq (sum % 11) (last % 11)

unfoldable pub nl_bsn_valid : Bytes → Bool
unfolding digits_of bsn_check
nl_bsn_valid matched = with_length (digits_of matched) 9 bsn_check

unfoldable pub nif_check : List ℕ → Bool
unfolding weighted
nif_check d =
    let r = weighted (9 ∷ 8 ∷ 7 ∷ 6 ∷ 5 ∷ 4 ∷ 3 ∷ 2 ∷ []) (take 8 d) % 11 in
    nat_beq (if ltb r 2 then 0 else 11 - r) (weighted (1 ∷ []) (drop 8 d))

unfoldable pub pt_nif_valid : Bytes → Bool
unfolding digits_of nif_check
pt_nif_valid matched = with_length (digits_of matched) 9 nif_check

unfoldable pub nine_digit_id_valid : Bytes → Bool
unfolding nl_bsn_valid pt_nif_valid
nine_digit_id_valid matched = nl_bsn_valid matched || pt_nif_valid matched

-- One round of ISO 7064 Mod 11,10.
unfoldable pub iso7064_step : ℕ → ℕ → ℕ
iso7064_step product x =
    let sum = (x + product) % 10 in ((if nat_beq sum 0 then 10 else sum) * 2) % 11

-- The rounds over all digits but the last, which is compared.
unfoldable pub iso7064_check : ℕ → List ℕ → Bool
unfolding iso7064_step
iso7064_check product [] = false
iso7064_check product (d ∷ []) = nat_beq ((11 - product) % 10) d
iso7064_check product (d ∷ e ∷ ds) = iso7064_check (iso7064_step product d) (e ∷ ds)

unfoldable pub de_vat_valid : Bytes → Bool
unfolding digits_of iso7064_check
de_vat_valid matched = with_length (digits_of matched) 9 (iso7064_check 10)

unfoldable pub count_of : ℕ → List ℕ → ℕ
count_of x [] = 0
count_of x (d ∷ ds) = let rest = count_of x ds in if nat_beq d x then rest + 1 else rest

-- `windows(3).any(|w| w == [x, x, x])`
unfoldable pub three_in_a_row : ℕ → List ℕ → Bool
three_in_a_row x (a ∷ b ∷ c ∷ ds) =
    (nat_beq a x && nat_beq b x && nat_beq c x) || three_in_a_row x (b ∷ c ∷ ds)
three_in_a_row x _ = false

abbrev pub all_digits : List ℕ
all_digits = 0 ∷ 1 ∷ 2 ∷ 3 ∷ 4 ∷ 5 ∷ 6 ∷ 7 ∷ 8 ∷ 9 ∷ []

-- Exactly one digit stands twice or three times among the first ten, and not three times in a row.
unfoldable pub steuerid_shape : List ℕ → Bool
unfolding count_of three_in_a_row select any
steuerid_shape body =
    nat_beq (length (select (λ x. leb 2 (count_of x body)) all_digits)) 1
    && not (any (λ x. leb 4 (count_of x body)) all_digits)
    && not (any (λ x. nat_beq (count_of x body) 3 && three_in_a_row x body) all_digits)

abbrev pub first_is_zero : List ℕ → Bool
first_is_zero (d ∷ ds) = nat_beq d 0
first_is_zero [] = false

unfoldable pub de_steuerid_valid : Bytes → Bool
unfolding digits_of steuerid_shape iso7064_check
de_steuerid_valid matched =
    with_length (digits_of matched) 11
      (λ d. not (first_is_zero d) && steuerid_shape (take 10 d) && iso7064_check 10 d)

-- `(1 - sum).rem_euclid(11).rem_euclid(10)`; the form that begins with 32 has no check digit.
unfoldable pub lv_check : List ℕ → Bool
unfolding weighted
lv_check d =
    let sum = weighted (1 ∷ 6 ∷ 3 ∷ 7 ∷ 9 ∷ 10 ∷ 5 ∷ 8 ∷ 4 ∷ 2 ∷ []) (take 10 d) in
    (nat_beq (get_or d 0 0) 3 && nat_beq (get_or d 1 0) 2)
    || nat_beq ((12 - sum % 11) % 11 % 10) (weighted (1 ∷ []) (drop 10 d))

unfoldable pub lv_code_valid : Bytes → Bool
unfolding digits_of lv_check
lv_code_valid matched = with_length (digits_of matched) 11 lv_check

unfoldable pub eleven_digit_id_valid : Bytes → Bool
unfolding de_steuerid_valid lv_code_valid
eleven_digit_id_valid matched = de_steuerid_valid matched || lv_code_valid matched

-- The terms at even and at odd indices.
unfoldable pub piva_sum : List ℕ → ℕ
piva_sum [] = 0
piva_sum (x ∷ []) = x
piva_sum (x ∷ y ∷ ds) = x + (if ltb 9 (y * 2) then y * 2 - 9 else y * 2) + piva_sum ds

unfoldable pub it_piva_valid : Bytes → Bool
unfolding digits_of piva_sum weighted
it_piva_valid matched =
    with_length (digits_of matched) 11
      (λ d. nat_beq ((10 - piva_sum (take 10 d) % 10) % 10) (weighted (1 ∷ []) (drop 10 d)))

-- `(97 - (sum + offset).rem_euclid(97)).rem_euclid(97)`
unfoldable pub gb_expect : ℕ → ℕ → ℕ
gb_expect sum offset = (97 - (sum + offset) % 97) % 97

unfoldable pub gb_vat_valid : Bytes → Bool
unfolding digits_of weighted gb_expect
gb_vat_valid matched = with_length (digits_of matched) 9 (λ d.
    let sum = weighted (8 ∷ 7 ∷ 6 ∷ 5 ∷ 4 ∷ 3 ∷ 2 ∷ []) (take 7 d) in
    let stated = weighted (10 ∷ 1 ∷ []) (drop 7 d) in
    nat_beq stated (gb_expect sum 0) || nat_beq stated (gb_expect sum 55))

-- `parse::<u64>` of digits, of which there are too few to overflow.
unfoldable pub parsed : ℕ → List ℕ → ℕ
parsed n [] = n
parsed n (d ∷ ds) = parsed (n * 10 + d) ds

unfoldable pub fr_nir_valid : Bytes → Bool
unfolding digits_of parsed
fr_nir_valid matched =
    with_length (digits_of matched) 15
      (λ d. nat_beq (97 - parsed 0 (take 13 d) % 97) (parsed 0 (drop 13 d)))
