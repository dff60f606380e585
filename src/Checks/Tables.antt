-- ===== src/Checks/Tables.antt =====
-- The checks with slices and indexes never leave the text or the table.
use llm_proxy_pii_rust.Prelude.{
  ℕ, leb, zero, suc, ◌+◌, ◌-◌, ◌*◌, ◌%◌, ◌≤◌, ◌<◌, ◌≡◌, refl, inl, inr, Bool, true, false, not,
  List, [], ◌∷◌, Option, none, some, arith, Bool-cases, Option-cases, Bytes, length, get_elem?,
  take, length-take, nat_beq, if◌then◌else◌, codes,
}
use llm_proxy_pii_rust.Text.{is_ascii_digit, is_ascii_uppercase, to_upper, to_ascii_uppercase}
use llm_proxy_pii_rust.Checks.Letters.{
  front, equals_at, look_up, dni_check, cf_ends, cf_check, zh_ends, zh_check, dni_control,
  dni_number, es_dni_nie_valid, even_val, odd_table, Summed, total, unknown, panic, cf_sum,
  cf_check_valid, zh_weights, zh_sum, zh_resident_id_valid,
}

-- The check gives an answer.
abbrev pub Answers : Option Bool → Type 0
Answers o = (answer : Bool) × (o ≡ some answer)

get_elem?-inside : (l : List ℕ) (i : ℕ) → i < length l → (x : ℕ) × (get_elem? l i ≡ some x)
get_elem?-inside [] i h = absurd (omega arith)
get_elem?-inside (x ∷ l) zero h = (x, refl)
get_elem?-inside (x ∷ l) (suc i) h = get_elem?-inside l i (omega arith)

look_up-Answers : (table : Bytes) (i c : ℕ) → i < length table → Answers (look_up table i c)
unfolding look_up
look_up-Answers table i c h =
    let (x, e) = get_elem?-inside table i h in (nat_beq x c, rw (e, look_up) refl)

-- A slice that is as long as asked for.
front-inside : (n : ℕ) (l : List ℕ) → n ≤ length l → front n l ≡ some (take n l)
unfolding front
front-inside n l h = let enough : leb n (length l) ≡ true = ground arith in rw enough refl

equals_at-Answers : (l : List ℕ) (i expected : ℕ) → i < length l → Answers (equals_at l i expected)
unfolding equals_at
equals_at-Answers l i expected h =
    let (x, e) = get_elem?-inside l i h in (nat_beq expected x, rw (e, equals_at) refl)

-- A check behind a guard for the length.
guarded-Answers :
    (size n : ℕ) (check : Option Bool)
    → (size ≡ n → Answers check)
    → Answers (if not (nat_beq size n) then some false else check)
guarded-Answers size n check h = elim (Bool-cases (nat_beq size n)) [
  | inl e ↦ let same : size ≡ n = ground arith in rw e (h same)
  | inr e ↦ rw e (false, refl)
]

dni_number-Answers :
    (number : Option ℕ) (c : ℕ)
    → Answers (elim number [ some n ↦ look_up dni_control (n % 23) c | none ↦ some false ])
dni_number-Answers (some n) c = look_up-Answers dni_control (n % 23) c (omega arith)
dni_number-Answers none c = (false, refl)

dni_check-Answers : (bytes : Bytes) → length bytes ≡ 9 → Answers (dni_check bytes)
unfolding dni_check
dni_check-Answers bytes sized =
    let (c, e) = get_elem?-inside bytes 8 (omega arith) in
    rw (e, front-inside 8 bytes (omega arith), dni_check)
      (dni_number-Answers (dni_number (take 8 bytes)) c)

es_dni_nie_valid-Answers : (matched : Bytes) → Answers (es_dni_nie_valid matched)
unfolding es_dni_nie_valid
es_dni_nie_valid-Answers matched =
    let bytes = to_ascii_uppercase matched in
    guarded-Answers (length bytes) 9 (dni_check bytes) (dni_check-Answers bytes)

even_val-small : (c e : ℕ) → even_val c ≡ some e → e < 26
unfolding even_val is_ascii_digit is_ascii_uppercase
even_val-small c e h = ground arith

-- How a loop ends that never leaves its table.
Ends : Summed → Type 0
Ends panic = ⊥
Ends _ = Unit

cf_sum-Ends : (even_index : Bool) (sum : ℕ) (s : Bytes) → Ends (cf_sum even_index sum s)
unfolding cf_sum Ends
cf_sum-Ends even_index sum [] = tt
cf_sum-Ends even_index sum (c ∷ s) = elim (Option-cases (even_val c)) [
  | inl e ↦ rw (e, cf_sum) tt
  | inr (even, e) ↦
      let (odd, found) = get_elem?-inside odd_table even (even_val-small c even e) in
      rw (e, found, cf_sum)
        (cf_sum-Ends (not even_index) (sum + (if even_index then odd else even)) s)
]

zh_sum-Ends :
    (sum : ℕ) (weights s : List ℕ) → length s ≤ length weights → Ends (zh_sum sum weights s)
unfolding zh_sum Ends
zh_sum-Ends sum weights [] h = tt
zh_sum-Ends sum [] (c ∷ s) h = absurd (omega arith)
zh_sum-Ends sum (w ∷ weights) (c ∷ s) h = elim (Bool-cases (is_ascii_digit c)) [
  | inl e ↦ rw (e, zh_sum) (zh_sum-Ends (sum + (c - b'0') * w) weights s (omega arith))
  | inr e ↦ rw (e, zh_sum) tt
]

cf_ends-Answers :
    (bytes : Bytes) (end : Summed) → length bytes ≡ 16 → Ends end → Answers (cf_ends bytes end)
unfolding cf_ends Ends
cf_ends-Answers bytes (total sum) sized h =
    equals_at-Answers bytes 15 (b'A' + sum % 26) (omega arith)
cf_ends-Answers bytes unknown sized h = (false, refl)
cf_ends-Answers bytes panic sized h = absurd h

cf_check-Answers : (bytes : Bytes) → length bytes ≡ 16 → Answers (cf_check bytes)
unfolding cf_check
cf_check-Answers bytes sized =
    rw (front-inside 15 bytes (omega arith), cf_check)
      (cf_ends-Answers bytes (cf_sum true 0 (take 15 bytes)) sized
        (cf_sum-Ends true 0 (take 15 bytes)))

cf_check_valid-Answers : (matched : Bytes) → Answers (cf_check_valid matched)
unfolding cf_check_valid
cf_check_valid-Answers matched =
    let bytes = to_ascii_uppercase matched in
    guarded-Answers (length bytes) 16 (cf_check bytes) (cf_check-Answers bytes)

zh_ends-Answers :
    (chars : List ℕ) (end : Summed) → length chars ≡ 18 → Ends end → Answers (zh_ends chars end)
unfolding zh_ends Ends
zh_ends-Answers chars (total sum) sized h =
    let (c, e) = get_elem?-inside chars 17 (omega arith) in
    rw (e, zh_ends) (look_up-Answers (codes "10X98765432") (sum % 11) (to_upper c) (omega arith))
zh_ends-Answers chars unknown sized h = (false, refl)
zh_ends-Answers chars panic sized h = absurd h

zh_check-Answers : (chars : List ℕ) → length chars ≡ 18 → Answers (zh_check chars)
unfolding zh_check
zh_check-Answers chars sized =
    let short = length-take 17 chars in
    rw (front-inside 17 chars (omega arith), zh_check)
      (zh_ends-Answers chars (zh_sum 0 zh_weights (take 17 chars)) sized
        (zh_sum-Ends 0 zh_weights (take 17 chars) (omega arith)))

zh_resident_id_valid-Answers : (chars : List ℕ) → Answers (zh_resident_id_valid chars)
unfolding zh_resident_id_valid
zh_resident_id_valid-Answers chars =
    guarded-Answers (length chars) 18 (zh_check chars) (zh_check-Answers chars)

-- On every text, the Spanish, the Italian and the Chinese check find each slice and each index inside the text or
-- the table that it is taken of: they answer true or false, and never panic.
pub table_checks-Answers :
    (matched : Bytes)
    → Answers (es_dni_nie_valid matched)
      × (Answers (cf_check_valid matched) × Answers (zh_resident_id_valid matched))
table_checks-Answers matched = (
  es_dni_nie_valid-Answers matched,
  (cf_check_valid-Answers matched, zh_resident_id_valid-Answers matched),
)
