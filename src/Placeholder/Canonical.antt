-- ===== src/Placeholder/Canonical.antt =====
-- The token that the proxy writes is found again wherever it stands, whole, and it determines the
-- kind and the number that it was made from.
use llm_proxy_pii_rust.Prelude.{
  ℕ, zero, suc, ◌+◌, ◌-◌, ◌*◌, ◌/◌, ◌%◌, ◌<◌, ◌≡◌, ◌≢◌, refl, sym, ap, ◌∙◌, true, [], ◌∷◌, ◌++◌,
  append_assoc, append-nil, some, arith, length, length-append, Bytes, All, ltb, Bool-cases, inl,
  inr,
}
use llm_proxy_pii_rust.Prelude.Quantifiers.{All-append}
use llm_proxy_pii_rust.Kind.{PiiKind, email, label, label-injective}
use llm_proxy_pii_rust.Text.{is_ascii_digit, is_ascii_alphabetic, to_ascii_uppercase}
use llm_proxy_pii_rust.Placeholder.{
  opened, separated, numbered, step, run, Token, match_token, is_separator, decimal_rounds, decimal,
  bracketed, placeholder, canonical, is_separator,
}

abbrev IsDigits : Bytes → Type 0
IsDigits = All (λ c. is_ascii_digit c ≡ true)

decimal_rounds-IsDigits : (r n : ℕ) → IsDigits (decimal_rounds r n)
unfolding decimal_rounds is_ascii_digit
decimal_rounds-IsDigits zero n = tt
decimal_rounds-IsDigits (suc r) n = elim (Bool-cases (ltb n 10)) [
  | inl e ↦ rw (e, decimal_rounds) (ground arith, tt)
  | inr e ↦
      rw (e, decimal_rounds)
        (All-append (λ c. is_ascii_digit c ≡ true) (decimal_rounds r (n / 10)) _
          (decimal_rounds-IsDigits r (n / 10)) (ground arith, tt))
]

-- The number that a run of digits stands for.
unfoldable pub value_from : ℕ → Bytes → ℕ
value_from acc [] = acc
value_from acc (c ∷ cs) = value_from (acc * 10 + (c - 48)) cs

value_from-append :
    (acc : ℕ) (xs ys : Bytes) → value_from acc (xs ++ ys) ≡ value_from (value_from acc xs) ys
unfolding value_from
value_from-append acc [] ys = refl
value_from-append acc (x ∷ xs) ys = value_from-append (acc * 10 + (x - 48)) xs ys

value_from-decimal_rounds : (r n : ℕ) → n < r → value_from 0 (decimal_rounds r n) ≡ n
unfolding decimal_rounds value_from
value_from-decimal_rounds zero n h = absurd (omega arith)
value_from-decimal_rounds (suc r) n h = elim (Bool-cases (ltb n 10)) [
  | inl e ↦ rw (e, decimal_rounds) (omega arith)
  | inr e ↦
      rw (e, decimal_rounds)
        (value_from-append 0 (decimal_rounds r (n / 10)) ((48 + n % 10) ∷ [])
          ∙ let ih = value_from-decimal_rounds r (n / 10) (ground arith) in rw ih (omega arith))
]

-- Printing and reading a number gives it back.
pub value_from-decimal : (n : ℕ) → value_from 0 (decimal n) ≡ n
unfolding decimal
value_from-decimal n = value_from-decimal_rounds (suc n) n (omega arith)

pub decimal-injective : (m n : ℕ) → decimal m ≡ decimal n → m ≡ n
decimal-injective m n h = sym (value_from-decimal m) ∙ ap (value_from 0) h ∙ value_from-decimal n

run-label :
    (k : PiiKind) (x : Bytes)
    → run (opened []) 1 (label k ++ b'_' ∷ x) ≡ run (separated (label k)) (length (label k) + 2) x
unfolding label run step is_separator is_ascii_alphabetic
run-label email x = refl
run-label _ x = refl

run-digit :
    (l d : Bytes) (n c : ℕ) (x : Bytes)
    → is_ascii_digit c ≡ true
    → run (numbered l d) n (c ∷ x) ≡ run (numbered l (d ++ c ∷ [])) (n + 1) x
unfolding run step
run-digit l d n c x h = rw (h, run)

run-first_digit :
    (l : Bytes) (n c : ℕ) (x : Bytes)
    → is_ascii_digit c ≡ true
    → run (separated l) n (c ∷ x) ≡ run (numbered l (c ∷ [])) (n + 1) x
unfolding run step is_separator is_ascii_digit
run-first_digit l n c x h = ground arith

run-digits :
    (ds l d : Bytes) (n m : ℕ) (x : Bytes)
    → IsDigits ds
    → m ≡ n + length ds
    → run (numbered l d) n (ds ++ x) ≡ run (numbered l (d ++ ds)) m x
run-digits [] l d n m x h e = let same : m ≡ n = omega arith in rw (same, append-nil)
run-digits (c ∷ cs) l d n m x h e =
    run-digit l d n c (cs ++ x) h.0
    ∙ run-digits cs l (d ++ c ∷ []) (n + 1) m x h.1 (omega arith)
    ∙ rw append_assoc

run-close :
    (l d x : Bytes) (n : ℕ)
    → run (numbered l d) n (b']' ∷ x) ≡ some (record { label = l; digits = d; size = n + 1 })
unfolding run step is_ascii_digit
run-close l d x n = refl

run-number :
    (ds l : Bytes) (n m : ℕ) (x : Bytes)
    → IsDigits ds
    → ds ≢ []
    → m ≡ n + length ds + 1
    → run (separated l) n (ds ++ b']' ∷ x) ≡ some (record { label = l; digits = ds; size = m })
run-number [] l n m x h ne e = absurd (ne refl)
run-number (c ∷ cs) l n m x h ne e =
    run-first_digit l n c (cs ++ b']' ∷ x) h.0
    ∙ run-digits cs l (c ∷ []) (n + 1) (n + 1 + length cs) (b']' ∷ x) h.1 refl
    ∙ run-close l (c ∷ cs) x (n + 1 + length cs)
    ∙ let same : n + 1 + length cs + 1 ≡ m = omega arith in rw same

decimal_pos : (n : ℕ) → 0 < length (decimal n)
unfolding decimal decimal_rounds
decimal_pos n = elim (Bool-cases (ltb n 10)) [
  | inl e ↦ rw (e, decimal, decimal_rounds) (omega arith)
  | inr e ↦
      rw (e, decimal, decimal_rounds)
        (omega (arith, length-append (decimal_rounds n (n / 10)) ((48 + n % 10) ∷ [])))
]

decimal-ne_nil : (n : ℕ) → decimal n ≢ []
decimal-ne_nil n h = let pos = decimal_pos n in omega (arith, ap length h)

-- The token as the pattern finds it.
abbrev pub token_of : PiiKind → ℕ → Token
token_of k n = record { label = label k; digits = decimal n; size = length (placeholder k n) }

length-placeholder :
    (k : PiiKind) (n : ℕ) → length (placeholder k n) ≡ length (label k) + 2 + length (decimal n) + 1
unfolding placeholder bracketed
length-placeholder k n = omega (
  arith,
  length-append (label k) (b'_' ∷ (decimal n ++ b']' ∷ [])),
  length-append (decimal n) (b']' ∷ []),
)

-- A placeholder is found whole, with any text behind it.
pub match_token-placeholder :
    (k : PiiKind) (n : ℕ) (x : Bytes) → match_token (placeholder k n ++ x) ≡ some (token_of k n)
unfolding match_token placeholder bracketed
match_token-placeholder k n x =
    ap (run (opened []) 1) (
      append_assoc (label k) (b'_' ∷ (decimal n ++ b']' ∷ [])) x
      ∙ ap (λ (y : Bytes). label k ++ b'_' ∷ y) (append_assoc (decimal n) (b']' ∷ []) x))
    ∙ run-label k (decimal n ++ b']' ∷ x)
    ∙ run-number (decimal n) (label k) (length (label k) + 2) (length (placeholder k n)) x
        (unfold decimal in decimal_rounds-IsDigits (suc n) n) (decimal-ne_nil n)
        (length-placeholder k n)

to_ascii_uppercase-label : (k : PiiKind) → to_ascii_uppercase (label k) ≡ label k
unfolding to_ascii_uppercase label
to_ascii_uppercase-label email = refl
to_ascii_uppercase-label _ = refl

-- The canonical form of a placeholder is the placeholder.
pub canonical-placeholder : (k : PiiKind) (n : ℕ) → canonical (token_of k n) ≡ placeholder k n
unfolding canonical placeholder
canonical-placeholder k n = rw (to_ascii_uppercase-label k)

-- Two placeholders are one only if their kinds and numbers are.
pub placeholder-injective :
    (k j : PiiKind) (n m : ℕ) → placeholder k n ≡ placeholder j m → (k ≡ j) × (n ≡ m)
placeholder-injective k j n m h = (
  label-injective k j (ap (λ (t : Token). t.label) same),
  decimal-injective n m (ap (λ (t : Token). t.digits) same),
)
  where
    same : token_of k n ≡ token_of j m
    same =
        let found : some (token_of k n) ≡ some (token_of j m) =
          sym (match_token-placeholder k n [])
          ∙ ap (λ (w : Bytes). match_token (w ++ [])) h
          ∙ match_token-placeholder j m [] in
        ground arith
