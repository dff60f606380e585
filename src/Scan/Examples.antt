-- ===== src/Scan/Examples.antt =====
-- A scan with a pattern of one character.
use llm_proxy_pii_rust.Prelude.{
  ℕ, zero, suc, ◌+◌, ◌-◌, ◌≤◌, ◌≡◌, refl, inl, inr, subst, Bool, true, false, ◌&&◌, List, [], ◌∷◌,
  ◌++◌, Option, none, some, ltb, nat_beq, if◌then◌else◌, length, get_or, Bytes, bytes_beq, codes,
  arith, Bool-cases, All,
}
use llm_proxy_pii_rust.Prelude.Sort.{insert_by}
use llm_proxy_pii_rust.Kind.{secret}
use llm_proxy_pii_rust.Entity.{
  Span, PiiEntity, IsSpanOf, IsEntityOf, ok, err, verified, budget_refusal,
}
use llm_proxy_pii_rust.Text.{is_char_boundary}
use llm_proxy_pii_rust.Budget.{new, spend, is_exhausted}
use llm_proxy_pii_rust.Overlap.Layout.{Ordered}
use llm_proxy_pii_rust.Scan.{
  Pattern, Recognizer, Memory, overlapping, last_separator, next_char_boundary,
}
use llm_proxy_pii_rust.Scan.Spans.{IsPattern}
use llm_proxy_pii_rust.Scan.Detect.{
  free, chars, iban_case_gate, all_candidates, structured_detect, refusal_text,
}
use llm_proxy_pii_rust.Scan.Found.{structured_detect-Ordered}
use llm_proxy_pii_rust.Scan.Refusal.{structured_detect-refuses}

-- Whether an at-sign stands here, as a character of its own.
is_mark : Bytes → ℕ → Bool
unfolding is_char_boundary
is_mark s i =
    nat_beq (get_or s i 0) b'@'
    && ltb i (length s)
    && is_char_boundary s i
    && is_char_boundary s (i + 1)

abbrev mark_span : ℕ → Span
mark_span i = record { start = i; end = i + 1 }

search : Bytes → ℕ → ℕ → Option Span
unfolding is_mark
search s zero i = none
search s (suc n) i =
    let later = search s n (i + 1) in if is_mark s i then some (mark_span i) else later

abbrev marks : Pattern
marks = record { find_at = λ s at. search s (length s - at) at }

is_mark-IsSpanOf : (s : Bytes) (i : ℕ) → is_mark s i ≡ true → IsSpanOf s (mark_span i)
unfolding is_mark
is_mark-IsSpanOf s i h = record {
  not_empty = omega arith;
  inside = ground arith;
  start_cut = ground arith;
  end_cut = ground arith;
}

search-found :
    (s : Bytes) (n i : ℕ) (found : Span)
    → search s n i ≡ some found
    → (i ≤ found.start) × IsSpanOf s found
unfolding search
search-found s zero i found h = cc
search-found s (suc n) i found h = elim (Bool-cases (is_mark s i)) [
  | inl e ↦
      let h' : some (mark_span i) ≡ some found = rw (e, search) at h in
      let same : mark_span i ≡ found = cc in
      subst (λ (f : Span). (i ≤ f.start) × IsSpanOf s f) same (omega arith, is_mark-IsSpanOf s i e)
  | inr e ↦
      let rest = search-found s n (i + 1) found (rw (e, search) at h) in
      (let low = rest.0 in omega arith, rest.1)
]

marks-IsPattern : IsPattern marks
marks-IsPattern = record { matches = λ s at found h. search-found s (length s - at) at found h }

abbrev mark_recognizer : Recognizer
mark_recognizer = record {
  kind = secret;
  pattern = marks;
  validate = some (free (λ s. true));
  scan = overlapping;
  shrink_on_reject = false;
}

abbrev text : Bytes
text = codes "a@b @@"

abbrev marked : List PiiEntity
marked =
    record { kind = secret; span = mark_span 1; text = codes "@"; confidence = verified }
    ∷ record { kind = secret; span = mark_span 4; text = codes "@"; confidence = verified }
    ∷ record { kind = secret; span = mark_span 5; text = codes "@"; confidence = verified }
    ∷ []

found : (structured_detect (mark_recognizer ∷ []) text (new 100)).0 ≡ ok marked
unfolding structured_detect search insert_by bytes_beq new free
found = refl

structured_detect-Ordered_example : All (IsEntityOf text) marked × Ordered 0 marked
structured_detect-Ordered_example =
    structured_detect-Ordered (mark_recognizer ∷ []) text (new 100) marked (marks-IsPattern, tt)
      found

abbrev fresh : Memory
fresh = record { memo = []; budget = new 100 }

-- A recognizer whose check charges a unit for each match.
abbrev spender : Recognizer
spender = record mark_recognizer { validate = some (λ s b. (true, spend b)) }

used_up : is_exhausted (all_candidates (spender ∷ []) text (new 1)).1 ≡ true
unfolding all_candidates search bytes_beq new spend is_exhausted
used_up = refl

structured_detect-refuses_example :
    structured_detect ((spender ∷ []) ++ (mark_recognizer ∷ [])) text (new 1) ≡ (
      err (
          budget_refusal
            (codes "structured")
            (refusal_text text (all_candidates (spender ∷ []) text (new 1)).1)),
      (all_candidates (spender ∷ []) text (new 1)).1,
    )
structured_detect-refuses_example =
    structured_detect-refuses (spender ∷ []) (mark_recognizer ∷ []) text (new 1) used_up

cut : last_separator (codes "AB12 cafe") ≡ some 4
unfolding last_separator bytes_beq
cut = refl

-- A character of three bytes is stepped over whole.
stepped : next_char_boundary (codes "a" ++ (0xe2 ∷ 0x80 ∷ 0x94 ∷ b'b' ∷ [])) 1 ≡ 4
unfolding next_char_boundary
stepped = refl

decoded : chars (codes "a" ++ (0xe2 ∷ 0x80 ∷ 0x94 ∷ b'b' ∷ [])) ≡ 97 ∷ 0x2014 ∷ 98 ∷ []
unfolding chars
decoded = refl

gated : (iban_case_gate (codes "gb82WEST12345698765433") (new 10)).0 ≡ false
unfolding iban_case_gate bytes_beq
gated = refl
