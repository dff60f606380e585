-- ===== src/Scan/Spans.antt =====
-- What is relied on of a pattern, and that a cut at a separator is a cut between characters.
use llm_proxy_pii_rust.Prelude.{
  ℕ, zero, suc, ◌+◌, ◌-◌, ◌≤◌, ◌<◌, ◌≡◌, refl, sym, ap, ◌∙◌, subst, inl, inr, true, false, List, [],
  ◌∷◌, some, nat_beq, length, length-take, length-drop, take, drop, get_or, any, Bytes, bytes_eq,
  bytes_beq, bytes_beq_iff, arith, Bool-cases, Option-cases, All,
}
use llm_proxy_pii_rust.Entity.{Span, IsSpanOf}
use llm_proxy_pii_rust.Text.{slice, is_char_boundary, is_continuation}
use llm_proxy_pii_rust.Scan.{Pattern, separators, begins_with_separator, last_separator, up_to}

-- What the scan relies on of the pattern: a match is a span of the input that begins at the position or
-- after it.
pub record IsPattern (p : Pattern) : Type 0 where
  pub matches :
      (input : Bytes) (at : ℕ) (s : Span)
      → p.find_at input at ≡ some s
      → (at ≤ s.start) × IsSpanOf input s

get_or-drop : (i j : ℕ) (s : Bytes) (d : ℕ) → get_or (drop i s) j d ≡ get_or s (i + j) d
get_or-drop zero j s d = ap (λ n. get_or s n d) (omega arith)
get_or-drop (suc i) j [] d = refl
get_or-drop (suc i) j (c ∷ s) d =
    get_or-drop i j s d ∙ ap (λ n. get_or (c ∷ s) n d) {x = suc (i + j)} (omega arith)

get_or-take : (n j : ℕ) (s : Bytes) (d : ℕ) → j < n → get_or (take n s) j d ≡ get_or s j d
get_or-take zero j s d h = absurd (omega arith)
get_or-take (suc n) j [] d h = refl
get_or-take (suc n) zero (c ∷ s) d h = refl
get_or-take (suc n) (suc j) (c ∷ s) d h = get_or-take n j s d (omega arith)

abbrev Starts : Bytes → Type 0
Starts [] = ⊥
Starts (b ∷ rest) = is_continuation b ≡ false

any-first :
    (seps : List Bytes) (c : ℕ) (s : Bytes)
    → All Starts seps
    → any (λ (sep : Bytes). bytes_beq (take (length sep) (c ∷ s)) sep) seps ≡ true
    → is_continuation c ≡ false
unfolding any
any-first [] c s g h = cc
any-first ([] ∷ seps) c s g h = absurd g.0
any-first ((b ∷ rest) ∷ seps) c s g h =
    elim (Bool-cases (bytes_beq (c ∷ take (length rest) s) (b ∷ rest))) [
      | inl e ↦
          let same = (bytes_beq_iff (c ∷ take (length rest) s) (b ∷ rest)).0 e in
          let first : b ≡ c = cc in subst (λ n. is_continuation n ≡ false) first g.0
      | inr e ↦ any-first seps c s g.1 (rw e at h)
    ]

separators-Starts : All Starts separators
unfolding is_continuation
separators-Starts = (
  refl,
  (
    refl,
    (
      refl,
      (
        refl,
        (
          refl,
          (
            refl,
            (
              refl,
              (
                refl,
                (
                  refl,
                  (
                    refl,
                    (
                      refl,
                      (
                        refl,
                        (
                          refl,
                          (
                            refl,
                            (
                              refl,
                              (refl, (refl, (refl, (refl, (refl, (refl, (refl, (refl, tt)))))))),
                            ),
                          ),
                        ),
                      ),
                    ),
                  ),
                ),
              ),
            ),
          ),
        ),
      ),
    ),
  ),
)

-- A separator begins with a byte that begins a character.
begins-first : (s : Bytes) → begins_with_separator s ≡ true → is_continuation (get_or s 0 0) ≡ false
unfolding begins_with_separator is_continuation
begins-first [] h = refl
begins-first (c ∷ s) h = any-first separators c s separators-Starts h

pub last_separator-first :
    (s : Bytes) (cut : ℕ)
    → last_separator s ≡ some cut
    → (cut < length s) × (is_continuation (get_or s cut 0) ≡ false)
unfolding last_separator
last_separator-first [] cut h = cc
last_separator-first (c ∷ s) cut h = elim (Option-cases (last_separator s)) [
  | inr (i, e) ↦
      let same : cut ≡ suc i = ground arith in
      let later = last_separator-first s i e in
      (omega arith, subst (λ n. is_continuation (get_or (c ∷ s) n 0) ≡ false) (sym same) later.1)
  | inl e ↦ elim (Bool-cases (begins_with_separator (c ∷ s))) [
    | inl b ↦
        let same : cut ≡ 0 = ground arith in
        (
          omega arith,
          subst (λ n. is_continuation (get_or (c ∷ s) n 0) ≡ false) (sym same)
              (begins-first (c ∷ s) b),
        )
    | inr b ↦ absurd (ground arith)
  ]
]

-- A cut at a separator inside a span leaves a span.
pub up_to-IsSpanOf :
    (input : Bytes) (span : Span) (cut : ℕ)
    → IsSpanOf input span
    → last_separator (slice input span.start span.end) ≡ some cut
    → nat_beq cut 0 ≡ false
    → IsSpanOf input (up_to span cut)
up_to-IsSpanOf input span cut i h positive =
    let (short, first) = last_separator-first (slice input span.start span.end) cut h in
    let taken = length-take (span.end - span.start) (drop span.start input) in
    let dropped = length-drop span.start input in
    let inside = i.inside in
    let low : cut < span.end - span.start = unfold slice in omega arith in
    let byte : get_or (slice input span.start span.end) cut 0 ≡ get_or input (span.start + cut) 0 =
      unfold slice in
      get_or-take (span.end - span.start) cut (drop span.start input) 0 low
      ∙ get_or-drop span.start cut input 0 in
    let begins : is_continuation (get_or input (span.start + cut) 0) ≡ false =
      subst (λ n. is_continuation n ≡ false) byte first in
    record {
      not_empty = ground arith;
      inside = omega arith;
      start_cut = i.start_cut;
      end_cut = unfold is_char_boundary in ground arith;
    }
