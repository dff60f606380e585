-- ===== src/Scan/Refusal.antt =====
-- An allowance that is used up stays used up, and the text is refused.
use llm_proxy_pii_rust.Prelude.{
  ℕ, zero, suc, ◌+◌, ◌≡◌, refl, sym, ap, ◌∙◌, subst, inl, inr, true, ◌||◌, List, [], ◌∷◌, ◌++◌,
  none, ltb, leb, length, Bytes, codes, Bool-cases, Option-cases,
}
use llm_proxy_pii_rust.Entity.{Span, err, budget_refusal}
use llm_proxy_pii_rust.Budget.{Budget, is_exhausted}
use llm_proxy_pii_rust.Scan.{Recognizer, Memory, judge, add_accepted, resume, stops, scan_from}
use llm_proxy_pii_rust.Scan.Detect.{
  push_candidates, all_candidates, refusal_text, structured_detect,
}

judge-unchecked :
    (rec : Recognizer) (input : Bytes) (found : Span) (m : Memory)
    → rec.validate ≡ none
    → (judge rec input found m).1 ≡ m
unfolding judge
judge-unchecked rec input found m e = rw (e, judge) refl

-- On an empty allowance a recognizer with a check stops, and one without a check charges nothing.
scan_from-idle :
    (rec : Recognizer) (input : Bytes) (n at : ℕ) (runs : List Span) (m : Memory)
    → is_exhausted m.budget ≡ true
    → (scan_from rec input n at runs m).1 ≡ m
unfolding scan_from
scan_from-idle rec input zero at runs m h = refl
scan_from-idle rec input (suc n) at runs m h = elim (Option-cases rec.validate) [
  | inr (check, v) ↦
      let halt : stops rec m ≡ true = unfold stops in rw (h, v) refl in
      elim (Bool-cases (ltb (length input) at)) [
        | inl e ↦ rw (e, scan_from) refl
        | inr e ↦ rw (e, halt, scan_from) refl
      ]
  | inl v ↦ elim (Bool-cases (ltb (length input) at || stops rec m)) [
    | inl e ↦ rw (e, scan_from) refl
    | inr e ↦ elim (Option-cases (rec.pattern.find_at input at)) [
      | inl f ↦ rw (e, f, scan_from) refl
      | inr (found, f) ↦
          let same = judge-unchecked rec input found m v in
          elim (Bool-cases (leb (resume rec.scan input found) at)) [
            | inl l ↦ rw (e, f, l, scan_from) same
            | inr l ↦
                rw (e, f, l, scan_from)
                  (scan_from-idle rec input n (resume rec.scan input found)
                      (add_accepted runs (judge rec input found m).0) (judge rec input found m).1
                      (subst (λ (x : Memory). is_exhausted x.budget ≡ true) (sym same) h)
                    ∙ same)
          ]
    ]
  ]
]

push_candidates-idle :
    (rec : Recognizer) (input : Bytes) (b : Budget)
    → is_exhausted b ≡ true
    → (push_candidates rec input b).1 ≡ b
unfolding push_candidates
push_candidates-idle rec input b h =
    ap (λ (m : Memory). m.budget)
      (scan_from-idle rec input (length input + 2) 0 [] (record { memo = []; budget = b }) h)

all_candidates-idle :
    (recs : List Recognizer) (input : Bytes) (b : Budget)
    → is_exhausted b ≡ true
    → (all_candidates recs input b).1 ≡ b
unfolding all_candidates
all_candidates-idle [] input b h = refl
all_candidates-idle (rec ∷ recs) input b h =
    let same = push_candidates-idle rec input b h in
    all_candidates-idle recs input (push_candidates rec input b).1
      (subst (λ x. is_exhausted x ≡ true) (sym same) h)
    ∙ same

all_candidates-append :
    (first second : List Recognizer) (input : Bytes) (b : Budget)
    → (all_candidates (first ++ second) input b).1
      ≡ (all_candidates second input (all_candidates first input b).1).1
unfolding all_candidates
all_candidates-append [] second input b = refl
all_candidates-append (rec ∷ first) second input b =
    all_candidates-append first second input (push_candidates rec input b).1

-- If the allowance is used up after the first of the recognizers, whichever they are, then the text is refused
-- with the error that no fail-open wrapper swallows, whatever the other recognizers are and find; a text of a
-- request whose allowance is used up already is refused likewise.
pub structured_detect-refuses :
    (first second : List Recognizer) (input : Bytes) (b : Budget)
    → is_exhausted (all_candidates first input b).1 ≡ true
    → structured_detect (first ++ second) input b ≡ (
      err (
          budget_refusal
            (codes "structured")
            (refusal_text input (all_candidates first input b).1)),
      (all_candidates first input b).1,
    )
unfolding structured_detect
structured_detect-refuses first second input b h =
    let left =
      all_candidates-append first second input b
      ∙ all_candidates-idle second input (all_candidates first input b).1 h in
    rw (left, h, structured_detect) refl
