-- ===== src/Detector/Laws.antt =====
-- What a composite answer says about its detectors, and which failures get through.
use llm_proxy_pii_rust.Prelude.{
  ◌≤◌, ◌≡◌, refl, sym, ◌∙◌, subst, ◌⊎◌, inl, inr, true, List, [], ◌∷◌, ◌++◌, map, arith, length,
  Bytes, All, Any, Bool-cases,
}
use llm_proxy_pii_rust.Prelude.Quantifiers.{append-All}
use llm_proxy_pii_rust.Kind.{is_structured}
use llm_proxy_pii_rust.Entity.{PiiEntity, DetectError, Outcome, ok, err}
use llm_proxy_pii_rust.Budget.{Budget}
use llm_proxy_pii_rust.Overlap.{resolve_overlaps}
use llm_proxy_pii_rust.Overlap.Merge.{Covers}
use llm_proxy_pii_rust.Overlap.Resolve.{resolve_overlaps-Covers}
use llm_proxy_pii_rust.Detector.{
  Detection, Detector, gather, resolved, try_detects, composite, fail_open, failing_open,
}

-- The detection ran on the input and succeeded, and all that it found has the property.
abbrev pub Succeeded : Bytes → (PiiEntity → Type 0) → Detection → Type 0
Succeeded input P d =
    (b : Budget) × (found : List PiiEntity) × ((d input b).0 ≡ ok found) × All P found

abbrev failure : DetectError → Outcome DetectError (List PiiEntity)
failure e = err e

Outcome-cases :
    (o : Outcome DetectError (List PiiEntity))
    → ((e : DetectError) × (o ≡ err e)) ⊎ ((es : List PiiEntity) × (o ≡ ok es))
Outcome-cases (err e) = inl (e, refl)
Outcome-cases (ok es) = inr (es, refl)

gather-Succeeded :
    (P : PiiEntity → Type 0) (input : Bytes) (ds : List Detection) (b : Budget)
    (es : List PiiEntity)
    → (gather ds input b).0 ≡ ok es
    → All P es
    → All (Succeeded input P) ds
unfolding gather
gather-Succeeded P input [] b es h p = tt
gather-Succeeded P input (d ∷ ds) b es h p = elim (Outcome-cases (d input b).0) [
  | inl (e, failed) ↦ absurd (let h' = rw (failed, gather) at h in cc)
  | inr (found, here) ↦ elim (Outcome-cases (gather ds input (d input b).1).0) [
    | inl (e, failed) ↦ absurd (let h' = rw (here, failed, gather) at h in cc)
    | inr (later, there) ↦
        let same : ok (found ++ later) ≡ ok es = rw (here, there, gather) at h in
        let all : found ++ later ≡ es = ground arith in
        let (p', q) = append-All P found later (subst (All P) (sym all) p) in
        ((b, found, here, p'), gather-Succeeded P input ds (d input b).1 later there q)
  ]
]

try_detects-Succeeded :
    (input : Bytes) (P : PiiEntity → Type 0) (ds : List Detector)
    → All (Succeeded input P) (try_detects ds)
    → All (λ d. Succeeded input P d.try_detect) ds
try_detects-Succeeded input P [] h = tt
try_detects-Succeeded input P (d ∷ ds) h = (h.0, try_detects-Succeeded input P ds h.1)

resolved-err :
    (input : Bytes) (r : Outcome DetectError (List PiiEntity) × Budget) (e : DetectError)
    → r.0 ≡ err e
    → (resolved input r).0 ≡ err e
unfolding resolved
resolved-err input (err e', b) e h = h
resolved-err input (ok found, b) e h = absurd (cc)

resolved-ok :
    (input : Bytes) (r : Outcome DetectError (List PiiEntity) × Budget) (found : List PiiEntity)
    → r.0 ≡ ok found
    → (resolved input r).0 ≡ ok (resolve_overlaps input found)
unfolding resolved
resolved-ok input (err e, b) found h = absurd (cc)
resolved-ok input (ok found', b) found h =
    let same : found' ≡ found = ground arith in
    subst
      (λ (l : List PiiEntity). (resolved input (ok found', b)).0 ≡ ok (resolve_overlaps input l))
      same refl

-- If a composite answers entities, then every one of its detectors ran on the input and succeeded, and
-- each structured entity inside the input that any of them found lies, with all its bytes, inside
-- one entity of the answer.
pub composite-Succeeded :
    (input : Bytes) (ds : List Detector) (b : Budget) (es : List PiiEntity)
    → ((composite ds).try_detect input b).0 ≡ ok es
    → All
        (λ d.
          Succeeded input
            (λ c. is_structured c.kind ≡ true → c.end ≤ length input → Any (Covers c) es)
            d.try_detect)
        ds
unfolding composite resolved
composite-Succeeded input ds b es h = elim (Outcome-cases (gather (try_detects ds) input b).0) [
  | inl (e, failed) ↦
      absurd (let bad = resolved-err input (gather (try_detects ds) input b) e failed in cc)
  | inr (found, ran) ↦ try_detects-Succeeded input _ ds (
      gather-Succeeded _ input (try_detects ds) b found ran (
        subst
          (λ (l : List PiiEntity).
            All (λ c. is_structured c.kind ≡ true → c.end ≤ length input → Any (Covers c) l) found)
          (let good = resolved-ok input (gather (try_detects ds) input b) found ran in ground arith)
          (resolve_overlaps-Covers input found)))
]

-- Every failure of the detection on this input is a refused allowance.
abbrev RefusesOnly : Bytes → Detection → Type 0
RefusesOnly input d =
    (b : Budget) (e : DetectError) → (d input b).0 ≡ err e → e.budget_exhausted ≡ true

fail_open-refusal :
    (o : Outcome DetectError (List PiiEntity)) (e : DetectError)
    → fail_open o ≡ err e
    → (o ≡ err e) × (e.budget_exhausted ≡ true)
unfolding fail_open
fail_open-refusal (ok found) e h = absurd (cc)
fail_open-refusal (err e') e h = elim (Bool-cases e'.budget_exhausted) [
  | inl refused ↦
      let same : failure e' ≡ err e = rw (refused, fail_open) at h in
      let eq : e' ≡ e = ground arith in
      (same, subst (λ (x : DetectError). x.budget_exhausted ≡ true) eq refused)
  | inr other ↦ absurd (let bad = rw (other, fail_open) at h in cc)
]

failing_open-RefusesOnly :
    (input : Bytes) (d : Detector) → RefusesOnly input (failing_open d).try_detect
unfolding failing_open
failing_open-RefusesOnly input d b e h = (fail_open-refusal (d.try_detect input b).0 e h).1

gather-RefusesOnly :
    (input : Bytes) (ds : List Detection)
    → All (RefusesOnly input) ds
    → RefusesOnly input (gather ds)
unfolding gather
gather-RefusesOnly input [] g b e h = absurd (cc)
gather-RefusesOnly input (d ∷ ds) g b e h = elim (Outcome-cases (d input b).0) [
  | inl (e', failed) ↦
      let same : failure e' ≡ err e = rw (failed, gather) at h in g.0 b e (failed ∙ same)
  | inr (found, here) ↦ elim (Outcome-cases (gather ds input (d input b).1).0) [
    | inl (e', failed) ↦
        let same : failure e' ≡ err e = rw (here, failed, gather) at h in
        gather-RefusesOnly input ds g.1 (d input b).1 e (failed ∙ same)
    | inr (later, there) ↦ absurd (let h' = rw (here, there, gather) at h in cc)
  ]
]

try_detects-failing_open :
    (input : Bytes) (ds : List Detector)
    → All (RefusesOnly input) (try_detects (map failing_open ds))
try_detects-failing_open input [] = tt
try_detects-failing_open input (d ∷ ds) =
    (failing_open-RefusesOnly input d, try_detects-failing_open input ds)

-- A composite of detectors that all fail open fails only with a refused allowance, whatever the failures
-- of the detectors are.
pub composite-failing_open :
    (input : Bytes) (ds : List Detector) (b : Budget) (e : DetectError)
    → ((composite (map failing_open ds)).try_detect input b).0 ≡ err e
    → e.budget_exhausted ≡ true
unfolding composite
composite-failing_open input ds b e h =
    elim (Outcome-cases (gather (try_detects (map failing_open ds)) input b).0) [
      | inl (e', failed) ↦
          let same =
            resolved-err input (gather (try_detects (map failing_open ds)) input b) e' failed in
          let eq : failure e' ≡ err e = sym same ∙ h in
          gather-RefusesOnly input (try_detects (map failing_open ds))
            (try_detects-failing_open input ds) b e (failed ∙ eq)
      | inr (found, ran) ↦ absurd (
          let bad =
            resolved-ok input (gather (try_detects (map failing_open ds)) input b) found ran in
          cc)
    ]
