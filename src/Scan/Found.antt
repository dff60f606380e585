-- ===== src/Scan/Found.antt =====
-- What the structured detection answers, with its overlaps resolved.
use llm_proxy_pii_rust.Prelude.{
  ◌+◌, ◌≡◌, refl, sym, subst, inl, inr, false, List, [], ◌∷◌, map, length, Bytes, arith, Bool-cases,
  All, codes,
}
use llm_proxy_pii_rust.Prelude.Quantifiers.{All-append}
use llm_proxy_pii_rust.Kind.{PiiKind}
use llm_proxy_pii_rust.Entity.{Span, PiiEntity, IsSpanOf, IsEntityOf, ok, err, budget_refusal}
use llm_proxy_pii_rust.Budget.{Budget, is_exhausted}
use llm_proxy_pii_rust.Overlap.{resolve_overlaps}
use llm_proxy_pii_rust.Overlap.Layout.{Ordered}
use llm_proxy_pii_rust.Overlap.Resolve.{resolve_overlaps-Ordered}
use llm_proxy_pii_rust.Scan.{Recognizer}
use llm_proxy_pii_rust.Scan.Spans.{IsPattern}
use llm_proxy_pii_rust.Scan.Runs.{scan_from-IsSpanOf}
use llm_proxy_pii_rust.Scan.Detect.{
  entity_of, push_candidates, all_candidates, refusal_text, structured_detect,
}

entity_of-IsEntityOf :
    (kind : PiiKind) (input : Bytes) (runs : List Span)
    → All (IsSpanOf input) runs
    → All (IsEntityOf input) (map (entity_of kind input) runs)
unfolding entity_of
entity_of-IsEntityOf kind input [] h = tt
entity_of-IsEntityOf kind input (s ∷ runs) h =
    (record { spans = h.0; carries = refl }, entity_of-IsEntityOf kind input runs h.1)

push_candidates-IsEntityOf :
    (rec : Recognizer) (input : Bytes) (b : Budget)
    → IsPattern rec.pattern
    → All (IsEntityOf input) (push_candidates rec input b).0
unfolding push_candidates
push_candidates-IsEntityOf rec input b p =
    entity_of-IsEntityOf rec.kind input _
      (scan_from-IsSpanOf input rec (length input + 2) 0 [] (record { memo = []; budget = b }) p tt)

abbrev pub AllPatterns : List Recognizer → Type 0
AllPatterns = All (λ rec. IsPattern rec.pattern)

all_candidates-IsEntityOf :
    (recs : List Recognizer) (input : Bytes) (b : Budget)
    → AllPatterns recs
    → All (IsEntityOf input) (all_candidates recs input b).0
unfolding all_candidates
all_candidates-IsEntityOf [] input b p = tt
all_candidates-IsEntityOf (rec ∷ recs) input b p =
    All-append (IsEntityOf input) (push_candidates rec input b).0 _
      (push_candidates-IsEntityOf rec input b p.0)
      (all_candidates-IsEntityOf recs input (push_candidates rec input b).1 p.1)

structured_detect-cases :
    (recs : List Recognizer) (input : Bytes) (b : Budget) (es : List PiiEntity)
    → (structured_detect recs input b).0 ≡ ok es
    → (is_exhausted (all_candidates recs input b).1 ≡ false)
      × (es ≡ resolve_overlaps input (all_candidates recs input b).0)
unfolding structured_detect
structured_detect-cases recs input b es h =
    elim (Bool-cases (is_exhausted (all_candidates recs input b).1)) [
      | inl e ↦ absurd (
          let h' : err (
                budget_refusal (codes "structured")
                  (refusal_text input (all_candidates recs input b).1))
              ≡ ok es =
            rw (e, structured_detect) at h in
          cc)
      | inr e ↦
          let h' : ok (resolve_overlaps input (all_candidates recs input b).0) ≡ ok es =
            rw (e, structured_detect) at h in
          (e, ground arith)
    ]

-- What the structured detection answers, with patterns that match non-empty pieces of the input cut between
-- characters, are well formed entities of the input in reading order, each beginning at or after the end of the
-- one before.
pub structured_detect-Ordered :
    (recs : List Recognizer) (input : Bytes) (b : Budget) (es : List PiiEntity)
    → AllPatterns recs
    → (structured_detect recs input b).0 ≡ ok es
    → All (IsEntityOf input) es × Ordered 0 es
structured_detect-Ordered recs input b es p h =
    subst (λ (l : List PiiEntity). All (IsEntityOf input) l × Ordered 0 l)
      (sym (structured_detect-cases recs input b es h).1)
      (resolve_overlaps-Ordered input (all_candidates recs input b).0
        (all_candidates-IsEntityOf recs input b p))
