-- ===== src/Detector/Examples.antt =====
-- Detectors that find, that fail, and that fail open.
use llm_proxy_pii_rust.Prelude.{◌≡◌, refl, [], ◌∷◌, Bytes, codes, All, Any, length, ◌≤◌, true, map}
use llm_proxy_pii_rust.Kind.{email, is_structured}
use llm_proxy_pii_rust.Entity.{
  PiiEntity, DetectError, ok, err, verified, unavailable, budget_refusal,
}
use llm_proxy_pii_rust.Budget.{new}
use llm_proxy_pii_rust.Overlap.{resolve_overlaps}
use llm_proxy_pii_rust.Overlap.Merge.{Covers}
use llm_proxy_pii_rust.Detector.{Detector, rescanning, composite, failing_open}
use llm_proxy_pii_rust.Detector.Laws.{Succeeded, composite-Succeeded, composite-failing_open}

abbrev input : Bytes
input = codes "b@x.it"

abbrev mail : PiiEntity
mail = record {
  kind = email;
  span = record { start = 0; end = 6 };
  text = codes "b@x.it";
  confidence = verified;
}

abbrev finding : Detector
finding = rescanning (λ s b. (ok (mail ∷ []), b))

-- A model that cannot run.
abbrev missing : Detector
missing = rescanning (λ s b. (err (unavailable (codes "onnx") (codes "no session")), b))

abbrev spent_out : DetectError
spent_out = budget_refusal (codes "phone") (codes "allowance")

-- A scan that ran out of its allowance.
abbrev refusing : Detector
refusing = rescanning (λ s b. (err spent_out, b))

found :
    ((composite (finding ∷ failing_open missing ∷ [])).try_detect input (new 5)).0
    ≡ ok (resolve_overlaps input (mail ∷ []))
unfolding composite failing_open rescanning unavailable
found = refl

composite-Succeeded_example :
    All
      (λ d.
        Succeeded input
          (λ c.
            is_structured c.kind ≡ true
            → c.end ≤ length input
            → Any (Covers c) (resolve_overlaps input (mail ∷ [])))
          d.try_detect)
      (finding ∷ failing_open missing ∷ [])
composite-Succeeded_example =
    composite-Succeeded input (finding ∷ failing_open missing ∷ []) (new 5)
      (resolve_overlaps input (mail ∷ [])) found

refused :
    ((composite (map failing_open (missing ∷ refusing ∷ []))).try_detect input (new 5)).0
    ≡ err spent_out
unfolding composite failing_open rescanning unavailable budget_refusal
refused = refl

composite-failing_open_example : spent_out.budget_exhausted ≡ true
composite-failing_open_example =
    composite-failing_open input (missing ∷ refusing ∷ []) (new 5) spent_out refused
