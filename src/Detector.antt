-- ===== src/Detector.antt =====
-- src/pii/mod.rs and src/pii/composite.rs: the contract of a detector, several detectors run as one,
-- and the wrapper that goes on without a detector that failed.
pub mod Laws
mod Examples
use llm_proxy_pii_rust.Prelude.{ℕ, Bool, true, false, List, [], ◌∷◌, ◌++◌, Bytes}
use llm_proxy_pii_rust.Entity.{PiiEntity, DetectError, Outcome, ok, err}
use llm_proxy_pii_rust.Budget.{Budget}
use llm_proxy_pii_rust.Overlap.{resolve_overlaps}

-- What a detection on a text answers: an outcome, and the allowance that is left.
abbrev pub Detection : Type 0
Detection = Bytes → Budget → Outcome DetectError (List PiiEntity) × Budget

-- `dyn PiiDetector`: a pass over raw text, and a pass over text that was masked.
pub record Detector : Type 0 where
  pub try_detect : Detection
  pub redetect : Detection

-- `redetect` as the trait gives it: the same pass again.
unfoldable pub rescanning : Detection → Detector
rescanning d = record { try_detect = d; redetect = d }

-- The loop over the detectors, with what they found so far; `?` ends it at the first failure.
unfoldable pub gather : List Detection → Detection
gather [] input b = (ok [], b)
gather (d ∷ ds) input b =
    let (found, b') = d input b in
    let (more, b'') = gather ds input b' in
    elim found [
      | err e ↦ (err e, b')
      | ok es ↦ elim more [ err e ↦ (err e, b'') | ok later ↦ (ok (es ++ later), b'') ]
    ]

unfoldable pub resolved :
    Bytes
    → Outcome DetectError (List PiiEntity) × Budget
    → Outcome DetectError (List PiiEntity) × Budget
resolved input (err e, b) = (err e, b)
resolved input (ok found, b) = (ok (resolve_overlaps input found), b)

abbrev pub try_detects : List Detector → List Detection
try_detects [] = []
try_detects (d ∷ ds) = d.try_detect ∷ try_detects ds

abbrev pub redetects : List Detector → List Detection
redetects [] = []
redetects (d ∷ ds) = d.redetect ∷ redetects ds

-- `CompositeDetector`
unfoldable pub composite : List Detector → Detector
unfolding gather resolved
composite detectors = record {
  try_detect = λ input b. resolved input (gather (try_detects detectors) input b);
  redetect = λ input b. resolved input (gather (redetects detectors) input b);
}

-- `FailOpen::fail_open`: a refused allowance is passed on, any other failure counts as nothing found.
unfoldable pub fail_open :
    Outcome DetectError (List PiiEntity) → Outcome DetectError (List PiiEntity)
fail_open (ok found) = ok found
fail_open (err e) = elim e.budget_exhausted [ true ↦ err e | false ↦ ok [] ]

-- `FailOpen`
unfoldable pub failing_open : Detector → Detector
unfolding fail_open
failing_open d = record {
  try_detect = λ input b. let (out, b') = d.try_detect input b in (fail_open out, b');
  redetect = λ input b. let (out, b') = d.redetect input b in (fail_open out, b');
}
