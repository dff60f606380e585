-- ===== src/Entity.antt =====
-- src/pii/mod.rs: a detected span, its confidence, and the error of a detector.
use llm_proxy_pii_rust.Prelude.{ℕ, ◌≡◌, ◌-◌, ◌≤◌, ◌<◌, true, Bytes, length, Bool, true, false}
use llm_proxy_pii_rust.Kind.{PiiKind}
use llm_proxy_pii_rust.Text.{slice, is_char_boundary}

pub data Confidence : Type 0 where
  verified structural : Confidence

-- `Range<usize>`: half open.
pub record Span : Type 0 where
  pub start : ℕ
  pub end : ℕ

-- `Range::len`
abbrev pub span_len : Span → ℕ
span_len s = s.end - s.start

pub record PiiEntity : Type 0 where
  pub kind : PiiKind
  pub span : Span
  pub open span use *
  pub text : Bytes
  pub confidence : Confidence

-- What a detector owes: a span that is not empty, inside the input, cut between characters.
pub record IsSpanOf (input : Bytes) (s : Span) : Type 0 where
  pub not_empty : s.start < s.end
  pub inside : s.end ≤ length input
  pub start_cut : is_char_boundary input s.start ≡ true
  pub end_cut : is_char_boundary input s.end ≡ true

-- The entity carries the bytes of its span.
pub record IsEntityOf (input : Bytes) (e : PiiEntity) : Type 0 where
  pub spans : IsSpanOf input e.span
  pub carries : e.text ≡ slice input e.start e.end

-- `DetectError`: why a detection did not happen.
pub record DetectError : Type 0 where
  pub detector : Bytes
  pub message : Bytes
  pub budget_exhausted : Bool

unfoldable pub unavailable : Bytes → Bytes → DetectError
unavailable detector message = record {
  detector = detector;
  message = message;
  budget_exhausted = false;
}

unfoldable pub budget_refusal : Bytes → Bytes → DetectError
budget_refusal detector message = record {
  detector = detector;
  message = message;
  budget_exhausted = true;
}

-- `Result<T, E>`
pub data Outcome {ℓ} (E A : Type ℓ) : Type ℓ where
  ok : A → Outcome E A
  err : E → Outcome E A
