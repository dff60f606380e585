-- ===== src/Privacy/Forwarded.antt =====
-- src/pipeline/privacy.rs: what the privacy stage lets through to the upstream service.
use llm_proxy_pii_rust.Prelude.{
  ℕ, ◌≡◌, refl, sym, subst, ◌⊎◌, inl, inr, none, some, List, Bytes, Option-cases, Bool-cases, arith,
}
use llm_proxy_pii_rust.Entity.{DetectError, ok, err}
use llm_proxy_pii_rust.Budget.{new}
use llm_proxy_pii_rust.Detector.{Detector}
use llm_proxy_pii_rust.Vault.{Vault, is_empty}
use llm_proxy_pii_rust.Vault.Fixpoint.{Masked, mask_all}
use llm_proxy_pii_rust.Vault.Settled.{Clean, mask_all-Clean}
use llm_proxy_pii_rust.Stream.{WireSchema, open_ai, anthropic}
use llm_proxy_pii_rust.Json.{Value}
use llm_proxy_pii_rust.Privacy.{Walked}
use llm_proxy_pii_rust.Privacy.Augmentation.{augmentation_prompt, augmented}
use llm_proxy_pii_rust.Privacy.Stage.{
  RequestContext, block_request, Masking, keep_error, mask_text, error_text, walk_request, instruct,
  conclude, on_request,
}
use llm_proxy_pii_rust.Privacy.Paths.{
  Access, Covered, openai_paths, anthropic_paths, PlainTools, PlainNativeTools,
}
use llm_proxy_pii_rust.Privacy.Walks.{Blocked}
use llm_proxy_pii_rust.Privacy.Texts.{Promises}
use llm_proxy_pii_rust.Privacy.Requests.{mask_request-Covered}
use llm_proxy_pii_rust.Privacy.Reach.{mask_anthropic_request-Covered}
use llm_proxy_pii_rust.Privacy.Instructed.{Covered-imp, inject_augmentation-Covered}
use llm_proxy_pii_rust.Privacy.SystemPrompt.{inject_augmentation_anthropic-Covered}

-- A detector that failed while a text was masked.
abbrev Failed : Masking → Type 0
Failed m = (e : DetectError) × (m.error_slot ≡ some e)

-- The last detection that ran on the text left nothing to mask.
abbrev pub Cleared : Detector → Bytes → Type 0
Cleared detector t = Clean detector.redetect t ⊎ Clean detector.try_detect t

-- A text that was cleared, one with the instruction behind it, or the instruction.
abbrev pub Sendable : Detector → Bytes → Type 0
Sendable detector t =
    Cleared detector t
    ⊎ (((u : Bytes) × (Cleared detector u × (t ≡ augmented u))) ⊎ (t ≡ augmentation_prompt))

-- Where the texts of a body stand, by its schema.
abbrev pub paths_of : WireSchema → List Access
paths_of open_ai = openai_paths
paths_of anthropic = anthropic_paths

-- No schema of a tool has a description below a value that is itself under the key `description`.
abbrev pub PlainBody : WireSchema → Value → Type 0
PlainBody open_ai = PlainTools
PlainBody anthropic = PlainNativeTools

keep_error-stays :
    (t : Bytes) (m : Masking) (out : Masked) → Failed m → Failed (keep_error t m out).1
unfolding keep_error
keep_error-stays t m (ok masked, v, b) (e, h) = (e, h)
keep_error-stays t m (err e', v, b) (e, h) = (e, rw (h, keep_error) h)

keep_error-gives :
    (t : Bytes) (m : Masking) (out : Masked)
    → Failed (keep_error t m out).1 ⊎ (out.0 ≡ ok (keep_error t m out).0)
unfolding keep_error
keep_error-gives t m (ok masked, v, b) = inr refl
keep_error-gives t m (err e, v, b) = elim (Option-cases m.error_slot) [
  | inl h ↦ inl (e, rw (h, keep_error) refl)
  | inr (first, h) ↦ inl (first, rw (h, keep_error) h)
]

mask_text-Cleared :
    (detector : Detector) (t : Bytes) (m : Masking)
    → Failed (mask_text detector t m).1 ⊎ Cleared detector (mask_text detector t m).0
unfolding mask_text
mask_text-Cleared detector t m =
    elim (keep_error-gives t m (mask_all detector m.vault t m.budget)) [
      | inl failed ↦ inl failed
      | inr settled ↦
          let out = keep_error t m (mask_all detector m.vault t m.budget) in
          elim (mask_all-Clean detector m.vault t m.budget out.0 settled) [
            | inl clean ↦ inr (inl clean)
            | inr (same, clean) ↦ inr (inr (subst (Clean detector.try_detect) (sym same) clean))
          ]
    ]

mask_text_law : (detector : Detector) → Promises (mask_text detector) Failed (Cleared detector)
unfolding mask_text
mask_text_law detector = record {
  stays = λ t m failed. keep_error-stays t m (mask_all detector m.vault t m.budget) failed;
  gives = λ t m. mask_text-Cleared detector t m;
}

walk_request-Covered :
    (detector : Detector) (schema : WireSchema) (body : Value) (w : Walked Masking)
    → PlainBody schema body
    → Blocked Failed (walk_request detector schema body w).1
      ⊎ Covered (Cleared detector) (paths_of schema) (walk_request detector schema body w).0
unfolding walk_request
walk_request-Covered detector open_ai body w plain =
    mask_request-Covered (mask_text detector) Failed (Cleared detector) (mask_text_law detector)
      body w plain
walk_request-Covered detector anthropic body w plain =
    mask_anthropic_request-Covered (mask_text detector) Failed (Cleared detector)
      (mask_text_law detector) body w plain

instruct-Covered :
    (detector : Detector) (schema : WireSchema) (v : Vault) (body : Value)
    → Covered (Cleared detector) (paths_of schema) body
    → Covered (Sendable detector) (paths_of schema) (instruct schema v body)
unfolding instruct
instruct-Covered detector open_ai v body h = elim (Bool-cases (is_empty v)) [
  | inl e ↦
      rw e (Covered-imp (Cleared detector) (Sendable detector) (λ t c. inl c) openai_paths body h)
  | inr e ↦ rw e (
      inject_augmentation-Covered (Cleared detector) (Sendable detector) (λ t c. inl c)
        (λ t c. inr (inl (t, (c, refl)))) (inr (inr refl)) body h)
]
instruct-Covered detector anthropic v body h = elim (Bool-cases (is_empty v)) [
  | inl e ↦
      rw e
        (Covered-imp (Cleared detector) (Sendable detector) (λ t c. inl c) anthropic_paths body h)
  | inr e ↦ rw e (
      inject_augmentation_anthropic-Covered (Cleared detector) (Sendable detector) (λ t c. inl c)
        (λ t c. inr (inl (t, (c, refl)))) (inr (inr refl)) body h)
]

block_request-blocks :
    (reason : Bytes) (ctx : RequestContext) → ((block_request reason ctx).block ≡ none) → ⊥
unfolding block_request
block_request-blocks reason ctx h = elim (Option-cases ctx.block) [
  | inl e ↦ ground arith
  | inr (first, e) ↦ ground arith
]

-- What is left of a walk when nothing blocks the request.
pub conclude-forwards :
    (ctx : RequestContext) (body : Value) (w : Walked Masking)
    → (conclude ctx body w).1.block ≡ none
    → (w.state.error_slot ≡ none)
      × ((w.refusal ≡ none) × ((conclude ctx body w).0 ≡ instruct ctx.schema w.state.vault body))
unfolding conclude
conclude-forwards ctx body w h = elim (Option-cases w.state.error_slot) [
  | inr (e, failed) ↦ absurd (
      block_request-blocks (error_text e) (record ctx { vault = w.state.vault })
        (rw (failed, conclude) at h))
  | inl fine ↦ elim (Option-cases w.refusal) [
    | inr (reason, refused) ↦ absurd (
        block_request-blocks reason (record ctx { vault = w.state.vault })
          (rw (fine, refused, conclude) at h))
    | inl known ↦ (fine, (known, rw (fine, known, conclude) refl))
  ]
]

conclude-unblocked :
    (ctx : RequestContext) (body : Value) (w : Walked Masking)
    → (conclude ctx body w).1.block ≡ none
    → Blocked Failed w
    → ⊥
conclude-unblocked ctx body w h (inl (e, failed)) =
    let fine = (conclude-forwards ctx body w h).0 in cc
conclude-unblocked ctx body w h (inr (reason, refused)) =
    let known = (conclude-forwards ctx body w h).1.0 in cc

-- When the request hook leaves the request unblocked, each text at each of the documented paths of the body
-- that it forwards, with every `description` at any depth of the tools' schemas, is one that the last
-- detection which ran found clean, such a text with the instruction behind it, or the instruction itself; for
-- either schema, any detector, and any body in whose tools' schemas no description stands below a value that
-- is itself under the key `description`.
pub on_request-Covered :
    (detector : Detector) (validation_budget : ℕ) (body : Value) (ctx : RequestContext)
    → (on_request detector validation_budget body ctx).1.block ≡ none
    → PlainBody ctx.schema body
    → Covered
        (Sendable detector)
        (paths_of ctx.schema)
        (on_request detector validation_budget body ctx).0
unfolding on_request
on_request-Covered detector n body ctx h plain =
    let start : Walked Masking = record {
      state = record { vault = ctx.vault; budget = new n; error_slot = none };
      refusal = none;
    } in
    let r = walk_request detector ctx.schema body start in
    elim (walk_request-Covered detector ctx.schema body start plain) [
      | inl blocked ↦ absurd (conclude-unblocked ctx r.0 r.1 h blocked)
      | inr covered ↦
          subst (Covered (Sendable detector) (paths_of ctx.schema))
            (sym (conclude-forwards ctx r.0 r.1 h).1.1)
            (instruct-Covered detector ctx.schema r.1.state.vault r.0 covered)
    ]
