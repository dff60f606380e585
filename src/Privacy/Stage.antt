-- ===== src/Privacy/Stage.antt =====
-- src/pipeline/privacy.rs and src/pipeline/mod.rs: the context of a request, and the two hooks of the
-- privacy stage.
use llm_proxy_pii_rust.Prelude.{ℕ, ◌++◌, Option, none, some, if◌then◌else◌, Bytes, codes}
use llm_proxy_pii_rust.Entity.{DetectError, ok, err}
use llm_proxy_pii_rust.Budget.{Budget, new}
use llm_proxy_pii_rust.Detector.{Detector}
use llm_proxy_pii_rust.Vault.{Vault, empty, is_empty}
use llm_proxy_pii_rust.Vault.Fixpoint.{Masked, mask_all}
use llm_proxy_pii_rust.Stream.{WireSchema, open_ai, anthropic}
use llm_proxy_pii_rust.Json.{Value}
use llm_proxy_pii_rust.Privacy.{Walked, mask_request}
use llm_proxy_pii_rust.Privacy.Anthropic.{mask_anthropic_request}
use llm_proxy_pii_rust.Privacy.Augmentation.{inject_augmentation, inject_augmentation_anthropic}

pub record RequestContext : Type 0 where
  pub vault : Vault
  pub schema : WireSchema
  pub block : Option Bytes

abbrev pub new_context : RequestContext
new_context = record { vault = empty; schema = open_ai; block = none }

-- The first reason stands.
unfoldable pub block_request : Bytes → RequestContext → RequestContext
block_request reason ctx = elim ctx.block [
  | some first ↦ ctx
  | none ↦ record ctx { block = some reason }
]

-- What the closure that masks a text changes: the vault, the allowance and the slot of the first error.
pub record Masking : Type 0 where
  pub vault : Vault
  pub budget : Budget
  pub error_slot : Option DetectError

-- An error is kept if it is the first, and the text stays as it is.
unfoldable pub keep_error : Bytes → Masking → Masked → Bytes × Masking
keep_error text m (ok masked, v, b) = (masked, record m { vault = v; budget = b })
keep_error text m (err e, v, b) = elim m.error_slot [
  | some first ↦ (text, record m { vault = v; budget = b })
  | none ↦ (text, record { vault = v; budget = b; error_slot = some e })
]

unfoldable pub mask_text : Detector → Bytes → Masking → Bytes × Masking
unfolding keep_error mask_all
mask_text detector text m = keep_error text m (mask_all detector m.vault text m.budget)

-- `DetectError::to_string`
unfoldable pub error_text : DetectError → Bytes
error_text e = e.detector ++ (codes " detector failed: " ++ e.message)

unfoldable pub walk_request :
    Detector → WireSchema → Value → Walked Masking → Value × Walked Masking
unfolding mask_text mask_request mask_anthropic_request
walk_request detector open_ai body w = mask_request (mask_text detector) body w
walk_request detector anthropic body w = mask_anthropic_request (mask_text detector) body w

-- Only a body in which something was masked takes the instruction.
unfoldable pub instruct : WireSchema → Vault → Value → Value
unfolding is_empty inject_augmentation inject_augmentation_anthropic
instruct open_ai v body = if is_empty v then body else inject_augmentation body
instruct anthropic v body = if is_empty v then body else inject_augmentation_anthropic body

-- What the walk left: an error of the detector blocks before a refused shape does.
unfoldable pub conclude : RequestContext → Value → Walked Masking → Value × RequestContext
unfolding block_request error_text instruct
conclude ctx body w = elim w.state.error_slot [
  | some e ↦ (body, block_request (error_text e) (record ctx { vault = w.state.vault }))
  | none ↦ elim w.refusal [
    | some reason ↦ (body, block_request reason (record ctx { vault = w.state.vault }))
    | none ↦ (instruct ctx.schema w.state.vault body, record ctx { vault = w.state.vault })
  ]
]

unfoldable pub on_request : Detector → ℕ → Value → RequestContext → Value × RequestContext
unfolding conclude walk_request
on_request detector validation_budget body ctx =
    let start : Walked Masking = record {
      state = record { vault = ctx.vault; budget = new validation_budget; error_slot = none };
      refusal = none;
    } in
    let (body', w) = walk_request detector ctx.schema body start in conclude ctx body' w
