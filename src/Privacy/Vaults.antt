-- ===== src/Privacy/Vaults.antt =====
-- src/pipeline/privacy.rs and src/pipeline/mod.rs: what the request hook does to the context of the request.
use llm_proxy_pii_rust.Prelude.{ℕ, ◌≡◌, refl, sym, subst, inl, inr, none, some, Bytes, Option-cases}
use llm_proxy_pii_rust.Entity.{ok, err}
use llm_proxy_pii_rust.Budget.{new}
use llm_proxy_pii_rust.Detector.{Detector}
use llm_proxy_pii_rust.Vault.{Vault}
use llm_proxy_pii_rust.Vault.Invariant.{IsVault, Extends, Extends-refl, Extends-trans}
use llm_proxy_pii_rust.Vault.Fixpoint.{Masked, mask_all}
use llm_proxy_pii_rust.Vault.Settled.{mask_all-Grows}
use llm_proxy_pii_rust.Stream.{WireSchema, open_ai, anthropic}
use llm_proxy_pii_rust.Json.{Value}
use llm_proxy_pii_rust.Privacy.{Walked}
use llm_proxy_pii_rust.Privacy.Stage.{
  RequestContext, block_request, Masking, keep_error, mask_text, error_text, walk_request, conclude,
  on_request,
}
use llm_proxy_pii_rust.Privacy.Walks.{Blocked}
use llm_proxy_pii_rust.Privacy.Texts.{Promises}
use llm_proxy_pii_rust.Privacy.Requests.{mask_request-Keeps}
use llm_proxy_pii_rust.Privacy.Native.{mask_anthropic_request-Keeps}
use llm_proxy_pii_rust.Privacy.Forwarded.{conclude-forwards}

module _ (start : Vault) where
  abbrev HasGrown : Masking → Type 0
  HasGrown m = IsVault m.vault × Extends start m.vault

  keep_error-vault : (t : Bytes) (m : Masking) (out : Masked) → (keep_error t m out).1.vault ≡ out.1
  unfolding keep_error
  keep_error-vault t m (ok masked, v, b) = refl
  keep_error-vault t m (err e, v, b) = elim (Option-cases m.error_slot) [
    | inl h ↦ rw (h, keep_error) refl
    | inr (first, h) ↦ rw (h, keep_error) refl
  ]

  mask_text-Grown :
      (detector : Detector) (t : Bytes) (m : Masking)
      → HasGrown m
      → HasGrown (mask_text detector t m).1
  unfolding mask_text
  mask_text-Grown detector t m (sound, extends) =
      let out = mask_all detector m.vault t m.budget in
      let grows = mask_all-Grows detector m.vault t m.budget sound in
      subst (λ v. IsVault v × Extends start v) (sym (keep_error-vault t m out))
        (grows.0, Extends-trans extends grows.1)

  grown_law : (detector : Detector) → Promises (mask_text detector) HasGrown (λ t. Unit {0})
  grown_law detector = record {
    stays = λ t m g. mask_text-Grown detector t m g;
    gives = λ t m. inr tt;
  }

  walk_request-Grown :
      (detector : Detector) (schema : WireSchema) (body : Value) (w : Walked Masking)
      → HasGrown w.state
      → Blocked HasGrown (walk_request detector schema body w).1
  unfolding walk_request
  walk_request-Grown detector open_ai body w g =
      mask_request-Keeps (mask_text detector) HasGrown (λ t. Unit {0}) (grown_law detector) body w
        (inl g)
  walk_request-Grown detector anthropic body w g =
      mask_anthropic_request-Keeps (mask_text detector) HasGrown (λ t. Unit {0})
        (grown_law detector) body w (inl g)

block_request-vault :
    (reason : Bytes) (ctx : RequestContext) → (block_request reason ctx).vault ≡ ctx.vault
unfolding block_request
block_request-vault reason ctx = elim (Option-cases ctx.block) [
  | inl e ↦ rw (e, block_request) refl
  | inr (first, e) ↦ rw (e, block_request) refl
]

conclude-vault :
    (ctx : RequestContext) (body : Value) (w : Walked Masking)
    → (conclude ctx body w).1.vault ≡ w.state.vault
unfolding conclude
conclude-vault ctx body w = elim (Option-cases w.state.error_slot) [
  | inr (e, failed) ↦
      rw (failed, conclude)
        (block_request-vault (error_text e) (record ctx { vault = w.state.vault }))
  | inl fine ↦ elim (Option-cases w.refusal) [
    | inr (reason, refused) ↦
        rw (fine, refused, conclude)
          (block_request-vault reason (record ctx { vault = w.state.vault }))
    | inl known ↦ rw (fine, known, conclude) refl
  ]
]

-- From a sound vault, a request that the request hook leaves unblocked has a sound vault afterwards, which
-- restores every placeholder of the vault before to the same value.
pub on_request-Grows :
    (detector : Detector) (validation_budget : ℕ) (body : Value) (ctx : RequestContext)
    → IsVault ctx.vault
    → (on_request detector validation_budget body ctx).1.block ≡ none
    → IsVault (on_request detector validation_budget body ctx).1.vault
      × Extends ctx.vault (on_request detector validation_budget body ctx).1.vault
unfolding on_request
on_request-Grows detector n body ctx sound h =
    let start : Walked Masking = record {
      state = record { vault = ctx.vault; budget = new n; error_slot = none };
      refusal = none;
    } in
    let r = walk_request detector ctx.schema body start in
    elim (walk_request-Grown ctx.vault detector ctx.schema body start
      (sound, Extends-refl ctx.vault)) [
        | inl grown ↦
            subst (λ v. IsVault v × Extends ctx.vault v) (sym (conclude-vault ctx r.0 r.1)) grown
        | inr (reason, refused) ↦ let known = (conclude-forwards ctx r.0 r.1 h).1.0 in absurd (cc)
      ]

block_request-first :
    (reason first : Bytes) (ctx : RequestContext)
    → ctx.block ≡ some first
    → (block_request reason ctx).block ≡ some first
unfolding block_request
block_request-first reason first ctx h = rw (h, block_request) h

-- A request that is blocked already stays blocked for the same reason, whatever the request hook finds.
pub on_request-blocked :
    (detector : Detector) (validation_budget : ℕ) (body : Value) (ctx : RequestContext)
    (first : Bytes)
    → ctx.block ≡ some first
    → (on_request detector validation_budget body ctx).1.block ≡ some first
unfolding on_request conclude
on_request-blocked detector n body ctx first h =
    let start : Walked Masking = record {
      state = record { vault = ctx.vault; budget = new n; error_slot = none };
      refusal = none;
    } in
    conclude-blocked (walk_request detector ctx.schema body start)
  where
    conclude-blocked : (r : Value × Walked Masking) → (conclude ctx r.0 r.1).1.block ≡ some first
    conclude-blocked r = elim (Option-cases r.1.state.error_slot) [
      | inr (e, failed) ↦
          rw (failed, conclude)
            (block_request-first (error_text e) first (record ctx { vault = r.1.state.vault }) h)
      | inl fine ↦ elim (Option-cases r.1.refusal) [
        | inr (reason, refused) ↦
            rw (fine, refused, conclude)
              (block_request-first reason first (record ctx { vault = r.1.state.vault }) h)
        | inl known ↦ rw (fine, known, conclude) h
      ]
    ]
