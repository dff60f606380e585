-- ===== src/Vault/Fixpoint.antt =====
-- src/pii/anonymizer.rs: `Vault::mask_all`, which detects and masks again until nothing is found.
-- The tallies that the source keeps for its log lines have no part in the result and are left out.
use llm_proxy_pii_rust.Prelude.{
  ℕ, zero, suc, Bool, true, false, not, ◌&&◌, List, [], ◌∷◌, none, some, length, select, nat_beq,
  Bytes, codes,
}
use llm_proxy_pii_rust.Kind.{from_label}
use llm_proxy_pii_rust.Entity.{PiiEntity, DetectError, unavailable, Outcome, ok, err}
use llm_proxy_pii_rust.Budget.{Budget}
use llm_proxy_pii_rust.Detector.{Detection, Detector}
use llm_proxy_pii_rust.White.{trim}
use llm_proxy_pii_rust.Placeholder.{match_token}
use llm_proxy_pii_rust.Vault.{Vault, mask}

-- Exactly one of our own tokens, white space around it aside. A match that does not begin at the
-- first byte does not count, so only the one that does is asked for.
unfoldable pub is_placeholder_token : Bytes → Bool
unfolding trim match_token from_label
is_placeholder_token text =
    let trimmed = trim text in
    elim (match_token trimmed) [
      | none ↦ false
      | some t ↦
          nat_beq t.size (length trimmed)
          && elim (from_label t.label) [ some kind ↦ true | none ↦ false ]
    ]

-- The detections that are not placeholders.
unfoldable pub keep_maskable : List PiiEntity → List PiiEntity
unfolding select is_placeholder_token
keep_maskable = select (λ e. not (is_placeholder_token e.text))

abbrev pub max_mask_passes : ℕ
max_mask_passes = 4

abbrev pub not_settled : DetectError
not_settled = unavailable (codes "vault") (codes "masking did not reach a fixpoint in 4 passes")

-- What a call leaves behind: an outcome, the vault and the allowance.
abbrev pub Masked : Type 0
Masked = Outcome DetectError Bytes × Vault × Budget

-- What a pass does with what was detected: a failure ends the loop, and so does a text in which
-- nothing is left to mask; `residue` goes on with what is.
unfoldable pub on_found :
    Vault
    → Bytes
    → (List PiiEntity → Budget → Masked)
    → Outcome DetectError (List PiiEntity) × Budget
    → Masked
unfolding keep_maskable
on_found v current residue (err e, b) = (err e, v, b)
on_found v current residue (ok raw, b) = elim (keep_maskable raw) [
  | [] ↦ (ok current, v, b)
  | e ∷ es ↦ residue (e ∷ es) b
]

-- The passes that are left, the first of which runs `detect` and the later ones `redetect`. After the
-- last of them the text is detected once more: it is clean, or the request fails closed.
unfoldable pub mask_passes : Detector → ℕ → Detection → Vault → Bytes → Budget → Masked
unfolding on_found mask
mask_passes detector zero detect v current b =
    on_found v current (λ es b'. (err not_settled, v, b')) (detector.redetect current b)
mask_passes detector (suc passes) detect v current b =
    on_found v current
      (λ es b'.
        let (v', next) = mask v current es in
        mask_passes detector passes detector.redetect v' next b')
      (detect current b)

unfoldable pub mask_all : Detector → Vault → Bytes → Budget → Masked
unfolding mask_passes
mask_all detector v text b = mask_passes detector max_mask_passes detector.try_detect v text b
