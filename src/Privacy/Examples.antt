-- ===== src/Privacy/Examples.antt =====
-- The privacy stage on concrete bodies.
use llm_proxy_pii_rust.Prelude.{
  ◌≡◌, refl, false, ◌⊎◌, inl, inr, [], ◌∷◌, none, some, Bytes, codes, bytes_eq, bytes_beq,
  if◌then◌else◌,
}
use llm_proxy_pii_rust.Prelude.Sort.{insert_by}
use llm_proxy_pii_rust.Kind.{label, email}
use llm_proxy_pii_rust.Entity.{PiiEntity, ok, err, verified}
use llm_proxy_pii_rust.Detector.{Detector, Detection, rescanning}
use llm_proxy_pii_rust.Placeholder.{decimal, step}
use llm_proxy_pii_rust.Text.{to_ascii_uppercase}
use llm_proxy_pii_rust.Vault.{empty}
use llm_proxy_pii_rust.Vault.Invariant.{IsVault, Extends, empty-IsVault}
use llm_proxy_pii_rust.Vault.Fixpoint.{mask_all}
use llm_proxy_pii_rust.Stream.{open_ai}
use llm_proxy_pii_rust.Json.{
  Value, string, array, object, Items, nil, cons, Fields, end, field, get,
}
use llm_proxy_pii_rust.Privacy.{Walked, mask_request, mask_schema_descriptions}
use llm_proxy_pii_rust.Privacy.Anthropic.{mask_anthropic_request, mask_anthropic_block}
use llm_proxy_pii_rust.Privacy.Augmentation.{
  augmentation_prompt, augmented, prompt_message, inject_augmentation,
  inject_augmentation_anthropic,
}
use llm_proxy_pii_rust.Privacy.Stage.{RequestContext, new_context, error_text, on_request}
use llm_proxy_pii_rust.Privacy.Response.{on_response}
use llm_proxy_pii_rust.Privacy.Paths.{
  Covered, openai_paths, anthropic_paths, at_leaf, own_text, leaves_of, descriptions_of, Along,
  IsPlain, PlainTools, PlainNativeTools,
}
use llm_proxy_pii_rust.Privacy.Walks.{Blocked}
use llm_proxy_pii_rust.Privacy.Texts.{Promises}
use llm_proxy_pii_rust.Privacy.Requests.{mask_request-Covered}
use llm_proxy_pii_rust.Privacy.Reach.{mask_anthropic_request-Covered}
use llm_proxy_pii_rust.Privacy.Instructed.{inject_augmentation-Covered}
use llm_proxy_pii_rust.Privacy.SystemPrompt.{inject_augmentation_anthropic-Covered}
use llm_proxy_pii_rust.Privacy.Forwarded.{Sendable, paths_of, on_request-Covered}
use llm_proxy_pii_rust.Privacy.Vaults.{on_request-Grows, on_request-blocked}

abbrev message : Bytes → Value → Value
message role content =
    object (field (codes "content") content (field (codes "role") (string role) end))

abbrev request : Items → Value
request messages = object (field (codes "messages") (array messages) end)

abbrev mail_text : Bytes
mail_text = codes "to b@x.it, Rome"

abbrev body : Value
body = request (cons (message (codes "user") (string mail_text)) nil)

-- A schema with a description of its own and one of a parameter, in a tool of either kind.
abbrev schema : Bytes → Value
schema t = object (
    field (codes "description") (string t) (
      field (codes "properties")
        (object (field (codes "to") (object (field (codes "description") (string t) end)) end))
        end))

abbrev tool : Bytes → Value
tool t = object (field (codes "function") (object (field (codes "parameters") (schema t) end)) end)

abbrev tool_body : Bytes → Value
tool_body t = object (
    field (codes "messages") (array (cons (message (codes "user") (string t)) nil))
      (field (codes "tools") (array (cons (tool t) nil)) end))

schema-IsPlain : IsPlain (schema mail_text)
unfolding IsPlain descriptions_of bytes_beq
schema-IsPlain = (λ e. refl, (tt, (λ e. cc, ((λ e. cc, ((λ e. refl, (tt, tt)), tt)), tt))))

tool_body-PlainTools : PlainTools (tool_body mail_text)
unfolding get bytes_beq
tool_body-PlainTools = (schema-IsPlain, tt)

-- A masking that blanks every text and never fails.
abbrev blank : Bytes → Unit {0} → Bytes × Unit {0}
blank t u = (codes "[X]", u)

abbrev Never : Unit {0} → Type 0
Never u = ⊥

abbrev IsBlank : Bytes → Type 0
IsBlank t = t ≡ codes "[X]"

blank_law : Promises blank Never IsBlank
blank_law = record { stays = λ t s b. b; gives = λ t s. inr refl }

abbrev begin : Walked (Unit {0})
begin = record { state = tt; refusal = none }

blanked : (mask_request blank (tool_body mail_text) begin).0 ≡ tool_body (codes "[X]")
unfolding mask_request bytes_beq
blanked = refl

mask_request-Covered_example :
    Blocked Never (mask_request blank (tool_body mail_text) begin).1
    ⊎ Covered IsBlank openai_paths (mask_request blank (tool_body mail_text) begin).0
mask_request-Covered_example =
    mask_request-Covered blank Never IsBlank blank_law (tool_body mail_text) begin
      tool_body-PlainTools

-- A tool result with a nested text, behind a document with a source of text.
abbrev typed : Bytes → Fields → Value
typed name fs = object (field (codes "type") (string name) fs)

abbrev native_body : Value
native_body = object (
    field (codes "messages")
      (array (
        cons
          (message (codes "user") (
            array (
              cons
                (typed (codes "tool_result") (
                  field (codes "content")
                    (array (
                      cons (typed (codes "text") (field (codes "text") (string mail_text) end))
                        nil))
                    end))
                (cons
                  (typed (codes "document") (
                    field (codes "source")
                      (typed (codes "text") (field (codes "data") (string mail_text) end)) end))
                  nil))))
          nil))
      (field (codes "system") (string mail_text) (
        field (codes "tools")
          (array (cons (object (field (codes "input_schema") (schema mail_text) end)) nil)) end)))

native_body-PlainTools : PlainNativeTools native_body
unfolding get bytes_beq
native_body-PlainTools = (schema-IsPlain, tt)

native_blanked : (mask_anthropic_request blank native_body begin).1.refusal ≡ none
unfolding mask_anthropic_request bytes_beq
native_blanked = refl

mask_anthropic_request-Covered_example :
    Blocked Never (mask_anthropic_request blank native_body begin).1
    ⊎ Covered IsBlank anthropic_paths (mask_anthropic_request blank native_body begin).0
mask_anthropic_request-Covered_example =
    mask_anthropic_request-Covered blank Never IsBlank blank_law native_body begin
      native_body-PlainTools

-- A block of a type that is not known is refused.
unknown_block :
    (mask_anthropic_block blank
      (typed (codes "audio") (field (codes "text") (string mail_text) end))
      begin).1.refusal
    ≡ some (codes "unknown Anthropic content block type")
unfolding mask_anthropic_block bytes_beq
unknown_block = refl

-- The texts of a body that is covered are these, or the instruction, alone or behind one of these.
abbrev IsKnown : Bytes → Type 0
IsKnown t = t ≡ mail_text

abbrev IsInstructed : Bytes → Type 0
IsInstructed t =
    IsKnown t ⊎ (((u : Bytes) × (IsKnown u × (t ≡ augmented u))) ⊎ (t ≡ augmentation_prompt))

body-Covered : Covered IsKnown openai_paths body
unfolding Along at_leaf own_text descriptions_of bytes_beq get
body-Covered =
    (((refl, tt), tt), ((tt, tt), ((tt, tt), ((tt, tt), ((tt, tt), ((tt, tt), (tt, (tt, tt))))))))

inject_augmentation-Covered_example : Covered IsInstructed openai_paths (inject_augmentation body)
inject_augmentation-Covered_example =
    inject_augmentation-Covered IsKnown IsInstructed (λ t k. inl k)
      (λ t k. inr (inl (t, (k, refl)))) (inr (inr refl)) body body-Covered

abbrev system_body : Value
system_body = object (field (codes "system") (string mail_text) end)

system_body-Covered : Covered IsKnown anthropic_paths system_body
unfolding Along at_leaf own_text leaves_of descriptions_of bytes_beq get
system_body-Covered = (
  (refl, tt),
  (
    tt,
    (
      tt,
      (tt, (tt, (tt, (tt, (tt, (tt, (tt, (tt, (tt, (tt, (tt, (tt, (tt, (tt, (tt, tt))))))))))))))),
    ),
  ),
)

inject_augmentation_anthropic-Covered_example :
    Covered IsInstructed anthropic_paths (inject_augmentation_anthropic system_body)
inject_augmentation_anthropic-Covered_example =
    inject_augmentation_anthropic-Covered IsKnown IsInstructed (λ t k. inl k)
      (λ t k. inr (inl (t, (k, refl)))) (inr (inr refl)) system_body system_body-Covered

abbrev mail : PiiEntity
mail = record {
  kind = email;
  span = record { start = 3; end = 9 };
  text = codes "b@x.it";
  confidence = verified;
}

-- A detector that finds the address, and nothing in any other text.
abbrev finder : Detection
finder input b = (if bytes_beq input mail_text then ok (mail ∷ []) else ok [], b)

abbrev finders : Detector
finders = rescanning finder

stage_body :
    (on_request finders 100 body new_context).0
    ≡ request (
        cons prompt_message
          (cons (message (codes "user") (string (codes "to [EMAIL_1], Rome"))) nil))
unfolding on_request mask_all rescanning label decimal bytes_beq insert_by
stage_body = refl

forwarded : (on_request finders 100 body new_context).1.block ≡ none
unfolding on_request mask_all rescanning label decimal bytes_beq insert_by
forwarded = refl

tools_forwarded : (on_request finders 100 (tool_body mail_text) new_context).1.block ≡ none
unfolding on_request mask_all rescanning label decimal bytes_beq insert_by
tools_forwarded = refl

on_request-Covered_example :
    Covered
      (Sendable finders)
      (paths_of open_ai)
      (on_request finders 100 (tool_body mail_text) new_context).0
on_request-Covered_example =
    on_request-Covered finders 100 (tool_body mail_text) new_context tools_forwarded
      tool_body-PlainTools

on_request-Grows_example :
    IsVault (on_request finders 100 body new_context).1.vault
    × Extends empty (on_request finders 100 body new_context).1.vault
on_request-Grows_example = on_request-Grows finders 100 body new_context empty-IsVault forwarded

-- The answer of the service, with the placeholder in it, is restored for the client.
answered :
    on_response
      (λ t. t)
      (object (
        field
          (codes "choices")
          (array (
            cons
              (object (
                field
                  (codes "message")
                  (message (codes "assistant") (string (codes "[EMAIL_1]!")))
                  end))
              nil))
          end))
      (on_request finders 100 body new_context).1
    ≡ object (
        field
          (codes "choices")
          (array (
            cons
              (object (
                field
                  (codes "message")
                  (message (codes "assistant") (string (codes "b@x.it!")))
                  end))
              nil))
          end)
unfolding on_response on_request mask_all rescanning label decimal bytes_beq insert_by step
    to_ascii_uppercase
answered = refl

abbrev halted : RequestContext
halted = record new_context { block = some (codes "too large") }

on_request-blocked_example : (on_request finders 100 body halted).1.block ≡ some (codes "too large")
on_request-blocked_example = on_request-blocked finders 100 body halted (codes "too large") refl

-- A detector that cannot answer blocks the request.
abbrev broken : Detector
broken = rescanning (λ input b. (
  err (record { detector = codes "ner"; message = codes "timeout"; budget_exhausted = false }),
  b,
))

failed_closed :
    (on_request broken 100 body new_context).1.block ≡ some (codes "ner detector failed: timeout")
unfolding on_request mask_all rescanning error_text bytes_beq
failed_closed = refl

-- A parameter that is itself named `description` hides its own description from the walk.
abbrev hidden : Value
hidden = object (
    field (codes "properties")
      (object (
        field (codes "description") (object (field (codes "description") (string mail_text) end))
          end))
      end)

hidden_description : (mask_schema_descriptions blank hidden begin).0 ≡ hidden
unfolding mask_schema_descriptions bytes_beq
hidden_description = refl

hidden_text : descriptions_of hidden ≡ mail_text ∷ []
unfolding descriptions_of bytes_beq
hidden_text = refl
