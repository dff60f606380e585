-- ===== src/Privacy/Response.antt =====
-- src/pipeline/privacy.rs: the walk over a response, which restores placeholders. It refuses nothing: what
-- it does not know it leaves as it is. `serde_json::to_string` is the parameter `to_json`.
use llm_proxy_pii_rust.Prelude.{
  Option, none, some, if◌then◌else◌, Bytes, ◌==◌, bytes_eq, bytes_beq, codes,
}
use llm_proxy_pii_rust.Json.{Value, string, array, get, as_str, on_field, on_items}
use llm_proxy_pii_rust.Vault.{Vault, is_empty, demask, demask_json_string}
use llm_proxy_pii_rust.Stream.{open_ai, anthropic}
use llm_proxy_pii_rust.Privacy.{
  Walked, transform_string_value, transform_pointer, transform_tool_call_args,
  transform_string_leaves,
}
use llm_proxy_pii_rust.Privacy.Stage.{RequestContext}

-- A function of the text alone.
abbrev pub plainly : (Bytes → Bytes) → Bytes → Unit {0} → Bytes × Unit {0}
plainly g t u = (g t, u)

abbrev pub Restoring : Type 0
Restoring = Walked (Unit {0})

module _ (g : Bytes → Bytes) where
  unfoldable pub demask_part : Value → Restoring → Value × Restoring
  unfolding transform_string_value on_field
  demask_part (string s) w = transform_string_value (plainly g) (string s) w
  demask_part v w = on_field (codes "text") (transform_string_value (plainly g)) v w

  unfoldable pub demask_content : Value → Restoring → Value × Restoring
  unfolding transform_string_value on_items demask_part
  demask_content (string s) w = transform_string_value (plainly g) (string s) w
  demask_content (array xs) w = on_items (λ pos. demask_part) (array xs) w
  demask_content v w = (v, w)

module _ (to_json : Bytes → Bytes) (vault : Vault) where
  unfoldable pub demask_message : Value → Restoring → Value × Restoring
  unfolding on_field demask_content transform_tool_call_args transform_pointer demask
      demask_json_string
  demask_message message w =
      let (m1, w1) = on_field (codes "content") (demask_content (demask vault)) message w in
      let (m2, w2) = transform_tool_call_args (plainly (demask_json_string to_json vault)) m1 w1 in
      transform_pointer (plainly (demask_json_string to_json vault)) (codes "function_call")
        (codes "arguments") m2 w2

  unfoldable pub demask_response : Value → Restoring → Value × Restoring
  unfolding on_field on_items demask_message
  demask_response =
      on_field (codes "choices") (on_items (λ pos. on_field (codes "message") demask_message))

unfoldable pub demask_typed : Vault → Option Bytes → Value → Restoring → Value × Restoring
unfolding on_field transform_string_value transform_string_leaves demask bytes_beq
demask_typed vault (some name) v w =
    if name == codes "text"
    then on_field (codes "text") (transform_string_value (plainly (demask vault))) v w
    else if name == codes "tool_use"
    then on_field (codes "input") (transform_string_leaves (plainly (demask vault))) v w
    else (v, w)
demask_typed vault none v w = (v, w)

unfoldable pub demask_anthropic_response : Vault → Value → Restoring → Value × Restoring
unfolding on_field on_items get as_str demask_typed
demask_anthropic_response vault =
    on_field (codes "content")
      (on_items (λ pos block. demask_typed vault (as_str (get (codes "type") block)) block))

abbrev pub begin : Restoring
begin = record { state = tt; refusal = none }

unfoldable pub on_response : (Bytes → Bytes) → Value → RequestContext → Value
unfolding is_empty demask_response demask_anthropic_response
on_response to_json body ctx = if is_empty ctx.vault then body else elim ctx.schema [
  | open_ai ↦ (demask_response to_json ctx.vault body begin).0
  | anthropic ↦ (demask_anthropic_response ctx.vault body begin).0
]
