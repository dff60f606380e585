-- ===== src/Privacy/Anthropic.antt =====
-- src/pipeline/privacy.rs: the walk over a native `/v1/messages` body. A content block or a document source
-- of a type that is not known is refused.
use llm_proxy_pii_rust.Prelude.{
  Option, none, some, if◌then◌else◌, Bytes, ◌==◌, bytes_eq, bytes_beq, codes,
}
use llm_proxy_pii_rust.Json.{Value, null, string, array, object, get, as_str, on_field, on_items}
use llm_proxy_pii_rust.Privacy.{
  Walked, refuse, both, unless_refused, transform_string_value, transform_string_leaves,
  mask_schema_descriptions, mask_messages,
}

-- The types of a content block that the walk knows.
pub data BlockType : Type 0 where
  text tool_use tool_result thinking document image redacted_thinking : BlockType

unfoldable pub block_type : Bytes → Option BlockType
unfolding bytes_beq
block_type s =
    if s == codes "text"
    then some text
    else if s == codes "tool_use"
    then some tool_use
    else if s == codes "tool_result"
    then some tool_result
    else if s == codes "thinking"
    then some thinking
    else if s == codes "document"
    then some document
    else if s == codes "image"
    then some image
    else if s == codes "redacted_thinking"
    then some redacted_thinking
    else none

-- The types of the source of a document that the walk knows.
pub data SourceType : Type 0 where
  text_source content_source base64 url : SourceType

unfoldable pub source_type : Bytes → Option SourceType
unfolding bytes_beq
source_type s =
    if s == codes "text"
    then some text_source
    else if s == codes "content"
    then some content_source
    else if s == codes "base64"
    then some base64
    else if s == codes "url"
    then some url
    else none

module _ {S : Type 0} (f : Bytes → S → Bytes × S) where
  -- A block without `text` is refused, also where it is no object.
  unfoldable pub mask_system_block : Value → Walked S → Value × Walked S
  unfolding get on_field transform_string_value refuse
  mask_system_block block w = elim (get (codes "text") block) [
    | some _ ↦ on_field (codes "text") (transform_string_value f) block w
    | none ↦ refuse (codes "`system` array has an unrecognized element") block w
  ]

  unfoldable pub mask_anthropic_system : Value → Walked S → Value × Walked S
  unfolding transform_string_value on_items unless_refused mask_system_block refuse
  mask_anthropic_system (string s) w = transform_string_value f (string s) w
  mask_anthropic_system (array xs) w = on_items (unless_refused mask_system_block) (array xs) w
  mask_anthropic_system null w = (null, w)
  mask_anthropic_system v w = refuse (codes "`system` has an unrecognized shape") v w

  -- What the type of a nested block asks for.
  unfoldable pub mask_nested_typed : Option Bytes → Value → Walked S → Value × Walked S
  unfolding on_field transform_string_value refuse bytes_beq
  mask_nested_typed none v w = refuse (codes "Anthropic nested content block has no `type`") v w
  mask_nested_typed (some name) v w =
      if name == codes "text"
      then on_field (codes "text") (transform_string_value f) v w
      else if name == codes "image"
      then (v, w)
      else refuse (codes "unknown Anthropic nested content block") v w

  unfoldable pub mask_nested_block : Value → Walked S → Value × Walked S
  unfolding transform_string_value get as_str mask_nested_typed refuse
  mask_nested_block (string s) w = transform_string_value f (string s) w
  mask_nested_block (object fs) w =
      mask_nested_typed (as_str (get (codes "type") (object fs))) (object fs) w
  mask_nested_block v w = refuse (codes "nested content array has an unrecognized element") v w

  unfoldable pub mask_content_block_array : Value → Walked S → Value × Walked S
  unfolding transform_string_value on_items unless_refused mask_nested_block refuse
  mask_content_block_array (string s) w = transform_string_value f (string s) w
  mask_content_block_array (array xs) w = on_items (unless_refused mask_nested_block) (array xs) w
  mask_content_block_array null w = (null, w)
  mask_content_block_array v w = refuse (codes "nested `content` has an unrecognized shape") v w

  unfoldable pub mask_source_typed : Option SourceType → Value → Walked S → Value × Walked S
  unfolding on_field transform_string_value mask_content_block_array refuse
  mask_source_typed (some text_source) v w = on_field (codes "data") (transform_string_value f) v w
  mask_source_typed (some content_source) v w =
      on_field (codes "content") mask_content_block_array v w
  mask_source_typed (some base64) v w = (v, w)
  mask_source_typed (some url) v w = (v, w)
  mask_source_typed none v w = refuse (codes "unknown Anthropic document source type") v w

  unfoldable pub mask_source : Value → Walked S → Value × Walked S
  unfolding get as_str source_type mask_source_typed refuse
  mask_source source w = elim (as_str (get (codes "type") source)) [
    | some name ↦ mask_source_typed (source_type name) source w
    | none ↦ refuse (codes "Anthropic document `source` has no `type`") source w
  ]

  unfoldable pub mask_anthropic_document : Value → Walked S → Value × Walked S
  unfolding both on_field transform_string_value mask_source
  mask_anthropic_document = both (on_field (codes "title") (transform_string_value f)) (
      both (on_field (codes "context") (transform_string_value f))
        (on_field (codes "source") mask_source))

  unfoldable pub mask_typed : Option BlockType → Value → Walked S → Value × Walked S
  unfolding on_field transform_string_value transform_string_leaves mask_content_block_array
      mask_anthropic_document refuse
  mask_typed (some text) v w = on_field (codes "text") (transform_string_value f) v w
  mask_typed (some tool_use) v w = on_field (codes "input") (transform_string_leaves f) v w
  mask_typed (some tool_result) v w = on_field (codes "content") mask_content_block_array v w
  mask_typed (some thinking) v w = on_field (codes "thinking") (transform_string_value f) v w
  mask_typed (some document) v w = mask_anthropic_document v w
  mask_typed (some image) v w = (v, w)
  mask_typed (some redacted_thinking) v w = (v, w)
  mask_typed none v w = refuse (codes "unknown Anthropic content block type") v w

  unfoldable pub mask_anthropic_block : Value → Walked S → Value × Walked S
  unfolding transform_string_value get as_str block_type mask_typed refuse
  mask_anthropic_block (string s) w = transform_string_value f (string s) w
  mask_anthropic_block (object fs) w = elim (as_str (get (codes "type") (object fs))) [
    | some name ↦ mask_typed (block_type name) (object fs) w
    | none ↦ refuse (codes "Anthropic content block has no `type`") (object fs) w
  ]
  mask_anthropic_block v w =
      refuse (codes "message `content` array has an unrecognized element") v w

  unfoldable pub mask_anthropic_content : Value → Walked S → Value × Walked S
  unfolding transform_string_value on_items unless_refused mask_anthropic_block refuse
  mask_anthropic_content (string s) w = transform_string_value f (string s) w
  mask_anthropic_content (array xs) w = on_items (unless_refused mask_anthropic_block) (array xs) w
  mask_anthropic_content null w = (null, w)
  mask_anthropic_content v w = refuse (codes "message `content` has an unrecognized shape") v w

  unfoldable pub mask_anthropic_tool : Value → Walked S → Value × Walked S
  unfolding both on_field transform_string_value mask_schema_descriptions
  mask_anthropic_tool =
      both (on_field (codes "description") (transform_string_value f))
        (on_field (codes "input_schema") (mask_schema_descriptions f))

  unfoldable pub mask_anthropic_request : Value → Walked S → Value × Walked S
  unfolding both on_field mask_anthropic_system mask_messages mask_anthropic_content on_items
      mask_anthropic_tool
  mask_anthropic_request = both (on_field (codes "system") mask_anthropic_system) (
      both (mask_messages f (on_field (codes "content") mask_anthropic_content))
        (on_field (codes "tools") (on_items (λ pos. mask_anthropic_tool))))
