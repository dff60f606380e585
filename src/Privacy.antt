-- ===== src/Privacy.antt =====
-- src/pipeline/privacy.rs: the walk over a request body and over a response body, which masks or restores
-- the fields that bear text. A body is refused where its shape is not known.
pub mod Anthropic
pub mod Augmentation
pub mod Stage
pub mod Response
pub mod Paths
pub mod Walks
pub mod Texts
pub mod Schema
pub mod Content
pub mod Messages
pub mod Requests
pub mod Injection
pub mod Instructed
pub mod Blocks
pub mod Documents
pub mod Typed
pub mod Native
pub mod Reach
pub mod SystemPrompt
pub mod Forwarded
pub mod Vaults
pub mod Examples
use llm_proxy_pii_rust.Prelude.{
  ℕ, Bool, true, false, Option, none, some, if◌then◌else◌, Bytes, ◌==◌, bytes_eq, bytes_beq, codes,
}
use llm_proxy_pii_rust.Json.{
  Value, null, bool, number, other_number, string, array, object, Items, nil, cons, Fields, end,
  field, get, is_object, is_array, on_string, on_field, on_items,
}

-- The state of a walk: that of the function that masks a text, and the reason why the body is refused, if
-- it is. A walk that returned `Err` early has a reason, and what follows in the walk is passed over.
pub record Walked (S : Type 0) : Type 0 where
  pub state : S
  pub refusal : Option Bytes

module _ {S : Type 0} where
  -- `Err(reason)`
  unfoldable pub refuse : Bytes → Value → Walked S → Value × Walked S
  refuse reason v w = (v, record w { refusal = some reason })

  -- Two walks over one value: what `?` lets through goes on.
  unfoldable pub both :
      (Value → Walked S → Value × Walked S)
      → (Value → Walked S → Value × Walked S)
      → Value
      → Walked S
      → Value × Walked S
  both g h v w = let (v', w') = g v w in elim w'.refusal [ some reason ↦ (v', w') | none ↦ h v' w' ]

  -- The body of a loop, which is left at the first refusal.
  unfoldable pub unless_refused :
      (Value → Walked S → Value × Walked S) → ℕ → Value → Walked S → Value × Walked S
  unless_refused g pos v w = elim w.refusal [ some reason ↦ (v, w) | none ↦ g v w ]

  module _ (f : Bytes → S → Bytes × S) where
    -- `f(s)`
    unfoldable pub apply : Bytes → Walked S → Bytes × Walked S
    apply t w = let (t', s) = f t w.state in (t', record w { state = s })

    unfoldable pub transform_string_value : Value → Walked S → Value × Walked S
    unfolding on_string apply
    transform_string_value = on_string apply

    -- `pointer_mut("/outer/inner")` of a string.
    unfoldable pub transform_pointer : Bytes → Bytes → Value → Walked S → Value × Walked S
    unfolding on_field transform_string_value
    transform_pointer outer inner = on_field outer (on_field inner transform_string_value)

    unfoldable pub transform_tool_call_args : Value → Walked S → Value × Walked S
    unfolding on_field on_items transform_pointer
    transform_tool_call_args =
        on_field (codes "tool_calls")
          (on_items (λ pos. transform_pointer (codes "function") (codes "arguments")))

    -- An element of a content array: a bare string, or an object with or without `text`.
    unfoldable pub mask_part : Value → Walked S → Value × Walked S
    unfolding transform_string_value on_field refuse
    mask_part (string s) w = transform_string_value (string s) w
    mask_part (object fs) w = on_field (codes "text") transform_string_value (object fs) w
    mask_part v w = refuse (codes "message `content` array has an unrecognized element") v w

    unfoldable pub mask_content : Value → Walked S → Value × Walked S
    unfolding transform_string_value on_items unless_refused mask_part refuse
    mask_content (string s) w = transform_string_value (string s) w
    mask_content (array xs) w = on_items (unless_refused mask_part) (array xs) w
    mask_content null w = (null, w)
    mask_content v w = refuse (codes "message `content` has an unrecognized shape") v w

    unfoldable mutual
      unfolding transform_string_value bytes_beq

      pub mask_schema_descriptions : Value → Walked S → Value × Walked S
      mask_schema_descriptions (object fs) w =
          let (fs', w') = mask_schema_fields fs w in (object fs', w')
      mask_schema_descriptions (array xs) w =
          let (xs', w') = mask_schema_items xs w in (array xs', w')
      mask_schema_descriptions v w = (v, w)

      pub mask_schema_items : Items → Walked S → Items × Walked S
      mask_schema_items nil w = (nil, w)
      mask_schema_items (cons x xs) w =
          let (x', w') = mask_schema_descriptions x w in
          let (xs', w'') = mask_schema_items xs w' in (cons x' xs', w'')

      pub mask_schema_fields : Fields → Walked S → Fields × Walked S
      mask_schema_fields end w = (end, w)
      mask_schema_fields (field k v fs) w =
          let described = transform_string_value v w in
          let walked = mask_schema_descriptions v w in
          let (v', w') = if k == codes "description" then described else walked in
          let (fs', w'') = mask_schema_fields fs w' in (field k v' fs', w'')

    unfoldable mutual
      unfolding apply

      pub transform_string_leaves : Value → Walked S → Value × Walked S
      transform_string_leaves (string s) w = let (s', w') = apply s w in (string s', w')
      transform_string_leaves (array xs) w =
          let (xs', w') = transform_leaves_items xs w in (array xs', w')
      transform_string_leaves (object fs) w =
          let (fs', w') = transform_leaves_fields fs w in (object fs', w')
      transform_string_leaves v w = (v, w)

      pub transform_leaves_items : Items → Walked S → Items × Walked S
      transform_leaves_items nil w = (nil, w)
      transform_leaves_items (cons x xs) w =
          let (x', w') = transform_string_leaves x w in
          let (xs', w'') = transform_leaves_items xs w' in (cons x' xs', w'')

      pub transform_leaves_fields : Fields → Walked S → Fields × Walked S
      transform_leaves_fields end w = (end, w)
      transform_leaves_fields (field k v fs) w =
          let (v', w') = transform_string_leaves v w in
          let (fs', w'') = transform_leaves_fields fs w' in (field k v' fs', w'')

    unfoldable pub mask_message : Value → Walked S → Value × Walked S
    unfolding both on_field mask_content transform_string_value transform_tool_call_args
        transform_pointer
    mask_message = both (on_field (codes "content") mask_content) (
        both (on_field (codes "name") transform_string_value) (
          both transform_tool_call_args
            (transform_pointer (codes "function_call") (codes "arguments"))))

    unfoldable pub mask_tool : Value → Walked S → Value × Walked S
    unfolding both transform_pointer on_field mask_schema_descriptions
    mask_tool =
        both (transform_pointer (codes "function") (codes "description"))
          (on_field (codes "function") (on_field (codes "parameters") mask_schema_descriptions))

    -- `get_mut("messages")`, which has to be there and to be an array, and the loop over it.
    unfoldable pub mask_messages :
        (Value → Walked S → Value × Walked S) → Value → Walked S → Value × Walked S
    unfolding get is_array refuse on_field on_items unless_refused
    mask_messages each body w = elim (get (codes "messages") body) [
      | none ↦ refuse (codes "request has no `messages` field") body w
      | some messages ↦
          if is_array messages
          then on_field (codes "messages") (on_items (unless_refused each)) body w
          else refuse (codes "`messages` is not an array") body w
    ]

    unfoldable pub mask_request : Value → Walked S → Value × Walked S
    unfolding both mask_messages mask_message on_field on_items mask_tool
    mask_request =
        both (mask_messages mask_message) (on_field (codes "tools") (on_items (λ pos. mask_tool)))
