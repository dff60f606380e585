-- ===== src/Privacy/Augmentation.antt =====
-- src/pipeline/privacy.rs: the instruction that is added to a request in which something was masked.
use llm_proxy_pii_rust.Prelude.{
  Bool, false, ◌||◌, Option, none, some, ◌∷◌, ◌++◌, if◌then◌else◌, Bytes, ◌==◌, bytes_eq, bytes_beq,
  codes,
}
use llm_proxy_pii_rust.Json.{
  Value, string, array, object, Items, nil, cons, end, field, get, as_str, set, push_item,
  insert_field,
}

-- The dash is one character of three bytes.
abbrev pub augmentation_prompt : Bytes
augmentation_prompt =
    codes
      "Some real values in this conversation have been replaced with typed placeholders of the form [KIND_N] "
    ++ (0xe2
        ∷ 0x80
        ∷ 0x94
        ∷ codes
            " for example [EMAIL_1], [PHONE_2], [PERSON_1], [IBAN_1], [TAXID_1]. Each placeholder stands for a real value of the named kind. Treat every placeholder as if it were the real value it represents: use it verbatim wherever you would use that value, including inside tool/function-call arguments, and never modify, translate, reformat, split, merge, or guess the value behind it. The same placeholder always refers to the same value. Placeholders are automatically restored to the real values after your reply, before anyone sees it, so you never need to ask the user to reveal the real value.")

-- `format!("{s}\n\n{AUGMENTATION_PROMPT}")`
unfoldable pub augmented : Bytes → Bytes
augmented s = s ++ (10 ∷ 10 ∷ augmentation_prompt)

-- `json!({ "type": "text", "text": AUGMENTATION_PROMPT })`
abbrev pub prompt_part : Value
prompt_part = object (
    field (codes "text") (string augmentation_prompt)
      (field (codes "type") (string (codes "text")) end))

-- `json!({ "role": "system", "content": AUGMENTATION_PROMPT })`
abbrev pub prompt_message : Value
prompt_message = object (
    field (codes "content") (string augmentation_prompt)
      (field (codes "role") (string (codes "system")) end))

-- A text or an array that is there takes the instruction behind it.
unfoldable pub with_prompt : Option Value → Value
unfolding augmented push_item
with_prompt (some (string s)) = string (augmented s)
with_prompt (some (array parts)) = array (push_item parts prompt_part)
with_prompt _ = string augmentation_prompt

-- `value[key] = new` and `Map::insert`, on an object.
unfoldable pub put : Bytes → Value → Value → Value
unfolding insert_field
put key new (object fs) = object (insert_field key new fs)
put key new v = v

unfoldable pub merge_augmentation : Value → Value
unfolding get with_prompt put
merge_augmentation message =
    put (codes "content") (with_prompt (get (codes "content") message)) message

unfoldable pub is_instruction : Option Bytes → Bool
unfolding bytes_beq
is_instruction (some role) = role == codes "system" || role == codes "developer"
is_instruction none = false

-- The first message that gives instructions, with the instruction merged into it, if there is one.
unfoldable pub merge_first : Items → Option Items
unfolding get as_str is_instruction merge_augmentation
merge_first nil = none
merge_first (cons m ms) =
    let rest = merge_first ms in
    if is_instruction (as_str (get (codes "role") m))
    then some (cons (merge_augmentation m) ms)
    else elim rest [ some ms' ↦ some (cons m ms') | none ↦ none ]

unfoldable pub inject_items : Items → Items
unfolding merge_first
inject_items messages = elim (merge_first messages) [
  | some merged ↦ merged
  | none ↦ cons prompt_message messages
]

unfoldable pub inject_augmentation : Value → Value
unfolding get inject_items set
inject_augmentation body = elim (get (codes "messages") body) [
  | some (array messages) ↦ set (codes "messages") (array (inject_items messages)) body
  | _ ↦ body
]

unfoldable pub inject_augmentation_anthropic : Value → Value
unfolding get with_prompt put
inject_augmentation_anthropic body =
    put (codes "system") (with_prompt (get (codes "system") body)) body
