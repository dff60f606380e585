-- ===== src/Privacy/Native.antt =====
-- The texts of a native request: its instructions, its messages and its tools.
use llm_proxy_pii_rust.Prelude.{
  refl, inl, inr, Option, none, some, Bytes, bytes_eq, bytes_beq, codes, All, Option-cases,
}
use llm_proxy_pii_rust.Json.{
  Value, null, bool, number, other_number, string, array, object, get, on_field, on_items,
}
use llm_proxy_pii_rust.Privacy.{
  refuse, both, unless_refused, transform_string_value, mask_messages, mask_schema_descriptions,
}
use llm_proxy_pii_rust.Privacy.Anthropic.{
  mask_system_block, mask_anthropic_system, mask_anthropic_content, mask_anthropic_tool,
  mask_anthropic_request,
}
use llm_proxy_pii_rust.Privacy.Paths.{
  own_text, descriptions_of, IsPlain, PlainNativeTool, PlainNativeTools, OnSome, OnItems,
}
use llm_proxy_pii_rust.Privacy.Walks.{
  Walk, Keeps, Gives, GivesIf, both-GivesIf_second, on_field-GivesIf, also, refuse-Keeps,
  refuse-Gives, both-Keeps, both-Gives_first, both-Gives_second, both-Spares, on_field-Keeps,
  on_field-Gives, on_field-Spares_other, on_items-Keeps, on_items-GivesIf,
}
use llm_proxy_pii_rust.Privacy.Texts.{Promises, string-Keeps, string-Gives}
use llm_proxy_pii_rust.Privacy.Schema.{schema-Keeps, schema-Gives}
use llm_proxy_pii_rust.Privacy.Content.{
  AtSelf, TextField, string_field-Keeps, string_field-Gives, string_stays, array_stays, parts-Keeps,
  parts-Gives,
}
use llm_proxy_pii_rust.Privacy.Requests.{messages-Keeps, messages-Gives, messages-Spares}
use llm_proxy_pii_rust.Privacy.Typed.{AtNative, native-Keeps, native-Gives}

module _ {S : Type 0} (f : Bytes → S → Bytes × S) (Bad : S → Type 0) (P : Bytes → Type 0)
    (law : Promises f Bad P) where
  system_block-Keeps : Keeps Bad (mask_system_block f)
  unfolding mask_system_block
  system_block-Keeps v w b = elim (Option-cases (get (codes "text") v)) [
    | inl e ↦
        rw (e, mask_system_block)
          (refuse-Keeps Bad (codes "`system` array has an unrecognized element") v w b)
    | inr (x, e) ↦ rw (e, mask_system_block) (string_field-Keeps f Bad P law (codes "text") v w b)
  ]

  found_text : Option Value → Walk S
  found_text o v w = elim o [
    | some _ ↦ on_field (codes "text") (transform_string_value f) v w
    | none ↦ refuse (codes "`system` array has an unrecognized element") v w
  ]

  found_text-Gives : (o : Option Value) → Gives Bad (found_text o) (TextField f Bad P law)
  unfolding found_text
  found_text-Gives (some x) = string_field-Gives f Bad P law (codes "text")
  found_text-Gives none =
      refuse-Gives Bad (codes "`system` array has an unrecognized element") (TextField f Bad P law)

  system_block-Gives : Gives Bad (mask_system_block f) (TextField f Bad P law)
  unfolding mask_system_block found_text
  system_block-Gives v w = found_text-Gives (get (codes "text") v) v w

  abbrev pub AtSystem : Value → Type 0
  AtSystem v = AtSelf f Bad P law v × OnItems (TextField f Bad P law) v

  system-Keeps : Keeps Bad (mask_anthropic_system f)
  unfolding mask_anthropic_system
  system-Keeps (string s) w b = string-Keeps f Bad P law (string s) w b
  system-Keeps (array xs) w b =
      parts-Keeps f Bad P law (mask_system_block f) system_block-Keeps (array xs) w b
  system-Keeps null w b = b
  system-Keeps (object fs) w b = refuse-Keeps Bad _ (object fs) w b
  system-Keeps (bool c) w b = refuse-Keeps Bad _ (bool c) w b
  system-Keeps (number n) w b = refuse-Keeps Bad _ (number n) w b
  system-Keeps (other_number n) w b = refuse-Keeps Bad _ (other_number n) w b

  system-Gives : Gives Bad (mask_anthropic_system f) AtSystem
  unfolding mask_anthropic_system own_text
  system-Gives (string s) w =
      also (string-Gives f Bad P law (string s) w)
        (inr (string_stays f Bad P law s w (TextField f Bad P law)))
  system-Gives (array xs) w =
      also (inr (array_stays f Bad P law (unless_refused (mask_system_block f)) xs w)) (
        parts-Gives f Bad P law (mask_system_block f) (TextField f Bad P law) system_block-Keeps
          system_block-Gives (array xs) w)
  system-Gives null w = inr (tt, tt)
  system-Gives (object fs) w = refuse-Gives Bad _ AtSystem (object fs) w
  system-Gives (bool c) w = refuse-Gives Bad _ AtSystem (bool c) w
  system-Gives (number n) w = refuse-Gives Bad _ AtSystem (number n) w
  system-Gives (other_number n) w = refuse-Gives Bad _ AtSystem (other_number n) w

  abbrev describe : Walk S
  describe = on_field (codes "description") (transform_string_value f)

  abbrev schema_walk : Walk S
  schema_walk = on_field (codes "input_schema") (mask_schema_descriptions f)

  schema_walk-Keeps : Keeps Bad schema_walk
  schema_walk-Keeps =
      on_field-Keeps Bad (codes "input_schema") (mask_schema_descriptions f)
        (schema-Keeps f Bad P law)

  native_tool-Keeps : Keeps Bad (mask_anthropic_tool f)
  unfolding mask_anthropic_tool
  native_tool-Keeps =
      both-Keeps Bad describe schema_walk (string_field-Keeps f Bad P law (codes "description"))
        schema_walk-Keeps

  abbrev pub Described : Value → Type 0
  Described x = OnSome (AtSelf f Bad P law) (get (codes "description") x)

  abbrev pub Schema : Value → Type 0
  Schema x = OnSome (λ s. All P (descriptions_of s)) (get (codes "input_schema") x)

  native_tool-Gives :
      GivesIf Bad (mask_anthropic_tool f) PlainNativeTool (λ v. Described v × Schema v)
  unfolding mask_anthropic_tool bytes_beq
  native_tool-Gives v w c =
      also
        (both-Gives_first Bad describe schema_walk Described
          (string_field-Gives f Bad P law (codes "description")) schema_walk-Keeps
          (on_field-Spares_other Bad (codes "input_schema") (codes "description")
            (mask_schema_descriptions f) (OnSome (AtSelf f Bad P law)) refl)
          v w)
        (both-GivesIf_second Bad describe schema_walk PlainNativeTool Schema
          (on_field-Spares_other Bad (codes "description") (codes "input_schema")
            (transform_string_value f) (OnSome IsPlain) refl)
          (on_field-GivesIf Bad (codes "input_schema") (mask_schema_descriptions f) IsPlain
            (λ s. All P (descriptions_of s)) (schema-Gives f Bad P law))
          v w c)

  abbrev system_walk : Walk S
  system_walk = on_field (codes "system") (mask_anthropic_system f)

  abbrev message_walk : Walk S
  message_walk = on_field (codes "content") (mask_anthropic_content f)

  abbrev tools_walk : Walk S
  tools_walk = on_field (codes "tools") (on_items (λ pos. mask_anthropic_tool f))

  message_walk-Keeps : Keeps Bad message_walk
  message_walk-Keeps =
      on_field-Keeps Bad (codes "content") (mask_anthropic_content f) (native-Keeps f Bad P law)

  tools_walk-Keeps : Keeps Bad tools_walk
  tools_walk-Keeps =
      on_field-Keeps Bad (codes "tools") (on_items (λ pos. mask_anthropic_tool f))
        (on_items-Keeps Bad (λ pos. mask_anthropic_tool f) (λ n. native_tool-Keeps))

  abbrev pub AtMessages : Value → Type 0
  AtMessages v =
      OnSome (OnItems (λ m. OnSome (AtNative f Bad P law) (get (codes "content") m)))
        (get (codes "messages") v)

  abbrev pub AtTools : Value → Type 0
  AtTools v = OnSome (OnItems (λ x. Described x × Schema x)) (get (codes "tools") v)

  abbrev pub Systems : Value → Type 0
  Systems v = OnSome AtSystem (get (codes "system") v)

  rest_walk-Keeps : Keeps Bad (both (mask_messages f message_walk) tools_walk)
  rest_walk-Keeps =
      both-Keeps Bad (mask_messages f message_walk) tools_walk
        (messages-Keeps f Bad P law message_walk message_walk-Keeps) tools_walk-Keeps

  pub mask_anthropic_request-Keeps : Keeps Bad (mask_anthropic_request f)
  unfolding mask_anthropic_request
  mask_anthropic_request-Keeps =
      both-Keeps Bad system_walk (both (mask_messages f message_walk) tools_walk)
        (on_field-Keeps Bad (codes "system") (mask_anthropic_system f) system-Keeps) rest_walk-Keeps

  pub request_system : Gives Bad (mask_anthropic_request f) Systems
  unfolding mask_anthropic_request bytes_beq
  request_system =
      both-Gives_first Bad system_walk (both (mask_messages f message_walk) tools_walk) Systems
        (on_field-Gives Bad (codes "system") (mask_anthropic_system f) AtSystem system-Gives)
        rest_walk-Keeps
        (both-Spares Bad (mask_messages f message_walk) tools_walk Systems
          (messages-Spares f Bad P law message_walk message_walk-Keeps (codes "system")
            (OnSome AtSystem) refl)
          (on_field-Spares_other Bad (codes "tools") (codes "system")
            (on_items (λ pos. mask_anthropic_tool f)) (OnSome AtSystem) refl))

  abbrev MessageContent : Value → Type 0
  MessageContent m = OnSome (AtNative f Bad P law) (get (codes "content") m)

  pub request_messages : Gives Bad (mask_anthropic_request f) AtMessages
  unfolding mask_anthropic_request bytes_beq
  request_messages =
      both-Gives_second Bad system_walk (both (mask_messages f message_walk) tools_walk) AtMessages
        (both-Gives_first Bad (mask_messages f message_walk) tools_walk AtMessages
          (messages-Gives f Bad P law message_walk message_walk-Keeps MessageContent (
            on_field-Gives Bad (codes "content") (mask_anthropic_content f) (AtNative f Bad P law)
              (native-Gives f Bad P law)))
          tools_walk-Keeps
          (on_field-Spares_other Bad (codes "tools") (codes "messages")
            (on_items (λ pos. mask_anthropic_tool f)) (OnSome (OnItems MessageContent)) refl))

  pub request_tools : GivesIf Bad (mask_anthropic_request f) PlainNativeTools AtTools
  unfolding mask_anthropic_request bytes_beq
  request_tools =
      both-GivesIf_second Bad system_walk (both (mask_messages f message_walk) tools_walk)
        PlainNativeTools AtTools
        (on_field-Spares_other Bad (codes "system") (codes "tools") (mask_anthropic_system f)
          (OnSome (OnItems PlainNativeTool)) refl)
        (both-GivesIf_second Bad (mask_messages f message_walk) tools_walk PlainNativeTools AtTools
          (messages-Spares f Bad P law message_walk message_walk-Keeps (codes "tools")
            (OnSome (OnItems PlainNativeTool)) refl)
          (on_field-GivesIf Bad (codes "tools") (on_items (λ pos. mask_anthropic_tool f))
            (OnItems PlainNativeTool) (OnItems (λ x. Described x × Schema x))
            (on_items-GivesIf Bad (λ pos. mask_anthropic_tool f) PlainNativeTool
              (λ x. Described x × Schema x) (λ n. native_tool-Keeps) (λ n. native_tool-Gives))))
