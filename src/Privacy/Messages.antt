-- ===== src/Privacy/Messages.antt =====
-- The texts in one message of a chat-completions request: its content, its name and the arguments of its calls.
use llm_proxy_pii_rust.Prelude.{
  ◌≡◌, refl, inl, inr, false, Option, Bytes, bytes_eq, bytes_beq, codes,
}
use llm_proxy_pii_rust.Json.{Value, get, on_field, on_items}
use llm_proxy_pii_rust.Privacy.{
  both, transform_string_value, transform_pointer, transform_tool_call_args, mask_content,
  mask_message,
}
use llm_proxy_pii_rust.Privacy.Paths.{OnSome, OnItems}
use llm_proxy_pii_rust.Privacy.Walks.{
  Walk, Keeps, Gives, Spares, both-Keeps, both-Gives_first, both-Gives_second, both-Spares,
  on_field-Keeps, on_field-Gives, on_field-Spares_other, on_items-Keeps, on_items-Gives,
}
use llm_proxy_pii_rust.Privacy.Texts.{Promises}
use llm_proxy_pii_rust.Privacy.Content.{
  AtSelf, AtContent, content-Keeps, content-Gives, string_field-Keeps, string_field-Gives,
  pointer-Keeps, pointer-Gives,
}

module _ {S : Type 0} (f : Bytes → S → Bytes × S) (Bad : S → Type 0) (P : Bytes → Type 0)
    (law : Promises f Bad P) where
  abbrev pub Arguments : Value → Type 0
  Arguments v = OnSome (AtSelf f Bad P law) (get (codes "arguments") v)

  abbrev one_call : Walk S
  one_call = transform_pointer f (codes "function") (codes "arguments")

  tool_calls-Keeps : Keeps Bad (transform_tool_call_args f)
  unfolding transform_tool_call_args
  tool_calls-Keeps = on_field-Keeps Bad (codes "tool_calls") (on_items (λ pos. one_call)) (
      on_items-Keeps Bad (λ pos. one_call)
        (λ n. pointer-Keeps f Bad P law (codes "function") (codes "arguments")))

  tool_calls-Gives : Gives Bad (transform_tool_call_args f) (λ v.
      OnSome
        (OnItems (λ x. OnSome Arguments (get (codes "function") x)))
        (get (codes "tool_calls") v))
  unfolding transform_tool_call_args
  tool_calls-Gives =
      on_field-Gives Bad (codes "tool_calls") (on_items (λ pos. one_call))
        (OnItems (λ x. OnSome Arguments (get (codes "function") x)))
        (on_items-Gives Bad (λ pos. one_call) (λ x. OnSome Arguments (get (codes "function") x))
          (λ n. pointer-Keeps f Bad P law (codes "function") (codes "arguments"))
          (λ n. pointer-Gives f Bad P law (codes "function") (codes "arguments")))

  tool_calls-Spares :
      (other : Bytes) (R : Option Value → Type 0)
      → bytes_beq (codes "tool_calls") other ≡ false
      → Spares Bad (transform_tool_call_args f) (λ v. R (get other v))
  unfolding transform_tool_call_args
  tool_calls-Spares other R e =
      on_field-Spares_other Bad (codes "tool_calls") other (on_items (λ pos. one_call)) R e

  pointer-Spares :
      (outer inner other : Bytes) (R : Option Value → Type 0)
      → bytes_beq outer other ≡ false
      → Spares Bad (transform_pointer f outer inner) (λ v. R (get other v))
  unfolding transform_pointer
  pointer-Spares outer inner other R e =
      on_field-Spares_other Bad outer other (on_field inner (transform_string_value f)) R e

  abbrev content_walk : Walk S
  content_walk = on_field (codes "content") (mask_content f)

  abbrev name_walk : Walk S
  name_walk = on_field (codes "name") (transform_string_value f)

  abbrev legacy_walk : Walk S
  legacy_walk = transform_pointer f (codes "function_call") (codes "arguments")

  abbrev calls : Walk S
  calls = both (transform_tool_call_args f) legacy_walk

  abbrev named : Walk S
  named = both name_walk calls

  legacy-Keeps : Keeps Bad legacy_walk
  legacy-Keeps = pointer-Keeps f Bad P law (codes "function_call") (codes "arguments")

  calls-Keeps : Keeps Bad calls
  calls-Keeps =
      both-Keeps Bad (transform_tool_call_args f) legacy_walk tool_calls-Keeps legacy-Keeps

  named-Keeps : Keeps Bad named
  named-Keeps =
      both-Keeps Bad name_walk calls (string_field-Keeps f Bad P law (codes "name")) calls-Keeps

  pub message-Keeps : Keeps Bad (mask_message f)
  unfolding mask_message
  message-Keeps =
      both-Keeps Bad content_walk named
        (on_field-Keeps Bad (codes "content") (mask_content f) (content-Keeps f Bad P law))
        named-Keeps

  calls-Spares :
      (other : Bytes) (R : Option Value → Type 0)
      → bytes_beq (codes "tool_calls") other ≡ false
      → bytes_beq (codes "function_call") other ≡ false
      → Spares Bad calls (λ v. R (get other v))
  calls-Spares other R e e' =
      both-Spares Bad (transform_tool_call_args f) legacy_walk (λ v. R (get other v))
        (tool_calls-Spares other R e)
        (pointer-Spares (codes "function_call") (codes "arguments") other R e')

  pub message-content :
      (Q : Value → Type 0)
      → ((v : Value) → AtContent f Bad P law v → Q v)
      → Gives Bad (mask_message f) (λ v. OnSome Q (get (codes "content") v))
  unfolding mask_message bytes_beq
  message-content Q h =
      both-Gives_first Bad content_walk named (λ v. OnSome Q (get (codes "content") v))
        (on_field-Gives Bad (codes "content") (mask_content f) Q (λ v w.
          elim (content-Gives f Bad P law v w) [
            | inl b ↦ inl b
            | inr c ↦ inr (h (mask_content f v w).0 c)
          ]))
        named-Keeps
        (both-Spares Bad name_walk calls (λ v. OnSome Q (get (codes "content") v))
          (on_field-Spares_other Bad (codes "name") (codes "content") (transform_string_value f)
            (OnSome Q) refl)
          (calls-Spares (codes "content") (OnSome Q) refl refl))

  pub message-name :
      Gives Bad (mask_message f) (λ v. OnSome (AtSelf f Bad P law) (get (codes "name") v))
  unfolding mask_message bytes_beq
  message-name =
      let Named : Value → Type 0 = λ v. OnSome (AtSelf f Bad P law) (get (codes "name") v) in
      both-Gives_second Bad content_walk named Named (
        both-Gives_first Bad name_walk calls Named (string_field-Gives f Bad P law (codes "name"))
          calls-Keeps (calls-Spares (codes "name") (OnSome (AtSelf f Bad P law)) refl refl))

  abbrev pub Call : Value → Type 0
  Call x = OnSome Arguments (get (codes "function") x)

  pub message-tool_calls :
      Gives Bad (mask_message f) (λ v. OnSome (OnItems Call) (get (codes "tool_calls") v))
  unfolding mask_message bytes_beq
  message-tool_calls =
      let Called : Value → Type 0 = λ v. OnSome (OnItems Call) (get (codes "tool_calls") v) in
      both-Gives_second Bad content_walk named Called (
        both-Gives_second Bad name_walk calls Called (
          both-Gives_first Bad (transform_tool_call_args f) legacy_walk Called tool_calls-Gives
            legacy-Keeps
            (pointer-Spares (codes "function_call") (codes "arguments") (codes "tool_calls")
              (OnSome (OnItems Call)) refl)))

  pub message-function_call :
      Gives Bad (mask_message f) (λ v. OnSome Arguments (get (codes "function_call") v))
  unfolding mask_message
  message-function_call =
      let Legacy : Value → Type 0 = λ v. OnSome Arguments (get (codes "function_call") v) in
      both-Gives_second Bad content_walk named Legacy (
        both-Gives_second Bad name_walk calls Legacy (
          both-Gives_second Bad (transform_tool_call_args f) legacy_walk Legacy
            (pointer-Gives f Bad P law (codes "function_call") (codes "arguments"))))
