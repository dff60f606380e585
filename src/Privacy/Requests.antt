-- ===== src/Privacy/Requests.antt =====
-- The walk over a chat-completions request reaches every text that the documentation of the source lists.
use llm_proxy_pii_rust.Prelude.{
  ◌≡◌, refl, sym, subst, ◌⊎◌, inl, inr, false, Option, none, some, Bytes, bytes_eq, bytes_beq,
  codes, All, Bool-cases, if◌then◌else◌,
}
use llm_proxy_pii_rust.Json.{Value, get, is_array, on_field, on_items}
use llm_proxy_pii_rust.Privacy.{
  Walked, refuse, unless_refused, transform_string_value, transform_pointer, mask_message,
  mask_tool, mask_messages, mask_request, mask_schema_descriptions,
}
use llm_proxy_pii_rust.Privacy.Paths.{
  descriptions_of, IsPlain, PlainParameters, PlainTool, PlainTools, OnSome, OnItems, OnItems-imp,
  Along, Covered, openai_paths,
}
use llm_proxy_pii_rust.Privacy.Walks.{
  Walk, Blocked, Keeps, Gives, Spares, refuse-Keeps, refuse-Gives, both-Keeps, both-Gives_first,
  GivesIf, both-GivesIf_second, also, on_field-Keeps, on_field-Gives, on_field-GivesIf,
  on_field-Spares, on_field-Spares_other, on_items-Keeps, on_items-GivesIf,
}
use llm_proxy_pii_rust.Privacy.Texts.{Promises}
use llm_proxy_pii_rust.Privacy.Schema.{schema-Keeps, schema-Gives}
use llm_proxy_pii_rust.Privacy.Content.{
  AtSelf, TextField, AtContent, pointer-Keeps, pointer-Gives, parts-Keeps, parts-Gives,
}
use llm_proxy_pii_rust.Privacy.Messages.{
  Arguments, Call, message-Keeps, message-content, message-name, message-tool_calls,
  message-function_call,
}

module _ {S : Type 0} (f : Bytes → S → Bytes × S) (Bad : S → Type 0) (P : Bytes → Type 0)
    (law : Promises f Bad P) where
  abbrev describe : Walk S
  describe = transform_pointer f (codes "function") (codes "description")

  abbrev parameters : Walk S
  parameters = on_field (codes "parameters") (mask_schema_descriptions f)

  parameters-Keeps : Keeps Bad parameters
  parameters-Keeps =
      on_field-Keeps Bad (codes "parameters") (mask_schema_descriptions f)
        (schema-Keeps f Bad P law)

  tool-Keeps : Keeps Bad (mask_tool f)
  unfolding mask_tool
  tool-Keeps =
      both-Keeps Bad describe (on_field (codes "function") parameters)
        (pointer-Keeps f Bad P law (codes "function") (codes "description"))
        (on_field-Keeps Bad (codes "function") parameters parameters-Keeps)

  abbrev Described : Value → Type 0
  Described x = OnSome (AtSelf f Bad P law) (get (codes "description") x)

  abbrev Parametrized : Value → Type 0
  Parametrized x = OnSome (λ s. All P (descriptions_of s)) (get (codes "parameters") x)

  tool-description : Gives Bad (mask_tool f) (λ v. OnSome Described (get (codes "function") v))
  unfolding mask_tool bytes_beq
  tool-description =
      both-Gives_first Bad describe (on_field (codes "function") parameters)
        (λ v. OnSome Described (get (codes "function") v))
        (pointer-Gives f Bad P law (codes "function") (codes "description"))
        (on_field-Keeps Bad (codes "function") parameters parameters-Keeps)
        (on_field-Spares Bad (codes "function") parameters Described (
          on_field-Spares_other Bad (codes "parameters") (codes "description")
            (mask_schema_descriptions f) (OnSome (AtSelf f Bad P law)) refl))

  tool-parameters :
      GivesIf Bad (mask_tool f) PlainTool (λ v. OnSome Parametrized (get (codes "function") v))
  unfolding mask_tool transform_pointer bytes_beq
  tool-parameters =
      both-GivesIf_second Bad describe (on_field (codes "function") parameters) PlainTool
        (λ v. OnSome Parametrized (get (codes "function") v))
        (on_field-Spares Bad (codes "function")
          (on_field (codes "description") (transform_string_value f)) PlainParameters
          (on_field-Spares_other Bad (codes "description") (codes "parameters")
            (transform_string_value f) (OnSome IsPlain) refl))
        (on_field-GivesIf Bad (codes "function") parameters PlainParameters Parametrized (
          on_field-GivesIf Bad (codes "parameters") (mask_schema_descriptions f) IsPlain
            (λ s. All P (descriptions_of s)) (schema-Gives f Bad P law)))

  module _ (each_message : Walk S) (keeps : Keeps Bad each_message) where
    abbrev messages_walk : Walk S
    messages_walk = on_field (codes "messages") (on_items (unless_refused each_message))

    found_messages : Option Value → Value → Walked S → Value × Walked S
    found_messages o v w = elim o [
      | none ↦ refuse (codes "request has no `messages` field") v w
      | some messages ↦
          if is_array messages
          then messages_walk v w
          else refuse (codes "`messages` is not an array") v w
    ]

    found-cases :
        (o : Option Value) (v : Value) (w : Walked S)
        → (found_messages o v w ≡ messages_walk v w)
          ⊎ ((reason : Bytes) × (found_messages o v w ≡ refuse reason v w))
    unfolding found_messages
    found-cases none v w = inr (codes "request has no `messages` field", refl)
    found-cases (some m) v w = elim (Bool-cases (is_array m)) [
      | inl a ↦ inl (rw a refl)
      | inr a ↦ inr (codes "`messages` is not an array", rw a refl)
    ]

    messages-cases :
        (v : Value) (w : Walked S)
        → (mask_messages f each_message v w ≡ messages_walk v w)
          ⊎ ((reason : Bytes) × (mask_messages f each_message v w ≡ refuse reason v w))
    unfolding mask_messages found_messages
    messages-cases v w = found-cases (get (codes "messages") v) v w

    pub messages-Keeps : Keeps Bad (mask_messages f each_message)
    messages-Keeps v w b = elim (messages-cases v w) [
      | inl e ↦
          subst (λ (r : Value × Walked S). Blocked Bad r.1) (sym e)
            (on_field-Keeps Bad (codes "messages") (on_items (unless_refused each_message))
              (parts-Keeps f Bad P law each_message keeps) v w b)
      | inr (reason, e) ↦
          subst (λ (r : Value × Walked S). Blocked Bad r.1) (sym e) (refuse-Keeps Bad reason v w b)
    ]

    -- What the walk gives every message.
    pub messages-Gives :
        (Q : Value → Type 0)
        → Gives Bad each_message Q
        → Gives Bad
            (mask_messages f each_message)
            (λ v. OnSome (OnItems Q) (get (codes "messages") v))
    messages-Gives Q gg v w = elim (messages-cases v w) [
      | inl e ↦
          subst
            (λ (r : Value × Walked S).
              Blocked Bad r.1 ⊎ OnSome (OnItems Q) (get (codes "messages") r.0))
            (sym e)
            (on_field-Gives Bad (codes "messages") (on_items (unless_refused each_message))
              (OnItems Q) (parts-Gives f Bad P law each_message Q keeps gg) v w)
      | inr (reason, e) ↦
          subst
            (λ (r : Value × Walked S).
              Blocked Bad r.1 ⊎ OnSome (OnItems Q) (get (codes "messages") r.0))
            (sym e)
            (refuse-Gives Bad reason (λ x. OnSome (OnItems Q) (get (codes "messages") x)) v w)
    ]

    -- The other fields of the body stay.
    pub messages-Spares :
        (other : Bytes) (R : Option Value → Type 0)
        → bytes_beq (codes "messages") other ≡ false
        → Spares Bad (mask_messages f each_message) (λ v. R (get other v))
    unfolding refuse
    messages-Spares other R differs v w q = elim (messages-cases v w) [
      | inl e ↦
          subst (λ (r : Value × Walked S). R (get other r.0)) (sym e)
            (on_field-Spares_other Bad (codes "messages") other
              (on_items (unless_refused each_message)) R differs v w q)
      | inr (reason, e) ↦ subst (λ (r : Value × Walked S). R (get other r.0)) (sym e) q
    ]

  abbrev tools_walk : Walk S
  tools_walk = on_field (codes "tools") (on_items (λ pos. mask_tool f))

  tools-Keeps : Keeps Bad tools_walk
  tools-Keeps =
      on_field-Keeps Bad (codes "tools") (on_items (λ pos. mask_tool f))
        (on_items-Keeps Bad (λ pos. mask_tool f) (λ n. tool-Keeps))

  pub mask_request-Keeps : Keeps Bad (mask_request f)
  unfolding mask_request
  mask_request-Keeps =
      both-Keeps Bad (mask_messages f (mask_message f)) tools_walk
        (messages-Keeps (mask_message f) (message-Keeps f Bad P law)) tools-Keeps

  request-messages :
      (Q : Value → Type 0)
      → Gives Bad (mask_message f) Q
      → Gives Bad (mask_request f) (λ v. OnSome (OnItems Q) (get (codes "messages") v))
  unfolding mask_request bytes_beq
  request-messages Q gg =
      both-Gives_first Bad (mask_messages f (mask_message f)) tools_walk
        (λ v. OnSome (OnItems Q) (get (codes "messages") v))
        (messages-Gives (mask_message f) (message-Keeps f Bad P law) Q gg) tools-Keeps
        (on_field-Spares_other Bad (codes "tools") (codes "messages")
          (on_items (λ pos. mask_tool f)) (OnSome (OnItems Q)) refl)

  request-tools :
      (C Q : Value → Type 0)
      → GivesIf Bad (mask_tool f) C Q
      → GivesIf Bad
          (mask_request f)
          (λ v. OnSome (OnItems C) (get (codes "tools") v))
          (λ v. OnSome (OnItems Q) (get (codes "tools") v))
  unfolding mask_request bytes_beq
  request-tools C Q gg =
      both-GivesIf_second Bad (mask_messages f (mask_message f)) tools_walk
        (λ v. OnSome (OnItems C) (get (codes "tools") v))
        (λ v. OnSome (OnItems Q) (get (codes "tools") v))
        (messages-Spares (mask_message f) (message-Keeps f Bad P law) (codes "tools")
          (OnSome (OnItems C)) refl)
        (on_field-GivesIf Bad (codes "tools") (on_items (λ pos. mask_tool f)) (OnItems C)
          (OnItems Q) (on_items-GivesIf Bad (λ pos. mask_tool f) C Q (λ n. tool-Keeps) (λ n. gg)))

  content_own : (v : Value) → AtContent f Bad P law v → AtSelf f Bad P law v
  content_own v c = c.0

  content_strings : (v : Value) → AtContent f Bad P law v → OnItems (AtSelf f Bad P law) v
  content_strings v c = OnItems-imp (λ x q. q.0) v c.1

  content_texts : (v : Value) → AtContent f Bad P law v → OnItems (TextField f Bad P law) v
  content_texts v c = OnItems-imp (λ x q. q.1) v c.1

  abbrev Named : Value → Type 0
  Named x = OnSome (AtSelf f Bad P law) (get (codes "name") x)

  abbrev Called : Value → Type 0
  Called x = OnSome (OnItems (Call f Bad P law)) (get (codes "tool_calls") x)

  abbrev Legacy : Value → Type 0
  Legacy x = OnSome (Arguments f Bad P law) (get (codes "function_call") x)

  abbrev AtMessage : (Value → Type 0) → Value → Type 0
  AtMessage Q v = OnSome Q (get (codes "content") v)

  -- After the walk over a chat-completions request, whatever its shape, each text at each of the documented
  -- paths, with every `description` at any depth of a tool's parameters, has the property that the masking of
  -- one text gives, or the request is blocked; if in the parameters of the tools of that request no
  -- description stands below a value that is itself under the key `description`.
  pub mask_request-Covered :
      (v : Value) (w : Walked S)
      → PlainTools v
      → Blocked Bad (mask_request f v w).1 ⊎ Covered P openai_paths (mask_request f v w).0
  unfolding Along
  mask_request-Covered v w plain =
      also
        (request-messages (AtMessage (AtSelf f Bad P law))
          (message-content f Bad P law (AtSelf f Bad P law) content_own) v w)
        (also
          (request-messages (AtMessage (OnItems (AtSelf f Bad P law)))
            (message-content f Bad P law (OnItems (AtSelf f Bad P law)) content_strings) v w)
          (also
            (request-messages (AtMessage (OnItems (TextField f Bad P law)))
              (message-content f Bad P law (OnItems (TextField f Bad P law)) content_texts) v w)
            (also (request-messages Named (message-name f Bad P law) v w) (
              also (request-messages Called (message-tool_calls f Bad P law) v w) (
                also (request-messages Legacy (message-function_call f Bad P law) v w) (
                  also
                    (request-tools PlainTool (λ x. OnSome Described (get (codes "function") x))
                      (λ x y c. tool-description x y) v w plain)
                    (also
                      (request-tools PlainTool (λ x. OnSome Parametrized (get (codes "function") x))
                        tool-parameters v w plain)
                      (inr tt))))))))
