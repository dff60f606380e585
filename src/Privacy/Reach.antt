-- ===== src/Privacy/Reach.antt =====
-- The walk over a native request reaches every text that the source lists, also those in nested blocks.
use llm_proxy_pii_rust.Prelude.{◌⊎◌, inl, inr, Option, List, [], ◌∷◌, Bytes, bytes_eq, codes}
use llm_proxy_pii_rust.Json.{Value, get}
use llm_proxy_pii_rust.Privacy.{Walked}
use llm_proxy_pii_rust.Privacy.Anthropic.{mask_anthropic_request}
use llm_proxy_pii_rust.Privacy.Paths.{
  at_leaf, OnSome, OnSome-imp, OnItems-imp, Step, key, each, typed, Leaf, text, leaves,
  descriptions, Along, Covered, anthropic_paths, PlainNativeTools,
}
use llm_proxy_pii_rust.Privacy.Walks.{Blocked, also}
use llm_proxy_pii_rust.Privacy.Texts.{Promises}
use llm_proxy_pii_rust.Privacy.Documents.{AtNested, AtSource, AtDocument}
use llm_proxy_pii_rust.Privacy.Native.{
  AtSystem, AtMessages, AtTools, Systems, Described, Schema, request_system, request_messages,
  request_tools,
}
use llm_proxy_pii_rust.Privacy.Typed.{AtNative, ByType}

module _ {S : Type 0} (f : Bytes → S → Bytes × S) (Bad : S → Type 0) (P : Bytes → Type 0)
    (law : Promises f Bad P) where
  -- What each of the three fields has, along one path.
  system-Along :
      (steps : List Step) (leaf : Leaf)
      → ((x : Value) → AtSystem f Bad P law x → Along P steps leaf x)
      → (v : Value) → Systems f Bad P law v
      → Along P (key (codes "system") ∷ steps) leaf v
  unfolding Along
  system-Along steps leaf h v q = OnSome-imp h (get (codes "system") v) q

  content-Along :
      (steps : List Step) (leaf : Leaf)
      → ((x : Value) → AtNative f Bad P law x → Along P steps leaf x)
      → (v : Value) → AtMessages f Bad P law v
      → Along P (key (codes "messages") ∷ each ∷ key (codes "content") ∷ steps) leaf v
  unfolding Along
  content-Along steps leaf h v q =
      OnSome-imp (λ ms r. OnItems-imp (λ m o. OnSome-imp h (get (codes "content") m) o) ms r)
        (get (codes "messages") v) q

  block-Along :
      (steps : List Step) (leaf : Leaf)
      → ((x : Value) → ByType f Bad P law x → Along P steps leaf x)
      → (v : Value) → AtMessages f Bad P law v
      → Along P (key (codes "messages") ∷ each ∷ key (codes "content") ∷ each ∷ steps) leaf v
  unfolding Along
  block-Along steps leaf h =
      content-Along (each ∷ steps) leaf (λ c q. OnItems-imp (λ x r. h x r.1) c q.1)

  tool-Along :
      (steps : List Step) (leaf : Leaf)
      → ((x : Value) → Described f Bad P law x × Schema f Bad P law x → Along P steps leaf x)
      → (v : Value) → AtTools f Bad P law v
      → Along P (key (codes "tools") ∷ each ∷ steps) leaf v
  unfolding Along
  tool-Along steps leaf h v q = OnSome-imp (λ ts r. OnItems-imp h ts r) (get (codes "tools") v) q

  -- The string, the strings and the texts of a nested content array.
  nested_own : (o : Option Value) → OnSome (AtNested f Bad P law) o → OnSome (Along P [] text) o
  unfolding Along at_leaf
  nested_own = OnSome-imp (λ x q. q.0)

  nested_strings :
      (o : Option Value) → OnSome (AtNested f Bad P law) o → OnSome (Along P (each ∷ []) text) o
  unfolding Along at_leaf
  nested_strings = OnSome-imp (λ x q. OnItems-imp (λ y r. r.0) x q.1)

  nested_texts :
      (o : Option Value)
      → OnSome (AtNested f Bad P law) o
      → OnSome (Along P (each ∷ typed (codes "text") ∷ key (codes "text") ∷ []) text) o
  unfolding Along at_leaf
  nested_texts = OnSome-imp (λ x q. OnItems-imp (λ y r. r.1) x q.1)

  from_system :
      (v : Value)
      → Systems f Bad P law v
      → Along P (key (codes "system") ∷ []) text v
        × Along P (key (codes "system") ∷ each ∷ key (codes "text") ∷ []) text v
  unfolding Along at_leaf
  from_system v q = (
    system-Along [] text (λ x r. r.0) v q,
    system-Along (each ∷ key (codes "text") ∷ []) text (λ x r. r.1) v q,
  )

  abbrev In : List Step → Leaf → Value → Type 0
  In steps leaf v = Along P (key (codes "messages") ∷ each ∷ key (codes "content") ∷ steps) leaf v

  from_content : (v : Value) → AtMessages f Bad P law v → In [] text v × In (each ∷ []) text v
  unfolding Along at_leaf
  from_content v q = (
    content-Along [] text (λ x r. r.0) v q,
    content-Along (each ∷ []) text (λ c r. OnItems-imp (λ x o. o.0) c r.1) v q,
  )

  from_typed :
      (v : Value)
      → AtMessages f Bad P law v
      → In (each ∷ typed (codes "text") ∷ key (codes "text") ∷ []) text v
        × (In (each ∷ typed (codes "tool_use") ∷ key (codes "input") ∷ []) leaves v
            × In (each ∷ typed (codes "thinking") ∷ key (codes "thinking") ∷ []) text v)
  unfolding Along at_leaf
  from_typed v q = (
    block-Along (typed (codes "text") ∷ key (codes "text") ∷ []) text (λ x r. r.0) v q,
    (
      block-Along (typed (codes "tool_use") ∷ key (codes "input") ∷ []) leaves (λ x r. r.1.0) v q,
      block-Along (typed (codes "thinking") ∷ key (codes "thinking") ∷ []) text (λ x r. r.1.1.1.0) v
          q,
    ),
  )

  abbrev nested_text : List Step
  nested_text = each ∷ typed (codes "text") ∷ key (codes "text") ∷ []

  from_result :
      (v : Value)
      → AtMessages f Bad P law v
      → In (each ∷ typed (codes "tool_result") ∷ key (codes "content") ∷ []) text v
        × (In (each ∷ typed (codes "tool_result") ∷ key (codes "content") ∷ each ∷ []) text v
            × In (each ∷ typed (codes "tool_result") ∷ key (codes "content") ∷ nested_text) text v)
  unfolding Along
  from_result v q = (
    block-Along (typed (codes "tool_result") ∷ key (codes "content") ∷ []) text
        (λ x r e. nested_own (get (codes "content") x) (r.1.1.0 e)) v q,
    (
      block-Along (typed (codes "tool_result") ∷ key (codes "content") ∷ each ∷ []) text
          (λ x r e. nested_strings (get (codes "content") x) (r.1.1.0 e)) v q,
      block-Along (typed (codes "tool_result") ∷ key (codes "content") ∷ nested_text) text
          (λ x r e. nested_texts (get (codes "content") x) (r.1.1.0 e)) v q,
    ),
  )

  abbrev InDocument : List Step → Value → Type 0
  InDocument steps v = In (each ∷ typed (codes "document") ∷ steps) text v

  document-Along :
      (steps : List Step)
      → ((x : Value) → AtDocument f Bad P law x → Along P steps text x)
      → (v : Value) → AtMessages f Bad P law v
      → InDocument steps v
  unfolding Along
  document-Along steps h =
      block-Along (typed (codes "document") ∷ steps) text (λ x r e. h x (r.1.1.1.1 e))

  from_document :
      (v : Value)
      → AtMessages f Bad P law v
      → InDocument (key (codes "title") ∷ []) v × InDocument (key (codes "context") ∷ []) v
  unfolding Along at_leaf
  from_document v q = (
    document-Along (key (codes "title") ∷ []) (λ x d. d.0) v q,
    document-Along (key (codes "context") ∷ []) (λ x d. d.1.0) v q,
  )

  source-Along :
      (steps : List Step)
      → ((x : Value) → AtSource f Bad P law x → Along P steps text x)
      → (v : Value) → AtMessages f Bad P law v
      → InDocument (key (codes "source") ∷ steps) v
  unfolding Along
  source-Along steps h =
      document-Along (key (codes "source") ∷ steps)
        (λ x d. OnSome-imp h (get (codes "source") x) d.1.1)

  from_source :
      (v : Value)
      → AtMessages f Bad P law v
      → InDocument (key (codes "source") ∷ typed (codes "text") ∷ key (codes "data") ∷ []) v
        × (InDocument
              (key (codes "source") ∷ typed (codes "content") ∷ key (codes "content") ∷ [])
              v
            × (InDocument
                  (key (codes "source")
                    ∷ typed (codes "content")
                    ∷ key (codes "content")
                    ∷ each
                    ∷ [])
                  v
                × InDocument
                    (key (codes "source")
                      ∷ typed (codes "content")
                      ∷ key (codes "content")
                      ∷ nested_text)
                    v))
  unfolding Along at_leaf
  from_source v q = (
    source-Along (typed (codes "text") ∷ key (codes "data") ∷ []) (λ x s. s.0) v q,
    (
      source-Along (typed (codes "content") ∷ key (codes "content") ∷ [])
          (λ x s e. nested_own (get (codes "content") x) (s.1 e)) v q,
      (
        source-Along (typed (codes "content") ∷ key (codes "content") ∷ each ∷ [])
            (λ x s e. nested_strings (get (codes "content") x) (s.1 e)) v q,
        source-Along (typed (codes "content") ∷ key (codes "content") ∷ nested_text)
            (λ x s e. nested_texts (get (codes "content") x) (s.1 e)) v q,
      ),
    ),
  )

  from_tools :
      (v : Value)
      → AtTools f Bad P law v
      → Along P (key (codes "tools") ∷ each ∷ key (codes "description") ∷ []) text v
        × Along P (key (codes "tools") ∷ each ∷ key (codes "input_schema") ∷ []) descriptions v
  unfolding Along at_leaf
  from_tools v q = (
    tool-Along (key (codes "description") ∷ []) text (λ x r. r.0) v q,
    tool-Along (key (codes "input_schema") ∷ []) descriptions (λ x r. r.1) v q,
  )

  covered :
      (v : Value)
      → Systems f Bad P law v
      → AtMessages f Bad P law v
      → AtTools f Bad P law v
      → Covered P anthropic_paths v
  covered v s m t =
      let c = from_content v m in
      let b = from_typed v m in
      let r = from_result v m in
      let d = from_document v m in
      let o = from_source v m in
      let u = from_tools v t in
      (
        (from_system v s).0,
        (
          (from_system v s).1,
          (
            c.0,
            (
              c.1,
              (
                b.0,
                (
                  b.1.0,
                  (
                    r.0,
                    (
                      r.1.0,
                      (
                        r.1.1,
                        (
                          b.1.1,
                          (d.0, (d.1, (o.0, (o.1.0, (o.1.1.0, (o.1.1.1, (u.0, (u.1, tt)))))))),
                        ),
                      ),
                    ),
                  ),
                ),
              ),
            ),
          ),
        ),
      )

  -- After the walk over a native messages request, whatever its shape, each text at each of the documented
  -- paths, with every `description` at any depth of a tool's input schema, has the property that the masking
  -- of one text gives, or the request is blocked; if in the input schemas of the tools of that request no
  -- description stands below a value that is itself under the key `description`. A path goes into a block or
  -- a document source only where its `type` says so.
  pub mask_anthropic_request-Covered :
      (v : Value) (w : Walked S)
      → PlainNativeTools v
      → Blocked Bad (mask_anthropic_request f v w).1
        ⊎ Covered P anthropic_paths (mask_anthropic_request f v w).0
  mask_anthropic_request-Covered v w plain =
      elim (also (request_system f Bad P law v w)
        (also (request_messages f Bad P law v w) (request_tools f Bad P law v w plain))) [
          | inl b ↦ inl b
          | inr q ↦ inr (covered (mask_anthropic_request f v w).0 q.0 q.1.0 q.1.1)
        ]
