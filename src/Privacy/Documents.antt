-- ===== src/Privacy/Documents.antt =====
-- The texts of a content block: of each type of block that bears text, and of a document with its source.
use llm_proxy_pii_rust.Prelude.{
  ◌≡◌, refl, ◌∙◌, Option, none, some, Bytes, bytes_eq, bytes_beq, codes,
}
use llm_proxy_pii_rust.Json.{Value, get, on_field}
use llm_proxy_pii_rust.Privacy.{refuse, both, transform_string_value}
use llm_proxy_pii_rust.Privacy.Anthropic.{
  SourceType, text_source, content_source, base64, url, source_type, mask_content_block_array,
  mask_source_typed, mask_source, mask_anthropic_document,
}
use llm_proxy_pii_rust.Privacy.Paths.{OnSome}
use llm_proxy_pii_rust.Privacy.Walks.{
  Walk, Keeps, Gives, Spares, also, refuse-Keeps, both-Keeps, both-Gives_first, both-Gives_second,
  both-Spares, on_field-Keeps, on_field-Gives, on_field-Spares_other,
}
use llm_proxy_pii_rust.Privacy.Texts.{Promises}
use llm_proxy_pii_rust.Privacy.Content.{
  AtSelf, string_field-Keeps, string_field-Gives, on_field-Spares_own,
}
use llm_proxy_pii_rust.Privacy.Blocks.{
  IfTyped, TypeStays, refuse-TypeStays, on_field-TypeStays, dispatch-Gives, Blocks, NestedText,
  nested-Keeps, nested-Gives, type_of,
}

module _ {S : Type 0} (f : Bytes → S → Bytes × S) (Bad : S → Type 0) (P : Bytes → Type 0)
    (law : Promises f Bad P) where
  both-TypeStays : (g h : Walk S) → TypeStays g → TypeStays h → TypeStays (both g h)
  both-TypeStays g h sg sh v w =
      both-Spares Bad g h (λ x. get (codes "type") x ≡ get (codes "type") v) (λ x u q. sg x u ∙ q)
        (λ x u q. sh x u ∙ q) v w refl

  source_typed-TypeStays : (o : Option SourceType) → TypeStays (mask_source_typed f o)
  unfolding mask_source_typed bytes_beq
  source_typed-TypeStays (some text_source) v w =
      on_field-TypeStays Bad (codes "data") (transform_string_value f) refl v w
  source_typed-TypeStays (some content_source) v w =
      on_field-TypeStays Bad (codes "content") (mask_content_block_array f) refl v w
  source_typed-TypeStays (some base64) v w = refl
  source_typed-TypeStays (some url) v w = refl
  source_typed-TypeStays none v w =
      refuse-TypeStays Bad (codes "unknown Anthropic document source type") v w

  source_typed-Keeps : (o : Option SourceType) → Keeps Bad (mask_source_typed f o)
  unfolding mask_source_typed
  source_typed-Keeps (some text_source) v w b = string_field-Keeps f Bad P law (codes "data") v w b
  source_typed-Keeps (some content_source) v w b =
      on_field-Keeps Bad (codes "content") (mask_content_block_array f) (nested-Keeps f Bad P law) v
        w b
  source_typed-Keeps (some base64) v w b = b
  source_typed-Keeps (some url) v w b = b
  source_typed-Keeps none v w b = refuse-Keeps Bad _ v w b

  by_source : Option Bytes → Walk S
  unfolding mask_source_typed
  by_source o source w = elim o [
    | some name ↦ mask_source_typed f (source_type name) source w
    | none ↦ refuse (codes "Anthropic document `source` has no `type`") source w
  ]

  by_source-TypeStays : (o : Option Bytes) → TypeStays (by_source o)
  unfolding by_source
  by_source-TypeStays (some name) v w = source_typed-TypeStays (source_type name) v w
  by_source-TypeStays none v w =
      refuse-TypeStays Bad (codes "Anthropic document `source` has no `type`") v w

  by_source-Keeps : (o : Option Bytes) → Keeps Bad (by_source o)
  unfolding by_source
  by_source-Keeps (some name) v w b = source_typed-Keeps (source_type name) v w b
  by_source-Keeps none v w b = refuse-Keeps Bad _ v w b

  source-Keeps : Keeps Bad (mask_source f)
  unfolding mask_source by_source
  source-Keeps v w b = by_source-Keeps (type_of v) v w b

  abbrev pub SourceData : Value → Type 0
  SourceData = IfTyped (codes "text") (λ x. OnSome (AtSelf f Bad P law) (get (codes "data") x))

  abbrev pub AtNested : Value → Type 0
  AtNested = Blocks f Bad P law (NestedText f Bad P law)

  abbrev pub SourceContent : Value → Type 0
  SourceContent = IfTyped (codes "content") (λ x. OnSome AtNested (get (codes "content") x))

  source-Gives : Gives Bad (mask_source f) (λ v. SourceData v × SourceContent v)
  unfolding mask_source by_source mask_source_typed source_type bytes_beq
  source-Gives v w =
      also
        (dispatch-Gives Bad by_source (codes "text")
          (λ x. OnSome (AtSelf f Bad P law) (get (codes "data") x)) by_source-TypeStays
          (λ x u. string_field-Gives f Bad P law (codes "data") x u) v w)
        (dispatch-Gives Bad by_source (codes "content")
          (λ x. OnSome AtNested (get (codes "content") x)) by_source-TypeStays
          (λ x u.
            on_field-Gives Bad (codes "content") (mask_content_block_array f) AtNested
              (nested-Gives f Bad P law) x u)
          v w)

  abbrev pub AtSource : Value → Type 0
  AtSource s = SourceData s × SourceContent s

  abbrev title_walk : Walk S
  title_walk = on_field (codes "title") (transform_string_value f)

  abbrev context_walk : Walk S
  context_walk = on_field (codes "context") (transform_string_value f)

  abbrev source_walk : Walk S
  source_walk = on_field (codes "source") (mask_source f)

  source_walk-Keeps : Keeps Bad source_walk
  source_walk-Keeps = on_field-Keeps Bad (codes "source") (mask_source f) source-Keeps

  rest-Keeps : Keeps Bad (both context_walk source_walk)
  rest-Keeps =
      both-Keeps Bad context_walk source_walk (string_field-Keeps f Bad P law (codes "context"))
        source_walk-Keeps

  pub document-Keeps : Keeps Bad (mask_anthropic_document f)
  unfolding mask_anthropic_document
  document-Keeps =
      both-Keeps Bad title_walk (both context_walk source_walk)
        (string_field-Keeps f Bad P law (codes "title")) rest-Keeps

  pub document-TypeStays : TypeStays (mask_anthropic_document f)
  unfolding mask_anthropic_document bytes_beq
  document-TypeStays =
      both-TypeStays title_walk (both context_walk source_walk)
        (on_field-TypeStays Bad (codes "title") (transform_string_value f) refl)
        (both-TypeStays context_walk source_walk
          (on_field-TypeStays Bad (codes "context") (transform_string_value f) refl)
          (on_field-TypeStays Bad (codes "source") (mask_source f) refl))

  pub document-Spares_own : Spares Bad (mask_anthropic_document f) (AtSelf f Bad P law)
  unfolding mask_anthropic_document
  document-Spares_own =
      both-Spares Bad title_walk (both context_walk source_walk) (AtSelf f Bad P law)
        (on_field-Spares_own f Bad P law (codes "title") (transform_string_value f))
        (both-Spares Bad context_walk source_walk (AtSelf f Bad P law)
          (on_field-Spares_own f Bad P law (codes "context") (transform_string_value f))
          (on_field-Spares_own f Bad P law (codes "source") (mask_source f)))

  abbrev Field : Bytes → (Value → Type 0) → Value → Type 0
  Field k Q x = OnSome Q (get k x)

  abbrev pub AtDocument : Value → Type 0
  AtDocument x =
      Field (codes "title") (AtSelf f Bad P law) x
      × (Field (codes "context") (AtSelf f Bad P law) x × Field (codes "source") AtSource x)

  title-Gives : Gives Bad (mask_anthropic_document f) (Field (codes "title") (AtSelf f Bad P law))
  unfolding mask_anthropic_document bytes_beq
  title-Gives =
      both-Gives_first Bad title_walk (both context_walk source_walk)
        (Field (codes "title") (AtSelf f Bad P law))
        (string_field-Gives f Bad P law (codes "title")) rest-Keeps
        (both-Spares Bad context_walk source_walk (Field (codes "title") (AtSelf f Bad P law))
          (on_field-Spares_other Bad (codes "context") (codes "title") (transform_string_value f)
            (OnSome (AtSelf f Bad P law)) refl)
          (on_field-Spares_other Bad (codes "source") (codes "title") (mask_source f)
            (OnSome (AtSelf f Bad P law)) refl))

  context-Gives :
      Gives Bad (mask_anthropic_document f) (Field (codes "context") (AtSelf f Bad P law))
  unfolding mask_anthropic_document bytes_beq
  context-Gives =
      both-Gives_second Bad title_walk (both context_walk source_walk)
        (Field (codes "context") (AtSelf f Bad P law))
        (both-Gives_first Bad context_walk source_walk
          (Field (codes "context") (AtSelf f Bad P law))
          (string_field-Gives f Bad P law (codes "context")) source_walk-Keeps
          (on_field-Spares_other Bad (codes "source") (codes "context") (mask_source f)
            (OnSome (AtSelf f Bad P law)) refl))

  document_source-Gives : Gives Bad (mask_anthropic_document f) (Field (codes "source") AtSource)
  unfolding mask_anthropic_document
  document_source-Gives =
      both-Gives_second Bad title_walk (both context_walk source_walk)
        (Field (codes "source") AtSource)
        (both-Gives_second Bad context_walk source_walk (Field (codes "source") AtSource)
          (on_field-Gives Bad (codes "source") (mask_source f) AtSource source-Gives))

  pub document-Gives : Gives Bad (mask_anthropic_document f) AtDocument
  document-Gives v w = also (title-Gives v w) (also (context-Gives v w) (document_source-Gives v w))
