-- ===== src/Privacy/Typed.antt =====
-- The texts of a block of a native message, and of its content.
use llm_proxy_pii_rust.Prelude.{
  ◌≡◌, refl, sym, subst, ◌⊎◌, inr, Option, none, some, Bytes, bytes_eq, bytes_beq, codes, All,
}
use llm_proxy_pii_rust.Json.{Value, null, bool, number, other_number, string, array, object, get}
use llm_proxy_pii_rust.Privacy.{
  Walked, refuse, unless_refused, transform_string_value, transform_string_leaves,
}
use llm_proxy_pii_rust.Privacy.Anthropic.{
  BlockType, text, tool_use, tool_result, thinking, document, image, redacted_thinking, block_type,
  mask_content_block_array, mask_typed, mask_anthropic_block, mask_anthropic_content,
}
use llm_proxy_pii_rust.Privacy.Paths.{own_text, leaves_of, OnSome}
use llm_proxy_pii_rust.Privacy.Walks.{
  Walk, Blocked, Keeps, Gives, Spares, also, refuse-Keeps, refuse-Gives, on_field-Keeps,
  on_field-Gives,
}
use llm_proxy_pii_rust.Privacy.Texts.{
  Promises, string-Keeps, string-Gives, leaves-Keeps, leaves-Gives,
}
use llm_proxy_pii_rust.Privacy.Content.{
  AtSelf, string_field-Keeps, string_field-Gives, on_field-Spares_own, string_stays, array_stays,
  parts-Keeps, parts-Gives,
}
use llm_proxy_pii_rust.Privacy.Blocks.{
  IfTyped, TypeStays, refuse-TypeStays, on_field-TypeStays, dispatch-Gives, refuse-Spares,
  BlockWith, Blocks, nested-Keeps, nested-Gives, string_IfTyped, type_of,
}
use llm_proxy_pii_rust.Privacy.Documents.{
  AtNested, AtDocument, document-Keeps, document-TypeStays, document-Spares_own, document-Gives,
}

module _ {S : Type 0} (f : Bytes → S → Bytes × S) (Bad : S → Type 0) (P : Bytes → Type 0)
    (law : Promises f Bad P) where
  typed-TypeStays : (o : Option BlockType) → TypeStays (mask_typed f o)
  unfolding mask_typed bytes_beq
  typed-TypeStays (some text) =
      on_field-TypeStays Bad (codes "text") (transform_string_value f) refl
  typed-TypeStays (some tool_use) =
      on_field-TypeStays Bad (codes "input") (transform_string_leaves f) refl
  typed-TypeStays (some tool_result) =
      on_field-TypeStays Bad (codes "content") (mask_content_block_array f) refl
  typed-TypeStays (some thinking) =
      on_field-TypeStays Bad (codes "thinking") (transform_string_value f) refl
  typed-TypeStays (some document) = document-TypeStays f Bad P law
  typed-TypeStays (some image) = λ v w. refl
  typed-TypeStays (some redacted_thinking) = λ v w. refl
  typed-TypeStays none = refuse-TypeStays Bad (codes "unknown Anthropic content block type")

  typed-Keeps : (o : Option BlockType) → Keeps Bad (mask_typed f o)
  unfolding mask_typed
  typed-Keeps (some text) = string_field-Keeps f Bad P law (codes "text")
  typed-Keeps (some tool_use) =
      on_field-Keeps Bad (codes "input") (transform_string_leaves f) (leaves-Keeps f Bad P law)
  typed-Keeps (some tool_result) =
      on_field-Keeps Bad (codes "content") (mask_content_block_array f) (nested-Keeps f Bad P law)
  typed-Keeps (some thinking) = string_field-Keeps f Bad P law (codes "thinking")
  typed-Keeps (some document) = document-Keeps f Bad P law
  typed-Keeps (some image) = λ v w b. b
  typed-Keeps (some redacted_thinking) = λ v w b. b
  typed-Keeps none = refuse-Keeps Bad (codes "unknown Anthropic content block type")

  typed-Spares_own : (o : Option BlockType) → Spares Bad (mask_typed f o) (AtSelf f Bad P law)
  unfolding mask_typed
  typed-Spares_own (some text) =
      on_field-Spares_own f Bad P law (codes "text") (transform_string_value f)
  typed-Spares_own (some tool_use) =
      on_field-Spares_own f Bad P law (codes "input") (transform_string_leaves f)
  typed-Spares_own (some tool_result) =
      on_field-Spares_own f Bad P law (codes "content") (mask_content_block_array f)
  typed-Spares_own (some thinking) =
      on_field-Spares_own f Bad P law (codes "thinking") (transform_string_value f)
  typed-Spares_own (some document) = document-Spares_own f Bad P law
  typed-Spares_own (some image) = λ v w q. q
  typed-Spares_own (some redacted_thinking) = λ v w q. q
  typed-Spares_own none =
      refuse-Spares f Bad P law (codes "unknown Anthropic content block type") (AtSelf f Bad P law)

  -- The walk that the `type` of an object asks for.
  by_type : Option Bytes → Walk S
  unfolding mask_typed
  by_type o v w = elim o [
    | some name ↦ mask_typed f (block_type name) v w
    | none ↦ refuse (codes "Anthropic content block has no `type`") v w
  ]

  by_type-TypeStays : (o : Option Bytes) → TypeStays (by_type o)
  unfolding by_type
  by_type-TypeStays (some name) = typed-TypeStays (block_type name)
  by_type-TypeStays none = refuse-TypeStays Bad (codes "Anthropic content block has no `type`")

  by_type-Keeps : (o : Option Bytes) → Keeps Bad (by_type o)
  unfolding by_type
  by_type-Keeps (some name) = typed-Keeps (block_type name)
  by_type-Keeps none = refuse-Keeps Bad (codes "Anthropic content block has no `type`")

  by_type-Spares_own : (o : Option Bytes) → Spares Bad (by_type o) (AtSelf f Bad P law)
  unfolding by_type
  by_type-Spares_own (some name) = typed-Spares_own (block_type name)
  by_type-Spares_own none =
      refuse-Spares f Bad P law (codes "Anthropic content block has no `type`") (AtSelf f Bad P law)

  -- What the walk for a type gives, the walk over a block gives a block of that type.
  typed-Gives :
      (name : Bytes) (t : BlockType) (Q : Value → Type 0)
      → block_type name ≡ some t
      → Gives Bad (mask_typed f (some t)) Q
      → Gives Bad (λ v w. by_type (type_of v) v w) (IfTyped name Q)
  unfolding by_type
  typed-Gives name t Q e gg = dispatch-Gives Bad by_type name Q by_type-TypeStays (λ v w.
      subst
        (λ (o : Option BlockType). Blocked Bad (mask_typed f o v w).1 ⊎ Q (mask_typed f o v w).0)
        (sym e) (gg v w))

  abbrev pub OwnField : Bytes → Value → Type 0
  OwnField k x = OnSome (AtSelf f Bad P law) (get k x)

  abbrev pub Input : Value → Type 0
  Input x = OnSome (λ v. All P (leaves_of v)) (get (codes "input") x)

  abbrev pub Result : Value → Type 0
  Result x = OnSome (AtNested f Bad P law) (get (codes "content") x)

  -- What a block has, by its type.
  abbrev pub ByType : Value → Type 0
  ByType x =
      IfTyped (codes "text") (OwnField (codes "text")) x
      × (IfTyped (codes "tool_use") Input x
          × (IfTyped (codes "tool_result") Result x
              × (IfTyped (codes "thinking") (OwnField (codes "thinking")) x
                  × IfTyped (codes "document") (AtDocument f Bad P law) x)))

  by_type-Gives : Gives Bad (λ v w. by_type (type_of v) v w) ByType
  unfolding mask_typed block_type bytes_beq
  by_type-Gives v w =
      also
        (typed-Gives (codes "text") text (OwnField (codes "text")) refl
          (string_field-Gives f Bad P law (codes "text")) v w)
        (also
          (typed-Gives (codes "tool_use") tool_use Input refl
            (on_field-Gives Bad (codes "input") (transform_string_leaves f)
              (λ x. All P (leaves_of x)) (leaves-Gives f Bad P law))
            v w)
          (also
            (typed-Gives (codes "tool_result") tool_result Result refl
              (on_field-Gives Bad (codes "content") (mask_content_block_array f)
                (AtNested f Bad P law) (nested-Gives f Bad P law))
              v w)
            (also
              (typed-Gives (codes "thinking") thinking (OwnField (codes "thinking")) refl
                (string_field-Gives f Bad P law (codes "thinking")) v w)
              (typed-Gives (codes "document") document (AtDocument f Bad P law) refl
                (document-Gives f Bad P law) v w))))

  block-Keeps : Keeps Bad (mask_anthropic_block f)
  unfolding mask_anthropic_block by_type
  block-Keeps (string s) w b = string-Keeps f Bad P law (string s) w b
  block-Keeps (object fs) w b = by_type-Keeps (type_of (object fs)) (object fs) w b
  block-Keeps (array xs) w b = refuse-Keeps Bad _ (array xs) w b
  block-Keeps null w b = refuse-Keeps Bad _ null w b
  block-Keeps (bool c) w b = refuse-Keeps Bad _ (bool c) w b
  block-Keeps (number n) w b = refuse-Keeps Bad _ (number n) w b
  block-Keeps (other_number n) w b = refuse-Keeps Bad _ (other_number n) w b

  string_ByType : (s : Bytes) (w : Walked S) → ByType (transform_string_value f (string s) w).0
  string_ByType s w = (
    string_IfTyped f Bad P law (codes "text") (OwnField (codes "text")) s w,
    (
      string_IfTyped f Bad P law (codes "tool_use") Input s w,
      (
        string_IfTyped f Bad P law (codes "tool_result") Result s w,
        (
          string_IfTyped f Bad P law (codes "thinking") (OwnField (codes "thinking")) s w,
          string_IfTyped f Bad P law (codes "document") (AtDocument f Bad P law) s w,
        ),
      ),
    ),
  )

  abbrev pub NativeBlock : Value → Type 0
  NativeBlock = BlockWith f Bad P law ByType

  block-Gives : Gives Bad (mask_anthropic_block f) NativeBlock
  unfolding mask_anthropic_block by_type own_text
  block-Gives (string s) w = also (string-Gives f Bad P law (string s) w) (inr (string_ByType s w))
  block-Gives (object fs) w =
      also (inr (by_type-Spares_own (type_of (object fs)) (object fs) w tt))
        (by_type-Gives (object fs) w)
  block-Gives (array xs) w = refuse-Gives Bad _ NativeBlock (array xs) w
  block-Gives null w = refuse-Gives Bad _ NativeBlock null w
  block-Gives (bool c) w = refuse-Gives Bad _ NativeBlock (bool c) w
  block-Gives (number n) w = refuse-Gives Bad _ NativeBlock (number n) w
  block-Gives (other_number n) w = refuse-Gives Bad _ NativeBlock (other_number n) w

  pub native-Keeps : Keeps Bad (mask_anthropic_content f)
  unfolding mask_anthropic_content
  native-Keeps (string s) w b = string-Keeps f Bad P law (string s) w b
  native-Keeps (array xs) w b =
      parts-Keeps f Bad P law (mask_anthropic_block f) block-Keeps (array xs) w b
  native-Keeps null w b = b
  native-Keeps (object fs) w b = refuse-Keeps Bad _ (object fs) w b
  native-Keeps (bool c) w b = refuse-Keeps Bad _ (bool c) w b
  native-Keeps (number n) w b = refuse-Keeps Bad _ (number n) w b
  native-Keeps (other_number n) w b = refuse-Keeps Bad _ (other_number n) w b

  -- A string, or an array of blocks.
  abbrev pub AtNative : Value → Type 0
  AtNative = Blocks f Bad P law ByType

  pub native-Gives : Gives Bad (mask_anthropic_content f) AtNative
  unfolding mask_anthropic_content own_text
  native-Gives (string s) w =
      also (string-Gives f Bad P law (string s) w) (inr (string_stays f Bad P law s w NativeBlock))
  native-Gives (array xs) w =
      also (inr (array_stays f Bad P law (unless_refused (mask_anthropic_block f)) xs w)) (
        parts-Gives f Bad P law (mask_anthropic_block f) NativeBlock block-Keeps block-Gives
          (array xs) w)
  native-Gives null w = inr (tt, tt)
  native-Gives (object fs) w = refuse-Gives Bad _ AtNative (object fs) w
  native-Gives (bool c) w = refuse-Gives Bad _ AtNative (bool c) w
  native-Gives (number n) w = refuse-Gives Bad _ AtNative (number n) w
  native-Gives (other_number n) w = refuse-Gives Bad _ AtNative (other_number n) w
