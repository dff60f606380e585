-- ===== src/Privacy/Blocks.antt =====
-- Walks that go by the `type` of a value, and the texts of a nested content array.
use llm_proxy_pii_rust.Prelude.{
  ◌≡◌, refl, sym, ap, ◌∙◌, subst, ◌⊎◌, inl, inr, false, Option, none, some, Bytes, bytes_eq,
  bytes_beq, bytes_beq_iff, codes, Bool-cases, arith,
}
use llm_proxy_pii_rust.Json.{
  Value, null, bool, number, other_number, string, array, object, get, as_str, on_field,
}
use llm_proxy_pii_rust.Privacy.{Walked, refuse, unless_refused, transform_string_value}
use llm_proxy_pii_rust.Privacy.Anthropic.{
  mask_nested_typed, mask_nested_block, mask_content_block_array,
}
use llm_proxy_pii_rust.Privacy.Paths.{own_text, OnItems}
use llm_proxy_pii_rust.Privacy.Walks.{
  Walk, Blocked, Keeps, Gives, Spares, also, refuse-Keeps, refuse-Gives, on_field-Spares_other,
}
use llm_proxy_pii_rust.Privacy.Texts.{Promises, string-Keeps, string-Gives}
use llm_proxy_pii_rust.Privacy.Content.{
  AtSelf, TextField, string_field-Keeps, string_field-Gives, on_field-Spares_own, string_stays,
  array_stays, parts-Keeps, parts-Gives,
}

-- The `type` of a value, if it is a text.
abbrev pub type_of : Value → Option Bytes
type_of v = as_str (get (codes "type") v)

-- The value has the property if its `type` is the given one.
abbrev pub IfTyped : Bytes → (Value → Type 0) → Value → Type 0
IfTyped name Q v = type_of v ≡ some name → Q v

-- The walk does not change the `type`.
module _ {S : Type 0} where
  abbrev pub TypeStays : Walk S → Type 0
  TypeStays g = (v : Value) (w : Walked S) → get (codes "type") (g v w).0 ≡ get (codes "type") v

module _ {S : Type 0} (Bad : S → Type 0) where
  pub refuse-TypeStays : (reason : Bytes) → TypeStays {S = S} (refuse reason)
  unfolding refuse
  refuse-TypeStays reason v w = refl

  pub on_field-TypeStays :
      (k : Bytes) (g : Walk S) → bytes_beq k (codes "type") ≡ false → TypeStays (on_field k g)
  on_field-TypeStays k g e v w =
      on_field-Spares_other Bad k (codes "type") g (λ o. o ≡ get (codes "type") v) e v w refl

  -- A walk that goes by the type of the value gives what the walk for that type gives.
  pub dispatch-Gives :
      (g : Option Bytes → Walk S) (name : Bytes) (Q : Value → Type 0)
      → ((o : Option Bytes) → TypeStays (g o))
      → Gives Bad (g (some name)) Q
      → Gives Bad (λ v w. g (type_of v) v w) (IfTyped name Q)
  dispatch-Gives g name Q stays gg v w = from (type_of v) refl
    where
      other :
          (o : Option Bytes)
          → type_of v ≡ o
          → (o ≡ some name → ⊥)
          → Blocked Bad (g o v w).1 ⊎ IfTyped name Q (g o v w).0
      other o e ne = inr (λ h. absurd (ne (sym e ∙ sym (ap as_str (stays o v w)) ∙ h)))

      from :
          (o : Option Bytes) → type_of v ≡ o → Blocked Bad (g o v w).1 ⊎ IfTyped name Q (g o v w).0
      from none e = other none e (λ h. absurd (cc))
      from (some n) e = elim (Bool-cases (bytes_beq n name)) [
        | inl same ↦
            subst (λ (o : Option Bytes). Blocked Bad (g o v w).1 ⊎ IfTyped name Q (g o v w).0)
              (sym (ap (λ (t : Bytes). some t) ((bytes_beq_iff n name).0 same)))
              (elim (gg v w) [ inl b ↦ inl b | inr q ↦ inr (λ h. q) ])
        | inr differs ↦ other (some n) e (λ h.
            absurd
              (let eq : n ≡ name = ground arith in let same = (bytes_beq_iff n name).1 eq in cc))
      ]

module _ {S : Type 0} (f : Bytes → S → Bytes × S) (Bad : S → Type 0) (P : Bytes → Type 0)
    (law : Promises f Bad P) where
  nested_typed-TypeStays : (o : Option Bytes) → TypeStays (mask_nested_typed f o)
  unfolding mask_nested_typed bytes_beq
  nested_typed-TypeStays none v w =
      refuse-TypeStays Bad (codes "Anthropic nested content block has no `type`") v w
  nested_typed-TypeStays (some n) v w = elim (Bool-cases (bytes_beq n (codes "text"))) [
    | inl e ↦ rw e (on_field-TypeStays Bad (codes "text") (transform_string_value f) refl v w)
    | inr e ↦ elim (Bool-cases (bytes_beq n (codes "image"))) [
      | inl i ↦ rw (e, i) refl
      | inr i ↦
          rw (e, i) (refuse-TypeStays Bad (codes "unknown Anthropic nested content block") v w)
    ]
  ]

  nested_typed-Keeps : (o : Option Bytes) → Keeps Bad (mask_nested_typed f o)
  unfolding mask_nested_typed bytes_beq
  nested_typed-Keeps none v w b = refuse-Keeps Bad _ v w b
  nested_typed-Keeps (some n) v w b = elim (Bool-cases (bytes_beq n (codes "text"))) [
    | inl e ↦ rw e (string_field-Keeps f Bad P law (codes "text") v w b)
    | inr e ↦ elim (Bool-cases (bytes_beq n (codes "image"))) [
      | inl i ↦ rw (e, i) b
      | inr i ↦ rw (e, i) (refuse-Keeps Bad (codes "unknown Anthropic nested content block") v w b)
    ]
  ]

  pub refuse-Spares : (reason : Bytes) (Q : Value → Type 0) → Spares Bad (refuse reason) Q
  unfolding refuse
  refuse-Spares reason Q v w q = q

  nested_typed-Spares_own :
      (o : Option Bytes) → Spares Bad (mask_nested_typed f o) (AtSelf f Bad P law)
  unfolding mask_nested_typed bytes_beq
  nested_typed-Spares_own none v w q =
      refuse-Spares (codes "Anthropic nested content block has no `type`") (AtSelf f Bad P law) v w
        q
  nested_typed-Spares_own (some n) v w q = elim (Bool-cases (bytes_beq n (codes "text"))) [
    | inl e ↦ rw e (on_field-Spares_own f Bad P law (codes "text") (transform_string_value f) v w q)
    | inr e ↦ elim (Bool-cases (bytes_beq n (codes "image"))) [
      | inl i ↦ rw (e, i) q
      | inr i ↦
          rw (e, i)
            (refuse-Spares (codes "unknown Anthropic nested content block") (AtSelf f Bad P law) v w
              q)
    ]
  ]

  nested_typed-text : Gives Bad (mask_nested_typed f (some (codes "text"))) (TextField f Bad P law)
  unfolding mask_nested_typed bytes_beq
  nested_typed-text v w = string_field-Gives f Bad P law (codes "text") v w

  -- A bare string, or an object that goes by its type.
  abbrev pub BlockWith : (Value → Type 0) → Value → Type 0
  BlockWith Q x = AtSelf f Bad P law x × Q x

  abbrev pub NestedText : Value → Type 0
  NestedText = IfTyped (codes "text") (TextField f Bad P law)

  pub string_IfTyped :
      (name : Bytes) (Q : Value → Type 0) (s : Bytes) (w : Walked S)
      → IfTyped name Q (transform_string_value f (string s) w).0
  unfolding transform_string_value get as_str
  string_IfTyped name Q s w h = absurd (cc)

  nested_block-Keeps : Keeps Bad (mask_nested_block f)
  unfolding mask_nested_block
  nested_block-Keeps (string s) w b = string-Keeps f Bad P law (string s) w b
  nested_block-Keeps (object fs) w b = nested_typed-Keeps (type_of (object fs)) (object fs) w b
  nested_block-Keeps (array xs) w b = refuse-Keeps Bad _ (array xs) w b
  nested_block-Keeps null w b = refuse-Keeps Bad _ null w b
  nested_block-Keeps (bool c) w b = refuse-Keeps Bad _ (bool c) w b
  nested_block-Keeps (number n) w b = refuse-Keeps Bad _ (number n) w b
  nested_block-Keeps (other_number n) w b = refuse-Keeps Bad _ (other_number n) w b

  nested_block-Gives : Gives Bad (mask_nested_block f) (BlockWith NestedText)
  unfolding mask_nested_block own_text
  nested_block-Gives (string s) w =
      also (string-Gives f Bad P law (string s) w)
        (inr (string_IfTyped (codes "text") (TextField f Bad P law) s w))
  nested_block-Gives (object fs) w =
      also (inr (nested_typed-Spares_own (type_of (object fs)) (object fs) w tt)) (
        dispatch-Gives Bad (mask_nested_typed f) (codes "text") (TextField f Bad P law)
          nested_typed-TypeStays nested_typed-text (object fs) w)
  nested_block-Gives (array xs) w = refuse-Gives Bad _ (BlockWith NestedText) (array xs) w
  nested_block-Gives null w = refuse-Gives Bad _ (BlockWith NestedText) null w
  nested_block-Gives (bool c) w = refuse-Gives Bad _ (BlockWith NestedText) (bool c) w
  nested_block-Gives (number n) w = refuse-Gives Bad _ (BlockWith NestedText) (number n) w
  nested_block-Gives (other_number n) w =
      refuse-Gives Bad _ (BlockWith NestedText) (other_number n) w

  -- A string, or an array of blocks.
  abbrev pub Blocks : (Value → Type 0) → Value → Type 0
  Blocks Q v = AtSelf f Bad P law v × OnItems (BlockWith Q) v

  pub nested-Keeps : Keeps Bad (mask_content_block_array f)
  unfolding mask_content_block_array
  nested-Keeps (string s) w b = string-Keeps f Bad P law (string s) w b
  nested-Keeps (array xs) w b =
      parts-Keeps f Bad P law (mask_nested_block f) nested_block-Keeps (array xs) w b
  nested-Keeps null w b = b
  nested-Keeps (object fs) w b = refuse-Keeps Bad _ (object fs) w b
  nested-Keeps (bool c) w b = refuse-Keeps Bad _ (bool c) w b
  nested-Keeps (number n) w b = refuse-Keeps Bad _ (number n) w b
  nested-Keeps (other_number n) w b = refuse-Keeps Bad _ (other_number n) w b

  pub nested-Gives : Gives Bad (mask_content_block_array f) (Blocks NestedText)
  unfolding mask_content_block_array own_text
  nested-Gives (string s) w =
      also (string-Gives f Bad P law (string s) w)
        (inr (string_stays f Bad P law s w (BlockWith NestedText)))
  nested-Gives (array xs) w =
      also (inr (array_stays f Bad P law (unless_refused (mask_nested_block f)) xs w)) (
        parts-Gives f Bad P law (mask_nested_block f) (BlockWith NestedText) nested_block-Keeps
          nested_block-Gives (array xs) w)
  nested-Gives null w = inr (tt, tt)
  nested-Gives (object fs) w = refuse-Gives Bad _ (Blocks NestedText) (object fs) w
  nested-Gives (bool c) w = refuse-Gives Bad _ (Blocks NestedText) (bool c) w
  nested-Gives (number n) w = refuse-Gives Bad _ (Blocks NestedText) (number n) w
  nested-Gives (other_number n) w = refuse-Gives Bad _ (Blocks NestedText) (other_number n) w
