-- ===== src/Privacy/Texts.antt =====
-- Every text that a walk reaches gets the property that the masking of a text gives it.
use llm_proxy_pii_rust.Prelude.{◌⊎◌, inl, inr, List, ◌++◌, Bytes, bytes_eq, All}
use llm_proxy_pii_rust.Prelude.Quantifiers.{All-append}
use llm_proxy_pii_rust.Json.{
  Value, null, bool, number, other_number, string, array, object, Items, nil, cons, Fields, end,
  field, on_string,
}
use llm_proxy_pii_rust.Privacy.{
  Walked, apply, transform_string_value, transform_string_leaves, transform_leaves_items,
  transform_leaves_fields,
}
use llm_proxy_pii_rust.Privacy.Paths.{own_text, leaves_of, leaves_of_items, leaves_of_fields}
use llm_proxy_pii_rust.Privacy.Walks.{Blocked, Keeps, Gives}

-- What the masking of a text promises: a request that is blocked stays blocked, and the text that comes
-- back has the property or the request is blocked.
pub record Promises {S : Type 0} (f : Bytes → S → Bytes × S) (Bad : S → Type 0) (P : Bytes → Type 0)
    : Type 0 where
  pub stays : (t : Bytes) (s : S) → Bad s → Bad (f t s).1
  pub gives : (t : Bytes) (s : S) → Bad (f t s).1 ⊎ P (f t s).0

module _ {S : Type 0} (f : Bytes → S → Bytes × S) (Bad : S → Type 0) (P : Bytes → Type 0)
    (law : Promises f Bad P) where
  -- The texts of a value that has been walked over.
  abbrev pub Masked : (Value → List Bytes) → Value → Type 0
  Masked texts v = All P (texts v)

  pub apply-Keeps : (t : Bytes) (w : Walked S) → Blocked Bad w → Blocked Bad (apply f t w).1
  unfolding apply
  apply-Keeps t w (inl b) = inl (law.stays t w.state b)
  apply-Keeps t w (inr r) = inr r

  pub apply-Gives : (t : Bytes) (w : Walked S) → Blocked Bad (apply f t w).1 ⊎ P (apply f t w).0
  unfolding apply
  apply-Gives t w = elim (law.gives t w.state) [ inl b ↦ inl (inl b) | inr p ↦ inr p ]

  pub string-Keeps : Keeps Bad (transform_string_value f)
  unfolding transform_string_value on_string
  string-Keeps (string s) w b = apply-Keeps s w b
  string-Keeps _ w b = b

  pub string-Gives : Gives Bad (transform_string_value f) (Masked own_text)
  unfolding transform_string_value on_string own_text
  string-Gives (string s) w = elim (apply-Gives s w) [ inl b ↦ inl b | inr p ↦ inr (p, tt) ]
  string-Gives null w = inr tt
  string-Gives (bool b) w = inr tt
  string-Gives (number n) w = inr tt
  string-Gives (other_number n) w = inr tt
  string-Gives (array xs) w = inr tt
  string-Gives (object fs) w = inr tt

  -- Two parts of a value, walked over one after the other.
  join :
      {A B : Type 0} {w w' : Walked S}
      → (Blocked Bad w → Blocked Bad w')
      → Blocked Bad w ⊎ A
      → Blocked Bad w' ⊎ B
      → Blocked Bad w' ⊎ (A × B)
  join k (inl b) r = inl (k b)
  join k (inr a) (inl b) = inl b
  join k (inr a) (inr b) = inr (a, b)

  mutual
    unfolding transform_string_leaves leaves_of

    pub leaves-Keeps :
        (v : Value) (w : Walked S) → Blocked Bad w → Blocked Bad (transform_string_leaves f v w).1
    leaves-Keeps (string s) w b = apply-Keeps s w b
    leaves-Keeps (array xs) w b = leaves_items-Keeps xs w b
    leaves-Keeps (object fs) w b = leaves_fields-Keeps fs w b
    leaves-Keeps null w b = b
    leaves-Keeps (bool c) w b = b
    leaves-Keeps (number n) w b = b
    leaves-Keeps (other_number n) w b = b

    leaves_items-Keeps :
        (xs : Items) (w : Walked S) → Blocked Bad w → Blocked Bad (transform_leaves_items f xs w).1
    leaves_items-Keeps nil w b = b
    leaves_items-Keeps (cons x xs) w b =
        leaves_items-Keeps xs (transform_string_leaves f x w).1 (leaves-Keeps x w b)

    leaves_fields-Keeps :
        (fs : Fields) (w : Walked S)
        → Blocked Bad w
        → Blocked Bad (transform_leaves_fields f fs w).1
    leaves_fields-Keeps end w b = b
    leaves_fields-Keeps (field k v fs) w b =
        leaves_fields-Keeps fs (transform_string_leaves f v w).1 (leaves-Keeps v w b)

  pub both_texts :
      {w w' : Walked S} (xs ys : List Bytes)
      → (Blocked Bad w → Blocked Bad w')
      → Blocked Bad w ⊎ All P xs
      → Blocked Bad w' ⊎ All P ys
      → Blocked Bad w' ⊎ All P (xs ++ ys)
  both_texts xs ys k a b = elim (join k a b) [
    | inl r ↦ inl r
    | inr h ↦ inr (All-append P xs ys h.0 h.1)
  ]

  mutual
    unfolding transform_string_leaves leaves_of

    pub leaves-Gives :
        (v : Value) (w : Walked S)
        → Blocked Bad (transform_string_leaves f v w).1
          ⊎ Masked leaves_of (transform_string_leaves f v w).0
    leaves-Gives (string s) w = elim (apply-Gives s w) [ inl b ↦ inl b | inr p ↦ inr (p, tt) ]
    leaves-Gives (array xs) w = leaves_items-Gives xs w
    leaves-Gives (object fs) w = leaves_fields-Gives fs w
    leaves-Gives null w = inr tt
    leaves-Gives (bool c) w = inr tt
    leaves-Gives (number n) w = inr tt
    leaves-Gives (other_number n) w = inr tt

    leaves_items-Gives :
        (xs : Items) (w : Walked S)
        → Blocked Bad (transform_leaves_items f xs w).1
          ⊎ All P (leaves_of_items (transform_leaves_items f xs w).0)
    leaves_items-Gives nil w = inr tt
    leaves_items-Gives (cons x xs) w =
        let r = transform_string_leaves f x w in
        both_texts (leaves_of r.0) (leaves_of_items (transform_leaves_items f xs r.1).0)
          (leaves_items-Keeps xs r.1) (leaves-Gives x w) (leaves_items-Gives xs r.1)

    leaves_fields-Gives :
        (fs : Fields) (w : Walked S)
        → Blocked Bad (transform_leaves_fields f fs w).1
          ⊎ All P (leaves_of_fields (transform_leaves_fields f fs w).0)
    leaves_fields-Gives end w = inr tt
    leaves_fields-Gives (field k v fs) w =
        let r = transform_string_leaves f v w in
        both_texts (leaves_of r.0) (leaves_of_fields (transform_leaves_fields f fs r.1).0)
          (leaves_fields-Keeps fs r.1) (leaves-Gives v w) (leaves_fields-Gives fs r.1)
