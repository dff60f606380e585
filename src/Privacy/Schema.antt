-- ===== src/Privacy/Schema.antt =====
-- The descriptions inside a JSON schema, at any depth.
use llm_proxy_pii_rust.Prelude.{
  ◌≡◌, refl, [], ◌⊎◌, inl, inr, Bytes, bytes_eq, bytes_beq, codes, All, Bool-cases,
}
use llm_proxy_pii_rust.Json.{
  Value, null, bool, number, other_number, string, array, object, Items, nil, cons, Fields, end,
  field, on_string,
}
use llm_proxy_pii_rust.Privacy.{
  Walked, transform_string_value, mask_schema_descriptions, mask_schema_items, mask_schema_fields,
}
use llm_proxy_pii_rust.Privacy.Paths.{
  own_text, descriptions_of, descriptions_of_items, descriptions_of_fields, IsPlain, IsPlainItems,
  IsPlainFields,
}
use llm_proxy_pii_rust.Privacy.Walks.{Blocked}
use llm_proxy_pii_rust.Privacy.Texts.{Promises, both_texts, string-Keeps, string-Gives}

module _ {S : Type 0} (f : Bytes → S → Bytes × S) (Bad : S → Type 0) (P : Bytes → Type 0)
    (law : Promises f Bad P) where
  mutual
    unfolding mask_schema_descriptions

    pub schema-Keeps :
        (v : Value) (w : Walked S) → Blocked Bad w → Blocked Bad (mask_schema_descriptions f v w).1
    schema-Keeps (array xs) w b = schema_items-Keeps xs w b
    schema-Keeps (object fs) w b = schema_fields-Keeps fs w b
    schema-Keeps (string s) w b = b
    schema-Keeps null w b = b
    schema-Keeps (bool c) w b = b
    schema-Keeps (number n) w b = b
    schema-Keeps (other_number n) w b = b

    schema_items-Keeps :
        (xs : Items) (w : Walked S) → Blocked Bad w → Blocked Bad (mask_schema_items f xs w).1
    schema_items-Keeps nil w b = b
    schema_items-Keeps (cons x xs) w b =
        schema_items-Keeps xs (mask_schema_descriptions f x w).1 (schema-Keeps x w b)

    schema_fields-Keeps :
        (fs : Fields) (w : Walked S) → Blocked Bad w → Blocked Bad (mask_schema_fields f fs w).1
    schema_fields-Keeps end w b = b
    schema_fields-Keeps (field k v fs) w b = elim (Bool-cases (bytes_beq k (codes "description"))) [
      | inl e ↦
          rw e (
            schema_fields-Keeps fs (transform_string_value f v w).1
              (string-Keeps f Bad P law v w b))
      | inr e ↦
          rw e (schema_fields-Keeps fs (mask_schema_descriptions f v w).1 (schema-Keeps v w b))
    ]

  -- The masking of one text leaves a value that is no text as it is.
  string_value-descriptions :
      (v : Value) (w : Walked S)
      → descriptions_of v ≡ []
      → descriptions_of (transform_string_value f v w).0 ≡ []
  unfolding transform_string_value on_string descriptions_of
  string_value-descriptions (string s) w e = refl
  string_value-descriptions (array xs) w e = e
  string_value-descriptions (object fs) w e = e
  string_value-descriptions null w e = refl
  string_value-descriptions (bool c) w e = refl
  string_value-descriptions (number n) w e = refl
  string_value-descriptions (other_number n) w e = refl

  mutual
    unfolding mask_schema_descriptions descriptions_of IsPlain

    pub schema-Gives :
        (v : Value) (w : Walked S)
        → IsPlain v
        → Blocked Bad (mask_schema_descriptions f v w).1
          ⊎ All P (descriptions_of (mask_schema_descriptions f v w).0)
    schema-Gives (array xs) w c = schema_items-Gives xs w c
    schema-Gives (object fs) w c = schema_fields-Gives fs w c
    schema-Gives (string s) w c = inr tt
    schema-Gives null w c = inr tt
    schema-Gives (bool b) w c = inr tt
    schema-Gives (number n) w c = inr tt
    schema-Gives (other_number n) w c = inr tt

    schema_items-Gives :
        (xs : Items) (w : Walked S)
        → IsPlainItems xs
        → Blocked Bad (mask_schema_items f xs w).1
          ⊎ All P (descriptions_of_items (mask_schema_items f xs w).0)
    schema_items-Gives nil w c = inr tt
    schema_items-Gives (cons x xs) w c =
        let r = mask_schema_descriptions f x w in
        both_texts f Bad P law (descriptions_of r.0)
          (descriptions_of_items (mask_schema_items f xs r.1).0) (schema_items-Keeps xs r.1)
          (schema-Gives x w c.0) (schema_items-Gives xs r.1 c.1)

    schema_fields-Gives :
        (fs : Fields) (w : Walked S)
        → IsPlainFields fs
        → Blocked Bad (mask_schema_fields f fs w).1
          ⊎ All P (descriptions_of_fields (mask_schema_fields f fs w).0)
    schema_fields-Gives end w c = inr tt
    schema_fields-Gives (field k v fs) w c = elim (Bool-cases (bytes_beq k (codes "description"))) [
      | inl e ↦
          let r = transform_string_value f v w in
          rw (e, string_value-descriptions v w (c.0 e))
            (both_texts f Bad P law (own_text r.0)
              (descriptions_of_fields (mask_schema_fields f fs r.1).0) (schema_fields-Keeps fs r.1)
              (string-Gives f Bad P law v w) (schema_fields-Gives fs r.1 c.1.1))
      | inr e ↦
          let r = mask_schema_descriptions f v w in
          rw e (
            both_texts f Bad P law (descriptions_of r.0)
              (descriptions_of_fields (mask_schema_fields f fs r.1).0) (schema_fields-Keeps fs r.1)
              (schema-Gives v w c.1.0) (schema_fields-Gives fs r.1 c.1.1))
    ]
