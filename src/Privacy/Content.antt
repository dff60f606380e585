-- ===== src/Privacy/Content.antt =====
-- The texts in a message `content`: the string, the strings of the array, the `text` of its parts.
use llm_proxy_pii_rust.Prelude.{
  ℕ, ◌≡◌, refl, sym, subst, inl, inr, Option, none, some, Bytes, bytes_eq, codes, All,
}
use llm_proxy_pii_rust.Json.{
  Value, null, bool, number, other_number, string, array, object, Items, get, set, change_field,
  on_field, on_items,
}
use llm_proxy_pii_rust.Privacy.{
  Walked, unless_refused, transform_string_value, transform_pointer, mask_part, mask_content,
}
use llm_proxy_pii_rust.Privacy.Paths.{own_text, OnSome, OnItems}
use llm_proxy_pii_rust.Privacy.Walks.{
  Walk, Keeps, Gives, Spares, refuse-Keeps, refuse-Gives, on_field-Keeps, on_field-Gives,
  on_items-Keeps, on_items-Gives, unless_refused-Keeps, unless_refused-Gives,
}
use llm_proxy_pii_rust.Privacy.Texts.{Promises, string-Keeps, string-Gives}

module _ {S : Type 0} (f : Bytes → S → Bytes × S) (Bad : S → Type 0) (P : Bytes → Type 0)
    (law : Promises f Bad P) where
  abbrev pub AtSelf : Value → Type 0
  AtSelf v = All P (own_text v)

  own_text-set : (k : Bytes) (x v : Value) → own_text (set k x v) ≡ own_text v
  unfolding own_text set
  own_text-set k x (object fs) = refl
  own_text-set k x _ = refl

  change-Spares_own :
      (k : Bytes) (v : Value) (o : Option Value) (g : Walk S) (w : Walked S)
      → AtSelf v
      → AtSelf (change_field k v o g w).0
  unfolding change_field
  change-Spares_own k v none g w q = q
  change-Spares_own k v (some x) g w q = subst (All P) (sym (own_text-set k (g x w).0 v)) q

  pub on_field-Spares_own : (k : Bytes) (g : Walk S) → Spares Bad (on_field k g) AtSelf
  unfolding on_field
  on_field-Spares_own k g v w q = change-Spares_own k v (get k v) g w q

  pub string_field-Keeps : (k : Bytes) → Keeps Bad (on_field k (transform_string_value f))
  string_field-Keeps k = on_field-Keeps Bad k (transform_string_value f) (string-Keeps f Bad P law)

  pub string_field-Gives :
      (k : Bytes) → Gives Bad (on_field k (transform_string_value f)) (λ v. OnSome AtSelf (get k v))
  string_field-Gives k =
      on_field-Gives Bad k (transform_string_value f) AtSelf (string-Gives f Bad P law)

  pub pointer-Keeps : (outer inner : Bytes) → Keeps Bad (transform_pointer f outer inner)
  unfolding transform_pointer
  pointer-Keeps outer inner = on_field-Keeps Bad outer _ (string_field-Keeps inner)

  pub pointer-Gives :
      (outer inner : Bytes)
      → Gives Bad
          (transform_pointer f outer inner)
          (λ v. OnSome (λ x. OnSome AtSelf (get inner x)) (get outer v))
  unfolding transform_pointer
  pointer-Gives outer inner =
      on_field-Gives Bad outer (on_field inner (transform_string_value f))
        (λ x. OnSome AtSelf (get inner x)) (string_field-Gives inner)

  part-Keeps : Keeps Bad (mask_part f)
  unfolding mask_part
  part-Keeps (string s) w b = string-Keeps f Bad P law (string s) w b
  part-Keeps (object fs) w b = string_field-Keeps (codes "text") (object fs) w b
  part-Keeps (array xs) w b = refuse-Keeps Bad _ (array xs) w b
  part-Keeps null w b = refuse-Keeps Bad _ null w b
  part-Keeps (bool c) w b = refuse-Keeps Bad _ (bool c) w b
  part-Keeps (number n) w b = refuse-Keeps Bad _ (number n) w b
  part-Keeps (other_number n) w b = refuse-Keeps Bad _ (other_number n) w b

  abbrev pub TextField : Value → Type 0
  TextField v = OnSome AtSelf (get (codes "text") v)

  pub string_no_field :
      (k : Bytes) (g : Walk S) (s : Bytes) (w : Walked S)
      → OnSome AtSelf (get k (transform_string_value f (string s) w).0)
  unfolding transform_string_value get
  string_no_field k g s w = tt

  part-Gives : Gives Bad (mask_part f) (λ v. AtSelf v × TextField v)
  unfolding mask_part own_text
  part-Gives (string s) w = elim (string-Gives f Bad P law (string s) w) [
    | inl b ↦ inl b
    | inr q ↦ inr (q, string_no_field (codes "text") (transform_string_value f) s w)
  ]
  part-Gives (object fs) w = elim (string_field-Gives (codes "text") (object fs) w) [
    | inl b ↦ inl b
    | inr q ↦
        inr (on_field-Spares_own (codes "text") (transform_string_value f) (object fs) w tt, q)
  ]
  part-Gives (array xs) w = refuse-Gives Bad _ (λ v. AtSelf v × TextField v) (array xs) w
  part-Gives null w = refuse-Gives Bad _ (λ v. AtSelf v × TextField v) null w
  part-Gives (bool c) w = refuse-Gives Bad _ (λ v. AtSelf v × TextField v) (bool c) w
  part-Gives (number n) w = refuse-Gives Bad _ (λ v. AtSelf v × TextField v) (number n) w
  part-Gives (other_number n) w =
      refuse-Gives Bad _ (λ v. AtSelf v × TextField v) (other_number n) w

  pub parts-Keeps : (g : Walk S) → Keeps Bad g → Keeps Bad (on_items (unless_refused g))
  parts-Keeps g k = on_items-Keeps Bad (unless_refused g) (unless_refused-Keeps Bad g k)

  pub parts-Gives :
      (g : Walk S) (Q : Value → Type 0)
      → Keeps Bad g
      → Gives Bad g Q
      → Gives Bad (on_items (unless_refused g)) (OnItems Q)
  parts-Gives g Q k gg =
      on_items-Gives Bad (unless_refused g) Q (unless_refused-Keeps Bad g k)
        (unless_refused-Gives Bad g Q gg)

  pub content-Keeps : Keeps Bad (mask_content f)
  unfolding mask_content
  content-Keeps (string s) w b = string-Keeps f Bad P law (string s) w b
  content-Keeps (array xs) w b = parts-Keeps (mask_part f) part-Keeps (array xs) w b
  content-Keeps null w b = b
  content-Keeps (object fs) w b = refuse-Keeps Bad _ (object fs) w b
  content-Keeps (bool c) w b = refuse-Keeps Bad _ (bool c) w b
  content-Keeps (number n) w b = refuse-Keeps Bad _ (number n) w b
  content-Keeps (other_number n) w b = refuse-Keeps Bad _ (other_number n) w b

  abbrev pub AtContent : Value → Type 0
  AtContent v = AtSelf v × OnItems (λ x. AtSelf x × TextField x) v

  pub string_stays :
      (s : Bytes) (w : Walked S) (Q : Value → Type 0)
      → OnItems Q (transform_string_value f (string s) w).0
  unfolding transform_string_value
  string_stays s w Q = tt

  pub array_stays :
      (g : ℕ → Walk S) (xs : Items) (w : Walked S) → AtSelf (on_items g (array xs) w).0
  unfolding on_items own_text
  array_stays g xs w = tt

  pub content-Gives : Gives Bad (mask_content f) AtContent
  unfolding mask_content own_text
  content-Gives (string s) w = elim (string-Gives f Bad P law (string s) w) [
    | inl b ↦ inl b
    | inr q ↦ inr (q, string_stays s w (λ x. AtSelf x × TextField x))
  ]
  content-Gives (array xs) w =
      elim (parts-Gives (mask_part f) (λ x. AtSelf x × TextField x) part-Keeps part-Gives (array xs)
        w) [ inl b ↦ inl b | inr q ↦ inr (array_stays (unless_refused (mask_part f)) xs w, q) ]
  content-Gives null w = inr (tt, tt)
  content-Gives (object fs) w = refuse-Gives Bad _ AtContent (object fs) w
  content-Gives (bool c) w = refuse-Gives Bad _ AtContent (bool c) w
  content-Gives (number n) w = refuse-Gives Bad _ AtContent (number n) w
  content-Gives (other_number n) w = refuse-Gives Bad _ AtContent (other_number n) w
