-- ===== src/Privacy/Injection.antt =====
-- The instruction that is added to a covered body leaves it covered.
use llm_proxy_pii_rust.Prelude.{
  ◌≡◌, refl, sym, subst, inl, inr, false, Option, none, some, Bytes, bytes_eq, bytes_beq,
  bytes_beq_iff, codes, Option-cases, Bool-cases, arith,
}
use llm_proxy_pii_rust.Json.{
  Value, null, bool, number, other_number, string, array, object, Items, nil, cons, Fields, end,
  field, get, get_field, set, as_str, insert_field,
}
use llm_proxy_pii_rust.Json.Access.{get-set, get-set_other}
use llm_proxy_pii_rust.Privacy.Paths.{AllItems, OnSome, OnItems}
use llm_proxy_pii_rust.Privacy.Augmentation.{
  prompt_message, put, merge_augmentation, is_instruction, merge_first, inject_items,
  inject_augmentation,
}

get_field-insert_field :
    (k : Bytes) (new : Value) (fs : Fields) → get_field k (insert_field k new fs) ≡ some new
unfolding get_field insert_field
get_field-insert_field k new end = ground (arith, bytes_beq_iff k k)
get_field-insert_field k new (field j v fs) =
    ground (arith, get_field-insert_field k new fs, bytes_beq_iff k k)

get_field-insert_field_other :
    (k other : Bytes) (new : Value) (fs : Fields)
    → bytes_beq k other ≡ false
    → get_field other (insert_field k new fs) ≡ get_field other fs
unfolding get_field insert_field
get_field-insert_field_other k other new end h = ground arith
get_field-insert_field_other k other new (field j v fs) h = ground (
  arith,
  get_field-insert_field_other k other new fs h,
  bytes_beq_iff j k,
  bytes_beq_iff j other,
  bytes_beq_iff k other,
)

-- What stands at a key after a write to it, which does nothing where there is no object.
pub put-Some :
    (k : Bytes) (new v : Value) (Q : Value → Type 0) → Q new → OnSome Q (get k (put k new v))
unfolding put get
put-Some k new (object fs) Q q = subst (OnSome Q) (sym (get_field-insert_field k new fs)) q
put-Some k new _ Q q = tt

pub put-other :
    (k other : Bytes) (new v : Value)
    → bytes_beq k other ≡ false
    → get other (put k new v) ≡ get other v
unfolding put get
put-other k other new (object fs) h = get_field-insert_field_other k other new fs h
put-other k other new _ h = refl

module _ (Q R : Value → Type 0) (same : (m : Value) → Q m → R m) where
  all_same : (ms : Items) → AllItems Q ms → AllItems R ms
  all_same nil h = tt
  all_same (cons m ms) h = (same m h.0, all_same ms h.1)

  module _ (merged : (m : Value) → Q m → R (merge_augmentation m)) where
    merge_first-AllItems :
        (ms : Items)
        → AllItems Q ms
        → OnItems R (elim (merge_first ms) [ some xs ↦ array xs | none ↦ null ])
    unfolding merge_first
    merge_first-AllItems nil h = tt
    merge_first-AllItems (cons m ms) h =
        elim (Bool-cases (is_instruction (as_str (get (codes "role") m)))) [
          | inl e ↦ rw e (merged m h.0, all_same ms h.1)
          | inr e ↦ elim (Option-cases (merge_first ms)) [
            | inl n ↦ rw (e, n) tt
            | inr (xs, n) ↦
                rw (e, n)
                  (
                    same m h.0,
                    subst
                        (λ (o : Option Items).
                          OnItems R (elim o [ some ys ↦ array ys | none ↦ null ]))
                        n (merge_first-AllItems ms h.1),
                  )
          ]
        ]

    inject_items-AllItems :
        R prompt_message → (ms : Items) → AllItems Q ms → AllItems R (inject_items ms)
    unfolding inject_items
    inject_items-AllItems p ms h = elim (Option-cases (merge_first ms)) [
      | inl n ↦ rw (n, inject_items) (p, all_same ms h)
      | inr (xs, n) ↦
          rw (n, inject_items)
            (subst (λ (o : Option Items). OnItems R (elim o [ some ys ↦ array ys | none ↦ null ])) n
              (merge_first-AllItems ms h))
    ]

    -- The messages of the body, with the instruction among them.
    pub inject-messages :
        R prompt_message
        → (body : Value) → OnSome (OnItems Q) (get (codes "messages") body)
        → OnSome (OnItems R) (get (codes "messages") (inject_augmentation body))
    unfolding inject_augmentation
    inject-messages p body h = from (get (codes "messages") body) refl
      where
        from :
            (o : Option Value)
            → get (codes "messages") body ≡ o
            → OnSome (OnItems R) (
                get (codes "messages") (elim o [
                  | some (array messages) ↦
                      set (codes "messages") (array (inject_items messages)) body
                  | _ ↦ body
                ]))
        from none e = subst (OnSome (OnItems R)) (sym e) tt
        from (some (array ms)) e =
            subst (OnSome (OnItems R))
              (sym (get-set (codes "messages") (array (inject_items ms)) body (array ms) e))
              (inject_items-AllItems p ms (subst (OnSome (OnItems Q)) e h))
        from (some null) e = subst (OnSome (OnItems R)) (sym e) tt
        from (some (bool b)) e = subst (OnSome (OnItems R)) (sym e) tt
        from (some (number n)) e = subst (OnSome (OnItems R)) (sym e) tt
        from (some (other_number n)) e = subst (OnSome (OnItems R)) (sym e) tt
        from (some (string s)) e = subst (OnSome (OnItems R)) (sym e) tt
        from (some (object fs)) e = subst (OnSome (OnItems R)) (sym e) tt

pub inject-other :
    (other : Bytes) (body : Value)
    → bytes_beq (codes "messages") other ≡ false
    → get other (inject_augmentation body) ≡ get other body
unfolding inject_augmentation
inject-other other body h = from (get (codes "messages") body)
  where
    from :
        (o : Option Value)
        → get other (elim o [
          | some (array messages) ↦ set (codes "messages") (array (inject_items messages)) body
          | _ ↦ body
        ])
          ≡ get other body
    from (some (array ms)) = get-set_other (codes "messages") other (array (inject_items ms)) body h
    from _ = refl
