-- ===== src/Privacy/Instructed.antt =====
-- A chat-completions body that is covered stays covered when the instruction is added: each text is then an
-- old one, an old one with the instruction behind it, or the instruction.
use llm_proxy_pii_rust.Prelude.{
  ◌≡◌, refl, sym, subst, false, Option, none, some, List, [], ◌∷◌, Bytes, bytes_eq, bytes_beq,
  codes,
}
use llm_proxy_pii_rust.Prelude.Quantifiers.{All-imp}
use llm_proxy_pii_rust.Json.{
  Value, null, bool, number, other_number, string, array, object, Items, nil, cons, get, get_field,
  push_item,
}
use llm_proxy_pii_rust.Privacy.Paths.{
  Step, key, each, typed, Leaf, text, descriptions, Access, own_text, at_leaf, AllItems, OnSome,
  OnSome-imp, OnItems-imp, Along, Covered, openai_paths,
}
use llm_proxy_pii_rust.Privacy.Augmentation.{
  augmentation_prompt, augmented, prompt_part, prompt_message, with_prompt, merge_augmentation,
  inject_augmentation,
}
use llm_proxy_pii_rust.Privacy.Injection.{put-Some, put-other, inject-messages, inject-other}

module _ (P R : Bytes → Type 0) (up : (t : Bytes) → P t → R t) where
  pub Along-imp :
      (steps : List Step) (leaf : Leaf) (v : Value) → Along P steps leaf v → Along R steps leaf v
  unfolding Along
  Along-imp [] leaf v h = All-imp up (at_leaf leaf v) h
  Along-imp (key k ∷ steps) leaf v h = OnSome-imp (λ x. Along-imp steps leaf x) (get k v) h
  Along-imp (each ∷ steps) leaf v h = OnItems-imp (λ x. Along-imp steps leaf x) v h
  Along-imp (typed name ∷ steps) leaf v h = λ e. Along-imp steps leaf v (h e)

  pub Covered-imp : (paths : List Access) (v : Value) → Covered P paths v → Covered R paths v
  Covered-imp [] v h = tt
  Covered-imp (p ∷ paths) v h = (Along-imp p.steps p.leaf v h.0, Covered-imp paths v h.1)

  module _ (behind : (t : Bytes) → P t → R (augmented t)) (prompt : R augmentation_prompt) where
    pub prompt-text :
        (o : Option Value) → OnSome (Along P [] text) o → Along R [] text (with_prompt o)
    unfolding Along at_leaf own_text with_prompt
    prompt-text none h = (prompt, tt)
    prompt-text (some (string s)) h = (behind s h.0, tt)
    prompt-text (some (array xs)) h = tt
    prompt-text (some null) h = (prompt, tt)
    prompt-text (some (bool b)) h = (prompt, tt)
    prompt-text (some (number n)) h = (prompt, tt)
    prompt-text (some (other_number n)) h = (prompt, tt)
    prompt-text (some (object fs)) h = (prompt, tt)

    push_item-AllItems :
        (Q : Value → Type 0) (xs : Items) (x : Value)
        → AllItems Q xs
        → Q x
        → AllItems Q (push_item xs x)
    unfolding push_item
    push_item-AllItems Q nil x h q = (q, tt)
    push_item-AllItems Q (cons y ys) x h q = (h.0, push_item-AllItems Q ys x h.1 q)

    -- The elements of the content, with the part that bears the instruction.
    pub prompt-each :
        (steps : List Step)
        → Along R steps text prompt_part
        → (o : Option Value) → OnSome (Along P (each ∷ steps) text) o
        → Along R (each ∷ steps) text (with_prompt o)
    unfolding Along with_prompt
    prompt-each steps q none h = tt
    prompt-each steps q (some (array xs)) h =
        push_item-AllItems (Along R steps text) xs prompt_part
          (OnItems-imp (λ x. Along-imp steps text x) (array xs) h) q
    prompt-each steps q (some (string s)) h = tt
    prompt-each steps q (some null) h = tt
    prompt-each steps q (some (bool b)) h = tt
    prompt-each steps q (some (number n)) h = tt
    prompt-each steps q (some (other_number n)) h = tt
    prompt-each steps q (some (object fs)) h = tt

    abbrev InMessages : (Bytes → Type 0) → List Step → Value → Type 0
    InMessages T steps body = Along T (key (codes "messages") ∷ each ∷ steps) text body

    -- A path into the content of a message.
    inject-content :
        (steps : List Step)
        → ((o : Option Value) → OnSome (Along P steps text) o → Along R steps text (with_prompt o))
        → Along R (key (codes "content") ∷ steps) text prompt_message
        → (body : Value) → InMessages P (key (codes "content") ∷ steps) body
        → InMessages R (key (codes "content") ∷ steps) (inject_augmentation body)
    unfolding Along merge_augmentation
    inject-content steps given p body h =
        inject-messages (Along P (key (codes "content") ∷ steps) text)
          (Along R (key (codes "content") ∷ steps) text)
          (λ m. Along-imp (key (codes "content") ∷ steps) text m)
          (λ m q.
            put-Some (codes "content") (with_prompt (get (codes "content") m)) m
              (Along R steps text) (given (get (codes "content") m) q))
          p body h

    -- A path into another field of a message.
    inject-field :
        (k : Bytes) (steps : List Step)
        → bytes_beq (codes "content") k ≡ false
        → get k prompt_message ≡ none
        → (body : Value) → InMessages P (key k ∷ steps) body
        → InMessages R (key k ∷ steps) (inject_augmentation body)
    unfolding Along merge_augmentation
    inject-field k steps other missing body h =
        inject-messages (Along P (key k ∷ steps) text) (Along R (key k ∷ steps) text)
          (λ m. Along-imp (key k ∷ steps) text m)
          (λ m q.
            subst (OnSome (Along R steps text))
              (sym (put-other (codes "content") k (with_prompt (get (codes "content") m)) m other))
              (Along-imp (key k ∷ steps) text m q))
          (subst (OnSome (Along R steps text)) (sym missing) tt) body h

    inject-tools :
        (steps : List Step) (leaf : Leaf) (body : Value)
        → Along P (key (codes "tools") ∷ steps) leaf body
        → Along R (key (codes "tools") ∷ steps) leaf (inject_augmentation body)
    unfolding Along bytes_beq
    inject-tools steps leaf body h =
        subst (OnSome (Along R steps leaf)) (sym (inject-other (codes "tools") body refl))
          (Along-imp (key (codes "tools") ∷ steps) leaf body h)

    -- If each text at each documented path of a chat-completions body has a property, then after the instruction
    -- is added each has the weaker property, provided that a text with the instruction behind it has it when the
    -- text had the first, and that the instruction has it.
    pub inject_augmentation-Covered :
        (body : Value)
        → Covered P openai_paths body
        → Covered R openai_paths (inject_augmentation body)
    unfolding bytes_beq get get_field
    inject_augmentation-Covered body h = (
      inject-content [] prompt-text (unfold Along at_leaf own_text in (prompt, tt)) body h.0,
      (
        inject-content (each ∷ []) (prompt-each [] (unfold Along at_leaf own_text in tt))
            (unfold Along in tt) body h.1.0,
        (
          inject-content (each ∷ key (codes "text") ∷ [])
              (prompt-each (key (codes "text") ∷ [])
                (unfold Along at_leaf own_text in (prompt, tt)))
              (unfold Along in tt) body h.1.1.0,
          (
            inject-field (codes "name") [] refl refl body h.1.1.1.0,
            (
              inject-field (codes "tool_calls")
                  (each ∷ key (codes "function") ∷ key (codes "arguments") ∷ []) refl refl body
                  h.1.1.1.1.0,
              (
                inject-field (codes "function_call") (key (codes "arguments") ∷ []) refl refl body
                    h.1.1.1.1.1.0,
                (
                  inject-tools (each ∷ key (codes "function") ∷ key (codes "description") ∷ []) text
                      body h.1.1.1.1.1.1.0,
                  (
                    inject-tools (each ∷ key (codes "function") ∷ key (codes "parameters") ∷ [])
                        descriptions body h.1.1.1.1.1.1.1.0,
                    tt,
                  ),
                ),
              ),
            ),
          ),
        ),
      ),
    )
