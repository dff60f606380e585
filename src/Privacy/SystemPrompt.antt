-- ===== src/Privacy/SystemPrompt.antt =====
-- A native body that is covered stays covered when the instruction is added to its `system`.
use llm_proxy_pii_rust.Prelude.{
  ◌≡◌, refl, sym, subst, false, Option, List, [], ◌∷◌, Bytes, bytes_eq, bytes_beq, codes, All,
}
use llm_proxy_pii_rust.Json.{Value, get, get_field}
use llm_proxy_pii_rust.Privacy.Paths.{
  Step, key, each, typed, Leaf, text, Access, own_text, at_leaf, OnSome, Along, Covered,
  message_paths, anthropic_paths,
}
use llm_proxy_pii_rust.Privacy.Augmentation.{
  augmentation_prompt, augmented, prompt_part, with_prompt, inject_augmentation_anthropic,
}
use llm_proxy_pii_rust.Privacy.Injection.{put-Some, put-other}
use llm_proxy_pii_rust.Privacy.Instructed.{Along-imp, prompt-text, prompt-each}

-- The path does not begin in `system`.
abbrev NotInSystem : List Step → Type 0
NotInSystem (key k ∷ steps) = bytes_beq (codes "system") k ≡ false
NotInSystem _ = ⊥

module _ (P R : Bytes → Type 0) (up : (t : Bytes) → P t → R t) where
  elsewhere :
      (steps : List Step) (leaf : Leaf) (body : Value)
      → NotInSystem steps
      → Along P steps leaf body
      → Along R steps leaf (inject_augmentation_anthropic body)
  unfolding Along inject_augmentation_anthropic
  elsewhere (key k ∷ steps) leaf body other h =
      subst (OnSome (Along R steps leaf))
        (sym (put-other (codes "system") k (with_prompt (get (codes "system") body)) body other))
        (Along-imp P R up (key k ∷ steps) leaf body h)
  elsewhere [] leaf body other h = absurd other
  elsewhere (each ∷ steps) leaf body other h = absurd other
  elsewhere (typed name ∷ steps) leaf body other h = absurd other

  elsewhere_paths :
      (paths : List Access) (body : Value)
      → All (λ p. NotInSystem p.steps) paths
      → Covered P paths body
      → Covered R paths (inject_augmentation_anthropic body)
  elsewhere_paths [] body other h = tt
  elsewhere_paths (p ∷ paths) body other h =
      (elsewhere p.steps p.leaf body other.0 h.0, elsewhere_paths paths body other.1 h.1)

  in_system :
      (steps : List Step) (body : Value)
      → ((o : Option Value) → OnSome (Along P steps text) o → Along R steps text (with_prompt o))
      → Along P (key (codes "system") ∷ steps) text body
      → Along R (key (codes "system") ∷ steps) text (inject_augmentation_anthropic body)
  unfolding Along inject_augmentation_anthropic
  in_system steps body given h =
      put-Some (codes "system") (with_prompt (get (codes "system") body)) body (Along R steps text)
        (given (get (codes "system") body) h)

  module _ (behind : (t : Bytes) → P t → R (augmented t)) (prompt : R augmentation_prompt) where
    part_text : Along R (key (codes "text") ∷ []) text prompt_part
    unfolding Along at_leaf own_text get get_field bytes_beq
    part_text = (prompt, tt)

    -- If each text at each documented path of a native body has a property, then after the instruction is added
    -- each has the weaker property, provided that a text with the instruction behind it has it when the text had
    -- the first, and that the instruction has it.
    pub inject_augmentation_anthropic-Covered :
        (body : Value)
        → Covered P anthropic_paths body
        → Covered R anthropic_paths (inject_augmentation_anthropic body)
    unfolding bytes_beq
    inject_augmentation_anthropic-Covered body h = (
      in_system [] body (prompt-text P R up behind prompt) h.0,
      (
        in_system (each ∷ key (codes "text") ∷ []) body
            (prompt-each P R up behind prompt (key (codes "text") ∷ []) part_text) h.1.0,
        elsewhere_paths message_paths body
            (
              refl,
              (
                refl,
                (
                  refl,
                  (
                    refl,
                    (
                      refl,
                      (
                        refl,
                        (
                          refl,
                          (
                            refl,
                            (refl, (refl, (refl, (refl, (refl, (refl, (refl, (refl, tt)))))))),
                          ),
                        ),
                      ),
                    ),
                  ),
                ),
              ),
            )
            h.1.1,
      ),
    )
