-- ===== src/Stream/Reassembly.antt =====
-- How the bytes of a stream are cut into pieces has no influence on what is emitted.
use llm_proxy_pii_rust.Prelude.{
  ℕ, ◌≡◌, refl, sym, ap, ◌∙◌, subst, true, false, inl, inr, [], ◌∷◌, ◌++◌, append_assoc, append-nil,
  nat_beq, Bytes, Bool-cases,
}
use llm_proxy_pii_rust.Stream.{Codec, SseDemasker}
use llm_proxy_pii_rust.Stream.Lines.{pop_return, handle_line, push_from, push}

-- No byte of the text ends a line.
abbrev pub IsUnfinished : Bytes → Type 0
IsUnfinished [] = Unit
IsUnfinished (c ∷ cs) = (nat_beq c 10 ≡ false) × IsUnfinished cs

IsUnfinished-append_one :
    (line : Bytes) (c : ℕ)
    → IsUnfinished line
    → nat_beq c 10 ≡ false
    → IsUnfinished (line ++ c ∷ [])
IsUnfinished-append_one [] c h e = (e, tt)
IsUnfinished-append_one (d ∷ ds) c h e = (h.0, IsUnfinished-append_one ds c h.1 e)

module _ (codec : Codec) where
  push_from-end :
      (line : Bytes) (c : ℕ) (cs : Bytes) (s : SseDemasker)
      → nat_beq c 10 ≡ true
      → (let handled =
            handle_line codec (codec.lossy (pop_return line)) (record s { line_buf = [] }) in
          let later = push_from codec [] cs handled.1 in
          push_from codec line (c ∷ cs) s ≡ (handled.0 ++ later.0, later.1))
  unfolding push_from
  push_from-end line c cs s h = rw (h, push_from)

  push_from-other :
      (line : Bytes) (c : ℕ) (cs : Bytes) (s : SseDemasker)
      → nat_beq c 10 ≡ false
      → push_from codec line (c ∷ cs) s ≡ push_from codec (line ++ c ∷ []) cs s
  unfolding push_from
  push_from-other line c cs s h = rw (h, push_from)

  -- An unfinished line is read without effect.
  push_from-IsUnfinished :
      (line more cs : Bytes) (s : SseDemasker)
      → IsUnfinished more
      → push_from codec line (more ++ cs) s ≡ push_from codec (line ++ more) cs s
  push_from-IsUnfinished line [] cs s h =
      ap (λ (l : Bytes). push_from codec l cs s) (sym (append-nil line))
  push_from-IsUnfinished line (c ∷ more) cs s h =
      push_from-other line c (more ++ cs) s h.0
      ∙ push_from-IsUnfinished (line ++ c ∷ []) more cs s h.1
      ∙ ap (λ (l : Bytes). push_from codec l cs s) (append_assoc line (c ∷ []) more)

  -- The buffer of the state that the loop starts from is not read.
  push_from-line_buf :
      (line cs old : Bytes) (s : SseDemasker)
      → push_from codec line cs (record s { line_buf = old }) ≡ push_from codec line cs s
  push_from-line_buf line [] old s = unfold push_from in refl
  push_from-line_buf line (c ∷ cs) old s = elim (Bool-cases (nat_beq c 10)) [
    | inl e ↦
        push_from-end line c cs (record s { line_buf = old }) e ∙ sym (push_from-end line c cs s e)
    | inr e ↦
        push_from-other line c cs (record s { line_buf = old }) e
        ∙ push_from-line_buf (line ++ c ∷ []) cs old s
        ∙ sym (push_from-other line c cs s e)
  ]

  -- What the loop leaves in the buffer is an unfinished line.
  push_from-keeps_IsUnfinished :
      (line cs : Bytes) (s : SseDemasker)
      → IsUnfinished line
      → IsUnfinished (push_from codec line cs s).1.line_buf
  push_from-keeps_IsUnfinished line [] s h = unfold push_from in h
  push_from-keeps_IsUnfinished line (c ∷ cs) s h = elim (Bool-cases (nat_beq c 10)) [
    | inl e ↦
        let handled =
          handle_line codec (codec.lossy (pop_return line)) (record s { line_buf = [] }) in
        subst (λ (r : Bytes × SseDemasker). IsUnfinished r.1.line_buf)
          (sym (push_from-end line c cs s e)) (push_from-keeps_IsUnfinished [] cs handled.1 tt)
    | inr e ↦
        subst (λ (r : Bytes × SseDemasker). IsUnfinished r.1.line_buf)
          (sym (push_from-other line c cs s e))
          (push_from-keeps_IsUnfinished (line ++ c ∷ []) cs s (IsUnfinished-append_one line c h e))
  ]

  -- The next bytes, after what was emitted before.
  abbrev continued : Bytes → Bytes × SseDemasker → Bytes × SseDemasker
  continued b r = let later = push_from codec r.1.line_buf b r.1 in (r.0 ++ later.0, later.1)

  push_from-append :
      (line a b : Bytes) (s : SseDemasker)
      → push_from codec line (a ++ b) s ≡ continued b (push_from codec line a s)
  push_from-append line [] b s = unfold push_from in sym (push_from-line_buf line b line s)
  push_from-append line (c ∷ a) b s = elim (Bool-cases (nat_beq c 10)) [
    | inl e ↦
        let handled =
          handle_line codec (codec.lossy (pop_return line)) (record s { line_buf = [] }) in
        let first = push_from codec [] a handled.1 in
        push_from-end line c (a ++ b) s e
        ∙ ap (λ (r : Bytes × SseDemasker). (handled.0 ++ r.0, r.1))
            (push_from-append [] a b handled.1)
        ∙ ap (λ (l : Bytes). (l, (push_from codec first.1.line_buf b first.1).1))
            (sym (append_assoc handled.0 first.0 (push_from codec first.1.line_buf b first.1).0))
        ∙ ap (continued b) (sym (push_from-end line c a s e))
    | inr e ↦
        push_from-other line c (a ++ b) s e
        ∙ push_from-append (line ++ c ∷ []) a b s
        ∙ ap (continued b) (sym (push_from-other line c a s e))
  ]

  push-eq :
      (bytes : Bytes) (s : SseDemasker)
      → IsUnfinished s.line_buf
      → push codec bytes s ≡ push_from codec s.line_buf bytes s
  unfolding push
  push-eq bytes s h = push_from-IsUnfinished [] s.line_buf bytes s h

  -- If the buffer holds no end of a line, then two pieces that are pushed one after the other emit
  -- what the two together emit and leave the same state, and the buffer again holds no end of a line.
  pub push-append :
      (a b : Bytes) (s : SseDemasker)
      → IsUnfinished s.line_buf
      → (let first = push codec a s in
          let second = push codec b first.1 in
          (push codec (a ++ b) s ≡ (first.0 ++ second.0, second.1))
          × IsUnfinished second.1.line_buf)
  push-append a b s h = (
    push-eq (a ++ b) s h
        ∙ push_from-append s.line_buf a b s
        ∙ ap (continued b) (sym (push-eq a s h))
        ∙ ap (λ (r : Bytes × SseDemasker). ((push codec a s).0 ++ r.0, r.1))
            (sym (push-eq b _ middle)),
    unfinished b (push codec a s).1 middle,
  )
    where
      unfinished :
          (x : Bytes) (t : SseDemasker)
          → IsUnfinished t.line_buf
          → IsUnfinished (push codec x t).1.line_buf
      unfinished x t k =
          subst (λ (r : Bytes × SseDemasker). IsUnfinished r.1.line_buf) (sym (push-eq x t k))
            (push_from-keeps_IsUnfinished t.line_buf x t k)

      middle : IsUnfinished (push codec a s).1.line_buf
      middle = unfinished a s h
