-- ===== src/Stream/Chunks.antt =====
-- A field that arrives in pieces, mixed with the pieces of other fields, is restored like the whole.
use llm_proxy_pii_rust.Prelude.{
  ℕ, ◌≡◌, refl, sym, ap, ◌∙◌, subst, true, false, inl, inr, List, [], ◌∷◌, ◌++◌, append_assoc,
  append-nil, arith, take, drop, take-append-drop, Bytes, Bool-cases, if◌then◌else◌,
}
use llm_proxy_pii_rust.Prelude.Maps.{lookup-insert}
use llm_proxy_pii_rust.Vault.{
  Vault, replace_all, substitute, json_string_body, demask_inner, demask, demask_json_string,
}
use llm_proxy_pii_rust.Vault.Replace.{Unbroken, replace_all-append}
use llm_proxy_pii_rust.Vault.RoundTrip.{demask_inner-replace_all}
use llm_proxy_pii_rust.Stream.{
  StreamKey, key_beq, key_beq_iff, key_eq, Codec, SseDemasker, held, is_json, split_demaskable,
  demask_for, push_buffered,
}
use llm_proxy_pii_rust.Stream.Split.{IsStreamable, IsStreamable-suffix, split_demaskable-Unbroken}

-- The pieces of one field, put together.
abbrev pub text_of : StreamKey → List (StreamKey × Bytes) → Bytes
text_of key [] = []
text_of key ((k, piece) ∷ rest) = (if key_beq k key then piece else []) ++ text_of key rest

module _ (codec : Codec) where
  -- Pieces of several fields, pushed one after another.
  abbrev pub push_all :
      List (StreamKey × Bytes) → SseDemasker → List (StreamKey × Bytes) × SseDemasker
  push_all [] s = ([], s)
  push_all ((k, piece) ∷ rest) s =
      let (out, s') = push_buffered codec k piece s in
      let (outs, s'') = push_all rest s' in ((k, out) ∷ outs, s'')

  demask_inner-append :
      (render : Bytes → Bytes) (v : Vault) (u x : Bytes)
      → Unbroken u x
      → demask_inner render v (u ++ x) ≡ demask_inner render v u ++ demask_inner render v x
  demask_inner-append render v u x h =
      demask_inner-replace_all render v (u ++ x)
      ∙ replace_all-append (substitute render v) u x 0 (omega arith) h
      ∙ ap (λ (l : Bytes). l ++ replace_all (substitute render v) 0 x)
          (sym (demask_inner-replace_all render v u))
      ∙ ap (λ (l : Bytes). demask_inner render v u ++ l) (sym (demask_inner-replace_all render v x))

  demask_for-append :
      (v : Vault) (key : StreamKey) (u x : Bytes)
      → Unbroken u x
      → demask_for codec v key (u ++ x) ≡ demask_for codec v key u ++ demask_for codec v key x
  demask_for-append v key u x h = elim (Bool-cases (is_json key)) [
    | inl e ↦
        unfold demask_for demask_json_string in
        rw (e, demask_for) (demask_inner-append (json_string_body codec.to_json) v u x h)
    | inr e ↦ unfold demask_for demask in rw (e, demask_for) (demask_inner-append (λ s. s) v u x h)
  ]

  -- What a push does to the buffers.
  held-push_buffered :
      (key : StreamKey) (piece : Bytes) (s : SseDemasker) (k : StreamKey)
      → held (push_buffered codec key piece s).1 k ≡ (
          if key_beq key k
          then drop (split_demaskable (held s key ++ piece)) (held s key ++ piece)
          else held s k)
  unfolding held push_buffered
  held-push_buffered key piece s k = ground (
    arith,
    lookup-insert key k (drop (split_demaskable (held s key ++ piece)) (held s key ++ piece))
        s.pending,
  )

  -- A piece of the field itself: the buffer is cut, and what comes later continues the rest.
  push_own :
      (key k : StreamKey) (piece rest emitted tail : Bytes) (s : SseDemasker)
      → key_beq k key ≡ true
      → IsStreamable ((held s key ++ piece) ++ rest)
      → (let combined = held s key ++ piece in
          emitted ++ tail
          ≡ demask_for codec s.vault key (drop (split_demaskable combined) combined ++ rest))
      → ((push_buffered codec k piece s).0 ++ emitted) ++ tail
        ≡ demask_for codec s.vault key ((held s key ++ piece) ++ rest)
  unfolding push_buffered
  push_own key k piece rest emitted tail s same h later =
      append_assoc (push_buffered codec k piece s).0 emitted tail
      ∙ ap (λ (l : Bytes). (push_buffered codec k piece s).0 ++ l) later
      ∙ ap (λ (j : StreamKey). (push_buffered codec j piece s).0 ++ whole)
          ((key_beq_iff k key).0 same)
      ∙ sym (
          demask_for-append s.vault key (take cut combined) (drop cut combined ++ rest)
            (split_demaskable-Unbroken combined rest h))
      ∙ ap (demask_for codec s.vault key) (
          sym (append_assoc (take cut combined) (drop cut combined) rest)
          ∙ ap (λ (l : Bytes). l ++ rest) (take-append-drop cut combined))
    where
      combined : Bytes
      combined = held s key ++ piece

      cut : ℕ
      cut = split_demaskable combined

      whole : Bytes
      whole = demask_for codec s.vault key (drop cut combined ++ rest)

  -- The buffer of the field after a piece of its own, before what comes later.
  rest_after_own :
      (key k : StreamKey) (piece rest : Bytes) (s : SseDemasker)
      → key_beq k key ≡ true
      → (let combined = held s key ++ piece in
          held (push_buffered codec k piece s).1 key ++ rest
          ≡ drop (split_demaskable combined) combined ++ rest)
  rest_after_own key k piece rest s same =
      ap (λ (l : Bytes). l ++ rest)
        (held-push_buffered k piece s key
          ∙ ap
              (λ (j : StreamKey).
                if key_beq k key
                then drop (split_demaskable (held s j ++ piece)) (held s j ++ piece)
                else held s key)
              ((key_beq_iff k key).0 same)
          ∙ rw same refl)

  vault-push_buffered :
      (key : StreamKey) (piece : Bytes) (s : SseDemasker)
      → (push_buffered codec key piece s).1.vault ≡ s.vault
  unfolding push_buffered
  vault-push_buffered key piece s = refl

  text_of-own :
      (key k : StreamKey) (piece : Bytes) (rest : List (StreamKey × Bytes))
      → key_beq k key ≡ true
      → text_of key ((k, piece) ∷ rest) ≡ piece ++ text_of key rest
  text_of-own key k piece rest same = rw same refl

  text_of-other :
      (key k : StreamKey) (piece : Bytes) (rest : List (StreamKey × Bytes))
      → key_beq k key ≡ false
      → text_of key ((k, piece) ∷ rest) ≡ text_of key rest
  text_of-other key k piece rest other = rw other refl

  -- The pieces of every field may arrive in any order among each other. If, in the field's whole text, what is in
  -- its buffer included, every token has between its brackets at most 32 bytes, each a letter, a digit, a blank,
  -- a low line or a hyphen, then the pieces that are emitted for the field, followed by the restored rest in its
  -- buffer, are the whole text restored at once.
  pub push_all-restores :
      (key : StreamKey) (pieces : List (StreamKey × Bytes)) (s : SseDemasker)
      → IsStreamable (held s key ++ text_of key pieces)
      → text_of key (push_all pieces s).0
          ++ demask_for codec s.vault key (held (push_all pieces s).1 key)
        ≡ demask_for codec s.vault key (held s key ++ text_of key pieces)
  push_all-restores key [] s h = ap (demask_for codec s.vault key) (sym (append-nil (held s key)))
  push_all-restores key ((k, piece) ∷ rest) s h = elim (Bool-cases (key_beq k key)) [
    | inl same ↦
        let s' = (push_buffered codec k piece s).1 in
        let after = rest_after_own key k piece (text_of key rest) s same in
        let combined = held s key ++ piece in
        let h' : IsStreamable (combined ++ text_of key rest) =
          subst IsStreamable
            (ap (λ (l : Bytes). held s key ++ l) (text_of-own key k piece rest same)
              ∙ sym (append_assoc (held s key) piece (text_of key rest)))
            h in
        let later = push_all-restores key rest s' (
          subst IsStreamable (sym after) (
            IsStreamable-suffix (take (split_demaskable combined) combined) _ (
              subst IsStreamable
                (ap (λ (l : Bytes). l ++ text_of key rest)
                    (sym (take-append-drop (split_demaskable combined) combined))
                  ∙ append_assoc (take (split_demaskable combined) combined)
                      (drop (split_demaskable combined) combined) (text_of key rest))
                h'))) in
        let emitted = text_of key (push_all rest s').0 in
        let tail = demask_for codec s.vault key (held (push_all rest s').1 key) in
        ap (λ (l : Bytes). l ++ tail)
          (text_of-own key k (push_buffered codec k piece s).0 (push_all rest s').0 same)
        ∙ push_own key k piece (text_of key rest) emitted tail s same h' (
            subst
              (λ (v : Vault).
                emitted ++ demask_for codec v key (held (push_all rest s').1 key)
                ≡ demask_for codec v key (held s' key ++ text_of key rest))
              (vault-push_buffered k piece s) later
            ∙ ap (demask_for codec s.vault key) after)
        ∙ ap (demask_for codec s.vault key) (
            append_assoc (held s key) piece (text_of key rest)
            ∙ ap (λ (l : Bytes). held s key ++ l) (sym (text_of-own key k piece rest same)))
    | inr other ↦
        let s' = (push_buffered codec k piece s).1 in
        let idle : held s' key ≡ held s key = held-push_buffered k piece s key ∙ rw other refl in
        let same_text : held s' key ++ text_of key rest
            ≡ held s key ++ text_of key ((k, piece) ∷ rest) =
          ap (λ (l : Bytes). l ++ text_of key rest) idle
          ∙ ap (λ (l : Bytes). held s key ++ l) (sym (text_of-other key k piece rest other)) in
        let later = push_all-restores key rest s' (subst IsStreamable (sym same_text) h) in
        let tail = demask_for codec s.vault key (held (push_all rest s').1 key) in
        ap (λ (l : Bytes). l ++ tail)
          (text_of-other key k (push_buffered codec k piece s).0 (push_all rest s').0 other)
        ∙ subst
            (λ (v : Vault).
              text_of key (push_all rest s').0
                ++ demask_for codec v key (held (push_all rest s').1 key)
              ≡ demask_for codec v key (held s' key ++ text_of key rest))
            (vault-push_buffered k piece s) later
        ∙ ap (demask_for codec s.vault key) same_text
  ]
