-- ===== src/Stream/Flush.antt =====
-- Flushing empties the buffers, and a second time emits nothing.
use llm_proxy_pii_rust.Prelude.{
  ◌≡◌, refl, sym, ap, ◌∙◌, ◌↔◌, ◌⊎◌, inl, inr, List, [], ◌∷◌, none, arith, Bytes, Any, Bool-cases,
  Option-cases, if◌then◌else◌,
}
use llm_proxy_pii_rust.Prelude.Maps.{Dict, lookup, lookup-remove}
use llm_proxy_pii_rust.Prelude.Sort.{sort_by, Any-sort_by}
use llm_proxy_pii_rust.Stream.{StreamKey, key_eq, key_beq, key_beq_iff, key_le, Codec, SseDemasker}
use llm_proxy_pii_rust.Stream.Frames.{keys_of, flush_key, flush_keys, flush_pending}

abbrev pub Lists : List StreamKey → StreamKey → Type 0
Lists keys key = Any (λ k. k ≡ key) keys

-- The order of a hash map lists exactly the keys that are there.
abbrev pub IsOrder : (List StreamKey → List StreamKey) → Type 0
IsOrder order = (keys : List StreamKey) (key : StreamKey) → Lists (order keys) key ↔ Lists keys key

keys_of-Lists :
    (dict : Dict StreamKey Bytes) (key : StreamKey)
    → (lookup key dict ≡ none) ⊎ Lists (keys_of dict) key
unfolding lookup
keys_of-Lists [] key = inl refl
keys_of-Lists ((at, text) ∷ rest) key = elim (Bool-cases (key_beq at key)) [
  | inl e ↦ inr (inl ((key_beq_iff at key).0 e))
  | inr e ↦ elim (keys_of-Lists rest key) [ inl h ↦ inl (rw e h) | inr h ↦ inr (inr h) ]
]

-- A dictionary in which no key is found is empty.
lookup-none :
    (dict : Dict StreamKey Bytes) → ((key : StreamKey) → lookup key dict ≡ none) → dict ≡ []
unfolding lookup
lookup-none [] h = refl
lookup-none ((at, text) ∷ rest) h =
    absurd (let missing = h at in let same = (key_beq_iff at at).1 refl in ground arith)

lookup_missing :
    (key asked : StreamKey) (dict : Dict StreamKey Bytes)
    → lookup key dict ≡ none
    → lookup asked dict ≡ (if key_beq key asked then none else lookup asked dict)
lookup_missing key asked dict h = elim (Bool-cases (key_beq key asked)) [
  | inl e ↦ rw e (ap (λ (k : StreamKey). lookup k dict) (sym ((key_beq_iff key asked).0 e)) ∙ h)
  | inr e ↦ rw e refl
]

nothing_listed : (order : List StreamKey → List StreamKey) → IsOrder order → order [] ≡ []
nothing_listed order h = from (order []) (λ key. (h [] key).0)
  where
    from : (keys : List StreamKey) → ((key : StreamKey) → Lists keys key → Lists [] key) → keys ≡ []
    from [] g = refl
    from (key ∷ keys) g = absurd (g key (inl refl))

module _ (codec : Codec) where
  lookup-flush_key :
      (key asked : StreamKey) (s : SseDemasker)
      → lookup asked (flush_key codec key s).1.pending
        ≡ (if key_beq key asked then none else lookup asked s.pending)
  lookup-flush_key key asked s = elim (Option-cases (lookup key s.pending)) [
    | inl e ↦ unfold flush_key in rw (e, flush_key) (lookup_missing key asked s.pending e)
    | inr (text, e) ↦
        unfold flush_key in rw (e, flush_key) (lookup-remove {V = Bytes} key asked s.pending)
  ]

  lookup-flush_keys :
      (keys : List StreamKey) (asked : StreamKey) (s : SseDemasker)
      → (lookup asked s.pending ≡ none) ⊎ Lists keys asked
      → lookup asked (flush_keys codec keys s).1.pending ≡ none
  unfolding flush_keys
  lookup-flush_keys [] asked s h = elim h [ inl e ↦ e | inr listed ↦ absurd listed ]
  lookup-flush_keys (key ∷ keys) asked s h =
      lookup-flush_keys keys asked (flush_key codec key s).1
        (elim (Bool-cases (key_beq key asked)) [
          | inl e ↦ inl (lookup-flush_key key asked s ∙ rw e refl)
          | inr e ↦ elim h [
            | inl missing ↦ inl (lookup-flush_key key asked s ∙ rw e missing)
            | inr listed ↦ elim listed [
              | inl same ↦ absurd (let found = (key_beq_iff key asked).1 same in cc)
              | inr later ↦ inr later
            ]
          ]
        ])

  -- If the hash map lists exactly its keys, then after all buffers are flushed none holds anything, and
  -- to flush them again emits nothing and changes nothing.
  pub flush_pending_again :
      (s : SseDemasker)
      → IsOrder codec.hash_order
      → (let flushed = (flush_pending codec s).1 in
          (flushed.pending ≡ []) × (flush_pending codec flushed ≡ ([], flushed)))
  unfolding flush_pending
  flush_pending_again s h = (emptied, again (flush_pending codec s).1 emptied)
    where
      keys : List StreamKey
      keys = codec.hash_order (keys_of s.pending)

      listed : (key : StreamKey) → (lookup key s.pending ≡ none) ⊎ Lists (sort_by key_le keys) key
      listed key = elim (keys_of-Lists s.pending key) [
        | inl missing ↦ inl missing
        | inr there ↦
            inr (Any-sort_by (λ k. k ≡ key) key_le keys ((h (keys_of s.pending) key).1 there))
      ]

      emptied : (flush_pending codec s).1.pending ≡ []
      emptied =
          lookup-none (flush_pending codec s).1.pending
            (λ key. lookup-flush_keys (sort_by key_le keys) key s (listed key))

      again : (t : SseDemasker) → t.pending ≡ [] → flush_pending codec t ≡ ([], t)
      again t e =
          ap (λ (ks : List StreamKey). flush_keys codec (sort_by key_le ks) t)
            (ap (λ (d : Dict StreamKey Bytes). codec.hash_order (keys_of d)) e
              ∙ nothing_listed codec.hash_order h)
          ∙ unfold sort_by flush_keys in refl
