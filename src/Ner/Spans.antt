-- ===== src/Ner/Spans.antt =====
-- What is decoded stands in the text at its span.
use llm_proxy_pii_rust.Prelude.{
  ℕ, ◌+◌, ◌-◌, ◌≤◌, ◌<◌, ◌≡◌, refl, sym, ap, ◌∙◌, ◌⊎◌, inl, inr, true, ◌++◌, List, [], ◌∷◌,
  append_assoc, Option, none, some, length, length-append, take, drop, take-append-drop,
  length-take, Bytes, arith, All, Option-cases, Bool-cases, leb, ◌&&◌,
}
use llm_proxy_pii_rust.Prelude.Quantifiers.{All-append}
use llm_proxy_pii_rust.Kind.{PiiKind}
use llm_proxy_pii_rust.Entity.{PiiEntity}
use llm_proxy_pii_rust.Text.{slice, get_slice, is_char_boundary}
use llm_proxy_pii_rust.White.{
  White, foreign, partial, whole, white, trim, trim_start, trim_start_from, trim_end,
}
use llm_proxy_pii_rust.Ner.{
  TokenTag, Pending, trimmed_entity, flush_pending_entity, opened, extended, continues, is_begin,
  label_to_kind, decode_from, decode_entities,
}

White-cases : (w : White) → (w ≡ foreign) ⊎ ((w ≡ partial) ⊎ (w ≡ whole))
White-cases foreign = inl refl
White-cases partial = inr (inl refl)
White-cases whole = inr (inr refl)

-- The second text is the end of the first; the second is the beginning of the first.
abbrev IsTail : Bytes → Bytes → Type 0
IsTail s t = (before : Bytes) × (s ≡ before ++ t)

abbrev IsHead : Bytes → Bytes → Type 0
IsHead s t = (after : Bytes) × (s ≡ t ++ after)

IsTail-next : (s cs : Bytes) (c : ℕ) → IsTail s (c ∷ cs) → IsTail s cs
IsTail-next s cs c (before, e) = (before ++ c ∷ [], e ∙ sym (append_assoc before (c ∷ []) cs))

trim_start_from-IsTail :
    (s rest pre kept : Bytes)
    → IsTail s kept
    → IsTail s rest
    → IsTail s (trim_start_from pre kept rest)
unfolding trim_start_from
trim_start_from-IsTail s [] pre kept h g = h
trim_start_from-IsTail s (c ∷ cs) pre kept h g =
    let after = IsTail-next s cs c g in
    elim (White-cases (white pre c)) [
      | inl e ↦ rw (e, trim_start_from) h
      | inr (inl e) ↦
          rw (e, trim_start_from) (trim_start_from-IsTail s cs (pre ++ c ∷ []) kept h after)
      | inr (inr e) ↦ rw (e, trim_start_from) (trim_start_from-IsTail s cs [] cs after after)
    ]

trim_start-IsTail : (s : Bytes) → IsTail s (trim_start s)
unfolding trim_start
trim_start-IsTail s = trim_start_from-IsTail s s [] s ([], refl) ([], refl)

Bytes-cases : (s : Bytes) → (s ≡ []) ⊎ ((c : ℕ) × (cs : Bytes) × (s ≡ c ∷ cs))
Bytes-cases [] = inl refl
Bytes-cases (c ∷ cs) = inr (c, cs, refl)

trim_end-IsHead : (s : Bytes) → IsHead s (trim_end s)
unfolding trim_end
trim_end-IsHead [] = ([], refl)
trim_end-IsHead (c ∷ cs) = elim (Bytes-cases (trim_start (c ∷ cs))) [
  | inl e ↦ rw (e, trim_end) (c ∷ cs, refl)
  | inr (d, ds, e) ↦
      let (after, whole_text) = trim_end-IsHead cs in
      rw (e, trim_end) (after, ap (λ (l : Bytes). c ∷ l) whole_text)
]

-- The text of the entity stands in the input from the start of its span up to the end, and is not empty.
pub record StandsIn (input : Bytes) (e : PiiEntity) : Type 0 where
  pub before : Bytes
  pub after : Bytes
  pub whole_input : input ≡ before ++ (e.text ++ after)
  pub starts : length before ≡ e.start
  pub ends : e.start + length e.text ≡ e.end
  pub not_empty : e.start < e.end

trimmed_entity-StandsIn :
    (input before after : Bytes) (kind : PiiKind) (start : ℕ) (whole_slice trimmed : Bytes)
    → input ≡ before ++ (trimmed ++ after)
    → length before ≡ start
    → All (StandsIn input) (trimmed_entity kind start whole_slice trimmed)
unfolding trimmed_entity
trimmed_entity-StandsIn input before after kind start whole_slice [] e l = tt
trimmed_entity-StandsIn input before after kind start whole_slice (c ∷ cs) e l = (
  record {
    before = before;
    after = after;
    whole_input = e;
    starts = l;
    ends = refl;
    not_empty = omega arith;
  },
  tt,
)

boundary-inside : (s : Bytes) (i : ℕ) → is_char_boundary s i ≡ true → i ≤ length s
unfolding is_char_boundary
boundary-inside s i h = ground arith

-- A slice, with what stands before it and behind it.
get_slice-around :
    (s piece : Bytes) (start end : ℕ)
    → get_slice s start end ≡ some piece
    → (before : Bytes) × (after : Bytes) × ((s ≡ before ++ (piece ++ after))
        × (length before ≡ start))
unfolding get_slice slice
get_slice-around s piece start end h =
    elim (Bool-cases (leb start end && is_char_boundary s start && is_char_boundary s end)) [
      | inr e ↦ let h' : none ≡ some piece = rw (e, get_slice) at h in absurd (cc)
      | inl e ↦
          let h' : some (slice s start end) ≡ some piece = rw (e, get_slice) at h in
          let same : slice s start end ≡ piece = ground arith in
          let cut : is_char_boundary s start ≡ true = ground arith in
          let low = boundary-inside s start cut in
          let sized = length-take start s in
          (
            take start s,
            drop (end - start) (drop start s),
            (
              sym (take-append-drop start s)
                  ∙ ap (λ (l : Bytes). take start s ++ l)
                      (sym (take-append-drop (end - start) (drop start s))
                        ∙ ap (λ (l : Bytes). l ++ drop (end - start) (drop start s)) same),
              omega arith,
            ),
          )
    ]

trim-around :
    (s : Bytes)
    → (before : Bytes) × (after : Bytes) × ((s ≡ before ++ (trim s ++ after))
        × (length before ≡ length s - length (trim_start s)))
unfolding trim
trim-around s =
    let (before, front) = trim_start-IsTail s in
    let (after, back) = trim_end-IsHead (trim_start s) in
    let sized = ap (λ (l : Bytes). length l) front ∙ length-append before (trim_start s) in
    (before, after, (front ∙ ap (λ (l : Bytes). before ++ l) back, omega arith))

flush-StandsIn :
    (input : Bytes) (current : Option Pending)
    → All (StandsIn input) (flush_pending_entity input current)
unfolding flush_pending_entity
flush-StandsIn input none = tt
flush-StandsIn input (some p) = elim (Option-cases (get_slice input p.start p.end)) [
  | inl e ↦ rw (e, flush_pending_entity) tt
  | inr (piece, e) ↦
      let (a, b, (outer, at)) = get_slice-around input piece p.start p.end e in
      let (u, v, (inner, lead)) = trim-around piece in
      let sized = length-append a u in
      rw (e, flush_pending_entity)
        (trimmed_entity-StandsIn input (a ++ u) (v ++ b) p.kind
          (p.start + (length piece - length (trim_start piece))) piece (trim piece)
          (outer ∙ ap (λ (l : Bytes). a ++ (l ++ b)) inner ∙ regroup a u (trim piece) v b)
          (omega arith))
]
  where
    regroup : (a u t v b : Bytes) → a ++ ((u ++ (t ++ v)) ++ b) ≡ (a ++ u) ++ (t ++ (v ++ b))
    regroup a u t v b =
        ap (λ (l : Bytes). a ++ l)
          (append_assoc u (t ++ v) b ∙ ap (λ (l : Bytes). u ++ l) (append_assoc t v b))
        ∙ sym (append_assoc a u (t ++ (v ++ b)))

decode_from-StandsIn :
    (input : Bytes) (tokens : List TokenTag) (current : Option Pending)
    → All (StandsIn input) (decode_from input current tokens)
unfolding decode_from
decode_from-StandsIn input [] current = flush-StandsIn input current
decode_from-StandsIn input (token ∷ tokens) current =
    let flushed = flush-StandsIn input current in
    elim (Option-cases (label_to_kind token.label)) [
      | inl e ↦
          rw (e, decode_from)
            (All-append (StandsIn input) (flush_pending_entity input current)
              (decode_from input none tokens) flushed (decode_from-StandsIn input tokens none))
      | inr (kind, e) ↦ elim (Bool-cases (continues kind (is_begin token.label) current)) [
        | inl c ↦
            rw (e, c, decode_from) (decode_from-StandsIn input tokens (extended current token))
        | inr c ↦
            rw (e, c, decode_from)
              (All-append (StandsIn input) (flush_pending_entity input current)
                (decode_from input (some (opened kind token)) tokens) flushed
                (decode_from-StandsIn input tokens (some (opened kind token))))
      ]
    ]

-- Whatever labels and offsets the model gives, also offsets outside the text, the wrong way round or inside a
-- character, each entity that is decoded is not empty and carries exactly the bytes that stand in the text
-- from the start of its span up to the end.
pub decode_entities-StandsIn :
    (input : Bytes) (tokens : List TokenTag) → All (StandsIn input) (decode_entities input tokens)
unfolding decode_entities
decode_entities-StandsIn input tokens = decode_from-StandsIn input tokens none
