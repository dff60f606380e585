-- ===== src/Overlap.antt =====
-- src/pii/overlap.rs: a bag of candidate spans is reduced to one set that does not overlap.
-- Structured spans that overlap are merged into their union; an NER span that overlaps something
-- kept is dropped whole.
pub mod Layout
pub mod Widen
pub mod Merge
pub mod Sweep
pub mod Resolve
pub mod Naming
mod Examples
use llm_proxy_pii_rust.Prelude.{
  ℕ, zero, suc, ◌+◌, ◌-◌, ◌≤◌, ◌<◌, min, max, ◌≡◌, refl, Bool, true, false, not, ◌&&◌, ◌||◌, List,
  [], ◌∷◌, ◌++◌, map, Option, none, some, arith, ltb, leb, nat_beq, if◌then◌else◌, length, select,
  any, find, Bytes, ◌==◌,
}
use llm_proxy_pii_rust.Prelude.Sort.{sort_by}
use llm_proxy_pii_rust.Kind.{PiiKind, email, priority, is_structured, kind_eq, kind_beq}
use llm_proxy_pii_rust.Text.{is_char_boundary, get_slice}
use llm_proxy_pii_rust.Entity.{Span, span_len, PiiEntity, Confidence, structural}

-- Half-open ranges intersect.
unfoldable pub overlaps : Span → Span → Bool
overlaps a b = ltb a.start b.end && ltb b.start a.end

unfoldable pub span_beq : Span → Span → Bool
span_beq a b = nat_beq a.start b.start && nat_beq a.end b.end

-- A strictly higher priority, or the same and strictly longer.
unfoldable pub outranks : PiiEntity → PiiEntity → Bool
unfolding priority
outranks candidate incumbent =
    let p = priority candidate.kind in
    let q = priority incumbent.kind in
    ltb q p || (nat_beq p q && ltb (span_len incumbent.span) (span_len candidate.span))

-- `iter().reduce(|best, e| if outranks(e, best) { e } else { best })` from the first of the group.
unfoldable pub best_of : PiiEntity → List PiiEntity → PiiEntity
unfolding outranks
best_of best [] = best
best_of best (e ∷ es) = best_of (if outranks e best then e else best) es

unfoldable pub is_exact_email : Span → PiiEntity → Bool
unfolding kind_beq span_beq
is_exact_email union e = e.kind == email && span_beq e.span union

-- Which candidate of the group `e ∷ es` names the union.
unfoldable pub name_of : PiiEntity → List PiiEntity → Span → PiiEntity
unfolding best_of is_exact_email find
name_of e es union = elim (find (is_exact_email union) (e ∷ es)) [
  | some exact ↦ exact
  | none ↦ best_of e es
]

-- `while start > 0 && !input.is_char_boundary(start) { start -= 1 }`
unfoldable pub lower_to_boundary : Bytes → ℕ → ℕ
unfolding is_char_boundary
lower_to_boundary input zero = zero
lower_to_boundary input (suc start) =
    let lower = lower_to_boundary input start in
    if is_char_boundary input (suc start) then suc start else lower

-- `while end < input.len() && !input.is_char_boundary(end) { end += 1 }`, with the rounds left.
unfoldable pub raise_to_boundary : Bytes → ℕ → ℕ → ℕ
unfolding is_char_boundary
raise_to_boundary input zero end = end
raise_to_boundary input (suc rounds) end =
    let higher = raise_to_boundary input rounds (end + 1) in
    if ltb end (length input) && not (is_char_boundary input end) then higher else end

unfoldable pub widen_to_char_boundaries : Bytes → Span → Span
unfolding lower_to_boundary raise_to_boundary
widen_to_char_boundaries input span =
    let start = lower_to_boundary input (min span.start (length input)) in
    let clamped = min span.end (length input) in
    let end = raise_to_boundary input (length input - clamped) clamped in
    record { start = start; end = max end start }

abbrev min_start : ℕ → List PiiEntity → ℕ
min_start s [] = s
min_start s (e ∷ es) = min_start (min s e.start) es

abbrev max_end : ℕ → List PiiEntity → ℕ
max_end u [] = u
max_end u (e ∷ es) = max_end (max u e.end) es

-- From the first start to the last end of the group.
abbrev union_of : PiiEntity → List PiiEntity → Span
union_of e es = record { start = min_start e.start es; end = max_end e.end es }

-- One overlap group becomes one entity; a union that cannot be sliced leaves the group as it is.
unfoldable pub materialize : Bytes → List PiiEntity → List PiiEntity
unfolding name_of widen_to_char_boundaries get_slice span_beq
materialize input [] = []
materialize input (e ∷ es) =
    let union = union_of e es in
    let winner = name_of e es union in
    let confidence = if span_beq winner.span union then winner.confidence else structural in
    let span = widen_to_char_boundaries input union in
    elim (get_slice input span.start span.end) [
      | some text ↦
          record { kind = winner.kind; span = span; text = text; confidence = confidence } ∷ []
      | none ↦ e ∷ es
    ]

-- The loop over the candidates, with the last group and its `union_end`.
unfoldable pub sweep : List PiiEntity → ℕ → List PiiEntity → List (List PiiEntity)
sweep group union_end [] = group ∷ []
sweep group union_end (c ∷ cs) = elim (ltb c.start union_end) [
  | true ↦ sweep (group ++ c ∷ []) (max union_end c.end) cs
  | false ↦ group ∷ sweep (c ∷ []) c.end cs
]

unfoldable pub group_overlapping : List PiiEntity → List (List PiiEntity)
unfolding sweep
group_overlapping [] = []
group_overlapping (c ∷ cs) = sweep (c ∷ []) c.end cs

-- `flat_map(|group| materialize(input, group))`
unfoldable pub materialize_all : Bytes → List (List PiiEntity) → List PiiEntity
unfolding materialize
materialize_all input [] = []
materialize_all input (g ∷ gs) = materialize input g ++ materialize_all input gs

-- By start, and the longer of two with one start first.
unfoldable pub sweep_order : PiiEntity → PiiEntity → Bool
sweep_order a b = ltb a.start b.start || (nat_beq a.start b.start && leb b.end a.end)

unfoldable pub merge_structured : Bytes → List PiiEntity → List PiiEntity
unfolding sort_by sweep_order group_overlapping materialize_all
merge_structured input candidates =
    materialize_all input (group_overlapping (sort_by sweep_order candidates))

-- By priority, then length, both falling, then start.
unfoldable pub ner_order : PiiEntity → PiiEntity → Bool
unfolding priority
ner_order a b =
    let p = priority a.kind in
    let q = priority b.kind in
    ltb q p
    || (nat_beq p q
        && (ltb (span_len b.span) (span_len a.span)
            || (nat_beq (span_len a.span) (span_len b.span) && leb a.start b.start)))

-- One NER candidate is pushed if it overlaps nothing kept.
unfoldable pub keep_clear : List PiiEntity → PiiEntity → List PiiEntity
unfolding overlaps any
keep_clear kept candidate =
    if any (λ k. overlaps candidate.span k.span) kept then kept else kept ++ candidate ∷ []

unfoldable pub keep_all_clear : List PiiEntity → List PiiEntity → List PiiEntity
unfolding keep_clear
keep_all_clear kept [] = kept
keep_all_clear kept (c ∷ cs) = keep_all_clear (keep_clear kept c) cs

abbrev pub is_structured_entity : PiiEntity → Bool
is_structured_entity e = is_structured e.kind

abbrev pub is_ner_entity : PiiEntity → Bool
is_ner_entity e = not (is_structured e.kind)

abbrev pub start_order : PiiEntity → PiiEntity → Bool
start_order a b = leb a.start b.start

unfoldable pub resolve_overlaps : Bytes → List PiiEntity → List PiiEntity
unfolding select merge_structured sort_by ner_order keep_all_clear is_structured
resolve_overlaps input candidates =
    let structured_kept = merge_structured input (select is_structured_entity candidates) in
    let ner = sort_by ner_order (select is_ner_entity candidates) in
    sort_by start_order (keep_all_clear structured_kept ner)
