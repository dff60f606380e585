-- ===== src/Overlap/Resolve.antt =====
-- What `resolve_overlaps` promises its callers.
use llm_proxy_pii_rust.Prelude.{
  ◌≤◌, ◌≡◌, refl, ◌⊎◌, inl, inr, true, false, List, [], ◌∷◌, arith, Bytes, length, All, Any, Pairs,
  Bool-cases, select, any,
}
use llm_proxy_pii_rust.Prelude.Quantifiers.{
  All-imp, All-intro, All-append, All-any, All-select, select-All, Any-any, Any-append_left,
  Any-append_right, Any-imp, Pairs-append_one,
}
use llm_proxy_pii_rust.Prelude.Sort.{
  sort_by, All-sort_by, Any-sort_by, Pairs-sort_by, sort_by-All, sort_by-SortedBy,
}
use llm_proxy_pii_rust.Kind.{is_structured}
use llm_proxy_pii_rust.Entity.{PiiEntity, IsEntityOf}
use llm_proxy_pii_rust.Overlap.{
  overlaps, sweep_order, merge_structured, ner_order, keep_clear, keep_all_clear,
  is_structured_entity, is_ner_entity, start_order, resolve_overlaps,
}
use llm_proxy_pii_rust.Overlap.Layout.{Ordered, Apart, Apart-symm, Ordered-Apart, Apart-Ordered}
use llm_proxy_pii_rust.Overlap.Merge.{Covers, groups-cover}
use llm_proxy_pii_rust.Overlap.Sweep.{merge_structured-Tidy}

merge_structured-cover :
    (input : Bytes) (cs : List PiiEntity)
    → All (λ c. c.end ≤ length input → Any (Covers c) (merge_structured input cs)) cs
unfolding merge_structured
merge_structured-cover input cs =
    sort_by-All _ sweep_order cs (groups-cover input (sort_by sweep_order cs))

module _ (P : PiiEntity → Type 0) where
  keep_clear-Any : (kept : List PiiEntity) (c : PiiEntity) → Any P kept → Any P (keep_clear kept c)
  unfolding keep_clear
  keep_clear-Any kept c h = elim (Bool-cases (any (λ k. overlaps c.span k.span) kept)) [
    | inl e ↦ rw (e, keep_clear) h
    | inr e ↦ rw (e, keep_clear) (Any-append_left P kept (c ∷ []) h)
  ]

  keep_all_clear-Any : (kept cs : List PiiEntity) → Any P kept → Any P (keep_all_clear kept cs)
  unfolding keep_all_clear
  keep_all_clear-Any kept [] h = h
  keep_all_clear-Any kept (c ∷ cs) h =
      keep_all_clear-Any (keep_clear kept c) cs (keep_clear-Any kept c h)

  keep_clear-All :
      (kept : List PiiEntity) (c : PiiEntity) → All P kept → P c → All P (keep_clear kept c)
  unfolding keep_clear
  keep_clear-All kept c h p = elim (Bool-cases (any (λ k. overlaps c.span k.span) kept)) [
    | inl e ↦ rw (e, keep_clear) h
    | inr e ↦ rw (e, keep_clear) (All-append P kept (c ∷ []) h (p, tt))
  ]

  keep_all_clear-All :
      (kept cs : List PiiEntity) → All P kept → All P cs → All P (keep_all_clear kept cs)
  unfolding keep_all_clear
  keep_all_clear-All kept [] h g = h
  keep_all_clear-All kept (c ∷ cs) h g =
      keep_all_clear-All (keep_clear kept c) cs (keep_clear-All kept c h g.0) g.1

-- Every structured candidate inside the input lies, with all its bytes, inside one entity that
-- is kept. Nothing is asked of the candidates but that.
pub resolve_overlaps-Covers :
    (input : Bytes) (candidates : List PiiEntity)
    → All
        (λ c.
          is_structured c.kind ≡ true
          → c.end ≤ length input
          → Any (Covers c) (resolve_overlaps input candidates))
        candidates
unfolding resolve_overlaps
resolve_overlaps-Covers input candidates =
    let structured = select is_structured_entity candidates in
    select-All _ is_structured_entity candidates (
      All-imp
        (λ c h inside. Any-sort_by (Covers c) start_order _ (
          keep_all_clear-Any (Covers c) (merge_structured input structured)
            (sort_by ner_order (select is_ner_entity candidates)) (h inside)))
        structured (merge_structured-cover input structured))

keep_clear-Apart :
    (kept : List PiiEntity) (c : PiiEntity) → Pairs Apart kept → Pairs Apart (keep_clear kept c)
unfolding keep_clear
keep_clear-Apart kept c h = elim (Bool-cases (any (λ k. overlaps c.span k.span) kept)) [
  | inl e ↦ rw (e, keep_clear) h
  | inr e ↦
      rw (e, keep_clear)
        (Pairs-append_one Apart kept c h
          (All-imp (λ k a. Apart-symm c k a) kept (All-any (λ k. overlaps c.span k.span) kept e)))
]

keep_all_clear-Apart :
    (kept cs : List PiiEntity) → Pairs Apart kept → Pairs Apart (keep_all_clear kept cs)
unfolding keep_all_clear
keep_all_clear-Apart kept [] h = h
keep_all_clear-Apart kept (c ∷ cs) h =
    keep_all_clear-Apart (keep_clear kept c) cs (keep_clear-Apart kept c h)

pub start_order-total : (a b : PiiEntity) → start_order a b ≡ false → start_order b a ≡ true
start_order-total a b h = ground arith

pub start_order_trans :
    (a b c : PiiEntity) → start_order a b ≡ true → start_order b c ≡ true → start_order a c ≡ true
start_order_trans a b c h k = ground arith

-- If every candidate is a well formed entity of the input, so is every entity that is kept, and they
-- stand in reading order, each beginning at or after the end of the one before.
pub resolve_overlaps-Ordered :
    (input : Bytes) (candidates : List PiiEntity)
    → All (IsEntityOf input) candidates
    → All (IsEntityOf input) (resolve_overlaps input candidates)
      × Ordered 0 (resolve_overlaps input candidates)
unfolding resolve_overlaps
resolve_overlaps-Ordered input candidates g = (sorted_valid, ordered)
  where
    valid : PiiEntity → Type 0
    valid = IsEntityOf input

    structured : List PiiEntity
    structured = select is_structured_entity candidates

    ner : List PiiEntity
    ner = sort_by ner_order (select is_ner_entity candidates)

    kept : List PiiEntity
    kept = keep_all_clear (merge_structured input structured) ner

    merged :
        All valid (merge_structured input structured)
        × Ordered 0 (merge_structured input structured)
    merged =
        merge_structured-Tidy input structured (All-select valid is_structured_entity candidates g)

    kept_valid : All valid kept
    kept_valid =
        keep_all_clear-All valid _ ner merged.0
          (All-sort_by valid ner_order _ (All-select valid is_ner_entity candidates g))

    kept_apart : Pairs Apart kept
    kept_apart = keep_all_clear-Apart _ ner (Ordered-Apart 0 _ merged.1)

    sorted_valid : All valid (sort_by start_order kept)
    sorted_valid = All-sort_by valid start_order kept kept_valid

    ordered : Ordered 0 (sort_by start_order kept)
    ordered =
        Apart-Ordered input 0 (sort_by start_order kept) (All-intro _ (λ k. omega arith) _)
          sorted_valid (sort_by-SortedBy start_order start_order-total start_order_trans kept)
          (Pairs-sort_by Apart start_order Apart-symm kept kept_apart)

abbrev Settles : PiiEntity → PiiEntity → Type 0
Settles c k = (k ≡ c) ⊎ (overlaps c.span k.span ≡ true)

keep_clear-Settles : (kept : List PiiEntity) (c : PiiEntity) → Any (Settles c) (keep_clear kept c)
unfolding keep_clear
keep_clear-Settles kept c = elim (Bool-cases (any (λ k. overlaps c.span k.span) kept)) [
  | inl e ↦
      rw (e, keep_clear)
        (Any-imp (λ k h. inr h) kept (Any-any (λ k. overlaps c.span k.span) kept e))
  | inr e ↦ rw (e, keep_clear) (Any-append_right (Settles c) kept (c ∷ []) (inl (inl refl)))
]

keep_all_clear-Settles :
    (kept cs : List PiiEntity) → All (λ c. Any (Settles c) (keep_all_clear kept cs)) cs
unfolding keep_all_clear
keep_all_clear-Settles kept [] = tt
keep_all_clear-Settles kept (c ∷ cs) = (
  keep_all_clear-Any (Settles c) (keep_clear kept c) cs (keep_clear-Settles kept c),
  keep_all_clear-Settles (keep_clear kept c) cs,
)

-- Every NER candidate is kept as it is, or overlaps an entity that is kept.
pub resolve_overlaps-Settles :
    (input : Bytes) (candidates : List PiiEntity)
    → All
        (λ c.
          is_structured c.kind ≡ false
          → Any
              (λ k. (k ≡ c) ⊎ (overlaps c.span k.span ≡ true))
              (resolve_overlaps input candidates))
        candidates
unfolding resolve_overlaps
resolve_overlaps-Settles input candidates =
    All-imp (λ c h e. h (rw e)) candidates
      (select-All _ is_ner_entity candidates (
        sort_by-All _ ner_order (select is_ner_entity candidates) (
          All-imp (λ c h. Any-sort_by (Settles c) start_order _ h) _
            (keep_all_clear-Settles
              (merge_structured input (select is_structured_entity candidates))
              (sort_by ner_order (select is_ner_entity candidates))))))
