-- ===== src/Overlap/Merge.antt =====
-- The structured half: the sweep loses no candidate, every candidate lies inside an entity that
-- comes out, and the entities come out in reading order, apart from one another.
use llm_proxy_pii_rust.Prelude.{
  ℕ, ◌≤◌, min, max, ◌≡◌, refl, sym, ap, ◌∙◌, subst, inl, inr, true, false, List, [], ◌∷◌, ◌++◌,
  append_assoc, some, arith, ltb, leb, length, Bytes, All, Any, if◌then◌else◌, Bool-cases,
}
use llm_proxy_pii_rust.Prelude.Quantifiers.{All-imp, All-append, Any-append_left, Any-append_right}
use llm_proxy_pii_rust.Entity.{Span, PiiEntity, structural, IsSpanOf, IsEntityOf}
use llm_proxy_pii_rust.Text.{get_slice, is_char_boundary}
use llm_proxy_pii_rust.Overlap.{
  span_beq, name_of, min_start, max_end, union_of, widen_to_char_boundaries, materialize, sweep,
  group_overlapping, materialize_all,
}
use llm_proxy_pii_rust.Overlap.Widen.{widen-start-le, widen-end-ge, widen-sliceable, widen-eq}

-- The bytes of `e` are bytes of `k`.
abbrev pub Covers : PiiEntity → PiiEntity → Type 0
Covers e k = (k.start ≤ e.start) × (e.end ≤ k.end)

abbrev IsWithin : ℕ → ℕ → PiiEntity → Type 0
IsWithin s u e = (s ≤ e.start) × (e.end ≤ u)

min_start-le : (s : ℕ) (es : List PiiEntity) → min_start s es ≤ s
min_start-le s [] = omega arith
min_start-le s (e ∷ es) = omega (arith, min_start-le (min s e.start) es)

max_end-ge : (u : ℕ) (es : List PiiEntity) → u ≤ max_end u es
max_end-ge u [] = omega arith
max_end-ge u (e ∷ es) = omega (arith, max_end-ge (max u e.end) es)

union-IsWithin : (s u : ℕ) (es : List PiiEntity) → All (IsWithin (min_start s es) (max_end u es)) es
union-IsWithin s u [] = tt
union-IsWithin s u (e ∷ es) = (
  (omega (arith, min_start-le (min s e.start) es), omega (arith, max_end-ge (max u e.end) es)),
  union-IsWithin (min s e.start) (max u e.end) es,
)

-- A group that is not empty becomes one entity, over the widened union.
pub materialize_one :
    (input : Bytes) (e : PiiEntity) (es : List PiiEntity)
    → (k : PiiEntity) × (materialize input (e ∷ es) ≡ k ∷ [])
      × (k.span ≡ widen_to_char_boundaries input (union_of e es))
      × (get_slice input k.start k.end ≡ some k.text)
      × (k.kind ≡ (name_of e es (union_of e es)).kind)
unfolding materialize
materialize_one input e es =
    let union = union_of e es in
    let winner = name_of e es union in
    let (text, sliced) = widen-sliceable input union in
    (
      record {
        kind = winner.kind;
        span = widen_to_char_boundaries input union;
        text = text;
        confidence = if span_beq winner.span union then winner.confidence else structural;
      },
      rw (sliced, materialize),
      refl,
      sliced,
      refl,
    )

-- Every member of a group lies inside the entity that the group becomes.
materialize-Covers :
    (input : Bytes) (g : List PiiEntity)
    → All (λ c. c.end ≤ length input → Any (Covers c) (materialize input g)) g
unfolding materialize
materialize-Covers input [] = tt
materialize-Covers input (e ∷ es) =
    let union = union_of e es in
    let (k, one, spans, sliced, named) = materialize_one input e es in
    All-imp
      (λ c h inside. subst (Any (Covers c)) (sym one) (
        inl (
          subst (λ (w : Span). (w.start ≤ c.start) × (c.end ≤ w.end)) (sym spans)
            (
              omega (arith, h, widen-start-le input union),
              omega (arith, widen-end-ge input union c.end h.1 inside),
            ))))
      (e ∷ es) ((min_start-le e.start es, max_end-ge e.end es), union-IsWithin e.start e.end es)

pub sweep_joined :
    (g : List PiiEntity) (u : ℕ) (c : PiiEntity) (cs : List PiiEntity)
    → ltb c.start u ≡ true
    → sweep g u (c ∷ cs) ≡ sweep (g ++ c ∷ []) (max u c.end) cs
unfolding sweep
sweep_joined g u c cs e = rw (e, sweep)

pub sweep_apart :
    (g : List PiiEntity) (u : ℕ) (c : PiiEntity) (cs : List PiiEntity)
    → ltb c.start u ≡ false
    → sweep g u (c ∷ cs) ≡ g ∷ sweep (c ∷ []) c.end cs
unfolding sweep
sweep_apart g u c cs e = rw (e, sweep)

pub concat : List (List PiiEntity) → List PiiEntity
concat [] = []
concat (g ∷ gs) = g ++ concat gs

concat-sweep :
    (group : List PiiEntity) (u : ℕ) (cs : List PiiEntity) → concat (sweep group u cs) ≡ group ++ cs
unfolding concat sweep
concat-sweep group u [] = refl
concat-sweep group u (c ∷ cs) = elim (Bool-cases (ltb c.start u)) [
  | inl e ↦
      ap concat (sweep_joined group u c cs e)
      ∙ concat-sweep (group ++ c ∷ []) (max u c.end) cs
      ∙ append_assoc group (c ∷ []) cs
  | inr e ↦
      ap concat (sweep_apart group u c cs e)
      ∙ ap (λ (l : List PiiEntity). group ++ l) (concat-sweep (c ∷ []) c.end cs)
]

-- The groups, put together again, are the candidates in their order: none is lost or doubled.
pub concat-group_overlapping : (cs : List PiiEntity) → concat (group_overlapping cs) ≡ cs
unfolding group_overlapping concat
concat-group_overlapping [] = refl
concat-group_overlapping (c ∷ cs) = concat-sweep (c ∷ []) c.end cs

materialize_all-Covers :
    (input : Bytes) (gs : List (List PiiEntity))
    → All (λ c. c.end ≤ length input → Any (Covers c) (materialize_all input gs)) (concat gs)
unfolding concat materialize_all
materialize_all-Covers input [] = tt
materialize_all-Covers input (g ∷ gs) =
    All-append _ g (concat gs)
      (All-imp (λ c h i. Any-append_left (Covers c) (materialize input g) _ (h i)) g
        (materialize-Covers input g))
      (All-imp (λ c h i. Any-append_right (Covers c) (materialize input g) _ (h i)) (concat gs)
        (materialize_all-Covers input gs))

-- Every candidate that was swept lies inside an entity that comes out.
pub groups-cover :
    (input : Bytes) (cs : List PiiEntity)
    → All
        (λ c. c.end ≤ length input → Any (Covers c) (materialize_all input (group_overlapping cs)))
        cs
groups-cover input cs =
    subst
      (λ l.
        All
          (λ c.
            c.end ≤ length input → Any (Covers c) (materialize_all input (group_overlapping cs)))
          l)
      (concat-group_overlapping cs) (materialize_all-Covers input (group_overlapping cs))

module _ (input : Bytes) where
  min-IsCut :
      (a b : ℕ)
      → is_char_boundary input a ≡ true
      → is_char_boundary input b ≡ true
      → is_char_boundary input (min a b) ≡ true
  min-IsCut a b h k = elim (Bool-cases (leb a b)) [
    | inl e ↦ subst (λ n. is_char_boundary input n ≡ true) {x = a} (ground arith) h
    | inr e ↦ subst (λ n. is_char_boundary input n ≡ true) {x = b} (ground arith) k
  ]

  max-IsCut :
      (a b : ℕ)
      → is_char_boundary input a ≡ true
      → is_char_boundary input b ≡ true
      → is_char_boundary input (max a b) ≡ true
  max-IsCut a b h k = elim (Bool-cases (leb a b)) [
    | inl e ↦ subst (λ n. is_char_boundary input n ≡ true) {x = b} (ground arith) k
    | inr e ↦ subst (λ n. is_char_boundary input n ≡ true) {x = a} (ground arith) h
  ]

  min_start-IsCut :
      (s : ℕ) (es : List PiiEntity)
      → is_char_boundary input s ≡ true
      → All (IsEntityOf input) es
      → is_char_boundary input (min_start s es) ≡ true
  min_start-IsCut s [] h g = h
  min_start-IsCut s (e ∷ es) h g =
      min_start-IsCut (min s e.start) es (min-IsCut s e.start h g.0.spans.start_cut) g.1

  max_end-IsCut :
      (u : ℕ) (es : List PiiEntity)
      → is_char_boundary input u ≡ true
      → All (IsEntityOf input) es
      → is_char_boundary input (max_end u es) ≡ true
  max_end-IsCut u [] h g = h
  max_end-IsCut u (e ∷ es) h g =
      max_end-IsCut (max u e.end) es (max-IsCut u e.end h g.0.spans.end_cut) g.1

  max_end-le :
      (u : ℕ) (es : List PiiEntity)
      → u ≤ length input
      → All (IsEntityOf input) es
      → max_end u es ≤ length input
  max_end-le u [] h g = h
  max_end-le u (e ∷ es) h g =
      max_end-le (max u e.end) es (let i = g.0.spans.inside in omega arith) g.1

  -- The union of well formed spans is well formed.
  union_of-IsSpanOf :
      (e : PiiEntity) (es : List PiiEntity)
      → All (IsEntityOf input) (e ∷ es)
      → IsSpanOf input (union_of e es)
  union_of-IsSpanOf e es g =
      let v = g.0.spans in
      record {
        not_empty = omega (arith, v.not_empty, min_start-le e.start es, max_end-ge e.end es);
        inside = max_end-le e.end es v.inside g.1;
        start_cut = min_start-IsCut e.start es v.start_cut g.1;
        end_cut = max_end-IsCut e.end es v.end_cut g.1;
      }

  -- A group of well formed candidates becomes a well formed entity over exactly its union.
  pub materialize-exact :
      (e : PiiEntity) (es : List PiiEntity)
      → All (IsEntityOf input) (e ∷ es)
      → (k : PiiEntity) × (materialize input (e ∷ es) ≡ k ∷ [])
        × (k.span ≡ union_of e es)
        × IsEntityOf input k
  materialize-exact e es g =
      let (k, one, spans, sliced, named) = materialize_one input e es in
      let exact = spans ∙ widen-eq input (union_of e es) (union_of-IsSpanOf e es g) in
      (
        k,
        one,
        exact,
        record {
          spans = subst (IsSpanOf input) (sym exact) (union_of-IsSpanOf e es g);
          carries = unfold get_slice in ground arith;
        },
      )
