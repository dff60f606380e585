-- ===== src/Overlap/Naming.antt =====
-- Which kind a union is announced under.
use llm_proxy_pii_rust.Prelude.{
  ◌≤◌, ◌<◌, ◌≡◌, refl, subst, ◌⊎◌, inl, inr, Bool, none, some, true, false, List, [], ◌∷◌, arith,
  All, Any, Bool-cases, Option-cases, find, Bytes, ltb, sym, ap, ◌∙◌,
}
use llm_proxy_pii_rust.Prelude.Quantifiers.{All-imp, Any-imp, find-eq_some}
use llm_proxy_pii_rust.Kind.{email, priority, kind_beq_iff}
use llm_proxy_pii_rust.Entity.{PiiEntity, Span, span_len}
use llm_proxy_pii_rust.Overlap.{
  span_beq, outranks, best_of, is_exact_email, name_of, union_of, materialize,
}
use llm_proxy_pii_rust.Overlap.Merge.{materialize_one}

-- A rank at least as high: priority first, then length.
abbrev pub RanksLe : PiiEntity → PiiEntity → Type 0
RanksLe a b =
    (priority a.kind < priority b.kind)
    ⊎ ((priority a.kind ≡ priority b.kind) × (span_len a.span ≤ span_len b.span))

outranks-RanksLe : (e best : PiiEntity) → outranks e best ≡ true → RanksLe best e
unfolding outranks
outranks-RanksLe e best h = elim (Bool-cases (ltb (priority best.kind) (priority e.kind))) [
  | inl l ↦ inl (ground arith)
  | inr n ↦ inr (ground arith, ground arith)
]

not-outranks-RanksLe : (e best : PiiEntity) → outranks e best ≡ false → RanksLe e best
unfolding outranks
not-outranks-RanksLe e best h = elim (Bool-cases (ltb (priority e.kind) (priority best.kind))) [
  | inl l ↦ inl (ground arith)
  | inr n ↦ inr (ground arith, ground arith)
]

RanksLe-trans : (a b c : PiiEntity) → RanksLe a b → RanksLe b c → RanksLe a c
RanksLe-trans a b c (inl h) (inl k) = inl (omega arith)
RanksLe-trans a b c (inl h) (inr k) = inl (omega arith)
RanksLe-trans a b c (inr h) (inl k) = inl (omega arith)
RanksLe-trans a b c (inr h) (inr k) = inr (omega arith, omega arith)

best_of-taken :
    (e best : PiiEntity) (es : List PiiEntity)
    → outranks e best ≡ true
    → best_of best (e ∷ es) ≡ best_of e es
unfolding best_of
best_of-taken e best es h = rw (h, best_of)

best_of-left :
    (e best : PiiEntity) (es : List PiiEntity)
    → outranks e best ≡ false
    → best_of best (e ∷ es) ≡ best_of best es
unfolding best_of
best_of-left e best es h = rw (h, best_of)

abbrev IsBest : PiiEntity → List PiiEntity → PiiEntity → Type 0
IsBest best es w = RanksLe best w × All (λ e. RanksLe e w) es × Any (λ e. e ≡ w) (best ∷ es)

-- The best of a group is one of them, and each of them ranks at most as high.
best_of-IsBest : (best : PiiEntity) (es : List PiiEntity) → IsBest best es (best_of best es)
unfolding best_of
best_of-IsBest best [] = (inr (refl, omega arith), tt, inl refl)
best_of-IsBest best (e ∷ es) = elim (Bool-cases (outranks e best)) [
  | inl t ↦
      let (h, hs, m) = best_of-IsBest e es in
      subst (IsBest best (e ∷ es)) (sym (best_of-taken e best es t))
        (RanksLe-trans best e (best_of e es) (outranks-RanksLe e best t) h, (h, hs), inr m)
  | inr f ↦
      let (h, hs, m) = best_of-IsBest best es in
      subst (IsBest best (e ∷ es)) (sym (best_of-left e best es f)) (
        h,
        (RanksLe-trans e best (best_of best es) (not-outranks-RanksLe e best f) h, hs),
        elim m [ inl q ↦ inl q | inr q ↦ inr (inr q) ],
      )
]

is_exact_email-lem :
    (u : Span) (x : PiiEntity)
    → is_exact_email u x ≡ true
    → (x.kind ≡ email) × (x.start ≡ u.start) × (x.end ≡ u.end)
unfolding is_exact_email span_beq
is_exact_email-lem u x h = (ground (arith, kind_beq_iff x.kind email), ground arith, ground arith)

RanksLe-priority : (a b : PiiEntity) → RanksLe a b → priority a.kind ≤ priority b.kind
RanksLe-priority a b h = ground arith

-- An email whose span is exactly the union of the group.
abbrev pub IsWholeEmail : PiiEntity → List PiiEntity → PiiEntity → Type 0
IsWholeEmail e es m =
    (m.kind ≡ email) × (m.start ≡ (union_of e es).start) × (m.end ≡ (union_of e es).end)

-- An email of the group covers its whole union, and names it.
abbrev pub NamedByEmail : PiiEntity → List PiiEntity → PiiEntity → Type 0
NamedByEmail e es k = (k.kind ≡ email) × Any (IsWholeEmail e es) (e ∷ es)

-- No email of the group covers its whole union; a member of the group names it, and none has a higher priority.
abbrev pub NamedByRank : PiiEntity → List PiiEntity → PiiEntity → Type 0
NamedByRank e es k =
    All (λ m. IsWholeEmail e es m → ⊥) (e ∷ es)
    × Any (λ m. m.kind ≡ k.kind) (e ∷ es)
    × All (λ m. priority m.kind ≤ priority k.kind) (e ∷ es)

find-none :
    (p : PiiEntity → Bool) (xs : List PiiEntity) → find p xs ≡ none → All (λ x. p x ≡ false) xs
unfolding find
find-none p [] h = tt
find-none p (x ∷ xs) h = elim (Bool-cases (p x)) [
  | inl e ↦ absurd (let h' : some x ≡ none = rw e at h in cc)
  | inr e ↦ (e, find-none p xs (rw e at h))
]

is_exact_email-whole :
    (e : PiiEntity) (es : List PiiEntity) (m : PiiEntity)
    → is_exact_email (union_of e es) m ≡ false
    → IsWholeEmail e es m
    → ⊥
unfolding is_exact_email span_beq
is_exact_email-whole e es m h (kind, start, end) = ground (arith, kind_beq_iff m.kind email)

name_of-named :
    (e : PiiEntity) (es : List PiiEntity)
    → NamedByEmail e es (name_of e es (union_of e es))
      ⊎ NamedByRank e es (name_of e es (union_of e es))
unfolding name_of
name_of-named e es = elim (Option-cases (find (is_exact_email (union_of e es)) (e ∷ es))) [
  | inl q ↦
      let (h, hs, m) = best_of-IsBest e es in
      let w = best_of e es in
      inr (
        subst (NamedByRank e es) {x = w} {y = name_of e es (union_of e es)} (rw (q, name_of)) (
          All-imp (is_exact_email-whole e es) (e ∷ es)
              (find-none (is_exact_email (union_of e es)) (e ∷ es) q),
          Any-imp (λ x s. ap (λ (y : PiiEntity). y.kind) s) (e ∷ es) m,
          All-imp (λ x r. RanksLe-priority x w r) (e ∷ es) (h, hs),
        ))
  | inr (x, q) ↦
      let (exact, member) = find-eq_some (is_exact_email (union_of e es)) (e ∷ es) x q in
      let facts = is_exact_email-lem (union_of e es) x exact in
      inl (
        subst (NamedByEmail e es) {x = x} {y = name_of e es (union_of e es)} (rw (q, name_of))
          (facts.0, Any-imp (λ m s. subst (IsWholeEmail e es) (sym s) facts) (e ∷ es) member))
]

-- A group that is not empty becomes one entity. If an email of the group is exactly the union, the entity is an
-- email; if none is, it takes its kind from a member of the highest priority in the group.
pub materialize-named :
    (input : Bytes) (e : PiiEntity) (es : List PiiEntity)
    → (k : PiiEntity) × (materialize input (e ∷ es) ≡ k ∷ [])
      × (NamedByEmail e es k ⊎ NamedByRank e es k)
materialize-named input e es =
    let (k, one, spans, sliced, named) = materialize_one input e es in
    (
      k,
      one,
      elim (name_of-named e es) [
        | inl h ↦ inl (named ∙ h.0, h.1)
        | inr h ↦ inr (
          h.0,
          subst (λ q. Any (λ m. m.kind ≡ q) (e ∷ es)) (sym named) h.1,
          subst (λ q. All (λ m. priority m.kind ≤ priority q) (e ∷ es)) (sym named) h.2,
        )
      ],
    )
