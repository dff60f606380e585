-- ===== src/Overlap/Layout.antt =====
-- Spans in reading order that do not overlap: the form in which `Vault::mask` takes its entities.
use llm_proxy_pii_rust.Prelude.{
  ℕ, ◌≤◌, ◌<◌, ◌≡◌, true, false, List, [], ◌∷◌, arith, All, Pairs, Bytes,
}
use llm_proxy_pii_rust.Prelude.Quantifiers.{All-imp, All-imp₂}
use llm_proxy_pii_rust.Prelude.Sort.{SortedBy}
use llm_proxy_pii_rust.Entity.{PiiEntity, IsEntityOf}
use llm_proxy_pii_rust.Overlap.{overlaps, start_order}

-- Each span begins at or after the end of the one before it, the first at or after `lo`.
abbrev pub Ordered : ℕ → List PiiEntity → Type 0
Ordered lo [] = Unit
Ordered lo (e ∷ es) = (lo ≤ e.start) × (e.start < e.end) × Ordered e.end es

-- Two entities share no byte.
abbrev pub Apart : PiiEntity → PiiEntity → Type 0
Apart a b = overlaps a.span b.span ≡ false

pub Apart-symm : (a b : PiiEntity) → Apart a b → Apart b a
unfolding overlaps
Apart-symm a b h = ground arith

pub Ordered-weaken : {lo lo' : ℕ} (es : List PiiEntity) → lo' ≤ lo → Ordered lo es → Ordered lo' es
Ordered-weaken [] h o = tt
Ordered-weaken (e ∷ es) h o = (omega arith, o.1, o.2)

pub Ordered-start-le : (lo : ℕ) (es : List PiiEntity) → Ordered lo es → All (λ k. lo ≤ k.start) es
Ordered-start-le lo [] o = tt
Ordered-start-le lo (e ∷ es) o =
    (o.0, All-imp (λ k h. omega arith) es (Ordered-start-le e.end es o.2))

-- Spans in order are pairwise apart.
pub Ordered-Apart : (lo : ℕ) (es : List PiiEntity) → Ordered lo es → Pairs Apart es
unfolding overlaps
Ordered-Apart lo [] o = tt
Ordered-Apart lo (e ∷ es) o =
    (All-imp (λ k h. ground arith) es (Ordered-start-le e.end es o.2), Ordered-Apart e.end es o.2)

-- Spans that are pairwise apart, not empty and sorted by start are in order.
pub Apart-Ordered :
    (input : Bytes) (lo : ℕ) (es : List PiiEntity)
    → All (λ k. lo ≤ k.start) es
    → All (IsEntityOf input) es
    → SortedBy start_order es
    → Pairs Apart es
    → Ordered lo es
unfolding overlaps
Apart-Ordered input lo [] b g s p = tt
Apart-Ordered input lo (e ∷ es) b g s p =
    (b.0, g.0.spans.not_empty, Apart-Ordered input e.end es after g.1 s.1 p.1)
  where
    gap :
        (k : PiiEntity)
        → IsEntityOf input k
        → (start_order e k ≡ true) × (overlaps e.span k.span ≡ false)
        → e.end ≤ k.start
    gap k q r = let nonempty = q.spans.not_empty in ground arith

    after : All (λ k. e.end ≤ k.start) es
    after = All-imp₂ gap es g.1 (All-imp₂ (λ k h h'. (h, h')) es s.0 p.0)
