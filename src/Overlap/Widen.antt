-- ===== src/Overlap/Widen.antt =====
-- `widen_to_char_boundaries` never takes a byte away, and leaves a span that is cut between
-- characters as it is.
use llm_proxy_pii_rust.Prelude.{
  ℕ, zero, suc, ◌+◌, ◌-◌, ◌≤◌, min, ◌≡◌, refl, ap, ◌∙◌, true, arith, length, Bytes, some,
}
use llm_proxy_pii_rust.Text.{is_char_boundary, slice, get_slice}
use llm_proxy_pii_rust.Entity.{Span, IsSpanOf}
use llm_proxy_pii_rust.Overlap.{lower_to_boundary, raise_to_boundary, widen_to_char_boundaries}

pub lower_to_boundary-le : (input : Bytes) (n : ℕ) → lower_to_boundary input n ≤ n
unfolding lower_to_boundary
lower_to_boundary-le input zero = omega arith
lower_to_boundary-le input (suc n) = ground (arith, lower_to_boundary-le input n)

pub raise_to_boundary-ge : (input : Bytes) (r n : ℕ) → n ≤ raise_to_boundary input r n
unfolding raise_to_boundary
raise_to_boundary-ge input zero n = omega arith
raise_to_boundary-ge input (suc r) n = ground (arith, raise_to_boundary-ge input r (n + 1))

-- The rounds given are enough: the loop ends at a boundary.
raise_to_boundary-boundary :
    (input : Bytes) (r n : ℕ)
    → n + r ≡ length input
    → is_char_boundary input (raise_to_boundary input r n) ≡ true
unfolding raise_to_boundary
raise_to_boundary-boundary input zero n h = unfold is_char_boundary in ground arith
raise_to_boundary-boundary input (suc r) n h =
    ground (arith, raise_to_boundary-boundary input r (n + 1))

lower_to_boundary-boundary :
    (input : Bytes) (n : ℕ) → is_char_boundary input (lower_to_boundary input n) ≡ true
unfolding lower_to_boundary
lower_to_boundary-boundary input zero = unfold is_char_boundary in refl
lower_to_boundary-boundary input (suc n) = ground (arith, lower_to_boundary-boundary input n)

module _ (input : Bytes) (s : Span) where
  pub widen-start-le : (widen_to_char_boundaries input s).start ≤ s.start
  unfolding widen_to_char_boundaries
  widen-start-le = omega (arith, lower_to_boundary-le input (min s.start (length input)))

  pub widen-end-ge :
      (n : ℕ) → n ≤ s.end → n ≤ length input → n ≤ (widen_to_char_boundaries input s).end
  unfolding widen_to_char_boundaries
  widen-end-ge n h k = omega (
    arith,
    raise_to_boundary-ge input (length input - min s.end (length input)) (min s.end (length input)),
  )

-- Whatever the span, also one outside the input or the wrong way round, the widened one can be sliced.
pub widen-sliceable :
    (input : Bytes) (s : Span)
    → let w = widen_to_char_boundaries input s in
      (text : Bytes) × (get_slice input w.start w.end ≡ some text)
unfolding widen_to_char_boundaries get_slice
widen-sliceable input s = (
  slice input w.start w.end,
  ground (
    arith,
    lower_to_boundary-boundary input (min s.start (length input)),
    raise_to_boundary-boundary input (length input - clamped) clamped (omega arith),
  ),
)
  where
    clamped : ℕ
    clamped = min s.end (length input)

    w : Span
    w = widen_to_char_boundaries input s

lower_to_boundary-eq :
    (input : Bytes) (n : ℕ) → is_char_boundary input n ≡ true → lower_to_boundary input n ≡ n
unfolding lower_to_boundary
lower_to_boundary-eq input zero h = refl
lower_to_boundary-eq input (suc n) h = rw h

raise_to_boundary-eq :
    (input : Bytes) (r n : ℕ) → is_char_boundary input n ≡ true → raise_to_boundary input r n ≡ n
unfolding raise_to_boundary
raise_to_boundary-eq input zero n h = refl
raise_to_boundary-eq input (suc r) n h = ground arith

pub widen-eq : (input : Bytes) (s : Span) → IsSpanOf input s → widen_to_char_boundaries input s ≡ s
unfolding widen_to_char_boundaries
widen-eq input s v = λ i. record { start = low i; end = high i }
  where
    low : lower_to_boundary input (min s.start (length input)) ≡ s.start
    low =
        ap (lower_to_boundary input) {x = min s.start (length input)} {y = s.start}
          (omega (arith, v.not_empty, v.inside))
        ∙ lower_to_boundary-eq input s.start v.start_cut

    raised :
        raise_to_boundary input (length input - min s.end (length input)) (min s.end (length input))
        ≡ s.end
    raised =
        ap (λ (t : ℕ). raise_to_boundary input (length input - t) t) {x = min s.end (length input)}
          {y = s.end} (omega (arith, v.inside))
        ∙ raise_to_boundary-eq input (length input - s.end) s.end v.end_cut

    high : (widen_to_char_boundaries input s).end ≡ s.end
    high = omega (arith, low, raised, v.not_empty)
