-- ===== src/Overlap/Sweep.antt =====
-- The entities that the structured half makes of well formed candidates are well formed, in reading
-- order, and apart from one another.
use llm_proxy_pii_rust.Prelude.{
  ℕ, ◌≤◌, min, max, ◌≡◌, refl, sym, subst, inl, inr, true, false, List, [], ◌∷◌, ◌++◌, arith, ltb,
  Bytes, All, Pairs, Bool-cases,
}
use llm_proxy_pii_rust.Prelude.Quantifiers.{All-append, Pairs-imp, All-imp}
use llm_proxy_pii_rust.Prelude.Sort.{sort_by, All-sort_by, sort_by-SortedBy}
use llm_proxy_pii_rust.Entity.{PiiEntity, IsEntityOf}
use llm_proxy_pii_rust.Overlap.{
  min_start, max_end, sweep_order, sweep, group_overlapping, materialize, materialize_all,
  merge_structured,
}
use llm_proxy_pii_rust.Overlap.Layout.{Ordered}
use llm_proxy_pii_rust.Overlap.Merge.{materialize-exact, sweep_joined, sweep_apart}

max_end-append :
    (u : ℕ) (es : List PiiEntity) (c : PiiEntity)
    → max_end u (es ++ c ∷ []) ≡ max (max_end u es) c.end
max_end-append u [] c = refl
max_end-append u (e ∷ es) c = max_end-append (max u e.end) es c

min_start-append_ge :
    (lo s : ℕ) (es : List PiiEntity) (c : PiiEntity)
    → lo ≤ min_start s es
    → lo ≤ c.start
    → lo ≤ min_start s (es ++ c ∷ [])
min_start-append_ge lo s [] c h k = omega arith
min_start-append_ge lo s (e ∷ es) c h k = min_start-append_ge lo (min s e.start) es c h k

-- Candidates whose starts do not fall.
abbrev StartsRise : List PiiEntity → Type 0
StartsRise = Pairs (λ a b. a.start ≤ b.start)

abbrev IsTidy : Bytes → ℕ → List PiiEntity → Type 0
IsTidy input lo ks = All (IsEntityOf input) ks × Ordered lo ks

module _ (input : Bytes) where
  materialize-Tidy :
      (lo : ℕ) (e : PiiEntity) (es ks : List PiiEntity)
      → All (IsEntityOf input) (e ∷ es)
      → lo ≤ min_start e.start es
      → IsTidy input (max_end e.end es) ks
      → IsTidy input lo (materialize input (e ∷ es) ++ ks)
  materialize-Tidy lo e es ks g h t =
      let (k, one, spans, valid) = materialize-exact input e es g in
      subst (λ l. IsTidy input lo (l ++ ks)) (sym one)
        (
          (valid, t.0),
          (
            subst (λ w. lo ≤ w.start) (sym spans) h,
            valid.spans.not_empty,
            subst (λ w. Ordered w.end ks) (sym spans) t.1,
          ),
        )

  sweep-Tidy :
      (cs : List PiiEntity) (lo : ℕ) (e : PiiEntity) (es : List PiiEntity)
      → All (IsEntityOf input) (e ∷ es)
      → All (IsEntityOf input) cs
      → StartsRise cs
      → lo ≤ min_start e.start es
      → All (λ c. lo ≤ c.start) cs
      → IsTidy input lo (materialize_all input (sweep (e ∷ es) (max_end e.end es) cs))
  unfolding sweep materialize_all
  sweep-Tidy [] lo e es g gs s h b = materialize-Tidy lo e es [] g h (tt, tt)
  sweep-Tidy (c ∷ cs) lo e es g gs s h b = elim (Bool-cases (ltb c.start (max_end e.end es))) [
    | inl t ↦
        subst (λ l. IsTidy input lo (materialize_all input l))
          (sym (sweep_joined (e ∷ es) (max_end e.end es) c cs t))
          (subst (λ u. IsTidy input lo (materialize_all input (sweep (e ∷ es ++ c ∷ []) u cs)))
            (max_end-append e.end es c)
            (sweep-Tidy cs lo e (es ++ c ∷ [])
              (g.0, All-append (IsEntityOf input) es (c ∷ []) g.1 (gs.0, tt)) gs.1 s.1
              (min_start-append_ge lo e.start es c h b.0) b.1))
    | inr f ↦
        subst (λ l. IsTidy input lo (materialize_all input l))
          (sym (sweep_apart (e ∷ es) (max_end e.end es) c cs f))
          (materialize-Tidy lo e es _ g h (
            let after : max_end e.end es ≤ c.start = ground arith in
            sweep-Tidy cs (max_end e.end es) c [] (gs.0, tt) gs.1 s.1 after
              (All-imp (λ k r. omega arith) cs s.0)))
  ]

sweep_order-total : (a b : PiiEntity) → sweep_order a b ≡ false → sweep_order b a ≡ true
unfolding sweep_order
sweep_order-total a b h = ground arith

sweep_order_trans :
    (a b c : PiiEntity) → sweep_order a b ≡ true → sweep_order b c ≡ true → sweep_order a c ≡ true
unfolding sweep_order
sweep_order_trans a b c h k = ground arith

sweep_order-le : (a b : PiiEntity) → sweep_order a b ≡ true → a.start ≤ b.start
unfolding sweep_order
sweep_order-le a b h = ground arith

groups-Tidy :
    (input : Bytes) (cs : List PiiEntity)
    → All (IsEntityOf input) cs
    → StartsRise cs
    → IsTidy input 0 (materialize_all input (group_overlapping cs))
unfolding group_overlapping materialize_all
groups-Tidy input [] g s = (tt, tt)
groups-Tidy input (c ∷ cs) g s =
    sweep-Tidy input cs 0 c [] (g.0, tt) g.1 s.1 (omega arith) (All-imp (λ k r. omega arith) cs s.0)

pub merge_structured-Tidy :
    (input : Bytes) (cs : List PiiEntity)
    → All (IsEntityOf input) cs
    → All (IsEntityOf input) (merge_structured input cs) × Ordered 0 (merge_structured input cs)
unfolding merge_structured
merge_structured-Tidy input cs g =
    groups-Tidy input (sort_by sweep_order cs) (All-sort_by (IsEntityOf input) sweep_order cs g) (
      Pairs-imp sweep_order-le _
        (sort_by-SortedBy sweep_order sweep_order-total sweep_order_trans cs))
