-- ===== src/Cache/Laws.antt =====
-- A hit is what a fresh scan found, the cache is bounded, and what is not cached is not changed.
use llm_proxy_pii_rust.Prelude.{
  ℕ, ◌≤◌, ◌<◌, ◌≡◌, refl, sym, ap, subst, ◌∙◌, ◌⊎◌, inl, inr, List, [], Option, none, some, arith,
  leb, length, Bytes, bytes_eq, bytes_beq, bytes_beq_iff, Bool-cases, Option-cases,
}
use llm_proxy_pii_rust.Prelude.Maps.{
  Dict, lookup, insert, remove, lookup-insert, lookup-remove, length-insert, length-remove,
}
use llm_proxy_pii_rust.Entity.{PiiEntity, DetectError, Outcome, ok, err}
use llm_proxy_pii_rust.Budget.{Budget}
use llm_proxy_pii_rust.Detector.{Detection}
use llm_proxy_pii_rust.Cache.{
  Generational, new, put, get, cacheable, Cached, enter, on_read, try_detect,
}

-- The detector found these on this field, with some allowance.
abbrev pub Found : Detection → Bytes → List PiiEntity → Type 0
Found inner input es = (b : Budget) × ((inner input b).0 ≡ ok es)

-- Every entry is a detection of its own key.
pub record IsFaithful (inner : Detection) (g : Generational) : Type 0 where
  pub hot :
      (key : Bytes) (es : List PiiEntity) → lookup key g.current ≡ some es → Found inner key es
  pub cold :
      (key : Bytes) (es : List PiiEntity) → lookup key g.previous ≡ some es → Found inner key es

-- Neither generation is larger than the capacity.
pub record IsBounded (g : Generational) : Type 0 where
  pub room : 0 < g.cap
  pub hot_bound : length g.current ≤ g.cap
  pub cold_bound : length g.previous ≤ g.cap

pub new-IsBounded : (cap : ℕ) → IsBounded (new cap)
unfolding new
new-IsBounded cap = omega arith

put-IsBounded :
    (key : Bytes) (val : List PiiEntity) (g : Generational)
    → IsBounded g
    → IsBounded (put key val g)
unfolding put
put-IsBounded key val g i =
    ground (arith, length-insert key val g.current, length-insert key val [])

-- Every entry of one generation is a detection of its key.
abbrev AllFound : Detection → Dict Bytes (List PiiEntity) → Type 0
AllFound inner m = (key : Bytes) (es : List PiiEntity) → lookup key m ≡ some es → Found inner key es

module _ (inner : Detection) where
  insert-AllFound :
      (key : Bytes) (val : List PiiEntity) (m : Dict Bytes (List PiiEntity))
      → AllFound inner m
      → Found inner key val
      → AllFound inner (insert key val m)
  insert-AllFound key val m all f k es e = elim (Bool-cases (bytes_beq key k)) [
    | inl same ↦
        let at : some val ≡ some es = ground (arith, lookup-insert key k val m, e, same) in
        let eq : val ≡ es = ground arith in
        subst (λ (t : Bytes). Found inner t es) ((bytes_beq_iff key k).0 same)
          (subst (λ (t : List PiiEntity). Found inner key t) eq f)
    | inr other ↦ all k es (ground (arith, lookup-insert key k val m, e, other))
  ]

  nil-AllFound : AllFound inner []
  nil-AllFound k es e = absurd (unfold lookup in cc)

  remove-AllFound :
      (key : Bytes) (m : Dict Bytes (List PiiEntity))
      → AllFound inner m
      → AllFound inner (remove key m)
  remove-AllFound key m all k es e =
      all k es (ground (arith, lookup-remove {V = List PiiEntity} key k m, e))

  put-IsFaithful :
      (key : Bytes) (val : List PiiEntity) (g : Generational)
      → IsFaithful inner g
      → Found inner key val
      → IsFaithful inner (put key val g)
  put-IsFaithful key val g i f = elim (Bool-cases (leb g.cap (length g.current))) [
    | inl e ↦
        subst (IsFaithful inner)
          {x = record g { previous = g.current; current = insert key val [] }}
          (unfold put in rw (e, put))
          (record { hot = insert-AllFound key val [] nil-AllFound f; cold = i.hot })
    | inr e ↦
        subst (IsFaithful inner) {x = record g { current = insert key val g.current }}
          (unfold put in rw (e, put))
          (record { hot = insert-AllFound key val g.current i.hot f; cold = i.cold })
  ]

-- What a look-up answers, beside the new state.
record Reads (inner : Detection) (key : Bytes) (o : Option (List PiiEntity)) (g : Generational)
    : Type 0 where
  faithful : IsFaithful inner g
  bounded : IsBounded g
  hit : (es : List PiiEntity) → o ≡ some es → Found inner key es

get-Reads :
    (inner : Detection) (key : Bytes) (g : Generational)
    → IsFaithful inner g
    → IsBounded g
    → Reads inner key (get key g).0 (get key g).1
unfolding get
get-Reads inner key g i b = elim (Option-cases (lookup key g.current)) [
  | inr (v, e) ↦
      rw (e, get) (record { faithful = i; bounded = b; hit = λ es h. i.hot key es (e ∙ h) })
  | inl miss ↦ elim (Option-cases (lookup key g.previous)) [
    | inl none_cold ↦
        rw (miss, none_cold, get) (record { faithful = i; bounded = b; hit = λ es h. absurd (cc) })
    | inr (v, e) ↦
        let rest : Generational = record g { previous = remove key g.previous } in
        rw (miss, e, get)
          (record {
            faithful =
                put-IsFaithful inner key v rest
                  (record { hot = i.hot; cold = remove-AllFound inner key g.previous i.cold })
                  (i.cold key v e);
            bounded = put-IsBounded key v rest (
                let r = b.room in
                let h = b.hot_bound in
                let c = b.cold_bound in
                omega (arith, length-remove {V = List PiiEntity} key g.previous));
            hit = λ es h. i.cold key es (e ∙ h);
          })
  ]
]

-- A cached answer, beside what the detector answers to the same call.
pub record IsSound (inner : Detection) (input : Bytes) (b : Budget) (r : Cached) : Type 0 where
  pub faithful : IsFaithful inner r.2
  pub bounded : IsBounded r.2
  pub found : (es : List PiiEntity) → r.0 ≡ ok es → Found inner input es
  pub failed : (e : DetectError) → r.0 ≡ err e → (inner input b).0 ≡ err e
  pub charged : (r.1 ≡ b) ⊎ (r.1 ≡ (inner input b).1)

module _ (inner : Detection) (input : Bytes) (b : Budget) where
  enter-IsSound :
      (g : Generational) (r : Outcome DetectError (List PiiEntity) × Budget)
      → inner input b ≡ r
      → IsFaithful inner g
      → IsBounded g
      → IsSound inner input b (enter input g r)
  unfolding enter
  enter-IsSound g (err e, b') same i k = record {
    faithful = i;
    bounded = k;
    found = λ es h. absurd (cc);
    failed = λ x h. cc;
    charged = inr (sym (ap (λ r. r.1) same));
  }
  enter-IsSound g (ok d, b') same i k = record {
    faithful = put-IsFaithful inner input d g i (b, ap (λ r. r.0) same);
    bounded = put-IsBounded input d g k;
    found = λ es h. (b, cc);
    failed = λ x h. absurd (cc);
    charged = inr (sym (ap (λ r. r.1) same));
  }

  on_read-IsSound :
      (r : Option (List PiiEntity) × Generational)
      → Reads inner input r.0 r.1
      → IsSound inner input b (on_read inner input b r)
  unfolding on_read
  on_read-IsSound (some v, g) reads = record {
    faithful = reads.faithful;
    bounded = reads.bounded;
    found = λ es h. reads.hit es (ground arith);
    failed = λ x h. absurd (cc);
    charged = inl refl;
  }
  on_read-IsSound (none, g) reads =
      enter-IsSound g (inner input b) refl reads.faithful reads.bounded

-- From a cache whose entries are detections of their keys and whose generations keep within the
-- capacity, a call leaves such a cache. What it answers as found, the detector itself finds on the
-- same field; a failure is the detector's failure on this call; and the call charges what the
-- detector charges, or nothing.
pub try_detect-IsSound :
    (inner : Detection) (input : Bytes) (b : Budget) (g : Generational)
    → IsFaithful inner g
    → IsBounded g
    → IsSound inner input b (try_detect inner input b g)
unfolding try_detect
try_detect-IsSound inner input b g i k = elim (Bool-cases (cacheable input)) [
  | inl e ↦
      subst (IsSound inner input b) {x = on_read inner input b (get input g)}
        (unfold try_detect in rw (e, try_detect))
        (on_read-IsSound inner input b (get input g) (get-Reads inner input g i k))
  | inr e ↦
      subst (IsSound inner input b) {x = ((inner input b).0, (inner input b).1, g)}
        (unfold try_detect in rw (e, try_detect))
        (record {
          faithful = i;
          bounded = k;
          found = λ es h. (b, h);
          failed = λ x h. h;
          charged = inr refl;
        })
]
