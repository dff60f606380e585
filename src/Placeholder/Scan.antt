-- ===== src/Placeholder/Scan.antt =====
-- The automaton reads a token up to its `]` and no further, and an open bracket ends any match in
-- progress: so whether a token begins at a place depends on nothing behind its end.
use llm_proxy_pii_rust.Prelude.{
  ℕ, ◌+◌, ◌≤◌, ◌<◌, ◌≡◌, refl, sym, ◌∙◌, ◌⊎◌, false, [], ◌∷◌, ◌++◌, none, some, arith, inl, inr,
  length, Bytes, nat_beq,
}
use llm_proxy_pii_rust.White.{foreign, white}
use llm_proxy_pii_rust.Placeholder.{
  Phase, opened, labelled, separated, numbered, closing, Move, go, accept, reject, step, run, Token,
  match_token,
}

Move-cases :
    (m : Move)
    → ((q : Phase) × (m ≡ go q)) ⊎ ((l : Bytes) × (d : Bytes) × (m ≡ accept l d)) ⊎ (m ≡ reject)
Move-cases (go q) = inl (q, refl)
Move-cases (accept l d) = inr (inl (l, d, refl))
Move-cases reject = inr (inr refl)

module _ (p : Phase) (n c : ℕ) (cs : Bytes) where
  run-go : (q : Phase) → step p c ≡ go q → run p n (c ∷ cs) ≡ run q (n + 1) cs
  unfolding run
  run-go q e = rw (e, run)

  run-accept :
      (l d : Bytes)
      → step p c ≡ accept l d
      → run p n (c ∷ cs) ≡ some (record { label = l; digits = d; size = n + 1 })
  unfolding run
  run-accept l d e = rw (e, run)

  run-reject : step p c ≡ reject → run p n (c ∷ cs) ≡ none
  unfolding run
  run-reject e = rw (e, run)

-- A match that succeeded is not changed by what follows.
pub run-append :
    (cs v : Bytes) (p : Phase) (n : ℕ) (t : Token)
    → run p n cs ≡ some t
    → run p n (cs ++ v) ≡ some t
run-append [] v p n t h = unfold run in cc
run-append (c ∷ cs) v p n t h = elim (Move-cases (step p c)) [
  | inl (q, e) ↦
      run-go p n c (cs ++ v) q e ∙ run-append cs v q (n + 1) t (sym (run-go p n c cs q e) ∙ h)
  | inr (inl (l, d, e)) ↦ run-accept p n c (cs ++ v) l d e ∙ sym (run-accept p n c cs l d e) ∙ h
  | inr (inr e) ↦ cc (run-reject p n c cs e)
]

-- The size counts the bytes read, the last of them included.
pub run-size :
    (cs : Bytes) (p : Phase) (n : ℕ) (t : Token)
    → run p n cs ≡ some t
    → (n < t.size) × (t.size ≤ n + length cs)
run-size [] p n t h = unfold run in cc
run-size (c ∷ cs) p n t h = elim (Move-cases (step p c)) [
  | inl (q, e) ↦ omega (arith, run-size cs q (n + 1) t (sym (run-go p n c cs q e) ∙ h))
  | inr (inl (l, d, e)) ↦ ground (arith, run-accept p n c cs l d e)
  | inr (inr e) ↦ cc (run-reject p n c cs e)
]

-- A match that ends within `cs` is found in `cs` alone.
pub run-prefix :
    (cs v : Bytes) (p : Phase) (n : ℕ) (t : Token)
    → run p n (cs ++ v) ≡ some t
    → t.size ≤ n + length cs
    → run p n cs ≡ some t
run-prefix [] v p n t h k = absurd (omega (arith, run-size v p n t h))
run-prefix (c ∷ cs) v p n t h k = elim (Move-cases (step p c)) [
  | inl (q, e) ↦
      run-go p n c cs q e
      ∙ run-prefix cs v q (n + 1) t (sym (run-go p n c (cs ++ v) q e) ∙ h) (omega arith)
  | inr (inl (l, d, e)) ↦ run-accept p n c cs l d e ∙ sym (run-accept p n c (cs ++ v) l d e) ∙ h
  | inr (inr e) ↦ cc (run-reject p n c (cs ++ v) e)
]

white-open : (pre : Bytes) → white pre b'[' ≡ foreign
unfolding white
white-open [] = refl
white-open (a ∷ []) = ground arith
white-open (a ∷ b ∷ []) = ground arith
white-open (a ∷ b ∷ c ∷ pre) = refl

-- An open bracket ends every match in progress.
step_open : (p : Phase) → step p b'[' ≡ reject
unfolding step
step_open (opened []) = refl
step_open (opened (a ∷ pre)) = rw (white-open (a ∷ pre))
step_open (labelled l) = refl
step_open (separated l) = refl
step_open (numbered l d) = refl
step_open (closing l d []) = refl
step_open (closing l d (a ∷ pre)) = rw (white-open (a ∷ pre))

pub run-append_open : (cs v : Bytes) (p : Phase) (n : ℕ) → run p n (cs ++ b'[' ∷ v) ≡ run p n cs
run-append_open [] v p n = run-reject p n b'[' v (step_open p) ∙ unfold run in refl
run-append_open (c ∷ cs) v p n = elim (Move-cases (step p c)) [
  | inl (q, e) ↦
      run-go p n c (cs ++ b'[' ∷ v) q e ∙ run-append_open cs v q (n + 1) ∙ sym (run-go p n c cs q e)
  | inr (inl (l, d, e)) ↦ run-accept p n c (cs ++ b'[' ∷ v) l d e ∙ sym (run-accept p n c cs l d e)
  | inr (inr e) ↦ run-reject p n c (cs ++ b'[' ∷ v) e ∙ sym (run-reject p n c cs e)
]

pub match_token-append :
    (w v : Bytes) (t : Token) → match_token w ≡ some t → match_token (w ++ v) ≡ some t
unfolding match_token
match_token-append [] v t h = cc
match_token-append (c ∷ cs) v t h = ground (arith, run-append cs v (opened []) 1 t)

pub match_token-size :
    (w : Bytes) (t : Token) → match_token w ≡ some t → (1 < t.size) × (t.size ≤ length w)
unfolding match_token
match_token-size [] t h = cc
match_token-size (c ∷ cs) t h = ground (arith, run-size cs (opened []) 1 t)

pub match_token-prefix :
    (w v : Bytes) (t : Token)
    → match_token (w ++ v) ≡ some t
    → t.size ≤ length w
    → match_token w ≡ some t
match_token-prefix [] v t h k = absurd (omega (arith, match_token-size v t h))
match_token-prefix (c ∷ cs) v t h k =
    unfold match_token in ground (arith, run-prefix cs v (opened []) 1 t)

-- A token starts with an open bracket.
pub match_token-other : (c : ℕ) (cs : Bytes) → nat_beq c b'[' ≡ false → match_token (c ∷ cs) ≡ none
unfolding match_token
match_token-other c cs e = rw e

pub match_token-append_open :
    (c : ℕ) (cs v : Bytes) → match_token (c ∷ cs ++ b'[' ∷ v) ≡ match_token (c ∷ cs)
unfolding match_token
match_token-append_open c cs v = rw (run-append_open cs v (opened []) 1)
