-- ===== src/Vault/Replace.antt =====
-- Replacing works piece by piece: a text is cut where no token runs across, and the pieces are
-- replaced on their own.
use llm_proxy_pii_rust.Prelude.{
  ℕ, zero, suc, ◌-◌, ◌≤◌, ◌≡◌, refl, sym, ap, ◌∙◌, false, inl, inr, [], ◌∷◌, ◌++◌, append_assoc,
  append-nil, none, some, arith, length, take, drop, take-append-drop, Bytes, Option-cases, any,
  nat_beq,
}
use llm_proxy_pii_rust.Placeholder.{Token, match_token}
use llm_proxy_pii_rust.Placeholder.Scan.{
  match_token-append, match_token-append_open, match_token-other, match_token-size,
}
use llm_proxy_pii_rust.Vault.{replace_all}

-- No token that begins in `u` depends on `v`.
abbrev pub Unbroken : Bytes → Bytes → Type 0
Unbroken [] v = Unit
Unbroken (c ∷ cs) v = (match_token (c ∷ (cs ++ v)) ≡ match_token (c ∷ cs)) × Unbroken cs v

pub Unbroken-open : (u v : Bytes) → Unbroken u (b'[' ∷ v)
Unbroken-open [] v = tt
Unbroken-open (c ∷ cs) v = (match_token-append_open c cs v, Unbroken-open cs v)

pub Unbroken-nil : (u : Bytes) → Unbroken u []
Unbroken-nil [] = tt
Unbroken-nil (c ∷ cs) = (rw append-nil, Unbroken-nil cs)

take-append : (n : ℕ) (xs ys : Bytes) → n ≤ length xs → take n (xs ++ ys) ≡ take n xs
take-append zero xs ys h = refl
take-append (suc n) [] ys h = absurd (omega arith)
take-append (suc n) (x ∷ xs) ys h = ap (λ (l : Bytes). x ∷ l) (take-append n xs ys (omega arith))

take-length_append : (w x : Bytes) → take (length w) (w ++ x) ≡ w
take-length_append [] x = refl
take-length_append (c ∷ w) x = ap (λ (l : Bytes). c ∷ l) (take-length_append w x)

module _ (sub : Token → Bytes → Bytes) where
  pub replace_all-token :
      (c : ℕ) (cs : Bytes) (t : Token)
      → match_token (c ∷ cs) ≡ some t
      → replace_all sub 0 (c ∷ cs) ≡ sub t (take t.size (c ∷ cs)) ++ replace_all sub (t.size - 1) cs
  unfolding replace_all
  replace_all-token c cs t e = rw (e, replace_all)

  replace_all-skip :
      (k c : ℕ) (cs : Bytes) → replace_all sub (suc k) (c ∷ cs) ≡ replace_all sub k cs
  unfolding replace_all
  replace_all-skip k c cs = refl

  pub replace_all-other :
      (c : ℕ) (cs : Bytes)
      → match_token (c ∷ cs) ≡ none
      → replace_all sub 0 (c ∷ cs) ≡ c ∷ replace_all sub 0 cs
  unfolding replace_all
  replace_all-other c cs e = rw (e, replace_all)

  -- A text that is cut where no token runs across is replaced in two pieces.
  pub replace_all-append :
      (u v : Bytes) (k : ℕ)
      → k ≤ length u
      → Unbroken u v
      → replace_all sub k (u ++ v) ≡ replace_all sub k u ++ replace_all sub 0 v
  replace_all-append [] v k h b = let z : k ≡ 0 = omega arith in rw z (unfold replace_all in refl)
  replace_all-append (c ∷ cs) v (suc k) h b =
      replace_all-skip k c (cs ++ v)
      ∙ replace_all-append cs v k (omega arith) b.1
      ∙ ap (λ (l : Bytes). l ++ replace_all sub 0 v) (sym (replace_all-skip k c cs))
  replace_all-append (c ∷ cs) v zero h b = elim (Option-cases (match_token (c ∷ cs))) [
    | inl e ↦
        replace_all-other c (cs ++ v) (b.0 ∙ e)
        ∙ ap (λ (l : Bytes). c ∷ l) (replace_all-append cs v 0 (omega arith) b.1)
        ∙ ap (λ (l : Bytes). l ++ replace_all sub 0 v) (sym (replace_all-other c cs e))
    | inr (t, e) ↦
        let fits = match_token-size (c ∷ cs) t e in
        replace_all-token c (cs ++ v) t (b.0 ∙ e)
        ∙ ap (λ (m : Bytes). sub t m ++ replace_all sub (t.size - 1) (cs ++ v))
            (take-append t.size (c ∷ cs) v fits.1)
        ∙ ap (λ (l : Bytes). sub t (take t.size (c ∷ cs)) ++ l)
            (replace_all-append cs v (t.size - 1) (omega arith) b.1)
        ∙ sym (append_assoc (sub t (take t.size (c ∷ cs))) (replace_all sub (t.size - 1) cs) _)
        ∙ ap (λ (l : Bytes). l ++ replace_all sub 0 v) (sym (replace_all-token c cs t e))
  ]

  replace_all-pass : (w x : Bytes) → replace_all sub (length w) (w ++ x) ≡ replace_all sub 0 x
  unfolding replace_all
  replace_all-pass [] [] = refl
  replace_all-pass [] (c ∷ cs) = refl
  replace_all-pass (c ∷ w) x = replace_all-pass w x

  -- A token that fills `w` is replaced, and the rest is replaced on its own.
  pub replace_all-whole :
      (c : ℕ) (w x : Bytes) (t : Token)
      → match_token (c ∷ (w ++ x)) ≡ some t
      → t.size ≡ suc (length w)
      → replace_all sub 0 (c ∷ (w ++ x)) ≡ sub t (c ∷ w) ++ replace_all sub 0 x
  replace_all-whole c w x t e s =
      replace_all-token c (w ++ x) t e
      ∙ ap (λ (n : ℕ). sub t (take n (c ∷ (w ++ x))) ++ replace_all sub (n - 1) (w ++ x)) s
      ∙ ap (λ (m : Bytes). sub t (c ∷ m) ++ replace_all sub (suc (length w) - 1) (w ++ x))
          (take-length_append w x)
      ∙ ap (λ (l : Bytes). sub t (c ∷ w) ++ l)
          (let one : suc (length w) - 1 ≡ length w = omega arith in rw one (replace_all-pass w x))

-- No token begins anywhere in the text.
abbrev pub Tokenless : Bytes → Type 0
Tokenless [] = Unit
Tokenless (c ∷ cs) = (match_token (c ∷ cs) ≡ none) × Tokenless cs

-- A text without an open bracket has no token.
pub no_bracket-Tokenless : (xs : Bytes) → any (λ c. nat_beq c b'[') xs ≡ false → Tokenless xs
unfolding any
no_bracket-Tokenless [] h = tt
no_bracket-Tokenless (x ∷ xs) h =
    (match_token-other x xs (ground arith), no_bracket-Tokenless xs (ground arith))

pub Tokenless-drop : (n : ℕ) (xs : Bytes) → Tokenless xs → Tokenless (drop n xs)
Tokenless-drop zero xs h = h
Tokenless-drop (suc n) [] h = h
Tokenless-drop (suc n) (x ∷ xs) h = Tokenless-drop n xs h.1

pub Tokenless-append_left : (xs ys : Bytes) → Tokenless (xs ++ ys) → Tokenless xs
Tokenless-append_left [] ys h = tt
Tokenless-append_left (x ∷ xs) ys h = elim (Option-cases (match_token (x ∷ xs))) [
  | inl e ↦ (e, Tokenless-append_left xs ys h.1)
  | inr (t, e) ↦ let found = match_token-append (x ∷ xs) ys t e in cc
]

module _ (sub : Token → Bytes → Bytes) where
  -- Where there is no token there is nothing to replace.
  pub replace_all-Tokenless : (xs : Bytes) → Tokenless xs → replace_all sub 0 xs ≡ xs
  replace_all-Tokenless [] h = unfold replace_all in refl
  replace_all-Tokenless (x ∷ xs) h =
      replace_all-other sub x xs h.0 ∙ ap (λ (l : Bytes). x ∷ l) (replace_all-Tokenless xs h.1)

  -- A replacement by the token itself changes nothing.
  pub replace_all-same :
      (same : (t : Token) (m : Bytes) → sub t m ≡ m)
      → (xs : Bytes) (k : ℕ) → replace_all sub k xs ≡ drop k xs
  replace_all-same same [] zero = unfold replace_all in refl
  replace_all-same same [] (suc k) = unfold replace_all in refl
  replace_all-same same (x ∷ xs) (suc k) = replace_all-skip sub k x xs ∙ replace_all-same same xs k
  replace_all-same same (x ∷ xs) zero = elim (Option-cases (match_token (x ∷ xs))) [
    | inl e ↦ replace_all-other sub x xs e ∙ ap (λ (l : Bytes). x ∷ l) (replace_all-same same xs 0)
    | inr (t, e) ↦
        let fits = match_token-size (x ∷ xs) t e in
        let size : t.size ≡ suc (t.size - 1) = omega arith in
        replace_all-token sub x xs t e
        ∙ ap (λ (l : Bytes). l ++ replace_all sub (t.size - 1) xs) (same t (take t.size (x ∷ xs)))
        ∙ ap (λ (l : Bytes). take t.size (x ∷ xs) ++ l) (replace_all-same same xs (t.size - 1))
        ∙ ap (λ (n : ℕ). take n (x ∷ xs) ++ drop (t.size - 1) xs) size
        ∙ ap (λ (l : Bytes). x ∷ l) (take-append-drop (t.size - 1) xs)
  ]
