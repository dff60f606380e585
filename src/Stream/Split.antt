-- ===== src/Stream/Split.antt =====
-- Where the buffer is cut: no token that a text may still complete runs across the cut.
use llm_proxy_pii_rust.Prelude.{
  ℕ, zero, suc, ◌-◌, ◌≤◌, ◌≡◌, refl, sym, ap, ◌∙◌, subst, inl, inr, true, false, [], ◌∷◌, ◌++◌,
  append_assoc, none, some, arith, length, take, drop, Bytes, nat_beq, leb, Option-cases,
  Bool-cases, any, All, length-take, ◌⊎◌,
}
use llm_proxy_pii_rust.Text.{
  is_ascii_alphabetic, is_ascii_uppercase, is_ascii_lowercase, is_ascii_digit,
}
use llm_proxy_pii_rust.Placeholder.{Token, match_token}
use llm_proxy_pii_rust.Placeholder.Scan.{
  match_token-append, match_token-append_open, match_token-other, match_token-prefix,
  match_token-size,
}
use llm_proxy_pii_rust.Vault.Replace.{Unbroken, Unbroken-open}
use llm_proxy_pii_rust.Stream.{is_body, is_body_run, is_partial, rfind_open, split_demaskable}

-- No open bracket stands in the text.
abbrev pub NoOpen : Bytes → Type 0
NoOpen [] = Unit
NoOpen (c ∷ cs) = (nat_beq c b'[' ≡ false) × NoOpen cs

-- A byte that the documentation of the source lets stand in a placeholder that is held back: a letter, a
-- digit, a blank, a low line or a hyphen.
abbrev pub IsBodyByte : ℕ → Type 0
IsBodyByte c =
    ((65 ≤ c) × (c ≤ 90))
    ⊎ (((97 ≤ c) × (c ≤ 122)) ⊎ (((48 ≤ c) × (c ≤ 57)) ⊎ ((c ≡ 32) ⊎ ((c ≡ 95) ⊎ (c ≡ 45)))))

-- Between the brackets of the token, of which the text after the first one is given, there are at most 32 bytes,
-- and only such.
abbrev pub IsShort : Token → Bytes → Type 0
IsShort t cs = (t.size ≤ 34) × All IsBodyByte (take (t.size - 2) cs)

-- Every token of the text has between its brackets at most 32 bytes, each a letter, a digit, a blank, a low line
-- or a hyphen.
abbrev pub IsStreamable : Bytes → Type 0
IsStreamable [] = Unit
IsStreamable (c ∷ cs) =
    ((t : Token) → match_token (c ∷ cs) ≡ some t → IsShort t cs) × IsStreamable cs

is_body-IsBodyByte : (c : ℕ) → IsBodyByte c → is_body c ≡ true
unfolding is_body is_ascii_alphabetic is_ascii_uppercase is_ascii_lowercase is_ascii_digit
is_body-IsBodyByte c h = ground arith

is_body_run-IsBodyByte :
    (n : ℕ) (xs : Bytes) → length xs ≤ n → All IsBodyByte xs → is_body_run n xs ≡ true
unfolding is_body_run
is_body_run-IsBodyByte n [] l h = refl
is_body_run-IsBodyByte zero (x ∷ xs) l h = absurd (omega arith)
is_body_run-IsBodyByte (suc n) (x ∷ xs) l h =
    let first = is_body-IsBodyByte x h.0 in
    let rest = is_body_run-IsBodyByte n xs (omega arith) h.1 in rw (first, rest) refl

-- The beginning of such a token is what the demasker takes for a partial placeholder.
is_partial-IsShort :
    (w : Bytes) (t : Token)
    → match_token (b'[' ∷ w) ≡ some t
    → IsShort t w
    → is_partial (take (t.size - 1) (b'[' ∷ w)) ≡ true
unfolding is_partial
is_partial-IsShort w t found (bound, body) =
    let long = match_token-size (b'[' ∷ w) t found in
    let size = length-take (t.size - 2) w in
    let run = is_body_run-IsBodyByte 32 (take (t.size - 2) w) (omega arith) body in
    subst (λ n. is_partial (take n (b'[' ∷ w)) ≡ true) {x = suc (t.size - 2)} (omega arith)
      (unfold is_partial in rw run refl)

pub IsStreamable-suffix : (u x : Bytes) → IsStreamable (u ++ x) → IsStreamable x
IsStreamable-suffix [] x h = h
IsStreamable-suffix (c ∷ u) x h = IsStreamable-suffix u x h.1

-- A text without an open bracket has no token at all.
pub no_bracket-IsStreamable : (xs : Bytes) → any (λ c. nat_beq c b'[') xs ≡ false → IsStreamable xs
unfolding any
no_bracket-IsStreamable [] h = tt
no_bracket-IsStreamable (c ∷ cs) h = (
  λ t e. absurd (let no_token = match_token-other c cs (ground arith) in cc),
  no_bracket-IsStreamable cs (ground arith),
)

-- A text that begins with a token of that form.
pub token-IsStreamable :
    (c : ℕ) (cs : Bytes) (t : Token)
    → match_token (c ∷ cs) ≡ some t
    → IsShort t cs
    → IsStreamable cs
    → IsStreamable (c ∷ cs)
token-IsStreamable c cs t found short rest = (
  λ t' e.
      let same : some t ≡ some t' = sym found ∙ e in
      let eq : t ≡ t' = ground arith in subst (λ (x : Token). IsShort x cs) eq short,
  rest,
)

rfind_open-none : (a : Bytes) → rfind_open a ≡ none → NoOpen a
unfolding rfind_open
rfind_open-none [] h = tt
rfind_open-none (c ∷ cs) h = elim (Option-cases (rfind_open cs)) [
  | inl e ↦ (ground arith, rfind_open-none cs e)
  | inr (i, e) ↦ cc
]

-- The last open bracket, with what stands before it and after it.
record LastOpen (a : Bytes) (i : ℕ) : Type 0 where
  before : Bytes
  after : Bytes
  splits : a ≡ before ++ (b'[' ∷ after)
  at : i ≡ length before
  last : NoOpen after

rfind_open-some : (a : Bytes) (i : ℕ) → rfind_open a ≡ some i → LastOpen a i
unfolding rfind_open
rfind_open-some [] i h = absurd (cc)
rfind_open-some (c ∷ cs) i h = elim (Option-cases (rfind_open cs)) [
  | inl e ↦ record {
    before = [];
    after = cs;
    splits = let c_open : c ≡ b'[' = ground arith in ap (λ (x : ℕ). x ∷ cs) c_open;
    at = ground arith;
    last = rfind_open-none cs e;
  }
  | inr (j, e) ↦
      let r = rfind_open-some cs j e in
      record {
        before = c ∷ r.before;
        after = r.after;
        splits = ap (λ (l : Bytes). c ∷ l) r.splits;
        at = let n = r.at in ground arith;
        last = r.last;
      }
]

NoOpen-Unbroken : (w b : Bytes) → NoOpen w → Unbroken w b
NoOpen-Unbroken [] b h = tt
NoOpen-Unbroken (c ∷ cs) b h =
    (match_token-other c (cs ++ b) h.0 ∙ sym (match_token-other c cs h.0), NoOpen-Unbroken cs b h.1)

is_body_run-prefix :
    (n : ℕ) (xs ys : Bytes) → is_body_run n (xs ++ ys) ≡ true → is_body_run n xs ≡ true
unfolding is_body_run
is_body_run-prefix n [] ys h = refl
is_body_run-prefix zero (x ∷ xs) ys h = h
is_body_run-prefix (suc n) (x ∷ xs) ys h = ground (arith, is_body_run-prefix n xs ys)

is_partial-prefix :
    (c : ℕ) (xs ys : Bytes) → is_partial (c ∷ (xs ++ ys)) ≡ true → is_partial (c ∷ xs) ≡ true
unfolding is_partial
is_partial-prefix c xs ys h = ground (arith, is_body_run-prefix 32 xs ys)

take-long : (n : ℕ) (xs ys : Bytes) → length xs ≤ n → (zs : Bytes) × (take n (xs ++ ys) ≡ xs ++ zs)
take-long n [] ys h = (take n ys, refl)
take-long zero (x ∷ xs) ys h = absurd (omega arith)
take-long (suc n) (x ∷ xs) ys h =
    let (zs, e) = take-long n xs ys (omega arith) in (zs, ap (λ (l : Bytes). x ∷ l) e)

-- An open bracket whose tail is no partial placeholder begins the same token, or none, whatever follows.
open_decided :
    (w b : Bytes)
    → is_partial (b'[' ∷ w) ≡ false
    → IsStreamable (b'[' ∷ (w ++ b))
    → match_token (b'[' ∷ (w ++ b)) ≡ match_token (b'[' ∷ w)
open_decided w b f s = elim (Option-cases (match_token (b'[' ∷ (w ++ b)))) [
  | inl e ↦ elim (Option-cases (match_token (b'[' ∷ w))) [
    | inl e' ↦ e ∙ sym e'
    | inr (t, e') ↦ let found = match_token-append (b'[' ∷ w) b t e' in absurd (cc)
  ]
  | inr (t, e) ↦ elim (Bool-cases (leb t.size (length (b'[' ∷ w)))) [
    | inl short ↦ e ∙ sym (match_token-prefix (b'[' ∷ w) b t e (ground arith))
    | inr long ↦
        let (zs, tail) = take-long (t.size - 1) (b'[' ∷ w) b (ground arith) in
        let whole : is_partial (b'[' ∷ (w ++ zs)) ≡ true =
          sym (ap is_partial tail) ∙ is_partial-IsShort (w ++ b) t e (s.0 t e) in
        let part = is_partial-prefix b'[' w zs whole in absurd (cc)
  ]
]

Unbroken-append_open :
    (u w b : Bytes)
    → match_token (b'[' ∷ (w ++ b)) ≡ match_token (b'[' ∷ w)
    → NoOpen w
    → Unbroken (u ++ (b'[' ∷ w)) b
Unbroken-append_open [] w b e h = (e, NoOpen-Unbroken w b h)
Unbroken-append_open (c ∷ u) w b e h = (
  ap (λ (l : Bytes). match_token (c ∷ l)) (append_assoc u (b'[' ∷ w) b)
      ∙ match_token-append_open c u (w ++ b)
      ∙ sym (match_token-append_open c u w),
  Unbroken-append_open u w b e h,
)

drop-length_append : (u x : Bytes) → drop (length u) (u ++ x) ≡ x
drop-length_append [] x = refl
drop-length_append (c ∷ u) x = drop-length_append u x

take-length_append : (u x : Bytes) → take (length u) (u ++ x) ≡ u
take-length_append [] x = refl
take-length_append (c ∷ u) x = ap (λ (l : Bytes). c ∷ l) (take-length_append u x)

drop-length : (a : Bytes) → drop (length a) a ≡ []
drop-length [] = refl
drop-length (c ∷ a) = drop-length a

take-length : (a : Bytes) → take (length a) a ≡ a
take-length [] = refl
take-length (c ∷ a) = ap (λ (l : Bytes). c ∷ l) (take-length a)

-- The cut at the end of the text.
cut_at_end :
    (a b : Bytes) (n : ℕ) → n ≡ length a → Unbroken a b → Unbroken (take n a) (drop n a ++ b)
cut_at_end a b n e h =
    subst (λ (k : ℕ). Unbroken (take k a) (drop k a ++ b)) {x = length a} {y = n} (sym e)
      (subst (λ (l : Bytes). Unbroken l (drop (length a) a ++ b)) {x = a} (sym (take-length a))
        (subst (λ (l : Bytes). Unbroken a (l ++ b)) {x = []} (sym (drop-length a)) h))

-- The cut at an open bracket.
cut_at_open :
    (u w b : Bytes) (n : ℕ)
    → n ≡ length u
    → Unbroken (take n (u ++ (b'[' ∷ w))) (drop n (u ++ (b'[' ∷ w)) ++ b)
cut_at_open u w b n e =
    subst (λ (k : ℕ). Unbroken (take k (u ++ (b'[' ∷ w))) (drop k (u ++ (b'[' ∷ w)) ++ b))
      {x = length u} {y = n} (sym e)
      (subst (λ (l : Bytes). Unbroken l (drop (length u) (u ++ (b'[' ∷ w)) ++ b)) {x = u}
        (sym (take-length_append u (b'[' ∷ w)))
        (subst (λ (l : Bytes). Unbroken u (l ++ b)) {x = b'[' ∷ w}
          (sym (drop-length_append u (b'[' ∷ w))) (Unbroken-open u (w ++ b))))

-- The last open bracket is where the cut may be: there if its tail may be the start of a token.
split-open :
    (a b : Bytes) (i : ℕ)
    → IsStreamable (a ++ b)
    → rfind_open a ≡ some i
    → LastOpen a i
    → Unbroken (take (split_demaskable a) a) (drop (split_demaskable a) a ++ b)
unfolding split_demaskable
split-open a b i h e r = elim (Bool-cases (is_partial (drop i a))) [
  | inl part ↦
      subst
        (λ (l : Bytes). Unbroken (take (split_demaskable a) l) (drop (split_demaskable a) l ++ b))
        {x = r.before ++ (b'[' ∷ r.after)} {y = a} (sym r.splits)
        (cut_at_open r.before r.after b (split_demaskable a) (
          let at = r.at in
          let cut : split_demaskable a ≡ i = rw (e, part, split_demaskable) in cut ∙ at))
  | inr whole ↦ cut_at_end a b (split_demaskable a) (rw (e, whole, split_demaskable)) (
      subst (λ (l : Bytes). Unbroken l b) {x = r.before ++ (b'[' ∷ r.after)} {y = a} (sym r.splits)
        (Unbroken-append_open r.before r.after b
          (open_decided r.after b
            (sym (
                ap is_partial (
                  ap (λ (l : Bytes). drop i l) r.splits
                  ∙ ap (λ (n : ℕ). drop n (r.before ++ (b'[' ∷ r.after))) r.at
                  ∙ drop-length_append r.before (b'[' ∷ r.after)))
              ∙ whole)
            (IsStreamable-suffix r.before (b'[' ∷ (r.after ++ b)) (
              subst IsStreamable
                (ap (λ (l : Bytes). l ++ b) r.splits ∙ append_assoc r.before (b'[' ∷ r.after) b)
                h)))
          r.last))
]

-- No token that the text and what follows it have together runs across the cut.
pub split_demaskable-Unbroken :
    (a b : Bytes)
    → IsStreamable (a ++ b)
    → Unbroken (take (split_demaskable a) a) (drop (split_demaskable a) a ++ b)
split_demaskable-Unbroken a b h = elim (Option-cases (rfind_open a)) [
  | inl e ↦
      cut_at_end a b (split_demaskable a) (unfold split_demaskable in rw (e, split_demaskable))
        (NoOpen-Unbroken a b (rfind_open-none a e))
  | inr (i, e) ↦ split-open a b i h e (rfind_open-some a i e)
]
