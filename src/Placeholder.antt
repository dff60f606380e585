-- ===== src/Placeholder.antt =====
-- src/pii/anonymizer.rs: the placeholder tokens `[KIND_N]`, how they are written, and the tolerant
-- pattern `\[\s*([A-Za-z]+)[ _-]*([0-9]+)\s*\]` by which they are found again. No two classes that
-- follow one another in the pattern share a character, so a match is found with no going back: the
-- pattern is the automaton `step` over bytes.
pub mod Scan
mod Examples
pub mod Canonical
use llm_proxy_pii_rust.Prelude.{
  ℕ, zero, suc, ◌+◌, ◌-◌, ◌*◌, ◌/◌, ◌%◌, ◌≡◌, refl, Bool, true, false, not, ◌&&◌, ◌||◌, List, [],
  ◌∷◌, ◌++◌, Option, none, some, ltb, leb, nat_beq, if◌then◌else◌, length, Bytes, codes,
}
use llm_proxy_pii_rust.White.{White, foreign, partial, whole, white}
use llm_proxy_pii_rust.Kind.{PiiKind, label}
use llm_proxy_pii_rust.Text.{is_ascii_alphabetic, is_ascii_digit, to_ascii_uppercase}

-- Where in the pattern the match stands, with what the groups hold so far.
pub data Phase : Type 0 where
  -- after `\[`, in `\s*`
  opened : Bytes → Phase
  -- in `([A-Za-z]+)`
  labelled : Bytes → Phase
  -- in `[ _-]*`
  separated : Bytes → Phase
  -- in `([0-9]+)`
  numbered : Bytes → Bytes → Phase
  -- in the last `\s*`, with part of a white space character
  closing : Bytes → Bytes → Bytes → Phase

-- What one byte does to a match in progress.
pub data Move : Type 0 where
  go : Phase → Move
  accept : Bytes → Bytes → Move
  reject : Move

unfoldable pub is_separator : ℕ → Bool
is_separator c = nat_beq c b' ' || nat_beq c b'_' || nat_beq c b'-'

abbrev skip_white : White → Phase → Phase → Move
skip_white whole done more = go done
skip_white partial done more = go more
skip_white foreign done more = reject

-- `]` ends the token; white space may stand before it.
close : Bytes → Bytes → Bytes → ℕ → Move
close label digits pre c =
    skip_white (white pre c) (closing label digits []) (closing label digits (pre ++ c ∷ []))

unfoldable pub step : Phase → ℕ → Move
unfolding white is_separator is_ascii_alphabetic is_ascii_digit close
step (opened []) c =
    if is_ascii_alphabetic c
    then go (labelled (c ∷ []))
    else skip_white (white [] c) (opened []) (opened (c ∷ []))
step (opened pre) c = skip_white (white pre c) (opened []) (opened (pre ++ c ∷ []))
step (labelled label) c =
    if is_ascii_alphabetic c
    then go (labelled (label ++ c ∷ []))
    else if is_separator c
    then go (separated label)
    else if is_ascii_digit c
    then go (numbered label (c ∷ []))
    else reject
step (separated label) c =
    if is_separator c
    then go (separated label)
    else if is_ascii_digit c
    then go (numbered label (c ∷ []))
    else reject
step (numbered label digits) c =
    if is_ascii_digit c
    then go (numbered label (digits ++ c ∷ []))
    else if nat_beq c b']'
    then accept label digits
    else close label digits [] c
step (closing label digits []) c =
    if nat_beq c b']' then accept label digits else close label digits [] c
step (closing label digits pre) c = close label digits pre c

-- A token that was found: its two groups, and the number of bytes of the match.
pub record Token : Type 0 where
  pub label : Bytes
  pub digits : Bytes
  pub size : ℕ

-- The match goes on from a phase after `n` bytes.
unfoldable pub run : Phase → ℕ → Bytes → Option Token
run p n [] = none
run p n (c ∷ cs) = elim (step p c) [
  | go q ↦ run q (n + 1) cs
  | accept label digits ↦ some (record { label = label; digits = digits; size = n + 1 })
  | reject ↦ none
]

-- The match of `PLACEHOLDER_RE` that begins at the first byte.
unfoldable pub match_token : Bytes → Option Token
unfolding run
match_token [] = none
match_token (c ∷ cs) = if nat_beq c b'[' then run (opened []) 1 cs else none

-- `usize` in decimal, with the rounds left.
unfoldable pub decimal_rounds : ℕ → ℕ → Bytes
decimal_rounds zero n = []
decimal_rounds (suc r) n =
    let front = decimal_rounds r (n / 10) in
    if ltb n 10 then (48 + n) ∷ [] else front ++ (48 + n % 10) ∷ []

-- `format!("{n}")`
unfoldable pub decimal : ℕ → Bytes
unfolding decimal_rounds
decimal n = decimal_rounds (suc n) n

-- `format!("[{label}_{digits}]")`
unfoldable pub bracketed : Bytes → Bytes → Bytes
bracketed label digits = b'[' ∷ (label ++ (b'_' ∷ (digits ++ (b']' ∷ []))))

-- The placeholder of the `n`-th value of a kind.
unfoldable pub placeholder : PiiKind → ℕ → Bytes
unfolding bracketed
placeholder kind n = bracketed (label kind) (decimal n)

-- The canonical form of a token that was found: `[LABEL_N]` with the label in upper case.
unfoldable pub canonical : Token → Bytes
unfolding bracketed
canonical t = bracketed (to_ascii_uppercase t.label) t.digits
