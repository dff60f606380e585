-- ===== src/Scan.antt =====
-- src/pii/recognizers.rs: the scan of a text by one recognizer. The regular expression is a parameter, as
-- the answer of `Regex::find_at`.
pub mod Detect
pub mod Spans
pub mod Runs
pub mod Fuel
pub mod Found
pub mod Refusal
mod Examples
use llm_proxy_pii_rust.Prelude.{
  ℕ, zero, suc, ◌+◌, ◌-◌, max, Bool, true, false, not, ◌&&◌, ◌||◌, List, [], ◌∷◌, ◌++◌, Option,
  none, some, ltb, leb, nat_beq, if◌then◌else◌, length, take, any, Bytes, bytes_eq, bytes_beq, ◌==◌,
}
use llm_proxy_pii_rust.Prelude.Maps.{Dict, lookup, insert}
use llm_proxy_pii_rust.Kind.{PiiKind}
use llm_proxy_pii_rust.Entity.{Span}
use llm_proxy_pii_rust.Text.{slice, is_char_boundary}
use llm_proxy_pii_rust.Budget.{Budget, attribute, is_exhausted, spent}

-- `Regex`: the leftmost match that begins at the position or after it.
pub record Pattern : Type 0 where
  pub find_at : Bytes → ℕ → Option Span

abbrev pub Validator : Type 0
Validator = Bytes → Budget → Bool × Budget

-- `Scan`
pub data Advance : Type 0 where
  overlapping sequential : Advance

pub record Recognizer : Type 0 where
  pub kind : PiiKind
  pub pattern : Pattern
  pub validate : Option Validator
  pub scan : Advance
  pub shrink_on_reject : Bool

-- `GAP_CHARS` and `PHONE_SEPARATORS` in UTF-8.
abbrev pub separators : List Bytes
separators =
    (0x09 ∷ [])
    ∷ (0x20 ∷ [])
    ∷ (0xc2 ∷ 0xa0 ∷ [])
    ∷ (0xe1 ∷ 0x9a ∷ 0x80 ∷ [])
    ∷ (0xe2 ∷ 0x80 ∷ 0x80 ∷ [])
    ∷ (0xe2 ∷ 0x80 ∷ 0x81 ∷ [])
    ∷ (0xe2 ∷ 0x80 ∷ 0x82 ∷ [])
    ∷ (0xe2 ∷ 0x80 ∷ 0x83 ∷ [])
    ∷ (0xe2 ∷ 0x80 ∷ 0x84 ∷ [])
    ∷ (0xe2 ∷ 0x80 ∷ 0x85 ∷ [])
    ∷ (0xe2 ∷ 0x80 ∷ 0x86 ∷ [])
    ∷ (0xe2 ∷ 0x80 ∷ 0x87 ∷ [])
    ∷ (0xe2 ∷ 0x80 ∷ 0x88 ∷ [])
    ∷ (0xe2 ∷ 0x80 ∷ 0x89 ∷ [])
    ∷ (0xe2 ∷ 0x80 ∷ 0x8a ∷ [])
    ∷ (0xe2 ∷ 0x80 ∷ 0xaf ∷ [])
    ∷ (0xe2 ∷ 0x81 ∷ 0x9f ∷ [])
    ∷ (0xe3 ∷ 0x80 ∷ 0x80 ∷ [])
    ∷ (b'-' ∷ [])
    ∷ (b'.' ∷ [])
    ∷ (b'/' ∷ [])
    ∷ (b'(' ∷ [])
    ∷ (b')' ∷ [])
    ∷ []

unfoldable pub begins_with_separator : Bytes → Bool
unfolding any bytes_beq
begins_with_separator s = any (λ (sep : Bytes). bytes_beq (take (length sep) s) sep) separators

-- `rfind(is_any_separator)`
unfoldable pub last_separator : Bytes → Option ℕ
unfolding begins_with_separator
last_separator [] = none
last_separator (c ∷ cs) = elim (last_separator cs) [
  | some i ↦ some (i + 1)
  | none ↦ if begins_with_separator (c ∷ cs) then some 0 else none
]

-- What a scan changes besides the runs: the verdicts that are known, and the allowance.
pub record Memory : Type 0 where
  pub memo : Dict Bytes Bool
  pub budget : Budget

-- A verdict that is not known is asked for, and what it cost is attributed to the kind.
unfoldable pub verdict_of : PiiKind → Validator → Bytes → Memory → Bool × Memory
unfolding lookup insert bytes_beq attribute spent
verdict_of kind check text m = elim (lookup text m.memo) [
  | some known ↦ (known, m)
  | none ↦
      let (v, b) = check text m.budget in
      (
        v,
        record {
          memo = insert text v m.memo;
          budget = attribute kind (spent b - spent m.budget) b;
        },
      )
]

-- The pattern matches the whole text.
unfoldable pub full_match : Pattern → Bytes → Bool
full_match p text = elim (p.find_at text 0) [
  | some s ↦ nat_beq s.start 0 && nat_beq s.end (length text)
  | none ↦ false
]

-- The verdict on a shorter match, which is not asked for on an empty allowance: then nothing is accepted and
-- the loop is left.
unfoldable pub verdict_in_budget : PiiKind → Validator → Bytes → Memory → Option (Bool × Memory)
unfolding verdict_of lookup bytes_beq is_exhausted
verdict_in_budget kind check text m = elim (lookup text m.memo) [
  | some known ↦ some (known, m)
  | none ↦ if is_exhausted m.budget then none else some (verdict_of kind check text m)
]

-- An accepted span is the answer; on a rejected one the search goes on.
unfoldable pub after_verdict :
    Span → Bool × Memory → (Memory → Option Span × Memory) → Option Span × Memory
after_verdict span (true, m) otherwise = (some span, m)
after_verdict span (false, m) otherwise = otherwise m

abbrev pub up_to : Span → ℕ → Span
up_to span cut = record { start = span.start; end = span.start + cut }

-- A shorter span is asked about only if the pattern itself could have matched it.
unfoldable pub try_shorter :
    Recognizer
    → Validator
    → Bytes
    → Span
    → Memory
    → (Memory → Option Span × Memory)
    → Option Span × Memory
unfolding full_match verdict_in_budget after_verdict
try_shorter rec check prefix shorter m otherwise = elim (full_match rec.pattern prefix) [
  | false ↦ otherwise m
  | true ↦ elim (verdict_in_budget rec.kind check prefix m) [
    | none ↦ (none, m)
    | some answer ↦ after_verdict shorter answer otherwise
  ]
]

-- The loop of `shrink_to_a_valid_prefix` on the rounds left: one group less each time.
unfoldable pub shrink : Recognizer → Validator → Bytes → ℕ → Span → Memory → Option Span × Memory
unfolding last_separator slice try_shorter
shrink rec check input zero span m = (none, m)
shrink rec check input (suc n) span m =
    if leb span.end span.start
    then (none, m)
    else elim (last_separator (slice input span.start span.end)) [
      | none ↦ (none, m)
      | some cut ↦ elim (nat_beq cut 0) [
        | true ↦ (none, m)
        | false ↦
            try_shorter rec check (slice input span.start (span.start + cut)) (up_to span cut) m
              (shrink rec check input n (up_to span cut))
      ]
    ]

unfoldable pub shrink_to_a_valid_prefix :
    Recognizer → Validator → Bytes → Span → Memory → Option Span × Memory
unfolding shrink
shrink_to_a_valid_prefix rec check input span m =
    if rec.shrink_on_reject
    then shrink rec check input (suc (span.end - span.start)) span m
    else (none, m)

-- What of a match is accepted.
unfoldable pub judge : Recognizer → Bytes → Span → Memory → Option Span × Memory
unfolding verdict_of shrink_to_a_valid_prefix slice after_verdict
judge rec input found m = elim rec.validate [
  | none ↦ (some found, m)
  | some check ↦
      after_verdict found (verdict_of rec.kind check (slice input found.start found.end) m)
        (shrink_to_a_valid_prefix rec check input found)
]

-- The last run grows by a span that begins inside it, or the span is a new run.
unfoldable pub add_run : List Span → Span → List Span
add_run [] span = span ∷ []
add_run (run ∷ []) span =
    if ltb span.start run.end
    then record { start = run.start; end = max run.end span.end } ∷ []
    else run ∷ span ∷ []
add_run (run ∷ next ∷ runs) span = run ∷ add_run (next ∷ runs) span

unfoldable pub add_accepted : List Span → Option Span → List Span
unfolding add_run
add_accepted runs none = runs
add_accepted runs (some span) = add_run runs span

-- The search for a boundary, on the rounds left.
unfoldable pub boundary_from : Bytes → ℕ → ℕ → ℕ
unfolding is_char_boundary
boundary_from input zero next = next
boundary_from input (suc n) next =
    let later = boundary_from input n (next + 1) in
    if ltb next (length input) && not (is_char_boundary input next) then later else next

unfoldable pub next_char_boundary : Bytes → ℕ → ℕ
unfolding boundary_from
next_char_boundary input i =
    let next = boundary_from input (length input) (i + 1) in
    if ltb (length input) next then length input else next

unfoldable pub resume : Advance → Bytes → Span → ℕ
unfolding next_char_boundary
resume overlapping input found = next_char_boundary input found.start
resume sequential input found = found.end

-- Where no more is bought for an allowance that is used up.
unfoldable pub stops : Recognizer → Memory → Bool
unfolding is_exhausted
stops rec m = is_exhausted m.budget && elim rec.validate [ some check ↦ true | none ↦ false ]

-- The loop of `push_candidates` on the rounds left.
unfoldable pub scan_from : Recognizer → Bytes → ℕ → ℕ → List Span → Memory → List Span × Memory
unfolding stops judge add_accepted resume
scan_from rec input zero at runs m = (runs, m)
scan_from rec input (suc n) at runs m =
    if ltb (length input) at || stops rec m
    then (runs, m)
    else elim (rec.pattern.find_at input at) [
      | none ↦ (runs, m)
      | some found ↦
          let (accepted, m') = judge rec input found m in
          let runs' = add_accepted runs accepted in
          let next = resume rec.scan input found in
          elim (leb next at) [ true ↦ (runs', m') | false ↦ scan_from rec input n next runs' m' ]
    ]
