-- ===== src/Scan/Runs.antt =====
-- Every run of a scan is a span of the input: not empty, inside it, and cut between characters.
use llm_proxy_pii_rust.Prelude.{
  ℕ, zero, suc, ◌+◌, ◌-◌, max, ◌≤◌, ◌<◌, ◌≡◌, subst, inl, inr, Bool, true, false, ◌||◌, List, [],
  ◌∷◌, Option, none, some, ltb, leb, nat_beq, if◌then◌else◌, length, Bytes, bytes_eq, arith,
  Bool-cases, Option-cases, All,
}
use llm_proxy_pii_rust.Entity.{Span, IsSpanOf}
use llm_proxy_pii_rust.Text.{slice, is_char_boundary}
use llm_proxy_pii_rust.Scan.{
  Validator, Recognizer, Memory, last_separator, verdict_of, full_match, verdict_in_budget,
  after_verdict, up_to, try_shorter, shrink, shrink_to_a_valid_prefix, judge, add_run, add_accepted,
  resume, stops, scan_from,
}
use llm_proxy_pii_rust.Scan.Spans.{IsPattern, up_to-IsSpanOf}

-- What is accepted is a span of the input.
OnSpan : (Span → Type 0) → Option Span → Type 0
OnSpan P none = Unit
OnSpan P (some s) = P s

module _ (input : Bytes) where
  after_verdict-OnSpan :
      (span : Span) (answer : Bool × Memory) (otherwise : Memory → Option Span × Memory)
      → IsSpanOf input span
      → ((m : Memory) → OnSpan (IsSpanOf input) (otherwise m).0)
      → OnSpan (IsSpanOf input) (after_verdict span answer otherwise).0
  unfolding after_verdict OnSpan
  after_verdict-OnSpan span (true, m) otherwise i h = i
  after_verdict-OnSpan span (false, m) otherwise i h = h m

  module _ (rec : Recognizer) (check : Validator) where
    try_shorter-OnSpan :
        (prefix : Bytes) (shorter : Span) (m : Memory) (otherwise : Memory → Option Span × Memory)
        → IsSpanOf input shorter
        → ((m' : Memory) → OnSpan (IsSpanOf input) (otherwise m').0)
        → OnSpan (IsSpanOf input) (try_shorter rec check prefix shorter m otherwise).0
    unfolding OnSpan try_shorter
    try_shorter-OnSpan prefix shorter m otherwise i later =
        elim (Bool-cases (full_match rec.pattern prefix)) [
          | inr e ↦ rw (e, try_shorter) (later m)
          | inl e ↦ elim (Option-cases (verdict_in_budget rec.kind check prefix m)) [
            | inl v ↦ rw (e, v, try_shorter) tt
            | inr (answer, v) ↦
                rw (e, v, try_shorter) (after_verdict-OnSpan shorter answer otherwise i later)
          ]
        ]

    shrink-OnSpan :
        (n : ℕ) (span : Span) (m : Memory)
        → IsSpanOf input span
        → OnSpan (IsSpanOf input) (shrink rec check input n span m).0
    unfolding OnSpan shrink
    shrink-OnSpan zero span m i = tt
    shrink-OnSpan (suc n) span m i = elim (Bool-cases (leb span.end span.start)) [
      | inl e ↦ rw (e, shrink) tt
      | inr e ↦ elim (Option-cases (last_separator (slice input span.start span.end))) [
        | inl l ↦ rw (e, l, shrink) tt
        | inr (cut, l) ↦ elim (Bool-cases (nat_beq cut 0)) [
          | inl z ↦ rw (e, l, z, shrink) tt
          | inr z ↦
              rw (e, l, z, shrink)
                (try_shorter-OnSpan (slice input span.start (span.start + cut)) (up_to span cut) m
                  (shrink rec check input n (up_to span cut)) (up_to-IsSpanOf input span cut i l z)
                  (λ m'. shrink-OnSpan n (up_to span cut) m' (up_to-IsSpanOf input span cut i l z)))
        ]
      ]
    ]

  if-OnSpan :
      (b : Bool) (r : Option Span × Memory) (m : Memory)
      → OnSpan (IsSpanOf input) r.0
      → OnSpan (IsSpanOf input) (if b then r else (none, m)).0
  unfolding OnSpan
  if-OnSpan true r m h = h
  if-OnSpan false r m h = tt

  judge-OnSpan :
      (rec : Recognizer) (found : Span) (m : Memory)
      → IsSpanOf input found
      → OnSpan (IsSpanOf input) (judge rec input found m).0
  unfolding judge shrink_to_a_valid_prefix OnSpan
  judge-OnSpan rec found m i = elim (Option-cases rec.validate) [
    | inl e ↦ rw (e, judge) i
    | inr (check, e) ↦
        rw (e, judge)
          (after_verdict-OnSpan found
            (verdict_of rec.kind check (slice input found.start found.end) m)
            (shrink_to_a_valid_prefix rec check input found) i
            (λ m'.
              if-OnSpan rec.shrink_on_reject
                (shrink rec check input (suc (found.end - found.start)) found m') m'
                (shrink-OnSpan rec check (suc (found.end - found.start)) found m' i)))
  ]

  union-IsSpanOf :
      (run span : Span)
      → IsSpanOf input run
      → IsSpanOf input span
      → IsSpanOf input (record { start = run.start; end = max run.end span.end })
  union-IsSpanOf run span i j =
      let a = i.not_empty in
      let b = i.inside in
      let c = j.inside in
      let d = i.end_cut in
      let e = j.end_cut in
      record {
        not_empty = omega arith;
        inside = omega arith;
        start_cut = i.start_cut;
        end_cut = elim (Bool-cases (leb span.end run.end)) [
          | inl l ↦
              subst (λ n. is_char_boundary input n ≡ true) {x = run.end}
                (let le : span.end ≤ run.end = ground arith in omega arith) d
          | inr l ↦
              subst (λ n. is_char_boundary input n ≡ true) {x = span.end}
                (let gt : run.end < span.end = ground arith in omega arith) e
        ];
      }

  add_run-IsSpanOf :
      (runs : List Span) (span : Span)
      → All (IsSpanOf input) runs
      → IsSpanOf input span
      → All (IsSpanOf input) (add_run runs span)
  unfolding add_run
  add_run-IsSpanOf [] span h i = (i, tt)
  add_run-IsSpanOf (run ∷ []) span h i = elim (Bool-cases (ltb span.start run.end)) [
    | inl e ↦ rw (e, add_run) (union-IsSpanOf run span h.0 i, tt)
    | inr e ↦ rw (e, add_run) (h.0, (i, tt))
  ]
  add_run-IsSpanOf (run ∷ next ∷ runs) span h i = (h.0, add_run-IsSpanOf (next ∷ runs) span h.1 i)

  add_accepted-IsSpanOf :
      (runs : List Span) (o : Option Span)
      → All (IsSpanOf input) runs
      → OnSpan (IsSpanOf input) o
      → All (IsSpanOf input) (add_accepted runs o)
  unfolding add_accepted OnSpan
  add_accepted-IsSpanOf runs none h i = h
  add_accepted-IsSpanOf runs (some span) h i = add_run-IsSpanOf runs span h i

  -- The runs that a scan has found are spans of the input, and it adds only such.
  pub scan_from-IsSpanOf :
      (rec : Recognizer) (n at : ℕ) (runs : List Span) (m : Memory)
      → IsPattern rec.pattern
      → All (IsSpanOf input) runs
      → All (IsSpanOf input) (scan_from rec input n at runs m).0
  unfolding scan_from
  scan_from-IsSpanOf rec zero at runs m p h = h
  scan_from-IsSpanOf rec (suc n) at runs m p h =
      elim (Bool-cases (ltb (length input) at || stops rec m)) [
        | inl e ↦ rw (e, scan_from) h
        | inr e ↦ elim (Option-cases (rec.pattern.find_at input at)) [
          | inl none_left ↦ rw (e, none_left, scan_from) h
          | inr (found, f) ↦
              let later =
                add_accepted-IsSpanOf runs (judge rec input found m).0 h
                  (judge-OnSpan rec found m (p.matches input at found f).1) in
              elim (Bool-cases (leb (resume rec.scan input found) at)) [
                | inl l ↦ rw (e, f, l, scan_from) later
                | inr l ↦
                    rw (e, f, l, scan_from)
                      (scan_from-IsSpanOf rec n (resume rec.scan input found)
                        (add_accepted runs (judge rec input found m).0) (judge rec input found m).1
                        p later)
              ]
        ]
      ]
