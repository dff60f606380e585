-- ===== src/Scan/Detect.antt =====
-- src/pii/recognizers.rs: the candidates of every recognizer, how they are graded, and the detection that
-- refuses a text on which the allowance ran out.
use llm_proxy_pii_rust.Prelude.{
  ℕ, ◌+◌, ◌-◌, ◌*◌, Bool, true, not, ◌&&◌, List, [], ◌∷◌, ◌++◌, Option, none, some, ltb, leb,
  nat_beq, if◌then◌else◌, length, take, map, any, Bytes, bytes_eq, bytes_beq, ◌==◌, codes,
}
use llm_proxy_pii_rust.Kind.{PiiKind, phone, tax_id, iban, label}
use llm_proxy_pii_rust.Entity.{
  Confidence, verified, structural, Span, PiiEntity, DetectError, Outcome, ok, err, budget_refusal,
}
use llm_proxy_pii_rust.Text.{slice, get_slice, is_ascii_lowercase, to_ascii_uppercase}
use llm_proxy_pii_rust.Budget.{Budget, spend_fraction, is_exhausted, top_spender}
use llm_proxy_pii_rust.Overlap.{resolve_overlaps}
use llm_proxy_pii_rust.Placeholder.{decimal}
use llm_proxy_pii_rust.Checks.{Chars, iban_mod97}
use llm_proxy_pii_rust.Checks.National.{nl_bsn_valid}
use llm_proxy_pii_rust.Checks.Letters.{iban_length_ok}
use llm_proxy_pii_rust.Scan.{Recognizer, scan_from}

-- `str::chars`: the numbers of the characters of a UTF-8 text. The number of bytes that still belong to
-- the character, and its number so far.
unfoldable pub chars_from : ℕ → ℕ → Bytes → Chars
chars_from missing so_far [] = []
chars_from missing so_far (b ∷ bs) =
    let ascii = chars_from 0 0 bs in
    let two = chars_from 1 (b - 0xc0) bs in
    let three = chars_from 2 (b - 0xe0) bs in
    let four = chars_from 3 (b - 0xf0) bs in
    let more = chars_from (missing - 1) (so_far * 64 + (b - 0x80)) bs in
    if ltb b 0x80
    then b ∷ ascii
    else if ltb b 0xc0
    then (if leb missing 1 then (so_far * 64 + (b - 0x80)) ∷ more else more)
    else if ltb b 0xe0
    then two
    else if ltb b 0xf0
    then three
    else four

unfoldable pub chars : Bytes → Chars
unfolding chars_from
chars s = chars_from 0 0 s

abbrev pub or_empty : Option Bytes → Bytes
or_empty (some s) = s
or_empty none = []

-- `vat_body`
unfoldable pub vat_body : Bytes → Bytes
unfolding get_slice
vat_body matched = or_empty (get_slice matched 2 (length matched))

unfoldable pub grade : Bool → Confidence
grade sure = if sure then verified else structural

-- The first two bytes are no slice if they cut a character, on which the source would panic; here such a
-- text is none that begins with NL.
unfoldable pub confidence_of : PiiKind → Bytes → Confidence
unfolding grade chars iban_mod97 iban_length_ok nl_bsn_valid to_ascii_uppercase get_slice bytes_beq
confidence_of iban text = grade (iban_mod97 (chars text) && iban_length_ok (chars text))
confidence_of tax_id text =
    if nat_beq (length text) 14 && to_ascii_uppercase (take 2 text) == codes "NL"
    then grade (nl_bsn_valid (or_empty (get_slice text 2 11)))
    else verified
confidence_of kind text = verified

abbrev pub iban_gate_calls_per_unit : ℕ
iban_gate_calls_per_unit = 2

-- A text without a lower-case letter passes for free.
unfoldable pub iban_case_gate : Bytes → Budget → Bool × Budget
unfolding any is_ascii_lowercase spend_fraction chars iban_mod97 iban_length_ok
iban_case_gate matched b = if not (any is_ascii_lowercase matched) then (true, b) else (
  iban_mod97 (chars matched) && iban_length_ok (chars matched),
  spend_fraction iban_gate_calls_per_unit b,
)

-- `free`: a check that costs nothing.
unfoldable pub free : (Bytes → Bool) → Bytes → Budget → Bool × Budget
free check matched b = (check matched, b)

unfoldable pub entity_of : PiiKind → Bytes → Span → PiiEntity
unfolding slice confidence_of
entity_of kind input span =
    let text = slice input span.start span.end in
    record { kind = kind; span = span; text = text; confidence = confidence_of kind text }

-- The candidates of one recognizer, and the allowance that is left. The verdicts are forgotten. The loop
-- gets more rounds than the text has positions.
unfoldable pub push_candidates : Recognizer → Bytes → Budget → List PiiEntity × Budget
unfolding scan_from entity_of
push_candidates rec input budget =
    let (runs, m) =
      scan_from rec input (length input + 2) 0 [] (record { memo = []; budget = budget }) in
    (map (entity_of rec.kind input) runs, m.budget)

unfoldable pub all_candidates : List Recognizer → Bytes → Budget → List PiiEntity × Budget
unfolding push_candidates
all_candidates [] input budget = ([], budget)
all_candidates (rec ∷ recs) input budget =
    let (found, b) = push_candidates rec input budget in
    let (more, b') = all_candidates recs input b in (found ++ more, b')

unfoldable pub budget_refusal_advice : Option PiiKind → Bytes
budget_refusal_advice (some phone) =
    codes
      "for an oversized tool result, add a LIMIT to the query or return fewer rows per call; if the field is not a query result, send a shorter excerpt of it"
budget_refusal_advice (some iban) =
    codes "for a hex dump or a binary listing, send a shorter excerpt rather than the whole file"
budget_refusal_advice _ =
    codes "send a smaller excerpt of whatever is dense here rather than the whole field"

abbrev pub kind_of_spender : Option (PiiKind × ℕ) → Option PiiKind
kind_of_spender (some (kind, units)) = some kind
kind_of_spender none = none

unfoldable pub spender_text : ℕ → Option (PiiKind × ℕ) → Bytes
unfolding decimal label
spender_text initial none = []
spender_text initial (some (kind, units)) =
    codes " Most of it ("
    ++ decimal units
    ++ codes " of "
    ++ decimal initial
    ++ codes ") went on "
    ++ label kind
    ++ codes " candidates."

-- The dash is one character of three bytes.
unfoldable pub refusal_text : Bytes → Budget → Bytes
unfolding decimal top_spender spender_text budget_refusal_advice
refusal_text input b =
    codes "this request exhausted the PII validation budget of "
    ++ decimal b.initial
    ++ codes " checks; the allowance is per request and ran out while scanning a "
    ++ decimal (length input)
    ++ codes " byte field."
    ++ spender_text b.initial (top_spender b)
    ++ codes
        " The request was blocked rather than forwarded with a partially scanned body. Retrying it unchanged will fail identically "
    ++ (0xe2 ∷ 0x80 ∷ 0x94 ∷ 0x20 ∷ budget_refusal_advice (kind_of_spender (top_spender b)))
    ++ codes
        ", and drop that turn rather than resending it. Note that many medium fields exhaust the allowance just as one very large field does, so splitting the same content across more fields will not help."

-- `StructuredRecognizers::try_detect`
unfoldable pub structured_detect :
    List Recognizer → Bytes → Budget → Outcome DetectError (List PiiEntity) × Budget
unfolding all_candidates is_exhausted budget_refusal refusal_text resolve_overlaps
structured_detect recs input budget =
    let (candidates, b) = all_candidates recs input budget in
    if is_exhausted b
    then (err (budget_refusal (codes "structured") (refusal_text input b)), b)
    else (ok (resolve_overlaps input candidates), b)
