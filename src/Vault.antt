-- ===== src/Vault.antt =====
-- src/pii/anonymizer.rs: the store of one request, from placeholder to value and back, with one pass
-- of masking and the restoring of placeholders. `serde_json::to_string` is the parameter `to_json`.
pub mod Replace
pub mod Invariant
pub mod RoundTrip
pub mod Fixpoint
pub mod Settled
mod Examples
use llm_proxy_pii_rust.Prelude.{
  ℕ, zero, suc, ◌+◌, ◌-◌, max, Bool, true, false, not, ◌&&◌, List, [], ◌∷◌, ◌++◌, Option, none,
  some, ltb, leb, if◌then◌else◌, length, take, drop, Bytes, bytes_eq, bytes_beq,
}
use llm_proxy_pii_rust.Prelude.Maps.{Dict, lookup, insert}
use llm_proxy_pii_rust.Prelude.Sort.{sort_by}
use llm_proxy_pii_rust.Kind.{PiiKind, kind_eq, kind_beq}
use llm_proxy_pii_rust.Text.{is_char_boundary, slice, get_slice}
use llm_proxy_pii_rust.Entity.{Span, PiiEntity}
use llm_proxy_pii_rust.Overlap.{start_order}
use llm_proxy_pii_rust.Placeholder.{Token, match_token, placeholder, canonical}

pub record Vault : Type 0 where
  pub to_original : Dict Bytes Bytes
  pub to_placeholder : Dict Bytes Bytes
  pub counters : Dict PiiKind ℕ

abbrev pub empty : Vault
empty = record { to_original = []; to_placeholder = []; counters = [] }

unfoldable pub is_empty : Vault → Bool
is_empty v = elim v.to_original [ [] ↦ true | _ ↦ false ]

-- How many values of a kind have a placeholder.
unfoldable pub count : Vault → PiiKind → ℕ
unfolding lookup kind_beq
count v kind = elim (lookup kind v.counters) [ some n ↦ n | none ↦ 0 ]

-- A new value takes the next number of its kind, and is entered in both directions.
unfoldable pub mint : Vault → PiiEntity → Vault × Bytes
unfolding count insert placeholder bytes_beq kind_beq
mint v e =
    let n = count v e.kind + 1 in
    let p = placeholder e.kind n in
    (
      record {
        to_original = insert p e.text v.to_original;
        to_placeholder = insert e.text p v.to_placeholder;
        counters = insert e.kind n v.counters;
      },
      p,
    )

-- A value that has a placeholder keeps it.
unfoldable pub placeholder_for : Vault → PiiEntity → Vault × Bytes
unfolding lookup mint bytes_beq
placeholder_for v e = elim (lookup e.text v.to_placeholder) [
  | some existing ↦ (v, existing)
  | none ↦ mint v e
]

-- `while at < s.len() && !s.is_char_boundary(at) { at += 1 }`, with the rounds left.
unfoldable pub next_boundary : Bytes → ℕ → ℕ → ℕ
unfolding is_char_boundary
next_boundary s zero at = at
next_boundary s (suc rounds) at =
    let later = next_boundary s rounds (at + 1) in
    if ltb at (length s) && not (is_char_boundary s at) then later else at

unfoldable pub char_boundary_at_or_after : Bytes → ℕ → ℕ
unfolding next_boundary
char_boundary_at_or_after s i =
    let at = if ltb i (length s) then i else length s in next_boundary s (length s - at) at

-- The guard of the loop of `mask`.
unfoldable pub well_formed : Bytes → ℕ → Span → Bool
unfolding is_char_boundary
well_formed text cursor span =
    leb cursor span.start
    && leb span.start span.end
    && leb span.end (length text)
    && is_char_boundary text span.start
    && is_char_boundary text span.end

-- The loop over the sorted entities, from the cursor on. A span that breaks the precondition is
-- passed over without its bytes being copied.
unfoldable pub mask_from : Bytes → Vault → ℕ → List PiiEntity → Vault × Bytes
unfolding well_formed placeholder_for slice char_boundary_at_or_after
mask_from text v cursor [] = (v, drop cursor text)
mask_from text v cursor (e ∷ es) = elim (well_formed text cursor e.span) [
  | true ↦
      let (v', p) = placeholder_for v e in
      let (v'', rest) = mask_from text v' e.end es in
      (v'', slice text cursor e.start ++ (p ++ rest))
  | false ↦ mask_from text v (max cursor (char_boundary_at_or_after text e.end)) es
]

-- `Vault::mask`: one pass.
unfoldable pub mask : Vault → Bytes → List PiiEntity → Vault × Bytes
unfolding mask_from sort_by
mask v text [] = (v, text)
mask v text (e ∷ es) = mask_from text v 0 (sort_by start_order (e ∷ es))

-- `Regex::replace_all`: from left to right, a match is replaced and passed over. The number says
-- how many bytes of the last match are still to be passed over.
unfoldable pub replace_all : (Token → Bytes → Bytes) → ℕ → Bytes → Bytes
unfolding match_token
replace_all sub k [] = []
replace_all sub (suc k) (c ∷ cs) = replace_all sub k cs
replace_all sub zero (c ∷ cs) = elim (match_token (c ∷ cs)) [
  | some t ↦ sub t (take t.size (c ∷ cs)) ++ replace_all sub (t.size - 1) cs
  | none ↦ c ∷ replace_all sub zero cs
]

-- What a token is replaced by: the value, written by `render`, or the token as it stands.
unfoldable pub substitute : (Bytes → Bytes) → Vault → Token → Bytes → Bytes
unfolding lookup canonical bytes_beq
substitute render v t matched = elim (lookup (canonical t) v.to_original) [
  | some original ↦ render original
  | none ↦ matched
]

-- `demask_inner`; `render` writes a value, as it is or escaped.
unfoldable pub demask_inner : (Bytes → Bytes) → Vault → Bytes → Bytes
unfolding is_empty replace_all substitute
demask_inner render v text = if is_empty v then text else replace_all (substitute render v) 0 text

unfoldable pub demask : Vault → Bytes → Bytes
unfolding demask_inner
demask v text = demask_inner (λ s. s) v text

-- The text of a JSON string without its quotes, as `to_json` writes it.
unfoldable pub json_string_body : (Bytes → Bytes) → Bytes → Bytes
unfolding get_slice
json_string_body to_json s =
    let quoted = to_json s in
    elim (get_slice quoted 1 (length quoted - 1)) [ some body ↦ body | none ↦ [] ]

unfoldable pub demask_json_string : (Bytes → Bytes) → Vault → Bytes → Bytes
unfolding demask_inner json_string_body
demask_json_string to_json v text = demask_inner (json_string_body to_json) v text
