-- ===== src/Budget.antt =====
-- src/pii/mod.rs: `Budget`, the allowance of validator calls of one request. The cells that the
-- source changes through a shared reference are the fields of a record that is passed on.
pub mod Laws
mod Examples
use llm_proxy_pii_rust.Prelude.{
  ℕ, zero, suc, ◌+◌, ◌-◌, Bool, true, false, List, [], ◌∷◌, Option, none, some, ltb, leb, nat_beq,
  if◌then◌else◌, get_elem?, get_or,
}
use llm_proxy_pii_rust.Kind.{PiiKind, all, index}

pub record Budget : Type 0 where
  pub left : ℕ
  pub initial : ℕ
  pub part : ℕ
  pub by_kind : List ℕ

-- `Budget::new`
unfoldable pub new : ℕ → Budget
new calls = record {
  left = calls;
  initial = calls;
  part = 0;
  by_kind = 0 ∷ 0 ∷ 0 ∷ 0 ∷ 0 ∷ 0 ∷ 0 ∷ 0 ∷ 0 ∷ 0 ∷ 0 ∷ [];
}

-- `saturating_sub(1)`
unfoldable pub spend : Budget → Budget
spend b = record b { left = b.left - 1 }

-- One unit for every `calls_per_unit` calls.
unfoldable pub spend_fraction : ℕ → Budget → Budget
unfolding spend
spend_fraction calls_per_unit b =
    let n = b.part + 1 in
    if leb calls_per_unit n then spend (record b { part = 0 }) else record b { part = n }

abbrev pub add_at : List ℕ → ℕ → ℕ → List ℕ
add_at [] i units = []
add_at (n ∷ ns) zero units = (n + units) ∷ ns
add_at (n ∷ ns) (suc i) units = n ∷ add_at ns i units

-- The array has a place for every kind, so the position is always found.
unfoldable pub attribute : PiiKind → ℕ → Budget → Budget
attribute kind units b =
    if nat_beq units 0 then b else record b { by_kind = add_at b.by_kind (index kind) units }

unfoldable pub spent_on : Budget → PiiKind → ℕ
spent_on b kind = get_or b.by_kind (index kind) 0

-- `max_by_key` over the enumerated entries: of equal maxima the last. The entries left, the place of
-- the first of them, and the best so far.
unfoldable pub max_entry : List ℕ → ℕ → Option (ℕ × ℕ) → Option (ℕ × ℕ)
max_entry [] i best = best
max_entry (n ∷ ns) i none = max_entry ns (i + 1) (some (i, n))
max_entry (n ∷ ns) i (some (j, m)) =
    max_entry ns (i + 1) (if ltb n m then some (j, m) else some (i, n))

abbrev kind_of_entry : Option (ℕ × ℕ) → Option (PiiKind × ℕ)
kind_of_entry none = none
kind_of_entry (some (i, n)) = elim (get_elem? all i) [
  | some kind ↦ if ltb 0 n then some (kind, n) else none
  | none ↦ none
]

unfoldable pub top_spender : Budget → Option (PiiKind × ℕ)
unfolding max_entry
top_spender b = kind_of_entry (max_entry b.by_kind 0 none)

unfoldable pub is_exhausted : Budget → Bool
is_exhausted b = nat_beq b.left 0

unfoldable pub spent : Budget → ℕ
spent b = b.initial - b.left
