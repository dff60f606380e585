-- ===== src/Budget/Laws.antt =====
-- What the allowance charges, and whom it charges.
use llm_proxy_pii_rust.Prelude.{
  ℕ, zero, suc, ◌+◌, ◌-◌, ◌/◌, ◌%◌, ◌<◌, ◌≡◌, refl, ◌∙◌, List, [], ◌∷◌, arith, Bool-cases, leb,
  nat_beq, if◌then◌else◌, get_or, length, inl, inr,
}
use llm_proxy_pii_rust.Kind.{PiiKind, index, email}
use llm_proxy_pii_rust.Budget.{Budget, spend_fraction, add_at, attribute, spent_on}

-- `n` calls at one denominator.
abbrev pub spend_calls : ℕ → ℕ → Budget → Budget
spend_calls d zero b = b
spend_calls d (suc n) b = spend_fraction d (spend_calls d n b)

divides_next : (d n : ℕ) → 0 < d → n % d + 1 ≡ d → (suc n / d ≡ n / d + 1) × (suc n % d ≡ 0)
divides_next d n h e = (grind arith, grind arith)

stays_next : (d n : ℕ) → 0 < d → n % d + 1 < d → (suc n / d ≡ n / d) × (suc n % d ≡ n % d + 1)
stays_next d n h e = (grind arith, grind arith)

-- With one denominator, `n` calls charge exactly the whole units in them, as long as there are such
-- left, and the rest of the division is carried.
pub spend_calls-charge :
    (d n : ℕ) (b : Budget)
    → 0 < d
    → b.part ≡ 0
    → ((spend_calls d n b).left ≡ b.left - n / d) × ((spend_calls d n b).part ≡ n % d)
unfolding spend_fraction
spend_calls-charge d zero b h p = (grind arith, grind arith)
spend_calls-charge d (suc n) b h p =
    let (units, part) = spend_calls-charge d n b h p in
    let below : n % d < d = omega arith in
    elim (Bool-cases (leb d (n % d + 1))) [
      | inl e ↦
          let next = divides_next d n h (ground arith) in
          (ground (arith, units, part, next, below), ground (arith, units, part, next, below))
      | inr e ↦
          let next = stays_next d n h (ground arith) in
          (ground (arith, units, part, next, below), ground (arith, units, part, next, below))
    ]

get_or-add_at :
    (xs : List ℕ) (i j units : ℕ)
    → i < length xs
    → get_or (add_at xs i units) j 0 ≡ get_or xs j 0 + (if nat_beq i j then units else 0)
get_or-add_at [] i j units h = absurd (omega arith)
get_or-add_at (n ∷ ns) zero zero units h = refl
get_or-add_at (n ∷ ns) zero (suc j) units h = ground arith
get_or-add_at (n ∷ ns) (suc i) zero units h = ground arith
get_or-add_at (n ∷ ns) (suc i) (suc j) units h =
    get_or-add_at ns i j units (omega arith) ∙ ground arith

index-lt : (k : PiiKind) → index k < 11
index-lt email = omega arith
index-lt _ = omega arith

-- Units that are attributed to a kind are counted for that kind and for no other.
pub spent_on-attribute :
    (b : Budget) (k j : PiiKind) (units : ℕ)
    → length b.by_kind ≡ 11
    → spent_on (attribute k units b) j
      ≡ spent_on b j + (if nat_beq (index k) (index j) then units else 0)
unfolding spent_on attribute
spent_on-attribute b k j units h =
    let at = get_or-add_at b.by_kind (index k) (index j) units (omega (arith, index-lt k)) in
    ground (arith, at)
