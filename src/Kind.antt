-- ===== src/Kind.antt =====
-- src/pii/mod.rs: the kinds of PII, as the macro `pii_kinds!` generates them, with their labels, the
-- inverse of the labels, their priority and the division into structured kinds and NER kinds.
mod Examples
use llm_proxy_pii_rust.Prelude.{
  ℕ, ◌≡◌, refl, sym, ap, subst, ◌↔◌, ◌<◌, Bool, true, false, inl, inr, List, [], ◌∷◌, Option, some,
  arith, PartialEq, ◌==◌, Bytes, bytes_eq, bytes_beq_iff, codes, find, bytes_beq, nat_beq,
  nat_beq_iff, get_elem?, Bool-cases,
}
use llm_proxy_pii_rust.Prelude.Quantifiers.{find-eq_some}
use llm_proxy_pii_rust.Text.{to_ascii_uppercase}

pub data PiiKind : Type 0 where
  email phone ssn national_id tax_id credit_card iban secret person organization location : PiiKind

-- `PiiKind::ALL`
abbrev pub all : List PiiKind
all =
    email ∷ phone ∷ ssn ∷ national_id ∷ tax_id ∷ credit_card ∷ iban ∷ secret ∷ person ∷ organization
    ∷ location ∷ []

-- The place of a kind in the declaration: what `kind as usize` and `ALL.iter().position` give.
abbrev pub index : PiiKind → ℕ
index email = 0
index phone = 1
index ssn = 2
index national_id = 3
index tax_id = 4
index credit_card = 5
index iban = 6
index secret = 7
index person = 8
index organization = 9
index location = 10

unfoldable pub label : PiiKind → Bytes
label email = codes "EMAIL"
label phone = codes "PHONE"
label ssn = codes "SSN"
label national_id = codes "NATID"
label tax_id = codes "TAXID"
label credit_card = codes "CARD"
label iban = codes "IBAN"
label secret = codes "SECRET"
label person = codes "PERSON"
label organization = codes "ORG"
label location = codes "LOCATION"

-- The arms of the match, in their order.
unfoldable pub from_label : Bytes → Option PiiKind
unfolding find
from_label s = find (λ k. label k == to_ascii_uppercase s) all

unfoldable pub priority : PiiKind → ℕ
priority secret = 7
priority iban = 6
priority credit_card = 5
priority ssn = 4
priority national_id = 4
priority phone = 3
priority tax_id = 2
priority email = 1
priority person = 0
priority organization = 0
priority location = 0

unfoldable pub is_structured : PiiKind → Bool
is_structured person = false
is_structured organization = false
is_structured location = false
is_structured _ = true

-- `PartialEq` of the kinds.
unfoldable pub kind_beq : PiiKind → PiiKind → Bool
kind_beq a b = nat_beq (index a) (index b)

-- The kind at an index.
abbrev at_index : ℕ → Option PiiKind
at_index n = get_elem? all n

at_index-index : (k : PiiKind) → at_index (index k) ≡ some k
at_index-index email = refl
at_index-index _ = refl

pub kind_beq_iff : (a b : PiiKind) → (kind_beq a b ≡ true) ↔ (a ≡ b)
unfolding kind_beq
kind_beq_iff a b = (
  (λ h.
      let e : at_index (index a) ≡ at_index (index b) = ap at_index ((nat_beq_iff _ _).0 h) in
      cc (at_index-index a, at_index-index b)),
  (λ e. (nat_beq_iff _ _).1 (ap index e)),
)

instance abbrev pub kind_eq : PartialEq PiiKind
kind_eq = record { same = kind_beq; same_iff = kind_beq_iff }

-- The label of every kind is in upper case and reads back as that kind alone.
from_label-label_self : (k : PiiKind) → find (λ j. label j == label k) all ≡ some k
unfolding label find bytes_beq
from_label-label_self email = refl
from_label-label_self _ = refl

pub label-injective : (a b : PiiKind) → label a ≡ label b → a ≡ b
label-injective a b h =
    let e = ap (λ l. find (λ j. label j == l) all) h in
    cc (from_label-label_self a, from_label-label_self b)

-- A spelling in any case is read as a kind exactly when its upper case is the label of that kind.
pub from_label-label :
    (s : Bytes) (k : PiiKind) → (from_label s ≡ some k) ↔ (to_ascii_uppercase s ≡ label k)
unfolding from_label
from_label-label s k = (
  (λ h.
      sym ((bytes_beq_iff _ _).0 (find-eq_some (λ j. label j == to_ascii_uppercase s) all k h).0)),
  (λ e. rw e (from_label-label_self k)),
)

-- The kinds of priority 0 are the kinds that are not structured.
pub is_structured-priority : (k : PiiKind) → (is_structured k ≡ true) ↔ (0 < priority k)
unfolding is_structured priority
is_structured-priority k = ground arith
