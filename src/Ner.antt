-- ===== src/Ner.antt =====
-- src/pii/ner_decode.rs: from the labelled tokens of a model to entities.
pub mod Spans
mod Examples
use llm_proxy_pii_rust.Prelude.{
  ℕ, ◌+◌, ◌-◌, Bool, true, false, not, ◌&&◌, ◌||◌, List, [], ◌∷◌, ◌++◌, Option, none, some, nat_beq,
  if◌then◌else◌, length, any, Bytes, bytes_eq, bytes_beq, ◌==◌, codes,
}
use llm_proxy_pii_rust.Kind.{PiiKind, person, organization, location, kind_beq}
use llm_proxy_pii_rust.Entity.{Span, PiiEntity, structural, Outcome, ok, err}
use llm_proxy_pii_rust.Text.{get_slice, to_ascii_uppercase}
use llm_proxy_pii_rust.White.{trim, trim_start}
use llm_proxy_pii_rust.Placeholder.{decimal}

pub record TokenTag : Type 0 where
  pub label : Bytes
  pub start : ℕ
  pub end : ℕ

abbrev pub is_bio_separator : ℕ → Bool
is_bio_separator c = nat_beq c b'-' || nat_beq c b'_'

-- The last and the first piece of `split(['-', '_'])`.
unfoldable pub last_piece : Bytes → Bytes
unfolding any
last_piece [] = []
last_piece (c ∷ cs) =
    let rest = last_piece cs in
    if is_bio_separator c || any is_bio_separator cs then rest else c ∷ cs

unfoldable pub first_piece : Bytes → Bytes
first_piece [] = []
first_piece (c ∷ cs) = let rest = first_piece cs in if is_bio_separator c then [] else c ∷ rest

abbrev pub one_of : List Bytes → Bytes → Bool
one_of tags tag = any (λ (t : Bytes). t == tag) tags

unfoldable pub tag_kind : Bytes → Option PiiKind
unfolding any bytes_beq
tag_kind tag =
    if one_of
      (codes "PER"
        ∷ codes "PERSON"
        ∷ codes "GIVENNAME"
        ∷ codes "SURNAME"
        ∷ codes "FIRSTNAME"
        ∷ codes "LASTNAME"
        ∷ codes "NAME"
        ∷ [])
      tag
    then some person
    else if one_of (codes "ORG" ∷ codes "ORGANIZATION" ∷ codes "COMPANY" ∷ []) tag
    then some organization
    else if one_of
        (codes "LOC"
          ∷ codes "GPE"
          ∷ codes "LOCATION"
          ∷ codes "CITY"
          ∷ codes "STATE"
          ∷ codes "COUNTRY"
          ∷ [])
        tag
    then some location
    else none

unfoldable pub label_to_kind : Bytes → Option PiiKind
unfolding last_piece to_ascii_uppercase tag_kind
label_to_kind label = tag_kind (to_ascii_uppercase (last_piece label))

unfoldable pub is_begin : Bytes → Bool
unfolding first_piece to_ascii_uppercase bytes_beq
is_begin label = to_ascii_uppercase (first_piece label) == codes "B"

unfoldable pub validate_label_count : ℕ → ℕ → Outcome Bytes (Unit {0})
unfolding decimal
validate_label_count id2label_len num_labels =
    if nat_beq id2label_len num_labels
    then ok tt
    else err (
        codes "NER label count mismatch: "
        ++ decimal id2label_len
        ++ codes " labels vs "
        ++ decimal num_labels
        ++ codes " model classes")

-- The entity that is being put together.
pub record Pending : Type 0 where
  pub kind : PiiKind
  pub start : ℕ
  pub end : ℕ

unfoldable pub trimmed_entity : PiiKind → ℕ → Bytes → Bytes → List PiiEntity
trimmed_entity kind start slice [] = []
trimmed_entity kind start slice (c ∷ cs) =
    record {
      kind = kind;
      span = record { start = start; end = start + length (c ∷ cs) };
      text = c ∷ cs;
      confidence = structural;
    }
    ∷ []

-- The closure `flush`: what is left of the slice without the white space round it, if it is a slice.
unfoldable pub flush_pending_entity : Bytes → Option Pending → List PiiEntity
unfolding get_slice trim trim_start trimmed_entity
flush_pending_entity text none = []
flush_pending_entity text (some p) = elim (get_slice text p.start p.end) [
  | none ↦ []
  | some slice ↦
      trimmed_entity p.kind (p.start + (length slice - length (trim_start slice))) slice
        (trim slice)
]

abbrev pub opened : PiiKind → TokenTag → Pending
opened kind token = record { kind = kind; start = token.start; end = token.end }

-- Whether the token goes on with the entity.
unfoldable pub continues : PiiKind → Bool → Option Pending → Bool
unfolding kind_beq
continues kind begins (some p) = kind_beq p.kind kind && not begins
continues kind begins none = false

abbrev pub extended : Option Pending → TokenTag → Option Pending
extended (some p) token = some (record p { end = token.end })
extended none token = none

unfoldable pub decode_from : Bytes → Option Pending → List TokenTag → List PiiEntity
unfolding flush_pending_entity label_to_kind continues is_begin
decode_from text current [] = flush_pending_entity text current
decode_from text current (token ∷ tokens) = elim (label_to_kind token.label) [
  | none ↦ flush_pending_entity text current ++ decode_from text none tokens
  | some kind ↦
      let going_on = decode_from text (extended current token) tokens in
      let anew =
        flush_pending_entity text current ++ decode_from text (some (opened kind token)) tokens in
      if continues kind (is_begin token.label) current then going_on else anew
]

unfoldable pub decode_entities : Bytes → List TokenTag → List PiiEntity
unfolding decode_from
decode_entities text tokens = decode_from text none tokens
