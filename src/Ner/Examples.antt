-- ===== src/Ner/Examples.antt =====
-- The labels of two models on one text.
use llm_proxy_pii_rust.Prelude.{◌≡◌, refl, none, List, [], ◌∷◌, Bytes, codes, All, bytes_beq}
use llm_proxy_pii_rust.Kind.{person, location}
use llm_proxy_pii_rust.Entity.{structural, err}
use llm_proxy_pii_rust.Text.{is_char_boundary, slice}
use llm_proxy_pii_rust.White.{trim, trim_start}
use llm_proxy_pii_rust.Ner.{TokenTag, label_to_kind, decode_entities, validate_label_count}
use llm_proxy_pii_rust.Ner.Spans.{StandsIn, decode_entities-StandsIn}

abbrev text : Bytes
text = codes "Hi Ada Lovelace, Rome"

abbrev tokens : List TokenTag
tokens =
    record { label = codes "O"; start = 0; end = 2 }
    ∷ record { label = codes "B-PER"; start = 2; end = 6 }
    ∷ record { label = codes "I-PER"; start = 6; end = 15 }
    ∷ record { label = codes "B_LOC"; start = 16; end = 21 }
    ∷ record { label = codes "B-LOC"; start = 30; end = 40 }
    ∷ []

-- The two names are one entity without the space before them; the offsets outside the text give none.
decoded :
    decode_entities text tokens
    ≡ record {
      kind = person;
      span = record { start = 3; end = 15 };
      text = codes "Ada Lovelace";
      confidence = structural;
    }
      ∷ record {
        kind = location;
        span = record { start = 17; end = 21 };
        text = codes "Rome";
        confidence = structural;
      }
      ∷ []
unfolding decode_entities trim trim_start bytes_beq is_char_boundary slice
decoded = refl

decode_entities-StandsIn_example : All (StandsIn text) (decode_entities text tokens)
decode_entities-StandsIn_example = decode_entities-StandsIn text tokens

structured_label : label_to_kind (codes "B-EMAIL") ≡ none
unfolding label_to_kind bytes_beq
structured_label = refl

mismatch :
    validate_label_count 3 4 ≡ err (codes "NER label count mismatch: 3 labels vs 4 model classes")
unfolding validate_label_count
mismatch = refl
