-- ===== src/Stream.antt =====
-- src/stream.rs: placeholders are restored in a stream of server-sent events. Each streamed field has
-- a buffer that holds back a tail which may be the start of a placeholder. `serde_json` and the lossy
-- decoding of a line are the parameter `Codec`.
pub mod Split
pub mod Chunks
pub mod Frames
pub mod Lines
pub mod Reassembly
pub mod Flush
mod Examples
use llm_proxy_pii_rust.Prelude.{
  ℕ, zero, suc, ◌+◌, ◌-◌, Bool, true, false, ◌&&◌, ◌||◌, ◌≡◌, ◌↔◌, List, [], ◌∷◌, ◌++◌, Option,
  none, some, arith, ltb, leb, nat_beq, if◌then◌else◌, length, take, drop, Bytes, PartialEq, ◌==◌,
  bytes_eq, bytes_beq, codes,
}
use llm_proxy_pii_rust.Prelude.Maps.{Dict, lookup, insert, remove}
use llm_proxy_pii_rust.Prelude.Sort.{sort_by}
use llm_proxy_pii_rust.Text.{is_ascii_alphabetic, is_ascii_digit}
use llm_proxy_pii_rust.White.{trim_start}
use llm_proxy_pii_rust.Vault.{Vault, demask, demask_json_string}
use llm_proxy_pii_rust.Json.{
  Value, number, string, array, object, nil, cons, end, field, get, as_str, as_u64, on_string,
  on_field, on_items,
}

-- `[A-Za-z0-9 _\-]`
unfoldable pub is_body : ℕ → Bool
unfolding is_ascii_alphabetic is_ascii_digit
is_body c =
    is_ascii_alphabetic c || is_ascii_digit c || nat_beq c b' ' || nat_beq c b'_' || nat_beq c b'-'

-- At most so many body bytes, and nothing else.
unfoldable pub is_body_run : ℕ → Bytes → Bool
unfolding is_body
is_body_run n [] = true
is_body_run zero (c ∷ cs) = false
is_body_run (suc n) (c ∷ cs) = is_body c && is_body_run n cs

-- `PARTIAL_PLACEHOLDER`: `^\[[A-Za-z0-9 _\-]{0,32}$`
unfoldable pub is_partial : Bytes → Bool
unfolding is_body_run
is_partial [] = false
is_partial (c ∷ cs) = nat_beq c b'[' && is_body_run 32 cs

-- `pending.rfind('[')`
unfoldable pub rfind_open : Bytes → Option ℕ
rfind_open [] = none
rfind_open (c ∷ cs) = elim (rfind_open cs) [
  | some i ↦ some (suc i)
  | none ↦ if nat_beq c b'[' then some 0 else none
]

unfoldable pub split_demaskable : Bytes → ℕ
unfolding rfind_open is_partial
split_demaskable pending = elim (rfind_open pending) [
  | none ↦ length pending
  | some open_at ↦ if is_partial (drop open_at pending) then open_at else length pending
]

pub data StreamKey : Type 0 where
  content : ℕ → StreamKey
  tool_arg : ℕ → ℕ → StreamKey
  block : ℕ → Bool → StreamKey

unfoldable pub bool_beq : Bool → Bool → Bool
bool_beq true b = b
bool_beq false true = false
bool_beq false false = true

unfoldable pub key_beq : StreamKey → StreamKey → Bool
unfolding bool_beq
key_beq (content c) (content d) = nat_beq c d
key_beq (tool_arg c t) (tool_arg d u) = nat_beq c d && nat_beq t u
key_beq (block i j) (block k l) = nat_beq i k && bool_beq j l
key_beq _ _ = false

pub key_beq_iff : (a b : StreamKey) → (key_beq a b ≡ true) ↔ (a ≡ b)
unfolding key_beq
key_beq_iff (content c) (content d) = ground arith
key_beq_iff (tool_arg c t) (tool_arg d u) = ground arith
key_beq_iff (block i true) (block k true) = ground arith
key_beq_iff (block i true) (block k false) = ground arith
key_beq_iff (block i false) (block k true) = ground arith
key_beq_iff (block i false) (block k false) = ground arith
key_beq_iff _ _ = ground arith

instance abbrev pub key_eq : PartialEq StreamKey
key_eq = record { same = key_beq; same_iff = key_beq_iff }

-- The derived order: by variant, then by the fields in turn.
unfoldable pub key_le : StreamKey → StreamKey → Bool
key_le (content c) (content d) = leb c d
key_le (content c) _ = true
key_le (tool_arg c t) (content d) = false
key_le (tool_arg c t) (tool_arg d u) = ltb c d || (nat_beq c d && leb t u)
key_le (tool_arg c t) (block k l) = true
key_le (block i j) (block k true) = leb i k
key_le (block i false) (block k false) = leb i k
key_le (block i true) (block k false) = ltb i k
key_le (block i j) _ = false

pub data WireSchema : Type 0 where
  open_ai anthropic : WireSchema

-- What `serde_json` and the standard library do for the stream.
pub record Codec : Type 0 where
  pub from_str : Bytes → Option Value
  pub print : Value → Bytes
  pub to_json : Bytes → Bytes
  pub lossy : Bytes → Bytes
  -- the order in which the keys of a hash map come
  pub hash_order : List StreamKey → List StreamKey

pub record SseDemasker : Type 0 where
  pub vault : Vault
  pub schema : WireSchema
  pub line_buf : Bytes
  pub pending : Dict StreamKey Bytes
  pub pending_event : Option Bytes

unfoldable pub start : Vault → WireSchema → SseDemasker
start vault schema = record {
  vault = vault;
  schema = schema;
  line_buf = [];
  pending = [];
  pending_event = none;
}

-- What is held back for a field.
unfoldable pub held : SseDemasker → StreamKey → Bytes
unfolding lookup key_beq
held s key = elim (lookup key s.pending) [ some text ↦ text | none ↦ [] ]

-- Fields whose text is itself JSON are restored with escapes.
unfoldable pub is_json : StreamKey → Bool
is_json (content c) = false
is_json (tool_arg c t) = true
is_json (block i json) = json

module _ (codec : Codec) where
  unfoldable pub demask_for : Vault → StreamKey → Bytes → Bytes
  unfolding is_json demask demask_json_string
  demask_for vault key text =
      if is_json key then demask_json_string codec.to_json vault text else demask vault text

  -- The safe part of the buffer and the new text, restored; the rest stays in the buffer.
  unfoldable pub push_buffered : StreamKey → Bytes → SseDemasker → Bytes × SseDemasker
  unfolding held split_demaskable demask_for insert key_beq
  push_buffered key incoming s =
      let combined = held s key ++ incoming in
      let split = split_demaskable combined in
      (
        demask_for s.vault key (take split combined),
        record s { pending = insert key (drop split combined) s.pending },
      )
