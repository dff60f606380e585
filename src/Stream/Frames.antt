-- ===== src/Stream/Frames.antt =====
-- src/stream.rs: the lines of a stream, the rewriting of the deltas in them, and the flushing of what is
-- held back, before the frame that ends its block, before the terminator and at the end of the stream.
use llm_proxy_pii_rust.Prelude.{
  ℕ, Bool, true, false, List, [], ◌∷◌, ◌++◌, Option, none, some, nat_beq, select, if◌then◌else◌,
  Bytes, ◌==◌, bytes_eq, bytes_beq, codes,
}
use llm_proxy_pii_rust.Prelude.Maps.{Dict, lookup, remove}
use llm_proxy_pii_rust.Prelude.Sort.{sort_by}
use llm_proxy_pii_rust.Json.{
  Value, number, string, array, object, nil, cons, end, field, get, as_str, as_u64,
}
use llm_proxy_pii_rust.Stream.{
  StreamKey, content, tool_arg, block, key_eq, key_beq, key_le, Codec, SseDemasker, demask_for,
}

-- The chunk that carries the flushed text of a field; the entries of an object go by their keys.
unfoldable pub flush_chunk : StreamKey → Bytes → Value
flush_chunk (content choice) text = object (
    field (codes "choices")
      (array (
        cons
          (object (
            field (codes "delta") (object (field (codes "content") (string text) end))
              (field (codes "index") (number choice) end)))
          nil))
      end)
flush_chunk (tool_arg choice tool) text = object (
    field (codes "choices")
      (array (
        cons
          (object (
            field (codes "delta")
              (object (
                field (codes "tool_calls")
                  (array (
                    cons
                      (object (
                        field (codes "function")
                          (object (field (codes "arguments") (string text) end))
                          (field (codes "index") (number tool) end)))
                      nil))
                  end))
              (field (codes "index") (number choice) end)))
          nil))
      end)
flush_chunk (block index false) text = object (
    field (codes "delta")
      (object (
        field (codes "text") (string text)
          (field (codes "type") (string (codes "text_delta")) end)))
      (field (codes "index") (number index)
        (field (codes "type") (string (codes "content_block_delta")) end)))
flush_chunk (block index true) text = object (
    field (codes "delta")
      (object (
        field (codes "partial_json") (string text)
          (field (codes "type") (string (codes "input_json_delta")) end)))
      (field (codes "index") (number index)
        (field (codes "type") (string (codes "content_block_delta")) end)))

-- A line with its end.
unfoldable pub emit_line : Bytes → Bytes
emit_line line = line ++ (10 ∷ [])

unfoldable pub is_empty_text : Bytes → Bool
is_empty_text [] = true
is_empty_text _ = false

-- `strip_prefix`
unfoldable pub strip_prefix : Bytes → Bytes → Option Bytes
strip_prefix [] s = some s
strip_prefix (c ∷ cs) [] = none
strip_prefix (c ∷ cs) (d ∷ ds) = if nat_beq c d then strip_prefix cs ds else none

abbrev pub keys_of : Dict StreamKey Bytes → List StreamKey
keys_of [] = []
keys_of ((key, text) ∷ rest) = key ∷ keys_of rest

unfoldable pub is_block_of : ℕ → StreamKey → Bool
is_block_of index (block i json) = nat_beq i index
is_block_of index _ = false

-- A held `event:` line is emitted, and is held no more.
unfoldable pub flush_pending_event : SseDemasker → Bytes × SseDemasker
unfolding emit_line
flush_pending_event s = elim s.pending_event [
  | some event ↦ (emit_line event, record s { pending_event = none })
  | none ↦ ([], s)
]

-- The `index` of an event that ends a content block.
unfoldable pub anthropic_block_stop_index : Value → Option ℕ
unfolding get as_str as_u64 bytes_beq
anthropic_block_stop_index value = elim (as_str (get (codes "type") value)) [
  | some name ↦
      if name == codes "content_block_stop"
      then some (elim (as_u64 (get (codes "index") value)) [ some index ↦ index | none ↦ 0 ])
      else none
  | none ↦ none
]

module _ (codec : Codec) where
  unfoldable pub emit_synth_chunk : StreamKey → Bytes → Bytes
  unfolding flush_chunk
  emit_synth_chunk (block index json) text =
      codes "event: content_block_delta"
      ++ (10
          ∷ (codes "data: "
              ++ (codec.print (flush_chunk (block index json) text) ++ (10 ∷ 10 ∷ []))))
  emit_synth_chunk key text =
      codes "data: " ++ (codec.print (flush_chunk key text) ++ (10 ∷ 10 ∷ []))

  -- The held tail of a field is removed, and emitted unless nothing is left of it.
  unfoldable pub flush_key : StreamKey → SseDemasker → Bytes × SseDemasker
  unfolding lookup remove key_beq demask_for emit_synth_chunk is_empty_text
  flush_key key s = elim (lookup key s.pending) [
    | none ↦ ([], s)
    | some pending ↦
        let text = demask_for codec s.vault key pending in
        (
          if is_empty_text pending
              then []
              else if is_empty_text text
              then []
              else emit_synth_chunk key text,
          record s { pending = remove key s.pending },
        )
  ]

  unfoldable pub flush_keys : List StreamKey → SseDemasker → Bytes × SseDemasker
  unfolding flush_key
  flush_keys [] s = ([], s)
  flush_keys (key ∷ keys) s =
      let (out, s') = flush_key key s in let (outs, s'') = flush_keys keys s' in (out ++ outs, s'')

  -- The tails of one content block.
  unfoldable pub flush_block : ℕ → SseDemasker → Bytes × SseDemasker
  unfolding flush_keys select is_block_of
  flush_block index s =
      flush_keys (select (is_block_of index) (codec.hash_order (keys_of s.pending))) s

  -- All tails, in the order of their keys.
  unfoldable pub flush_pending : SseDemasker → Bytes × SseDemasker
  unfolding flush_keys sort_by key_le
  flush_pending s = flush_keys (sort_by key_le (codec.hash_order (keys_of s.pending))) s
