-- ===== src/Stream/Lines.antt =====
-- src/stream.rs: one line of a stream, and the bytes of a stream cut into lines.
use llm_proxy_pii_rust.Prelude.{
  ℕ, true, false, [], ◌∷◌, ◌++◌, Option, none, some, nat_beq, if◌then◌else◌, Bytes, ◌==◌, bytes_eq,
  bytes_beq, codes,
}
use llm_proxy_pii_rust.White.{trim_start}
use llm_proxy_pii_rust.Json.{Value, get, as_str, as_u64, on_string, on_field, on_items}
use llm_proxy_pii_rust.Stream.{
  StreamKey, content, tool_arg, block, open_ai, anthropic, Codec, SseDemasker, push_buffered,
}
use llm_proxy_pii_rust.Stream.Frames.{
  emit_line, strip_prefix, flush_pending_event, anthropic_block_stop_index, flush_block,
  flush_pending, is_empty_text,
}

unfoldable pub or_else : Option ℕ → ℕ → ℕ
or_else (some n) other = n
or_else none other = other

-- The bytes at the end that end a line are dropped: `trim_end_matches(['\r', '\n'])`.
unfoldable pub trim_line_end : Bytes → Bytes
unfolding is_empty_text
trim_line_end [] = []
trim_line_end (c ∷ cs) =
    let rest = trim_line_end cs in
    if is_empty_text rest
    then (if nat_beq c 13 then [] else if nat_beq c 10 then [] else c ∷ [])
    else c ∷ rest

-- `if line.last() == Some(&b'\r') { line.pop(); }`
unfoldable pub pop_return : Bytes → Bytes
pop_return [] = []
pop_return (c ∷ []) = if nat_beq c 13 then [] else c ∷ []
pop_return (c ∷ d ∷ cs) = c ∷ pop_return (d ∷ cs)

module _ (codec : Codec) where
  -- A streamed text is replaced by what the buffer of its field lets go.
  unfoldable pub rewrite_text : StreamKey → Value → SseDemasker → Value × SseDemasker
  unfolding on_string push_buffered
  rewrite_text key = on_string (push_buffered codec key)

  unfoldable pub rewrite_tool_call : ℕ → ℕ → Value → SseDemasker → Value × SseDemasker
  unfolding rewrite_text on_field get as_u64 or_else
  rewrite_tool_call choice pos tool_call s =
      let tool = or_else (as_u64 (get (codes "index") tool_call)) pos in
      on_field (codes "function")
        (on_field (codes "arguments") (rewrite_text (tool_arg choice tool))) tool_call s

  unfoldable pub rewrite_delta : ℕ → Value → SseDemasker → Value × SseDemasker
  unfolding rewrite_text rewrite_tool_call on_field on_items
  rewrite_delta choice delta s =
      let (delta', s') = on_field (codes "content") (rewrite_text (content choice)) delta s in
      on_field (codes "tool_calls") (on_items (rewrite_tool_call choice)) delta' s'

  unfoldable pub rewrite_openai : Value → SseDemasker → Value × SseDemasker
  unfolding rewrite_delta on_field on_items get as_u64 or_else
  rewrite_openai = on_field (codes "choices") (
      on_items (λ pos choice s.
        on_field (codes "delta") (rewrite_delta (or_else (as_u64 (get (codes "index") choice)) pos))
          choice s))

  -- What the `type` of a delta asks for.
  unfoldable pub rewrite_block_delta : ℕ → Option Bytes → Value → SseDemasker → Value × SseDemasker
  unfolding rewrite_text on_field bytes_beq
  rewrite_block_delta index none delta s = (delta, s)
  rewrite_block_delta index (some name) delta s =
      if name == codes "text_delta"
      then on_field (codes "text") (rewrite_text (block index false)) delta s
      else if name == codes "input_json_delta"
      then on_field (codes "partial_json") (rewrite_text (block index true)) delta s
      else (delta, s)

  unfoldable pub rewrite_anthropic : Value → SseDemasker → Value × SseDemasker
  unfolding rewrite_block_delta on_field get as_u64 as_str or_else bytes_beq
  rewrite_anthropic value s = elim (as_str (get (codes "type") value)) [
    | none ↦ (value, s)
    | some name ↦
        if name == codes "content_block_delta"
        then on_field (codes "delta")
            (λ delta.
              rewrite_block_delta (or_else (as_u64 (get (codes "index") value)) 0)
                (as_str (get (codes "type") delta)) delta)
            value s
        else (value, s)
  ]

  unfoldable pub rewrite_deltas : Value → SseDemasker → Value × SseDemasker
  unfolding rewrite_openai rewrite_anthropic
  rewrite_deltas value s = elim s.schema [
    | open_ai ↦ rewrite_openai value s
    | anthropic ↦ rewrite_anthropic value s
  ]

  -- The tail of a block goes before the frame that ends it.
  unfoldable pub flush_stopped : Value → SseDemasker → Bytes × SseDemasker
  unfolding anthropic_block_stop_index flush_block
  flush_stopped value s = elim s.schema [
    | open_ai ↦ ([], s)
    | anthropic ↦ elim (anthropic_block_stop_index value) [
      | some index ↦ flush_block codec index s
      | none ↦ ([], s)
    ]
  ]

  -- The `data:` of a line, which is JSON or is passed on as it stands.
  unfoldable pub handle_data : Bytes → Option Value → SseDemasker → Bytes × SseDemasker
  unfolding flush_pending_event flush_stopped rewrite_deltas emit_line
  handle_data line none s = let (event, s') = flush_pending_event s in (event ++ emit_line line, s')
  handle_data line (some value) s =
      let (tail, s1) = flush_stopped value s in
      let (event, s2) = flush_pending_event s1 in
      let (value', s3) = rewrite_deltas value s2 in
      (tail ++ (event ++ emit_line (codes "data: " ++ codec.print value')), s3)

  unfoldable pub handle_line : Bytes → SseDemasker → Bytes × SseDemasker
  unfolding strip_prefix flush_pending_event flush_pending handle_data trim_start bytes_beq
      emit_line
  handle_line line s = elim (strip_prefix (codes "event:") line) [
    | some _ ↦
        let (event, s') = flush_pending_event s in (event, record s' { pending_event = some line })
    | none ↦ elim (strip_prefix (codes "data:") line) [
      | none ↦ let (event, s') = flush_pending_event s in (event ++ emit_line line, s')
      | some rest ↦
          let payload = trim_start rest in
          if payload == codes "[DONE]"
          then (let (tails, s1) = flush_pending codec s in
              let (event, s2) = flush_pending_event s1 in (tails ++ (event ++ emit_line line), s2))
          else handle_data line (codec.from_str payload) s
    ]
  ]

  -- The loop of `push`: the line so far, and the bytes to come. While a line is handled the buffer is
  -- out of the state, which `handle_line` does not read.
  unfoldable pub push_from : Bytes → Bytes → SseDemasker → Bytes × SseDemasker
  unfolding handle_line pop_return
  push_from line [] s = ([], record s { line_buf = line })
  push_from line (c ∷ cs) s = elim (nat_beq c 10) [
    | true ↦
        let (out, s') = handle_line (codec.lossy (pop_return line)) (record s { line_buf = [] }) in
        let (later, s'') = push_from [] cs s' in (out ++ later, s'')
    | false ↦ push_from (line ++ c ∷ []) cs s
  ]

  unfoldable pub push : Bytes → SseDemasker → Bytes × SseDemasker
  unfolding push_from
  push bytes s = push_from [] (s.line_buf ++ bytes) s

  -- The line that has no end.
  unfoldable pub flush_line : SseDemasker → Bytes × SseDemasker
  unfolding handle_line trim_line_end
  flush_line s = elim s.line_buf [
    | [] ↦ ([], s)
    | c ∷ cs ↦ handle_line (trim_line_end (codec.lossy (c ∷ cs))) (record s { line_buf = [] })
  ]

  unfoldable pub flush : SseDemasker → Bytes × SseDemasker
  unfolding flush_line flush_pending flush_pending_event
  flush s =
      let (line, s1) = flush_line s in
      let (tails, s2) = flush_pending codec s1 in
      let (event, s3) = flush_pending_event s2 in (line ++ (tails ++ event), s3)
