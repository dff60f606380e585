-- ===== src/Stream/Examples.antt =====
-- A placeholder that is split between two pieces.
use llm_proxy_pii_rust.Prelude.{
  arith, inl, inr, ◌≡◌, refl, List, [], ◌∷◌, ◌++◌, Bytes, codes, some, none, any,
}
use llm_proxy_pii_rust.Vault.{Vault}
use llm_proxy_pii_rust.Placeholder.{match_token, step}
use llm_proxy_pii_rust.Text.{to_ascii_uppercase}
use llm_proxy_pii_rust.Stream.{
  StreamKey, content, Codec, open_ai, SseDemasker, start, held, push_buffered, demask_for,
}
use llm_proxy_pii_rust.Stream.Frames.{flush_pending}
use llm_proxy_pii_rust.Stream.Lines.{push}
use llm_proxy_pii_rust.Stream.Reassembly.{IsUnfinished, push-append}
use llm_proxy_pii_rust.Stream.Flush.{flush_pending_again}
use llm_proxy_pii_rust.Stream.Split.{
  IsShort, IsStreamable, no_bracket-IsStreamable, token-IsStreamable,
}
use llm_proxy_pii_rust.Stream.Chunks.{text_of, push_all, push_all-restores}

abbrev codec : Codec
codec = record {
  from_str = λ s. none;
  print = λ v. [];
  to_json = λ s. s;
  lossy = λ s. s;
  hash_order = λ keys. keys;
}

abbrev known : Vault
known = record {
  to_original = (codes "[SSN_1]", codes "9") ∷ [];
  to_placeholder = (codes "9", codes "[SSN_1]") ∷ [];
  counters = [];
}

abbrev stream : SseDemasker
stream = start known open_ai

abbrev pieces : List (StreamKey × Bytes)
pieces = (content 0, codes "[SS") ∷ (content 1, codes "x") ∷ (content 0, codes "N_1]") ∷ []

pushed :
    (push_all codec pieces stream).0
    ≡ (content 0, []) ∷ (content 1, codes "x") ∷ (content 0, codes "9") ∷ []
unfolding push_buffered start step to_ascii_uppercase
pushed = refl

token :
    match_token (codes "[SSN_1]")
    ≡ some (record { label = codes "SSN"; digits = codes "1"; size = 7 })
unfolding match_token step
token = refl

short : IsShort (record { label = codes "SSN"; digits = codes "1"; size = 7 }) (codes "SSN_1]")
short = (
  omega arith,
  (
    inl (omega arith),
    (
      inl (omega arith),
      (inl (omega arith), (inr (inr (inr (inr (inl refl)))), (inr (inr (inl (omega arith))), tt))),
    ),
  ),
)

whole : IsStreamable (held stream (content 0) ++ text_of (content 0) pieces)
unfolding held start any
whole =
    token-IsStreamable b'[' (codes "SSN_1]")
      (record { label = codes "SSN"; digits = codes "1"; size = 7 }) token short
      (no_bracket-IsStreamable (codes "SSN_1]") refl)

push_all-restores_example :
    let pushed = push_all codec pieces stream in
    text_of (content 0) pushed.0
      ++ demask_for codec stream.vault (content 0) (held pushed.1 (content 0))
    ≡ demask_for codec stream.vault
        (content 0)
        (held stream (content 0) ++ text_of (content 0) pieces)
push_all-restores_example = push_all-restores codec (content 0) pieces stream whole

-- One line, cut in its middle.
push-append_example :
    let first = push codec (codes "id: 4") stream in
    let second = push codec (codes "2\n") first.1 in
    (push codec (codes "id: 4" ++ codes "2\n") stream ≡ (first.0 ++ second.0, second.1))
    × IsUnfinished second.1.line_buf
push-append_example = push-append codec (codes "id: 4") (codes "2\n") stream (unfold start in tt)

line_passed : (push codec (codes "id: 42\n") stream).0 ≡ codes "id: 42\n"
unfolding push start
line_passed = refl

-- A stream that ends in the middle of a placeholder.
abbrev broken_off : SseDemasker
broken_off = record {
  vault = known;
  schema = open_ai;
  line_buf = [];
  pending = (content 1, []) ∷ (content 0, codes "[SS") ∷ [];
  pending_event = none;
}

flush_pending_again_example :
    let flushed = (flush_pending codec broken_off).1 in
    (flushed.pending ≡ []) × (flush_pending codec flushed ≡ ([], flushed))
flush_pending_again_example =
    flush_pending_again codec broken_off (λ keys key. ((λ h. h), (λ h. h)))
