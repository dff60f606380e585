-- ===== src/White.antt =====
-- Unicode White_Space in UTF-8, which `trim` of the standard library and the class `\s` of the regex
-- patterns go by.
use llm_proxy_pii_rust.Prelude.{ℕ, ◌&&◌, ◌||◌, [], ◌∷◌, ◌++◌, leb, nat_beq, if◌then◌else◌, Bytes}

-- How far the bytes read so far go towards one white space character: not at all, part of its
-- UTF-8 form, or all of it.
pub data White : Type 0 where
  foreign partial whole : White

-- A first byte. 0x85 and the others above ASCII are written with two or three bytes.
unfoldable pub white_first : ℕ → White
white_first c =
    if (leb 9 c && leb c 13) || nat_beq c 32
    then whole
    else if nat_beq c 0xc2 || nat_beq c 0xe1 || nat_beq c 0xe2 || nat_beq c 0xe3
    then partial
    else foreign

-- A second byte: U+0085 and U+00A0 end here.
unfoldable pub white_second : ℕ → ℕ → White
white_second b c =
    if nat_beq b 0xc2 && (nat_beq c 0x85 || nat_beq c 0xa0)
    then whole
    else if (nat_beq b 0xe1 && nat_beq c 0x9a)
        || (nat_beq b 0xe2 && (nat_beq c 0x80 || nat_beq c 0x81))
        || (nat_beq b 0xe3 && nat_beq c 0x80)
    then partial
    else foreign

-- A third byte: U+1680, U+2000 to U+200A, U+2028, U+2029, U+202F, U+205F, U+3000.
unfoldable pub white_third : ℕ → ℕ → ℕ → White
white_third a b c =
    if (nat_beq a 0xe1 && nat_beq b 0x9a && nat_beq c 0x80)
      || (nat_beq a 0xe2
          && nat_beq b 0x80
          && ((leb 0x80 c && leb c 0x8a) || nat_beq c 0xa8 || nat_beq c 0xa9 || nat_beq c 0xaf))
      || (nat_beq a 0xe2 && nat_beq b 0x81 && nat_beq c 0x9f)
      || (nat_beq a 0xe3 && nat_beq b 0x80 && nat_beq c 0x80)
    then whole
    else foreign

-- The byte `c` after the part `pre` of a white space character.
unfoldable pub white : Bytes → ℕ → White
unfolding white_first white_second white_third
white [] c = white_first c
white (b ∷ []) c = white_second b c
white (a ∷ b ∷ []) c = white_third a b c
white _ c = foreign

-- `trim_start`: `kept` is the text from the last character that was begun.
unfoldable pub trim_start_from : Bytes → Bytes → Bytes → Bytes
unfolding white
trim_start_from pre kept [] = kept
trim_start_from pre kept (c ∷ cs) = elim (white pre c) [
  | whole ↦ trim_start_from [] cs cs
  | partial ↦ trim_start_from (pre ++ c ∷ []) kept cs
  | foreign ↦ kept
]

unfoldable pub trim_start : Bytes → Bytes
unfolding trim_start_from
trim_start s = trim_start_from [] s s

-- `trim_end`: a text of white space only is dropped.
unfoldable pub trim_end : Bytes → Bytes
unfolding trim_start
trim_end [] = []
trim_end (c ∷ cs) = let rest = trim_end cs in elim (trim_start (c ∷ cs)) [ [] ↦ [] | _ ↦ c ∷ rest ]

unfoldable pub trim : Bytes → Bytes
unfolding trim_start trim_end
trim s = trim_end (trim_start s)
