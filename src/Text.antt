-- ===== src/Text.antt =====
-- `str` of the standard library, as the list of its UTF-8 bytes: boundaries, slices, ASCII case, and
-- the white space that `trim` and the regex class `\s` go by (Unicode White_Space).
use llm_proxy_pii_rust.Prelude.{
  ℕ, ◌-◌, Bool, true, not, ◌&&◌, ◌||◌, map, Option, none, some, ltb, leb, nat_beq, if◌then◌else◌,
  length, get_or, take, drop, Bytes,
}

-- A byte that does not begin a character.
unfoldable pub is_continuation : ℕ → Bool
is_continuation b = leb 128 b && ltb b 192

-- `str::is_char_boundary`
unfoldable pub is_char_boundary : Bytes → ℕ → Bool
unfolding is_continuation
is_char_boundary s i =
    if nat_beq i 0
    then true
    else if leb (length s) i
    then nat_beq i (length s)
    else not (is_continuation (get_or s i 0))

-- The bytes from `start` up to `end`.
unfoldable pub slice : Bytes → ℕ → ℕ → Bytes
slice s start end = take (end - start) (drop start s)

-- `str::get(start..end)`
unfoldable pub get_slice : Bytes → ℕ → ℕ → Option Bytes
get_slice s start end =
    if leb start end && is_char_boundary s start && is_char_boundary s end
    then some (slice s start end)
    else none

unfoldable pub is_ascii_lowercase : ℕ → Bool
is_ascii_lowercase c = leb b'a' c && leb c b'z'

unfoldable pub is_ascii_uppercase : ℕ → Bool
is_ascii_uppercase c = leb b'A' c && leb c b'Z'

unfoldable pub is_ascii_alphabetic : ℕ → Bool
unfolding is_ascii_lowercase is_ascii_uppercase
is_ascii_alphabetic c = is_ascii_lowercase c || is_ascii_uppercase c

unfoldable pub is_ascii_digit : ℕ → Bool
is_ascii_digit c = leb b'0' c && leb c b'9'

-- `u8::to_ascii_uppercase`
unfoldable pub to_upper : ℕ → ℕ
unfolding is_ascii_lowercase
to_upper c = if is_ascii_lowercase c then c - 32 else c

-- `str::to_ascii_uppercase`
unfoldable pub to_ascii_uppercase : Bytes → Bytes
unfolding to_upper
to_ascii_uppercase = map to_upper
