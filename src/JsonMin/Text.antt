-- ===== src/JsonMin/Text.antt =====
-- `append_utf8` and `json_min_string` of source/json_min.c.
use genshinimpact_nx.Base.{
  ℕ, zero, suc, ◌+◌, ◌-◌, ◌*◌, ◌/◌, ◌%◌, Bool, true, false, not, ◌||◌, Option, none, some, [], ◌∷◌,
  ◌++◌, Bytes, ltb, leb, ◌==◌, if◌then◌else◌, length, get_or, drop, ◌>>=◌,
}
use genshinimpact_nx.JsonMin.Scan.{JsonMinType, json_string, within, read_hex4, read_utf8, read_low}
use genshinimpact_nx.JsonMin.Value.{JsonMinValue, inside, unescape}

-- The bytes of a code point. `|` joins parts with no bit in common, so it is a sum here.
unfoldable pub encode_utf8 : ℕ → Option Bytes
encode_utf8 codepoint =
    if leb codepoint 0x7f
    then some (codepoint ∷ [])
    else if leb codepoint 0x7ff
    then some ((0xc0 + codepoint / 64) ∷ (0x80 + codepoint % 64) ∷ [])
    else if leb codepoint 0xffff
    then some
        ((0xe0 + codepoint / 4096) ∷ (0x80 + codepoint / 64 % 64) ∷ (0x80 + codepoint % 64) ∷ [])
    else if leb codepoint 0x10ffff
    then some (
        (0xf0 + codepoint / 262144)
        ∷ (0x80 + codepoint / 4096 % 64)
        ∷ (0x80 + codepoint / 64 % 64)
        ∷ (0x80 + codepoint % 64)
        ∷ [])
    else none

-- The bytes appended, with what remains of the capacity.
unfoldable pub append_utf8 : ℕ → ℕ → Option (Bytes × ℕ)
unfolding encode_utf8
append_utf8 remaining codepoint = do
  bytes ← encode_utf8 codepoint
  if leb remaining (length bytes) then none else some (bytes, remaining - length bytes)

-- What `\u` and four digits stand for, with the second half of a pair.
unfoldable pub decode_unicode : Bytes → Option (ℕ × Bytes)
decode_unicode text = do
  codepoint ← read_hex4 text
  let rest = drop 4 text
  if codepoint == 0
      then none
      else if within 0xd800 0xdbff codepoint
      then (do
        (low, after) ← read_low rest
        some (0x10000 + (codepoint - 0xd800) * 1024 + (low - 0xdc00), after))
      else some (codepoint, rest)

unfoldable pub decode_escape : Bytes → Option (ℕ × Bytes)
unfolding decode_unicode
decode_escape [] = none
decode_escape (e ∷ rest) =
    if e == b'u' then decode_unicode rest else (do mapped ← unescape e; some (mapped, rest))

-- One character of the string.
unfoldable pub decode_unit : ℕ → Bytes → Option (ℕ × Bytes)
unfolding decode_escape
decode_unit c rest =
    if leb 0x80 c
    then read_utf8 (c ∷ rest)
    else if c == b'\\'
    then decode_escape rest
    else some (c, rest)

-- The loop of `json_min_string`. Each round takes at least a byte, so the length is enough fuel.
unfoldable pub decode_units : ℕ → Bytes → ℕ → Option Bytes
decode_units fuel [] remaining = some []
decode_units zero (c ∷ rest) remaining = none
decode_units (suc fuel) (c ∷ rest) remaining = do
  (codepoint, after) ← decode_unit c rest
  (bytes, left) ← append_utf8 remaining codepoint
  later ← decode_units fuel after left
  some (bytes ++ later)

abbrev pub is_string : JsonMinType → Bool
is_string json_string = true
is_string _ = false

-- The decoded bytes, without the NUL that is written behind them.
unfoldable pub json_min_string : JsonMinValue → ℕ → Option Bytes
json_min_string value out_capacity =
    let text = value.text in
    if not (is_string value.type)
      || out_capacity == 0
      || ltb (length text) 2
      || not (get_or text 0 0 == b'"')
      || not (get_or text (length text - 1) 0 == b'"')
    then none
    else decode_units (length (inside text)) (inside text) out_capacity
