-- ===== src/JsonMin/Scan.antt =====
-- The scanners of source/json_min.c. A cursor with its end is the list of the bytes between them, and
-- a scanner that fails is `none`. Shifts and masks are written as division, remainder and sum: the
-- parts that are joined by `|` have no bit in common.
use genshinimpact_nx.Base.{
  ◌<◌, ℕ, zero, suc, ◌+◌, ◌-◌, ◌*◌, ◌/◌, ◌%◌, Bool, ◌&&◌, ◌||◌, Option, none, some, [], ◌∷◌, Bytes,
  ltb, leb, ◌==◌, if◌then◌else◌, length, drop, ◌>>=◌,
}

pub data JsonMinType : Type 0 where
  json_invalid json_object json_array json_string json_number json_true json_false json_null :
      JsonMinType

abbrev pub is_space : ℕ → Bool
is_space c = c == b' ' || c == b'\t' || c == b'\r' || c == b'\n'

unfoldable pub skip_space : Bytes → Bytes
skip_space [] = []
skip_space (c ∷ rest) = if is_space c then skip_space rest else c ∷ rest

abbrev pub within : ℕ → ℕ → ℕ → Bool
within lo hi c = leb lo c && leb c hi

unfoldable pub hex_digit : ℕ → Option ℕ
hex_digit c =
    if within b'0' b'9' c
    then some (c - b'0')
    else if within b'a' b'f' c
    then some (c - b'a' + 10)
    else if within b'A' b'F' c
    then some (c - b'A' + 10)
    else none

-- Four hexadecimal digits at the front, first digit first.
unfoldable pub read_hex4 : Bytes → Option ℕ
unfolding hex_digit
read_hex4 (a ∷ b ∷ c ∷ d ∷ rest) = do
  x ← hex_digit a
  y ← hex_digit b
  z ← hex_digit c
  w ← hex_digit d
  some (((x * 16 + y) * 16 + z) * 16 + w)
read_hex4 _ = none

abbrev pub is_continuation : ℕ → Bool
is_continuation b = b / 64 == 2

-- `n` continuation bytes added to what the first byte gave.
unfoldable pub read_continuation : ℕ → ℕ → Bytes → Option (ℕ × Bytes)
read_continuation zero codepoint rest = some (codepoint, rest)
read_continuation (suc n) codepoint [] = none
read_continuation (suc n) codepoint (b ∷ rest) =
    let next = read_continuation n (codepoint * 64 + b % 64) rest in
    if is_continuation b then next else none

-- The checks on a decoded value: no overlong form, nothing above U+10FFFF, no surrogate.
abbrev pub checked : ℕ → Option (ℕ × Bytes) → Option (ℕ × Bytes)
checked minimum r = do
  (codepoint, rest) ← r
  if ltb codepoint minimum || ltb 0x10ffff codepoint || within 0xd800 0xdfff codepoint
      then none
      else some (codepoint, rest)

unfoldable pub read_utf8 : Bytes → Option (ℕ × Bytes)
unfolding read_continuation
read_utf8 [] = none
read_utf8 (first ∷ rest) =
    if ltb first 0x80
    then some (first, rest)
    else if within 0xc2 0xdf first
    then checked 0x80 (read_continuation 1 (first % 32) rest)
    else if within 0xe0 0xef first
    then checked 0x800 (read_continuation 2 (first % 16) rest)
    else if within 0xf0 0xf4 first
    then checked 0x10000 (read_continuation 3 (first % 8) rest)
    else none

-- `strchr("\"\\/bfnrt", c)`, which also finds the NUL that ends the text.
abbrev pub is_escape : ℕ → Bool
is_escape c =
    c == b'"'
    || c == b'\\'
    || c == b'/'
    || c == b'b'
    || c == b'f'
    || c == b'n'
    || c == b'r'
    || c == b't'
    || c == 0

-- The second half of a surrogate pair, `\uDC00` to `\uDFFF`.
unfoldable pub read_low : Bytes → Option (ℕ × Bytes)
read_low (a ∷ b ∷ rest) = do
  low ← if a == b'\\' && b == b'u' then read_hex4 rest else none
  if ltb low 0xdc00 || ltb 0xdfff low then none else some (low, drop 4 rest)
read_low _ = none

-- What stands behind `\u` in a string that is checked.
unfoldable pub skip_unicode : Bytes → Option Bytes
skip_unicode text = do
  codepoint ← read_hex4 text
  let rest = drop 4 text
  if codepoint == 0
      then none
      else if within 0xd800 0xdbff codepoint
      then (do (low, after) ← read_low rest; some after)
      else if within 0xdc00 0xdfff codepoint
      then none
      else some rest

unfoldable pub skip_escape : Bytes → Option Bytes
unfolding skip_unicode
skip_escape [] = none
skip_escape (c ∷ rest) =
    if is_escape c then some rest else if c == b'u' then skip_unicode rest else none

-- One byte, character or escape of a string, the closing quote apart.
unfoldable pub skip_unit : ℕ → Bytes → Option Bytes
unfolding skip_escape
skip_unit c rest =
    if ltb c 0x20
    then none
    else if leb 0x80 c
    then (do (codepoint, after) ← read_utf8 (c ∷ rest); some after)
    else if c == b'\\'
    then skip_escape rest
    else some rest

-- The loop of `skip_string`, behind the opening quote. Each round takes at least a byte, so the length
-- is enough fuel.
unfoldable pub skip_units : ℕ → Bytes → Option Bytes
skip_units zero text = none
skip_units (suc fuel) [] = none
skip_units (suc fuel) (c ∷ rest) =
    if c == b'"' then some rest else (skip_unit c rest >>= skip_units fuel)

unfoldable pub skip_string : Bytes → Option Bytes
skip_string [] = none
skip_string (c ∷ rest) = if c == b'"' then skip_units (length rest) rest else none

abbrev pub is_digit : ℕ → Bool
is_digit c = within b'0' b'9' c

unfoldable pub skip_digits : Bytes → Bytes
skip_digits [] = []
skip_digits (c ∷ rest) = if is_digit c then skip_digits rest else c ∷ rest

-- At least one digit.
unfoldable pub some_digits : Bytes → Option Bytes
unfolding skip_digits
some_digits [] = none
some_digits (c ∷ rest) = if is_digit c then some (skip_digits rest) else none

abbrev pub drop_byte : ℕ → Bytes → Bytes
drop_byte b [] = []
drop_byte b (c ∷ rest) = if c == b then rest else c ∷ rest

-- The integer part: 0 with no digit behind it, or digits that begin with none of these.
unfoldable pub skip_integer : Bytes → Option Bytes
unfolding skip_digits
skip_integer [] = none
skip_integer (c ∷ []) = if is_digit c then some [] else none
skip_integer (c ∷ d ∷ rest) =
    if c == b'0'
    then (if is_digit d then none else some (d ∷ rest))
    else if within b'1' b'9' c
    then some (skip_digits (d ∷ rest))
    else none

unfoldable pub skip_fraction : Bytes → Option Bytes
unfolding some_digits
skip_fraction [] = some []
skip_fraction (c ∷ rest) = if c == b'.' then some_digits rest else some (c ∷ rest)

abbrev pub drop_sign : Bytes → Bytes
drop_sign [] = []
drop_sign (c ∷ rest) = if c == b'+' || c == b'-' then rest else c ∷ rest

unfoldable pub skip_exponent : Bytes → Option Bytes
unfolding some_digits
skip_exponent [] = some []
skip_exponent (c ∷ rest) =
    if c == b'e' || c == b'E' then some_digits (drop_sign rest) else some (c ∷ rest)

unfoldable pub skip_number : Bytes → Option Bytes
unfolding skip_integer skip_fraction skip_exponent
skip_number text = skip_integer (drop_byte b'-' text) >>= skip_fraction >>= skip_exponent

-- `consume_literal`: the bytes of a word.
unfoldable pub consume_literal : Bytes → Bytes → Option Bytes
consume_literal [] text = some text
consume_literal (b ∷ word) [] = none
consume_literal (b ∷ word) (c ∷ text) = if b == c then consume_literal word text else none

-- Every number of the list is a byte.
abbrev pub AllBytes : Bytes → Type 0
AllBytes [] = Unit
AllBytes (b ∷ rest) = (b < 256) × AllBytes rest
