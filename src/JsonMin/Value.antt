-- ===== src/JsonMin/Value.antt =====
-- `skip_value` and `skip_container` of source/json_min.c, and the functions over parsed values. A
-- `JsonMinValue` is the bytes of its span with their type.
use genshinimpact_nx.Base.{
  ℕ, zero, suc, ◌+◌, ◌-◌, ◌⊎◌, inl, inr, Bool, true, false, not, ◌&&◌, ◌||◌, Option, none, some, [],
  ◌∷◌, Bytes, ltb, leb, ◌==◌, if◌then◌else◌, length, take, drop, ◌>>=◌,
}
use genshinimpact_nx.JsonMin.Scan.{
  JsonMinType, json_object, json_array, json_string, json_number, json_true, json_false, json_null,
  skip_space, read_hex4, skip_string, skip_number, consume_literal,
}

-- A scanner of one value gives the type with what is left.
abbrev pub Scanner : Type 0
Scanner = Bytes → Option (JsonMinType × Bytes)

abbrev pub typed : JsonMinType → Option Bytes → Option (JsonMinType × Bytes)
typed t none = none
typed t (some rest) = some (t, rest)

-- `if (cursor >= end || *cursor++ != b) return -1;`
abbrev pub expect : ℕ → Bytes → Option Bytes
expect b [] = none
expect b (c ∷ rest) = if c == b then some rest else none

-- The name of a member with its colon.
unfoldable pub skip_name : Bytes → Option Bytes
skip_name text = do
  after ← skip_string text
  value ← expect b':' (skip_space after)
  some (skip_space value)

-- The loop of `skip_container`, behind the opening bracket. Each round takes at least a comma, so the
-- length is enough fuel.
unfoldable pub skip_items : Scanner → Bool → ℕ → ℕ → Bytes → Option Bytes
unfolding skip_name
skip_items value named close zero text = none
skip_items value named close (suc fuel) text = do
  start ← if named then skip_name text else some text
  (t, after) ← value start
  elim (skip_space after) [
    | [] ↦ none
    | c ∷ rest ↦
        let more = skip_items value named close fuel (skip_space rest) in
        if c == close then some rest else if c == b',' then more else none
  ]

-- A container behind its opening bracket.
unfoldable pub skip_body : Scanner → Bool → ℕ → Bytes → Option Bytes
unfolding skip_items
skip_body value named close text = elim (skip_space text) [
  | [] ↦ skip_items value named close (length text) []
  | c ∷ rest ↦
      if c == close then some rest else skip_items value named close (length text) (c ∷ rest)
]

-- A container behind its opening bracket. `nested` is the scanner of values one level down, or none at
-- the depth limit.
abbrev pub nested_body :
    Option Scanner → Bool → ℕ → JsonMinType → Bytes → Option (JsonMinType × Bytes)
nested_body none named close t rest = none
nested_body (some value) named close t rest = typed t (skip_body value named close rest)

-- The switch of `skip_value` on the first byte `c`.
unfoldable pub scan_from : Option Scanner → ℕ → Bytes → Option (JsonMinType × Bytes)
scan_from nested c rest =
    if c == b'{'
    then nested_body nested true b'}' json_object rest
    else if c == b'['
    then nested_body nested false b']' json_array rest
    else if c == b'"'
    then typed json_string (skip_string (c ∷ rest))
    else if c == b't'
    then typed json_true (consume_literal (b't' ∷ b'r' ∷ b'u' ∷ b'e' ∷ []) (c ∷ rest))
    else if c == b'f'
    then typed json_false (consume_literal (b'f' ∷ b'a' ∷ b'l' ∷ b's' ∷ b'e' ∷ []) (c ∷ rest))
    else if c == b'n'
    then typed json_null (consume_literal (b'n' ∷ b'u' ∷ b'l' ∷ b'l' ∷ []) (c ∷ rest))
    else typed json_number (skip_number (c ∷ rest))

unfoldable pub scan_value : Option Scanner → Scanner
scan_value nested text = elim (skip_space text) [ [] ↦ none | c ∷ rest ↦ scan_from nested c rest ]

abbrev pub json_min_max_depth : ℕ
json_min_max_depth = 32

-- `skip_value` at a depth, by the number of levels that are left below JSON_MIN_MAX_DEPTH.
unfoldable pub skip_value : ℕ → Scanner
unfolding scan_value
skip_value zero = scan_value none
skip_value (suc levels) = scan_value (some (skip_value levels))

pub record JsonMinValue : Type 0 where
  pub text : Bytes
  pub type : JsonMinType

-- The bytes from `start` to where `rest` begins.
abbrev pub span : Bytes → Bytes → Bytes
span start rest = take (length start - length rest) start

abbrev pub has_nul : Bytes → Bool
has_nul [] = false
has_nul (c ∷ rest) = c == 0 || has_nul rest

unfoldable pub json_min_parse : Bytes → Option JsonMinValue
json_min_parse json =
    let start = skip_space json in
    if leb (length json) 0 || has_nul json then none else (do
      (t, rest) ← skip_value json_min_max_depth start
      elim (skip_space rest) [ [] ↦ some (record { text = span start rest; type = t }) | _ ↦ none ])

-- `start + 1` to `start + length - 1`: the inside of a container or string.
abbrev pub inside : Bytes → Bytes
inside text = take (length text - 2) (drop 1 text)

-- What a walk over a container ends with: -1, 1 for a missing item, or the item.
pub data Walk {ℓ} (A : Type ℓ) : Type ℓ where
  bad : Walk A
  missing : Walk A
  found : A → Walk A

-- The escapes of `\"\\/bfnrt` and what they stand for; the NUL stands for itself.
abbrev pub unescape : ℕ → Option ℕ
unescape c =
    if c == b'"' || c == b'\\' || c == b'/' || c == 0
    then some c
    else if c == b'b'
    then some 8
    else if c == b'f'
    then some 12
    else if c == b'n'
    then some 10
    else if c == b'r'
    then some 13
    else if c == b't'
    then some 9
    else none

-- One character of a key, as `string_matches_key` reads it: an escape of `\u` is one code unit.
unfoldable pub key_unit : ℕ → Bytes → Option (ℕ × Bytes)
key_unit c rest =
    if c == b'\\'
    then elim rest [
      | [] ↦ none
      | e ∷ after ↦
          if e == b'u'
          then (do codepoint ← read_hex4 after; some (codepoint, drop 4 after))
          else (do mapped ← unescape e; some (mapped, after))
    ]
    else some (c, rest)

-- The loop of `string_matches_key`, behind the opening quote, and its final test. A span that ends
-- before its closing quote matches nothing.
unfoldable pub matches_from : ℕ → Bytes → Bytes → Bool
unfolding key_unit
matches_from zero text key = false
matches_from (suc fuel) [] key = false
matches_from (suc fuel) (c ∷ rest) key =
    let later : Bool = elim (key_unit c rest) [
      | none ↦ false
      | some (codepoint, after) ↦ elim key [
        | [] ↦ false
        | k ∷ key' ↦
            let more = matches_from fuel after key' in
            if ltb 0x7f codepoint || not (codepoint == k) then false else more
      ]
    ] in
    if c == b'"' then leb (length key) 0 else later

unfoldable pub string_matches_key : Bytes → Bytes → Bool
unfolding matches_from
string_matches_key [] key = false
string_matches_key (c ∷ rest) key = c == b'"' && matches_from (length rest) rest key

-- The member of an object whose name matches, from a cursor at a name on.
unfoldable pub find_member : ℕ → Bytes → Bytes → Walk JsonMinValue
find_member zero key text = bad
find_member (suc fuel) key [] = missing
find_member (suc fuel) key (c ∷ text) = elim (skip_string (c ∷ text)) [
  | none ↦ bad
  | some name_end ↦ elim (expect b':' (skip_space name_end)) [
    | none ↦ bad
    | some colon ↦
        let value_start = skip_space colon in
        elim (skip_value (json_min_max_depth - 1) value_start) [
          | none ↦ bad
          | some (t, value_end) ↦
              let later : Walk JsonMinValue = elim (skip_space value_end) [
                | [] ↦ missing
                | d ∷ rest ↦
                    let more = find_member fuel key (skip_space rest) in
                    if d == b',' then more else bad
              ] in
              if string_matches_key (span (c ∷ text) name_end) key
              then found (record { text = span value_start value_end; type = t })
              else later
        ]
  ]
]

abbrev pub is_object : JsonMinType → Bool
is_object json_object = true
is_object _ = false

abbrev pub is_array : JsonMinType → Bool
is_array json_array = true
is_array _ = false

unfoldable pub json_min_object_get : JsonMinValue → Bytes → Walk JsonMinValue
json_min_object_get object key =
    if not (is_object object.type) || ltb (length object.text) 2
    then bad
    else find_member (length object.text) key (skip_space (inside object.text))

-- The loop of `array_walk`: the item wanted, or the number of items when none is.
unfoldable pub walk_items : ℕ → Option ℕ → ℕ → Bytes → Walk (JsonMinValue ⊎ ℕ)
walk_items zero wanted count text = bad
walk_items (suc fuel) wanted count [] = elim wanted [ none ↦ found (inr count) | some w ↦ missing ]
walk_items (suc fuel) wanted count (c ∷ text) =
    elim (skip_value (json_min_max_depth - 1) (c ∷ text)) [
      | none ↦ bad
      | some (t, value_end) ↦
          let at_end : Walk (JsonMinValue ⊎ ℕ) = elim wanted [
            | none ↦ found (inr (count + 1))
            | some w ↦ missing
          ] in
          let later : Walk (JsonMinValue ⊎ ℕ) = elim (skip_space value_end) [
            | [] ↦ at_end
            | d ∷ rest ↦
                let more = walk_items fuel wanted (count + 1) (skip_space rest) in
                if d == b',' then more else bad
          ] in
          elim wanted [
            | none ↦ later
            | some w ↦
                if count == w
                then found (inl (record { text = span (c ∷ text) value_end; type = t }))
                else later
          ]
    ]

unfoldable pub array_walk : JsonMinValue → Option ℕ → Walk (JsonMinValue ⊎ ℕ)
unfolding walk_items
array_walk array wanted =
    if not (is_array array.type) || ltb (length array.text) 2
    then bad
    else walk_items (length array.text) wanted 0 (skip_space (inside array.text))

unfoldable pub json_min_array_count : JsonMinValue → Walk (JsonMinValue ⊎ ℕ)
unfolding array_walk
json_min_array_count array = array_walk array none

unfoldable pub json_min_array_get : JsonMinValue → ℕ → Walk (JsonMinValue ⊎ ℕ)
unfolding array_walk
json_min_array_get array index = array_walk array (some index)

unfoldable pub json_min_bool : JsonMinValue → Option ℕ
json_min_bool value = elim value.type [ json_true ↦ some 1 | json_false ↦ some 0 | _ ↦ none ]
