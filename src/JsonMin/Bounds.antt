-- ===== src/JsonMin/Bounds.antt =====
-- The output of `json_min_string` in source/json_min.c fits its buffer.
use genshinimpact_nx.Base.{
  ℕ, zero, suc, ◌+◌, ◌-◌, ◌<◌, ◌≡◌, sym, ap, ◌∙◌, some, [], ◌∷◌, ◌++◌, arith, Bytes, length,
  length-append, >>=-eq-some,
}
use genshinimpact_nx.JsonMin.Value.{JsonMinValue, inside}
use genshinimpact_nx.JsonMin.Text.{append_utf8, decode_unit, decode_units, json_min_string}

append_utf8-fits :
    (remaining codepoint : ℕ) (bytes : Bytes) (left : ℕ)
    → append_utf8 remaining codepoint ≡ some (bytes, left)
    → (length bytes < remaining) × (left ≡ remaining - length bytes)
unfolding append_utf8
append_utf8-fits remaining codepoint bytes left h = ground arith

decode_units-lt :
    (fuel : ℕ) (text : Bytes) (remaining : ℕ) (out : Bytes)
    → 0 < remaining
    → decode_units fuel text remaining ≡ some out
    → length out < remaining
unfolding decode_units
decode_units-lt fuel [] remaining out pos_r h = ground arith
decode_units-lt zero (c ∷ rest) remaining out pos_r h = cc
decode_units-lt (suc fuel) (c ∷ rest) remaining out pos_r h =
    let ((codepoint, after), one, rest1) = >>=-eq-some (decode_unit c rest) _ h in
    let ((bytes, left), two, rest2) = >>=-eq-some (append_utf8 remaining codepoint) _ rest1 in
    let (later, three, last) = >>=-eq-some (decode_units fuel after left) _ rest2 in
    let (fits, left_is) = append_utf8-fits remaining codepoint bytes left two in
    let shorter = decode_units-lt fuel after left later (omega arith) three in
    let whole : bytes ++ later ≡ out = cc in
    let size : length out ≡ length bytes + length later =
      ap length (sym whole) ∙ length-append bytes later in
    omega arith

-- What `json_min_string` writes, with the NUL behind it, fits in the buffer of `out_capacity` bytes.
pub json_min_string-lt :
    (value : JsonMinValue) (out_capacity : ℕ) (out : Bytes)
    → json_min_string value out_capacity ≡ some out
    → length out < out_capacity
unfolding json_min_string
json_min_string-lt value out_capacity out h =
    ground
      (arith, decode_units-lt (length (inside value.text)) (inside value.text) out_capacity out)
