-- ===== src/JsonMin/Tests.antt =====
-- Runs of source/json_min.c on small documents, and the theorems at inputs that meet their hypotheses.
use genshinimpact_nx.Base.{ℕ, ◌<◌, ◌≡◌, refl, inr, false, some, [], ◌∷◌, ◌++◌, arith, Bytes, length}
use genshinimpact_nx.JsonMin.Scan.{
  json_object, json_array, json_string, skip_space, read_hex4, read_utf8, skip_unicode, skip_unit,
  skip_units, skip_string, skip_number, consume_literal,
}
use genshinimpact_nx.JsonMin.Value.{
  skip_items, skip_body, scan_from, scan_value, skip_value, JsonMinValue, json_min_parse, found,
  string_matches_key, find_member, json_min_object_get, json_min_array_count,
}
use genshinimpact_nx.JsonMin.Text.{
  encode_utf8, append_utf8, decode_unit, decode_units, json_min_string,
}
use Prim.Native.Char.{code}
use Prim.Native.String.{String}
use genshinimpact_nx.JsonMin.Utf8.{IsScalar, read_utf8-encode_utf8, encode_utf8-read_utf8}
use genshinimpact_nx.JsonMin.Forward.{skip_units_fuel}
use genshinimpact_nx.JsonMin.Items.{
  AllSpace, skip_items_fuel, skip_value-IsScanner, json_min_parse-span,
}
use genshinimpact_nx.JsonMin.Bounds.{json_min_string-lt}

-- The code points of a text: its bytes, if it is ASCII.
abbrev codes : String → Bytes
codes String.[] = []
codes (String.◌∷◌ c s) = code c ∷ codes s

abbrev document : Bytes
document = codes " {\"a\": [1, -2.5e3, true], \"b\": \"x\\u00e9\"} "

abbrev parsed : JsonMinValue
parsed = record {
  text = codes "{\"a\": [1, -2.5e3, true], \"b\": \"x\\u00e9\"}";
  type = json_object;
}

parse-document : json_min_parse document ≡ some parsed
unfolding json_min_parse skip_value scan_value scan_from skip_body skip_string skip_units skip_unit
    skip_number skip_space consume_literal read_hex4 skip_unicode
parse-document = refl

get-b :
    json_min_object_get parsed (codes "b")
    ≡ found (record { text = codes "\"x\\u00e9\""; type = json_string })
unfolding json_min_object_get find_member string_matches_key skip_value scan_value scan_from
    skip_body skip_string skip_units skip_unit skip_number skip_space consume_literal read_hex4
    skip_unicode
get-b = refl

string-b :
    json_min_string (record { text = codes "\"x\\u00e9\""; type = json_string }) 4
    ≡ some (b'x' ∷ 0xc3 ∷ 0xa9 ∷ [])
unfolding json_min_string decode_units decode_unit append_utf8 read_hex4
string-b = refl

count-items :
    json_min_array_count (record { text = codes "[1, [2], 3 ]"; type = json_array }) ≡ found (inr 3)
unfolding json_min_array_count skip_value scan_value scan_from skip_body skip_string skip_units
    skip_unit skip_number skip_space consume_literal
count-items = refl

json_min_parse-span_example :
    (before after : Bytes) × AllSpace before
    × AllSpace after
    × (document ≡ before ++ (parsed.text ++ after))
json_min_parse-span_example = json_min_parse-span document parsed parse-document

json_min_string-lt_example : length {A = ℕ} (b'x' ∷ 0xc3 ∷ 0xa9 ∷ []) < 4
json_min_string-lt_example =
    json_min_string-lt (record { text = codes "\"x\\u00e9\""; type = json_string }) 4
      (b'x' ∷ 0xc3 ∷ 0xa9 ∷ []) string-b

read_utf8-encode_utf8_example :
    read_utf8 ((0xe2 ∷ 0x82 ∷ 0xac ∷ []) ++ codes "x") ≡ some (0x20ac, codes "x")
unfolding encode_utf8
read_utf8-encode_utf8_example =
    read_utf8-encode_utf8 0x20ac (0xe2 ∷ 0x82 ∷ 0xac ∷ []) (codes "x") (omega arith) refl

encode_utf8-read_utf8_example :
    IsScalar 0x20ac
    × ((bytes : Bytes) × (encode_utf8 0x20ac ≡ some bytes)
        × (0xe2 ∷ 0x82 ∷ 0xac ∷ b'x' ∷ [] ≡ bytes ++ (b'x' ∷ [])))
unfolding read_utf8
encode_utf8-read_utf8_example =
    encode_utf8-read_utf8 (0xe2 ∷ 0x82 ∷ 0xac ∷ b'x' ∷ []) 0x20ac (b'x' ∷ []) (omega arith) refl

skip_units_fuel_example : skip_units 4 (codes "ab\"c") ≡ skip_units 9 (codes "ab\"c")
skip_units_fuel_example = skip_units_fuel 4 9 (codes "ab\"c") (omega arith) (omega arith)

skip_items_fuel_example :
    skip_items (skip_value 2) false b']' 4 (codes "1,2]")
    ≡ skip_items (skip_value 2) false b']' 7 (codes "1,2]")
skip_items_fuel_example =
    skip_items_fuel (skip_value 2) false b']' (skip_value-IsScanner 2) 4 7 (codes "1,2]")
      (omega arith) (omega arith)
