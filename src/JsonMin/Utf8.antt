-- ===== src/JsonMin/Utf8.antt =====
-- UTF-8 as source/json_min.c writes and reads it.
use genshinimpact_nx.Base.{
  ℕ, suc, ◌+◌, ◌*◌, ◌/◌, ◌%◌, ◌≤◌, ◌<◌, ◌≡◌, refl, ◌⊎◌, inl, inr, true, Option, none, some, [], ◌∷◌,
  ◌++◌, arith, Bytes, ltb, Bool-cases,
}
use genshinimpact_nx.JsonMin.Scan.{within, read_continuation, checked, read_utf8, AllBytes}
use genshinimpact_nx.JsonMin.Text.{encode_utf8}

-- A Unicode scalar value.
abbrev pub IsScalar : ℕ → Type 0
IsScalar c = (c ≤ 0x10ffff) × ((c < 0xd800) ⊎ (0xdfff < c))

-- The encodings of two to four bytes, read back.
two_bytes :
    (c : ℕ) (rest : Bytes)
    → 0x7f < c
    → c ≤ 0x7ff
    → read_utf8 ((0xc0 + c / 64) ∷ (0x80 + c % 64) ∷ rest) ≡ some (c, rest)
unfolding read_utf8
two_bytes c rest lo hi = ground arith

three_bytes :
    (c : ℕ) (rest : Bytes)
    → IsScalar c
    → 0x7ff < c
    → c ≤ 0xffff
    → read_utf8 ((0xe0 + c / 4096) ∷ (0x80 + c / 64 % 64) ∷ (0x80 + c % 64) ∷ rest) ≡ some (c, rest)
unfolding read_utf8
three_bytes c rest s lo hi = ground arith

four_bytes :
    (c : ℕ) (rest : Bytes)
    → 0xffff < c
    → c ≤ 0x10ffff
    → read_utf8 (
        (0xf0 + c / 262144)
        ∷ (0x80 + c / 4096 % 64)
        ∷ (0x80 + c / 64 % 64)
        ∷ (0x80 + c % 64)
        ∷ rest)
      ≡ some (c, rest)
unfolding read_utf8
four_bytes c rest lo hi = ground arith

one_byte : (c : ℕ) (rest : Bytes) → c ≤ 0x7f → read_utf8 (c ∷ rest) ≡ some (c, rest)
unfolding read_utf8
one_byte c rest h = ground arith

-- Each scalar value is read back from its own bytes, whatever follows them.
pub read_utf8-encode_utf8 :
    (codepoint : ℕ) (bytes rest : Bytes)
    → IsScalar codepoint
    → encode_utf8 codepoint ≡ some bytes
    → read_utf8 (bytes ++ rest) ≡ some (codepoint, rest)
unfolding encode_utf8
read_utf8-encode_utf8 codepoint bytes rest s h = ground (
  arith,
  one_byte codepoint rest,
  two_bytes codepoint rest,
  three_bytes codepoint rest s,
  four_bytes codepoint rest,
)

continuation-suc :
    (n k c : ℕ) (text rest : Bytes)
    → read_continuation (suc n) k text ≡ some (c, rest)
    → (a : ℕ) × (after : Bytes) × (text ≡ a ∷ after)
      × (a / 64 ≡ 2)
      × (read_continuation n (k * 64 + a % 64) after ≡ some (c, rest))
unfolding read_continuation
continuation-suc n k c [] rest h = cc
continuation-suc n k c (a ∷ after) rest h = (a, after, refl, ground arith, ground arith)

continuation-zero :
    (k c : ℕ) (text rest : Bytes)
    → read_continuation 0 k text ≡ some (c, rest)
    → (k ≡ c) × (text ≡ rest)
unfolding read_continuation
continuation-zero k c text rest h = (ground arith, ground arith)

checked-some :
    (m c : ℕ) (rest : Bytes) (r : Option (ℕ × Bytes))
    → checked m r ≡ some (c, rest)
    → (r ≡ some (c, rest)) × (m ≤ c) × IsScalar c
checked-some m c rest none h = cc
checked-some m c rest (some (d, t)) h = ground arith

-- What a first byte and its continuation come to.
abbrev Encodes : ℕ → Bytes → Bytes → Type 0
Encodes c text rest =
    IsScalar c × ((bytes : Bytes) × (encode_utf8 c ≡ some bytes) × (text ≡ bytes ++ rest))

of_ascii :
    (f : ℕ) (text : Bytes) (c : ℕ) (rest : Bytes)
    → f < 0x80
    → f ≡ c
    → text ≡ rest
    → Encodes c (f ∷ text) rest
unfolding encode_utf8
of_ascii f text c rest h e t = (ground arith, (f ∷ [], ground arith, cc))

of_two :
    (f : ℕ) (text : Bytes) (c : ℕ) (rest : Bytes)
    → AllBytes (f ∷ text)
    → within 0xc2 0xdf f ≡ true
    → checked 0x80 (read_continuation 1 (f % 32) text) ≡ some (c, rest)
    → Encodes c (f ∷ text) rest
unfolding encode_utf8
of_two f text c rest b w h =
    let (read, low, scalar) = checked-some 0x80 c rest _ h in
    let (x, after, text_is, top, later) = continuation-suc 0 (f % 32) c text rest read in
    let (value, end_is) = continuation-zero (f % 32 * 64 + x % 64) c after rest later in
    (scalar, (f ∷ x ∷ [], ground arith, cc))

of_three :
    (f : ℕ) (text : Bytes) (c : ℕ) (rest : Bytes)
    → AllBytes (f ∷ text)
    → within 0xe0 0xef f ≡ true
    → checked 0x800 (read_continuation 2 (f % 16) text) ≡ some (c, rest)
    → Encodes c (f ∷ text) rest
unfolding encode_utf8
of_three f text c rest b w h =
    let (read, low, scalar) = checked-some 0x800 c rest _ h in
    let (x, t1, text_is, top, later) = continuation-suc 1 (f % 16) c text rest read in
    let (y, t2, t1_is, top', later') = continuation-suc 0 (f % 16 * 64 + x % 64) c t1 rest later in
    let (value, end_is) =
      continuation-zero ((f % 16 * 64 + x % 64) * 64 + y % 64) c t2 rest later' in
    (scalar, (f ∷ x ∷ y ∷ [], ground arith, cc))

of_four :
    (f : ℕ) (text : Bytes) (c : ℕ) (rest : Bytes)
    → AllBytes (f ∷ text)
    → within 0xf0 0xf4 f ≡ true
    → checked 0x10000 (read_continuation 3 (f % 8) text) ≡ some (c, rest)
    → Encodes c (f ∷ text) rest
unfolding encode_utf8
of_four f text c rest b w h =
    let (read, low, scalar) = checked-some 0x10000 c rest _ h in
    let (x, t1, text_is, top, later) = continuation-suc 2 (f % 8) c text rest read in
    let (y, t2, t1_is, top', later') = continuation-suc 1 (f % 8 * 64 + x % 64) c t1 rest later in
    let (z, t3, t2_is, top'', later'') =
      continuation-suc 0 ((f % 8 * 64 + x % 64) * 64 + y % 64) c t2 rest later' in
    let (value, end_is) =
      continuation-zero (((f % 8 * 64 + x % 64) * 64 + y % 64) * 64 + z % 64) c t3 rest later'' in
    (scalar, (f ∷ x ∷ y ∷ z ∷ [], ground arith, cc))

-- What is read as UTF-8 is the one encoding of a scalar value: overlong forms, surrogates and values
-- past U+10FFFF are refused.
pub encode_utf8-read_utf8 :
    (text : Bytes) (codepoint : ℕ) (rest : Bytes)
    → AllBytes text
    → read_utf8 text ≡ some (codepoint, rest)
    → IsScalar codepoint
      × ((bytes : Bytes) × (encode_utf8 codepoint ≡ some bytes) × (text ≡ bytes ++ rest))
unfolding read_utf8
encode_utf8-read_utf8 [] codepoint rest b h = cc
encode_utf8-read_utf8 (f ∷ text) codepoint rest b h = elim (Bool-cases (ltb f 0x80)) [
  | inl ascii ↦ of_ascii f text codepoint rest (ground arith) (ground arith) (ground arith)
  | inr not_ascii ↦ elim (Bool-cases (within 0xc2 0xdf f)) [
    | inl two ↦ of_two f text codepoint rest b two (ground arith)
    | inr not_two ↦ elim (Bool-cases (within 0xe0 0xef f)) [
      | inl three ↦ of_three f text codepoint rest b three (ground arith)
      | inr not_three ↦ elim (Bool-cases (within 0xf0 0xf4 f)) [
        | inl four ↦ of_four f text codepoint rest b four (ground arith)
        | inr not_four ↦ absurd (ground arith)
      ]
    ]
  ]
]
