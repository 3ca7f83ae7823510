-- ===== src/JsonMin/Forward.antt =====
-- The scanners of source/json_min.c only move forward: what is left is an end of what they were given.
use genshinimpact_nx.Base.{
  ℕ, zero, suc, ◌+◌, ◌*◌, ◌%◌, ◌≤◌, ◌≡◌, refl, sym, ap, ◌∙◌, inl, inr, ◌&&◌, ◌||◌, Option, none,
  some, [], ◌∷◌, ◌++◌, append_assoc, arith, Bytes, ltb, ◌==◌, if◌then◌else◌, Bool-cases,
  Option-cases, length, length-append, take, drop, take-append-drop, ◌>>=◌,
}
use genshinimpact_nx.JsonMin.Scan.{
  is_space, skip_space, within, read_hex4, is_continuation, read_continuation, checked, read_utf8,
  is_escape, read_low, skip_unicode, skip_escape, skip_unit, skip_units, skip_string, is_digit,
  skip_digits, some_digits, drop_byte, skip_integer, skip_fraction, drop_sign, skip_exponent,
  skip_number, consume_literal,
}

abbrev pub Suffix : Bytes → Bytes → Type 0
Suffix rest text = (pre : Bytes) × (text ≡ pre ++ rest)

pub Suffix-refl : (text : Bytes) → Suffix text text
Suffix-refl text = ([], refl)

pub Suffix-cons : (c : ℕ) (rest text : Bytes) → Suffix rest text → Suffix rest (c ∷ text)
Suffix-cons c rest text (pre, e) = (c ∷ pre, ap (◌∷◌ c) e)

pub Suffix-trans : (a b c : Bytes) → Suffix a b → Suffix b c → Suffix a c
Suffix-trans a b c (p, e) (q, d) = (q ++ p, d ∙ ap (◌++◌ q) e ∙ sym (append_assoc q p a))

pub Suffix-length : (rest text : Bytes) → Suffix rest text → length rest ≤ length text
Suffix-length rest text (pre, e) =
    let size : length text ≡ length pre + length rest = ap length e ∙ length-append pre rest in
    omega arith

pub Suffix-drop : (n : ℕ) (text : Bytes) → Suffix (drop n text) text
Suffix-drop n text = (take n text, sym (take-append-drop n text))

pub skip_space-Suffix : (text : Bytes) → Suffix (skip_space text) text
unfolding skip_space
skip_space-Suffix [] = Suffix-refl []
skip_space-Suffix (c ∷ text) = elim (Bool-cases (is_space c)) [
  | inl e ↦ rw e (Suffix-cons c _ text (skip_space-Suffix text))
  | inr e ↦ rw e (Suffix-refl (c ∷ text))
]

skip_digits-Suffix : (text : Bytes) → Suffix (skip_digits text) text
unfolding skip_digits
skip_digits-Suffix [] = Suffix-refl []
skip_digits-Suffix (c ∷ text) = elim (Bool-cases (is_digit c)) [
  | inl e ↦ rw e (Suffix-cons c _ text (skip_digits-Suffix text))
  | inr e ↦ rw e (Suffix-refl (c ∷ text))
]

-- A scanner that moves forward, as a function of what it returns.
abbrev pub Forward : Bytes → Option Bytes → Type 0
Forward text none = Unit
Forward text (some rest) = Suffix rest text

pub Forward-cons : (c : ℕ) (text : Bytes) (r : Option Bytes) → Forward text r → Forward (c ∷ text) r
Forward-cons c text none h = tt
Forward-cons c text (some rest) h = Suffix-cons c rest text h

pub Forward-bind :
    (text : Bytes) (r : Option Bytes) (f : Bytes → Option Bytes)
    → Forward text r
    → ((after : Bytes) → Forward after (f after))
    → Forward text (r >>= f)
Forward-bind text none f h g = tt
Forward-bind text (some after) f h g = Forward-trans (f after) (g after)
  where
    Forward-trans : (r : Option Bytes) → Forward after r → Forward text r
    Forward-trans none k = tt
    Forward-trans (some rest) k = Suffix-trans rest after text k h

pub Forward-some :
    (text : Bytes) (r : Option Bytes) (rest : Bytes)
    → Forward text r
    → r ≡ some rest
    → Suffix rest text
Forward-some text none rest h e = cc
Forward-some text (some x) rest h e = let same : x ≡ rest = cc in rw same at h

some_digits-Forward : (text : Bytes) → Forward text (some_digits text)
unfolding some_digits
some_digits-Forward [] = tt
some_digits-Forward (c ∷ text) = elim (Bool-cases (is_digit c)) [
  | inl e ↦ rw e (Suffix-cons c _ text (skip_digits-Suffix text))
  | inr e ↦ rw e tt
]

drop_byte-Suffix : (b : ℕ) (text : Bytes) → Suffix (drop_byte b text) text
drop_byte-Suffix b [] = Suffix-refl []
drop_byte-Suffix b (c ∷ text) = elim (Bool-cases (c == b)) [
  | inl e ↦ rw e (Suffix-cons c text text (Suffix-refl text))
  | inr e ↦ rw e (Suffix-refl (c ∷ text))
]

skip_integer-Forward : (text : Bytes) → Forward text (skip_integer text)
unfolding skip_integer
skip_integer-Forward [] = tt
skip_integer-Forward (c ∷ []) = ground (arith, Suffix-cons c [] [] (Suffix-refl []))
skip_integer-Forward (c ∷ d ∷ text) = ground (
  arith,
  Suffix-cons c (d ∷ text) (d ∷ text) (Suffix-refl (d ∷ text)),
  Suffix-cons c (skip_digits (d ∷ text)) (d ∷ text) (skip_digits-Suffix (d ∷ text)),
)

skip_fraction-Forward : (text : Bytes) → Forward text (skip_fraction text)
unfolding skip_fraction
skip_fraction-Forward [] = Suffix-refl []
skip_fraction-Forward (c ∷ text) = elim (Bool-cases (c == b'.')) [
  | inl e ↦ rw e (Forward-cons c text (some_digits text) (some_digits-Forward text))
  | inr e ↦ rw e (Suffix-refl (c ∷ text))
]

drop_sign-Suffix : (text : Bytes) → Suffix (drop_sign text) text
drop_sign-Suffix [] = Suffix-refl []
drop_sign-Suffix (c ∷ text) = elim (Bool-cases (c == b'+' || c == b'-')) [
  | inl e ↦ rw e (Suffix-cons c text text (Suffix-refl text))
  | inr e ↦ rw e (Suffix-refl (c ∷ text))
]

-- A scanner that begins further on moves forward too.
pub Forward-from :
    (after text : Bytes) (r : Option Bytes) → Suffix after text → Forward after r → Forward text r
Forward-from after text none s h = tt
Forward-from after text (some rest) s h = Suffix-trans rest after text h s

skip_exponent-Forward : (text : Bytes) → Forward text (skip_exponent text)
unfolding skip_exponent
skip_exponent-Forward [] = Suffix-refl []
skip_exponent-Forward (c ∷ text) = elim (Bool-cases (c == b'e' || c == b'E')) [
  | inl e ↦ rw e (
      Forward-cons c text (some_digits (drop_sign text)) (
        Forward-from (drop_sign text) text (some_digits (drop_sign text)) (drop_sign-Suffix text)
          (some_digits-Forward (drop_sign text))))
  | inr e ↦ rw e (Suffix-refl (c ∷ text))
]

pub skip_number-Forward : (text : Bytes) → Forward text (skip_number text)
unfolding skip_number
skip_number-Forward text =
    let start = drop_byte b'-' text in
    Forward-bind text (skip_integer start >>= skip_fraction) skip_exponent
      (Forward-bind text (skip_integer start) skip_fraction
        (Forward-from start text (skip_integer start) (drop_byte-Suffix b'-' text)
          (skip_integer-Forward start))
        skip_fraction-Forward)
      skip_exponent-Forward

pub consume_literal-Forward : (word text : Bytes) → Forward text (consume_literal word text)
unfolding consume_literal
consume_literal-Forward [] text = Suffix-refl text
consume_literal-Forward (b ∷ word) [] = tt
consume_literal-Forward (b ∷ word) (c ∷ text) = elim (Bool-cases (b == c)) [
  | inl e ↦
      rw e (Forward-cons c text (consume_literal word text) (consume_literal-Forward word text))
  | inr e ↦ rw e tt
]

-- The end of what a scanner with a value leaves.
abbrev pub rest_of {ℓ} : {A : Type ℓ} → Option (A × Bytes) → Option Bytes
rest_of none = none
rest_of (some (a, rest)) = some rest

read_continuation-Forward :
    (n k : ℕ) (text : Bytes) → Forward text (rest_of (read_continuation n k text))
unfolding read_continuation
read_continuation-Forward zero k text = Suffix-refl text
read_continuation-Forward (suc n) k [] = tt
read_continuation-Forward (suc n) k (b ∷ text) = elim (Bool-cases (is_continuation b)) [
  | inl e ↦ rw e (Forward-cons b text _ (read_continuation-Forward n (k * 64 + b % 64) text))
  | inr e ↦ rw e tt
]

checked-Forward :
    (m : ℕ) (text : Bytes) (r : Option (ℕ × Bytes))
    → Forward text (rest_of r)
    → Forward text (rest_of (checked m r))
checked-Forward m text none h = tt
checked-Forward m text (some (c, rest)) h =
    elim (Bool-cases (ltb c m || ltb 0x10ffff c || within 0xd800 0xdfff c)) [
      | inl e ↦ rw e tt
      | inr e ↦ rw e h
    ]

-- A character takes its first byte, and perhaps some of the others.
pub read_utf8-Forward : (c : ℕ) (text : Bytes) → Forward text (rest_of (read_utf8 (c ∷ text)))
unfolding read_utf8
read_utf8-Forward c text = ground (
  arith,
  Suffix-refl text,
  checked-Forward 0x80 text _ (read_continuation-Forward 1 (c % 32) text),
  checked-Forward 0x800 text _ (read_continuation-Forward 2 (c % 16) text),
  checked-Forward 0x10000 text _ (read_continuation-Forward 3 (c % 8) text),
)

read_low-Forward : (text : Bytes) → Forward text (rest_of (read_low text))
unfolding read_low
read_low-Forward [] = tt
read_low-Forward (a ∷ []) = tt
read_low-Forward (a ∷ b ∷ text) =
    let after =
      Suffix-cons a (drop 4 text) (b ∷ text)
        (Suffix-cons b (drop 4 text) text (Suffix-drop 4 text)) in
    elim (Bool-cases (a == b'\\' && b == b'u')) [
      | inr n ↦ rw n tt
      | inl y ↦ rw y (elim (Option-cases (read_hex4 text)) [
        | inl e ↦ rw e tt
        | inr (low, e) ↦ rw e (elim (Bool-cases (ltb low 0xdc00 || ltb 0xdfff low)) [
          | inl out ↦ rw out tt
          | inr within_range ↦ rw within_range after
        ])
      ])
    ]

-- The pair of a value and an end, after the value has been dropped.
Forward-ending :
    (text : Bytes) (r : Option (ℕ × Bytes))
    → Forward text (rest_of r)
    → Forward text (do (low, after) ← r; some after)
Forward-ending text none h = tt
Forward-ending text (some (low, after)) h = h

skip_unicode-Forward : (text : Bytes) → Forward text (skip_unicode text)
unfolding skip_unicode
skip_unicode-Forward text = elim (Option-cases (read_hex4 text)) [
  | inl e ↦ rw e tt
  | inr (v, e) ↦ rw e (
      ground (
        arith,
        Suffix-drop 4 text,
        Forward-ending text (read_low (drop 4 text)) (
            Forward-from (drop 4 text) text (rest_of (read_low (drop 4 text))) (Suffix-drop 4 text)
              (read_low-Forward (drop 4 text))),
      ))
]

skip_escape-Forward : (text : Bytes) → Forward text (skip_escape text)
unfolding skip_escape
skip_escape-Forward [] = tt
skip_escape-Forward (c ∷ text) = elim (Bool-cases (is_escape c)) [
  | inl e ↦ rw e (Suffix-cons c text text (Suffix-refl text))
  | inr e ↦ rw e (elim (Bool-cases (c == b'u')) [
    | inl u ↦ rw u (Forward-cons c text (skip_unicode text) (skip_unicode-Forward text))
    | inr n ↦ rw n tt
  ])
]

pub skip_unit-Forward : (c : ℕ) (text : Bytes) → Forward text (skip_unit c text)
unfolding skip_unit
skip_unit-Forward c text = ground (
  arith,
  Suffix-refl text,
  skip_escape-Forward text,
  Forward-ending text (read_utf8 (c ∷ text)) (read_utf8-Forward c text),
)

pub skip_units-Forward : (f : ℕ) (text : Bytes) → Forward text (skip_units f text)
unfolding skip_units
skip_units-Forward zero text = tt
skip_units-Forward (suc f) [] = tt
skip_units-Forward (suc f) (c ∷ text) = elim (Bool-cases (c == b'"')) [
  | inl e ↦ rw e (Suffix-cons c text text (Suffix-refl text))
  | inr e ↦ rw e (
      Forward-cons c text (skip_unit c text >>= skip_units f) (
        Forward-bind text (skip_unit c text) (skip_units f) (skip_unit-Forward c text)
          (skip_units-Forward f)))
]

pub skip_string-Forward : (text : Bytes) → Forward text (skip_string text)
unfolding skip_string
skip_string-Forward [] = tt
skip_string-Forward (c ∷ text) = elim (Bool-cases (c == b'"')) [
  | inl e ↦ rw e (Forward-cons c text _ (skip_units-Forward (length text) text))
  | inr e ↦ rw e tt
]

-- Each round of the string loop takes a byte, so any fuel that is not below the length gives the same
-- result: the fuel is never what ends the loop.
pub skip_units_fuel :
    (f g : ℕ) (text : Bytes)
    → length text ≤ f
    → length text ≤ g
    → skip_units f text ≡ skip_units g text
unfolding skip_units
skip_units_fuel zero zero text hf hg = refl
skip_units_fuel zero (suc g) [] hf hg = refl
skip_units_fuel (suc f) zero [] hf hg = refl
skip_units_fuel (suc f) (suc g) [] hf hg = refl
skip_units_fuel zero g (c ∷ text) hf hg = absurd (omega arith)
skip_units_fuel (suc f) zero (c ∷ text) hf hg = absurd (omega arith)
skip_units_fuel (suc f) (suc g) (c ∷ text) hf hg = elim (Option-cases (skip_unit c text)) [
  | inl e ↦ rw e
  | inr (after, e) ↦
      let shorter =
        Suffix-length after text
          (Forward-some text (skip_unit c text) after (skip_unit-Forward c text) e) in
      rw e (
        ap (λ (r : Option Bytes). if c == b'"' then some text else r)
          (skip_units_fuel f g after (omega arith) (omega arith)))
]
