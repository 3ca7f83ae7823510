-- ===== src/JsonMin/Items.antt =====
-- The values of a JSON document: where each ends, and that the loops end by themselves.
use genshinimpact_nx.Base.{
  ℕ, zero, suc, ◌-◌, ◌≤◌, ◌<◌, ◌≡◌, refl, sym, ap, ◌∙◌, inl, inr, Bool, true, false, ◌||◌, Option,
  none, some, [], ◌∷◌, ◌++◌, append-nil, arith, Bytes, leb, ◌==◌, if◌then◌else◌, Bool-cases,
  Option-cases, length, length-append, take,
}
use mathlib.Core.Path.{ap₂}
use genshinimpact_nx.JsonMin.Scan.{
  JsonMinType, json_object, json_array, json_string, json_number, json_true, json_false, json_null,
  is_space, skip_space, skip_string,
}
use genshinimpact_nx.JsonMin.Value.{
  Scanner, typed, expect, skip_name, skip_items, skip_body, nested_body, scan_from, scan_value,
  json_min_max_depth, skip_value, JsonMinValue, span, has_nul, json_min_parse,
}
use genshinimpact_nx.JsonMin.Forward.{
  Suffix, Suffix-refl, Suffix-cons, Suffix-trans, Suffix-length, skip_space-Suffix, Forward,
  Forward-cons, Forward-bind, Forward-from, Forward-some, rest_of, skip_number-Forward,
  consume_literal-Forward, skip_string-Forward,
}

-- A scanner of values moves forward, and finds none in nothing.
pub record IsScanner (value : Scanner) : Type 0 where
  pub forward : (text : Bytes) → Forward text (rest_of (value text))
  pub empty : value [] ≡ none

rest_of-some :
    (text : Bytes) (r : Option (JsonMinType × Bytes)) (t : JsonMinType) (rest : Bytes)
    → Forward text (rest_of r)
    → r ≡ some (t, rest)
    → Suffix rest text
rest_of-some text none t rest h e = cc
rest_of-some text (some (u, x)) t rest h e = let same : x ≡ rest = ground arith in rw same at h

typed-Forward :
    (t : JsonMinType) (text : Bytes) (r : Option Bytes)
    → Forward text r
    → Forward text (rest_of (typed t r))
typed-Forward t text none h = tt
typed-Forward t text (some rest) h = h

expect-Forward : (b : ℕ) (text : Bytes) → Forward text (expect b text)
expect-Forward b [] = tt
expect-Forward b (c ∷ text) = elim (Bool-cases (c == b)) [
  | inl e ↦ rw e (Suffix-cons c text text (Suffix-refl text))
  | inr e ↦ rw e tt
]

skip_name-Forward : (text : Bytes) → Forward text (skip_name text)
unfolding skip_name
skip_name-Forward text = Forward-bind text (skip_string text) _ (skip_string-Forward text) (λ after.
    Forward-bind after (expect b':' (skip_space after)) _
      (Forward-from (skip_space after) after (expect b':' (skip_space after))
        (skip_space-Suffix after) (expect-Forward b':' (skip_space after)))
      (λ value. skip_space-Suffix value))

abbrev name_of : Bool → Bytes → Option Bytes
name_of named text = if named then skip_name text else some text

name_of-Forward : (named : Bool) (text : Bytes) → Forward text (name_of named text)
name_of-Forward true text = skip_name-Forward text
name_of-Forward false text = Suffix-refl text

-- What follows a value in a container.
abbrev pub after_value : ℕ → (Bytes → Option Bytes) → Bytes → Option Bytes
after_value close more [] = none
after_value close more (c ∷ rest) =
    let next = more (skip_space rest) in
    if c == close then some rest else if c == b',' then next else none

module _ (value : Scanner) (named : Bool) (close : ℕ) (v : IsScanner value) where
  after_value-Forward :
      (more : Bytes → Option Bytes) (text : Bytes)
      → ((rest : Bytes) → Forward rest (more rest))
      → Forward text (after_value close more text)
  after_value-Forward more [] h = tt
  after_value-Forward more (c ∷ rest) h = elim (Bool-cases (c == close)) [
    | inl e ↦ rw e (Suffix-cons c rest rest (Suffix-refl rest))
    | inr n ↦ rw n (elim (Bool-cases (c == b',')) [
      | inl e ↦ rw e (
          Forward-cons c rest _
            (Forward-from (skip_space rest) rest _ (skip_space-Suffix rest) (h (skip_space rest))))
      | inr n' ↦ rw n' tt
    ])
  ]

  -- One round, in terms of what follows the value.
  round :
      (f : ℕ) (text start : Bytes) (t : JsonMinType) (after : Bytes)
      → name_of named text ≡ some start
      → value start ≡ some (t, after)
      → skip_items value named close (suc f) text
        ≡ after_value close (skip_items value named close f) (skip_space after)
  unfolding skip_items
  round f text start t after e d = rw (e, d) (by_end (skip_space after))
    where
      by_end :
          (r : Bytes)
          → (let x : Option Bytes = elim r [
            | [] ↦ none
            | c ∷ rest ↦
                let more = skip_items value named close f (skip_space rest) in
                if c == close then some rest else if c == b',' then more else none
          ] in
              x)
            ≡ after_value close (skip_items value named close f) r
      by_end [] = refl
      by_end (c ∷ rest) = refl

  no_name :
      (f : ℕ) (text : Bytes)
      → name_of named text ≡ none
      → skip_items value named close f text ≡ none
  unfolding skip_items
  no_name zero text e = refl
  no_name (suc f) text e = rw e

  no_value :
      (f : ℕ) (text start : Bytes)
      → name_of named text ≡ some start
      → value start ≡ none
      → skip_items value named close f text ≡ none
  unfolding skip_items
  no_value zero text start e d = refl
  no_value (suc f) text start e d = rw (e, d)

  skip_items-Forward : (f : ℕ) (text : Bytes) → Forward text (skip_items value named close f text)
  skip_items-Forward zero text = unfold skip_items in tt
  skip_items-Forward (suc f) text = by_name (skip_items-Forward f)
    where
      by_name :
          ((rest : Bytes) → Forward rest (skip_items value named close f rest))
          → Forward text (skip_items value named close (suc f) text)
      by_name ih = elim (Option-cases (name_of named text)) [
        | inl e ↦ rw (no_name (suc f) text e) tt
        | inr (start, e) ↦ elim (Option-cases (value start)) [
          | inl d ↦ rw (no_value (suc f) text start e d) tt
          | inr ((t, after), d) ↦
              let begun =
                Forward-some text (name_of named text) start (name_of-Forward named text) e in
              let moved = rest_of-some start (value start) t after (v.forward start) d in
              rw (round f text start t after e d) (
                Forward-from (skip_space after) text _
                  (Suffix-trans (skip_space after) after text (skip_space-Suffix after)
                    (Suffix-trans after start text moved begun))
                  (after_value-Forward (skip_items value named close f) (skip_space after) ih))
        ]
      ]

  nothing_left : (f : ℕ) → skip_items value named close f [] ≡ none
  nothing_left f = elim (Option-cases (name_of named [])) [
    | inl e ↦ no_name f [] e
    | inr (start, e) ↦
        let short =
          Suffix-length start []
            (Forward-some [] (name_of named []) start (name_of-Forward named []) e) in
        no_value f [] start e (ap value (nil_of start short) ∙ v.empty)
  ]
    where
      nil_of : (start : Bytes) → length start ≤ 0 → start ≡ []
      nil_of [] h = refl
      nil_of (x ∷ start) h = absurd (omega arith)

  -- Two ways to go on that agree on what is shorter than the text lead to the same end.
  after_value_same :
      (more more' : Bytes → Option Bytes) (text : Bytes)
      → ((rest : Bytes) → length rest < length text → more rest ≡ more' rest)
      → after_value close more text ≡ after_value close more' text
  after_value_same more more' [] h = refl
  after_value_same more more' (c ∷ rest) h = rw (
      h (skip_space rest)
        (omega (arith, Suffix-length (skip_space rest) rest (skip_space-Suffix rest))))

  -- Each round takes a byte, so any fuel that is not below the length gives the same result.
  pub skip_items_fuel :
      (f g : ℕ) (text : Bytes)
      → length text ≤ f
      → length text ≤ g
      → skip_items value named close f text ≡ skip_items value named close g text
  skip_items_fuel f g [] hf hg = nothing_left f ∙ sym (nothing_left g)
  skip_items_fuel zero g (c ∷ text) hf hg = absurd (omega arith)
  skip_items_fuel (suc f) zero (c ∷ text) hf hg = absurd (omega arith)
  skip_items_fuel (suc f) (suc g) (c ∷ text) hf hg = by_name (λ rest. skip_items_fuel f g rest)
    where
      by_name :
          ((rest : Bytes)
            → length rest ≤ f
            → length rest ≤ g
            → skip_items value named close f rest ≡ skip_items value named close g rest)
          → skip_items value named close (suc f) (c ∷ text)
            ≡ skip_items value named close (suc g) (c ∷ text)
      by_name ih = elim (Option-cases (name_of named (c ∷ text))) [
        | inl e ↦ no_name (suc f) (c ∷ text) e ∙ sym (no_name (suc g) (c ∷ text) e)
        | inr (start, e) ↦ elim (Option-cases (value start)) [
          | inl d ↦
              no_value (suc f) (c ∷ text) start e d ∙ sym (no_value (suc g) (c ∷ text) start e d)
          | inr ((t, after), d) ↦
              let begun = Suffix-length start (c ∷ text) (
                Forward-some (c ∷ text) (name_of named (c ∷ text)) start
                  (name_of-Forward named (c ∷ text)) e) in
              let moved =
                Suffix-length after start
                  (rest_of-some start (value start) t after (v.forward start) d) in
              let spaced = Suffix-length (skip_space after) after (skip_space-Suffix after) in
              round f (c ∷ text) start t after e d
              ∙ after_value_same (skip_items value named close f) (skip_items value named close g)
                  (skip_space after) (λ rest lt. ih rest (omega arith) (omega arith))
              ∙ sym (round g (c ∷ text) start t after e d)
        ]
      ]

  skip_body-Forward : (text : Bytes) → Forward text (skip_body value named close text)
  unfolding skip_body
  skip_body-Forward text = by_end (skip_space text) (skip_space-Suffix text)
    where
      by_end :
          (r : Bytes)
          → Suffix r text
          → Forward text (
              let x : Option Bytes = elim r [
                | [] ↦ skip_items value named close (length text) []
                | c ∷ rest ↦
                    if c == close
                    then some rest
                    else skip_items value named close (length text) (c ∷ rest)
              ] in
              x)
      by_end [] s = rw (nothing_left (length text)) tt
      by_end (c ∷ rest) s = elim (Bool-cases (c == close)) [
        | inl e ↦ rw e (
            Forward-from (c ∷ rest) text (some rest) s (Suffix-cons c rest rest (Suffix-refl rest)))
        | inr n ↦
            rw n (Forward-from (c ∷ rest) text _ s (skip_items-Forward (length text) (c ∷ rest)))
      ]

-- What is known of the scanner one level down.
abbrev pub IsNested : Option Scanner → Type 0
IsNested none = Unit {0}
IsNested (some value) = IsScanner value

nested_body-Forward :
    (nested : Option Scanner) (named : Bool) (close : ℕ) (t : JsonMinType) (rest : Bytes)
    → IsNested nested
    → Forward rest (rest_of (nested_body nested named close t rest))
nested_body-Forward none named close t rest h = tt
nested_body-Forward (some value) named close t rest h =
    typed-Forward t rest _ (skip_body-Forward value named close h rest)

branch :
    (b : Bool) (text : Bytes) (x y : Option (JsonMinType × Bytes))
    → Forward text (rest_of x)
    → Forward text (rest_of y)
    → Forward text (rest_of (if b then x else y))
branch true text x y h k = h
branch false text x y h k = k

-- The switch on the first byte.
scan_from-Forward :
    (nested : Option Scanner) (c : ℕ) (rest : Bytes)
    → IsNested nested
    → Forward (c ∷ rest) (rest_of (scan_from nested c rest))
unfolding scan_from
scan_from-Forward nested c rest h =
    branch (c == b'{') _ _ _
      (Forward-cons c rest _ (nested_body-Forward nested true b'}' json_object rest h))
      (branch (c == b'[') _ _ _
        (Forward-cons c rest _ (nested_body-Forward nested false b']' json_array rest h))
        (branch (c == b'"') _ _ _
          (typed-Forward json_string (c ∷ rest) _ (skip_string-Forward (c ∷ rest)))
          (branch (c == b't') _ _ _
            (typed-Forward json_true (c ∷ rest) _ (consume_literal-Forward _ (c ∷ rest)))
            (branch (c == b'f') _ _ _
              (typed-Forward json_false (c ∷ rest) _ (consume_literal-Forward _ (c ∷ rest)))
              (branch (c == b'n') _ _ _
                (typed-Forward json_null (c ∷ rest) _ (consume_literal-Forward _ (c ∷ rest)))
                (typed-Forward json_number (c ∷ rest) _ (skip_number-Forward (c ∷ rest))))))))

scan_value-IsScanner : (nested : Option Scanner) → IsNested nested → IsScanner (scan_value nested)
unfolding scan_value
scan_value-IsScanner nested h = record {
  forward = λ text. by_end text (skip_space text) (skip_space-Suffix text);
  empty = unfold skip_space in refl;
}
  where
    by_end :
        (text r : Bytes)
        → Suffix r text
        → Forward text (
            rest_of (
              let x : Option (JsonMinType × Bytes) = elim r [
                | [] ↦ none
                | c ∷ rest ↦ scan_from nested c rest
              ] in
              x))
    by_end text [] s = tt
    by_end text (c ∷ rest) s =
        Forward-from (c ∷ rest) text (rest_of (scan_from nested c rest)) s
          (scan_from-Forward nested c rest h)

-- A value moves the cursor forward, at every depth.
pub skip_value-IsScanner : (levels : ℕ) → IsScanner (skip_value levels)
unfolding skip_value
skip_value-IsScanner zero = scan_value-IsScanner none tt
skip_value-IsScanner (suc levels) =
    scan_value-IsScanner (some (skip_value levels)) (skip_value-IsScanner levels)

-- The white space of JSON.
abbrev pub AllSpace : Bytes → Type 0
AllSpace [] = Unit
AllSpace (c ∷ rest) = (is_space c ≡ true) × AllSpace rest

skip_space-AllSpace :
    (text : Bytes) → (pre : Bytes) × AllSpace pre × (text ≡ pre ++ skip_space text)
unfolding skip_space
skip_space-AllSpace [] = ([], tt, refl)
skip_space-AllSpace (c ∷ text) = elim (Bool-cases (is_space c)) [
  | inl e ↦
      let (pre, spaces, split) = skip_space-AllSpace text in
      (c ∷ pre, (e, spaces), rw e (ap (◌∷◌ c) split))
  | inr n ↦ ([], tt, rw n refl)
]

span-append : (pre rest : Bytes) → span (pre ++ rest) rest ≡ pre
span-append pre rest =
    let size : length (pre ++ rest) - length rest ≡ length pre =
      omega (arith, length-append pre rest) in
    ap (λ n. take n (pre ++ rest)) size ∙ take-front pre rest
  where
    take-front : (xs ys : Bytes) → take (length xs) (xs ++ ys) ≡ xs
    take-front [] ys = refl
    take-front (x ∷ xs) ys = ap (◌∷◌ x) (take-front xs ys)

-- What a scan that reaches the end comes to.
abbrev finish : Bytes → JsonMinType → Bytes → Bytes → Option JsonMinValue
finish start t rest [] = some (record { text = span start rest; type = t })
finish start t rest (c ∷ more) = none

finish-some :
    (start : Bytes) (t : JsonMinType) (rest end : Bytes) (v : JsonMinValue)
    → finish start t rest end ≡ some v
    → (end ≡ []) × (v.text ≡ span start rest)
finish-some start t rest [] v h = (refl, ground arith)
finish-some start t rest (c ∷ more) v h = cc

parse_steps :
    (json : Bytes) (v : JsonMinValue)
    → json_min_parse json ≡ some v
    → (t : JsonMinType) × (rest : Bytes) × (skip_value json_min_max_depth (skip_space json)
        ≡ some (t, rest))
      × (finish (skip_space json) t rest (skip_space rest) ≡ some v)
unfolding json_min_parse
parse_steps json v h = elim (Bool-cases (leb (length json) 0 || has_nul json)) [
  | inl e ↦ let impossible : none ≡ some v = rw e at h in cc
  | inr e ↦ elim (Option-cases (skip_value json_min_max_depth (skip_space json))) [
    | inl d ↦ let impossible : none ≡ some v = rw (e, d) at h in cc
    | inr ((t, rest), d) ↦ (t, rest, d, by_end t rest (skip_space rest) (rw (e, d) at h))
  ]
]
  where
    by_end :
        (t : JsonMinType) (rest end : Bytes)
        → (let x : Option JsonMinValue = elim end [
          | [] ↦ some (record { text = span (skip_space json) rest; type = t })
          | _ ↦ none
        ] in
            x)
          ≡ some v
        → finish (skip_space json) t rest end ≡ some v
    by_end t rest [] k = k
    by_end t rest (c ∷ more) k = k

-- A value that `json_min_parse` accepts is the whole document but for white space around it.
pub json_min_parse-span :
    (json : Bytes) (v : JsonMinValue)
    → json_min_parse json ≡ some v
    → (before after : Bytes) × AllSpace before
      × AllSpace after
      × (json ≡ before ++ (v.text ++ after))
json_min_parse-span json v h =
    let (t, rest, scanned, ended) = parse_steps json v h in
    let start = skip_space json in
    let (at_end, text_is) = finish-some start t rest (skip_space rest) v ended in
    let (before, spaces, split) = skip_space-AllSpace json in
    let (after, more_spaces, split') = skip_space-AllSpace rest in
    let forward = (skip_value-IsScanner json_min_max_depth).forward start in
    let (pre, split'') =
      rest_of-some start (skip_value json_min_max_depth start) t rest forward scanned in
    let its : v.text ≡ pre = text_is ∙ ap (λ s. span s rest) split'' ∙ span-append pre rest in
    let rest_is : rest ≡ after = split' ∙ ap (◌++◌ after) at_end ∙ append-nil after in
    (
      before,
      after,
      spaces,
      more_spaces,
      split ∙ ap (◌++◌ before) (split'' ∙ ap₂ ◌++◌ (sym its) rest_is),
    )
