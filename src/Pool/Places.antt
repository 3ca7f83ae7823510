-- ===== src/Pool/Places.antt =====
-- The search for free units: it finds a place exactly when there is one, the lowest or the highest.
use genshinimpact_nx.Base.{
  ℕ, zero, suc, ◌+◌, ◌-◌, ◌*◌, ◌/◌, ◌%◌, ◌≤◌, ◌<◌, ◌≡◌, sym, inl, inr, Bool, true, false, not, ◌||◌,
  Option, none, some, arith, ltb, leb, ◌==◌, if◌then◌else◌, ==_iff, Bool-cases,
}
use mathlib.Core.Path.{subst}
use native.Mathlib.Nat.{div-add-mod', mod-lt, mul-mod_left, mul-le-mul_right}
use genshinimpact_nx.Pool.Donor.{
  align_down, align_up, is_power, free_units, find_low, find_high, find_free,
}

multiples_apart : (al d m : ℕ) → m < d → m * al + al ≤ d * al
multiples_apart al d m h =
    let step : (m + 1) * al ≤ d * al = mul-le-mul_right al (omega arith) in
    let split : (m + 1) * al ≡ m * al + al = omega arith in omega (arith, step, split)

multiple-eq : (al b : ℕ) → b % al ≡ 0 → b / al * al ≡ b
multiple-eq al b h = omega (arith, div-add-mod' b al)

quotient_lt : (al b d : ℕ) → b % al ≡ 0 → b < d * al → b / al < d
quotient_lt al b d multiple below = elim (Bool-cases (ltb (b / al) d)) [
  | inl e ↦ ground arith
  | inr e ↦
      let step : d * al ≤ b / al * al = mul-le-mul_right al (ground arith) in
      absurd (omega (arith, step, multiple-eq al b multiple))
]

pub align_down_lem :
    (x al : ℕ)
    → 0 < al
    → (align_down x al ≤ x)
      × (align_down x al % al ≡ 0)
      × ((b : ℕ) → b % al ≡ 0 → b ≤ x → b ≤ align_down x al)
align_down_lem x al some_al = (
  omega (arith, div-add-mod' x al),
  mul-mod_left (x / al) al,
  λ b aligned below. elim (Bool-cases (leb (b / al) (x / al))) [
    | inl e ↦
        let step : b / al * al ≤ x / al * al = mul-le-mul_right al (ground arith) in
        omega (arith, step, multiple-eq al b aligned)
    | inr e ↦ absurd (
        omega (
          arith,
          multiples_apart al (b / al) (x / al) (ground arith),
          multiple-eq al b aligned,
          div-add-mod' x al,
          mod-lt x some_al,
        ))
  ],
)

pub align_up_lem :
    (x al : ℕ)
    → 0 < al
    → (x ≤ align_up x al)
      × (align_up x al % al ≡ 0)
      × ((b : ℕ) → b % al ≡ 0 → x ≤ b → align_up x al ≤ b)
align_up_lem x al some_al =
    let y = x + al - 1 in
    let (below, aligned, most) = align_down_lem y al some_al in
    (
      omega (arith, div-add-mod' y al, mod-lt y some_al),
      aligned,
      λ b multiple above. elim (Bool-cases (leb (align_up x al) b)) [
        | inl e ↦ ground arith
        | inr e ↦
            let less : b < align_up x al = ground arith in
            absurd (
              omega (
                arith,
                less,
                below,
                multiples_apart al (y / al) (b / al) (quotient_lt al b (y / al) multiple less),
                multiple-eq al b multiple,
              ))
      ],
    )

-- Whether units are all free from an aligned place on.
abbrev pub Fits : (ℕ → Bool) → ℕ → ℕ → ℕ → Type 0
Fits used units al b = (b % al ≡ 0) × ((j : ℕ) → j < units → used (b + j) ≡ false)

record FreeUnits (used : ℕ → Bool) (first units : ℕ) : Type 0 where
  at_most : free_units used first units ≤ units
  free_before : (j : ℕ) → j < free_units used first units → used (first + j) ≡ false
  used_after :
      free_units used first units < units → used (first + free_units used first units) ≡ true

plus_zero : (n : ℕ) → n + 0 ≡ n
plus_zero n = omega arith

plus_next : (n k : ℕ) → n + 1 + k ≡ n + suc k
plus_next n k = omega arith

free_from_next :
    (used : ℕ → Bool) (first k : ℕ)
    → used first ≡ false
    → ((j : ℕ) → j < k → used (first + 1 + j) ≡ false)
    → (j : ℕ) → j < suc k
    → used (first + j) ≡ false
free_from_next used first k here next zero h =
    subst (λ n. used n ≡ false) (sym (plus_zero first)) here
free_from_next used first k here next (suc j) h =
    subst (λ n. used n ≡ false) (plus_next first j) (next j (omega arith))

free_units_lem : (used : ℕ → Bool) (first units : ℕ) → FreeUnits used first units
unfolding free_units
free_units_lem used first zero = record {
  at_most = omega arith;
  free_before = λ j h. absurd (omega arith);
  used_after = λ h. absurd (omega arith);
}
free_units_lem used first (suc units) =
    let r = free_units_lem used (first + 1) units in
    elim (Bool-cases (used first)) [
      | inl e ↦ record {
        at_most = rw e (omega arith);
        free_before = λ j. rw e (λ h. absurd (omega arith));
        used_after = λ h. rw e (subst (λ n. used n ≡ true) (sym (plus_zero first)) e);
      }
      | inr e ↦ record {
        at_most = rw e (omega (arith, r.at_most));
        free_before = λ j. rw e (free_from_next used first _ e r.free_before j);
        used_after = rw e (λ h.
            subst (λ n. used n ≡ true) (plus_next first (free_units used (first + 1) units))
              (r.used_after (omega arith)));
      }
    ]

module _ (used : ℕ → Bool) (units al : ℕ) (some_al : 0 < al) (some_units : 0 < units) where
  -- A unit that is used within reach is in the way.
  blocked :
      (at k b : ℕ)
      → k < units
      → used (at + k) ≡ true
      → at ≤ b
      → b ≤ at + k
      → Fits used units al b
      → ⊥
  blocked at k b short in_use low high (aligned, free) =
      let j = at + k - b in
      let here : used (b + j) ≡ false = free j (omega arith) in
      let same : b + j ≡ at + k = omega arith in
      ground (arith, in_use, subst (λ n. used n ≡ false) same here)

  -- What a search over the places from `low` to `high` gives.
  abbrev pub Lowest : ℕ → ℕ → Option ℕ → Type 0
  Lowest low high none = (b : ℕ) → low ≤ b → b ≤ high → Fits used units al b → ⊥
  Lowest low high (some at) =
      (low ≤ at)
      × (at ≤ high)
      × Fits used units al at
      × ((b : ℕ) → low ≤ b → b < at → Fits used units al b → ⊥)

  -- The places up to a unit in use are passed over.
  onward :
      (first last at k : ℕ) (r : Option ℕ)
      → ((b : ℕ) → first ≤ b → b ≤ at + k → Fits used units al b → ⊥)
      → first ≤ at
      → Lowest (at + k + 1) last r
      → Lowest first last r
  onward first last at k none passed low later = λ b below above fits.
      elim (Bool-cases (leb b (at + k))) [
        | inl e ↦ passed b below (ground arith) fits
        | inr e ↦ later b (ground arith) above fits
      ]
  onward first last at k (some p) passed low (above, high, fits, least) = (
    omega arith,
    high,
    fits,
    λ b below less other. elim (Bool-cases (leb b (at + k))) [
      | inl e ↦ passed b below (ground arith) other
      | inr e ↦ least b (ground arith) less other
    ],
  )

  pub find_low_lem :
      (fuel last first : ℕ)
      → last < first + fuel
      → Lowest first last (find_low fuel used last units al first)
  unfolding find_low
  find_low_lem zero last first enough = λ b low high fits. absurd (omega arith)
  find_low_lem (suc fuel) last first enough =
      let at = align_up first al in
      let (above, aligned, least) = align_up_lem first al some_al in
      let f = free_units_lem used at units in
      let k = free_units used at units in
      let later = find_low_lem fuel last (at + k + 1) (omega arith) in
      elim (Bool-cases (ltb last first)) [
        | inl e ↦ rw e (λ b low high fits. absurd (ground arith))
        | inr e ↦ elim (Bool-cases (ltb last at)) [
          | inl e2 ↦ rw (e, e2) (λ b low high fits. absurd (ground (arith, least b fits.0 low)))
          | inr e2 ↦ elim (Bool-cases (k == units)) [
            | inl e3 ↦
                rw (e, e2, e3)
                  (
                    above,
                    ground arith,
                    (aligned, λ j h. f.free_before j (ground arith)),
                    λ b low high fits. absurd (omega (arith, least b fits.0 low)),
                  )
            | inr e3 ↦
                rw (e, e2, e3)
                  (onward first last at k (find_low fuel used last units al (at + k + 1))
                    (λ b low high fits.
                      blocked at k b (ground (arith, f.at_most))
                        (f.used_after (ground (arith, f.at_most))) (least b fits.0 low) high fits)
                    above later)
          ]
        ]
      ]

  abbrev pub Highest : ℕ → Option ℕ → Type 0
  Highest high none = (b : ℕ) → b ≤ high → Fits used units al b → ⊥
  Highest high (some at) =
      (at ≤ high) × Fits used units al at × ((b : ℕ) → at < b → b ≤ high → Fits used units al b → ⊥)

  below_multiple : (a b : ℕ) → a % al ≡ 0 → b % al ≡ 0 → b < a → b + al ≤ a
  below_multiple a b ha hb less =
      let le = quotient_lt al b (a / al) hb (omega (arith, multiple-eq al a ha)) in
      omega
        (arith, multiples_apart al (a / al) (b / al) le, multiple-eq al a ha, multiple-eq al b hb)

  downward :
      (first lower : ℕ) (r : Option ℕ)
      → ((b : ℕ) → lower < b → b ≤ first → Fits used units al b → ⊥)
      → lower ≤ first
      → Highest lower r
      → Highest first r
  downward first lower none passed low later = λ b below fits. elim (Bool-cases (leb b lower)) [
    | inl e ↦ later b (ground arith) fits
    | inr e ↦ passed b (ground arith) below fits
  ]
  downward first lower (some at) passed low (high, fits, most) = (
    omega arith,
    fits,
    λ b above below other. elim (Bool-cases (leb b lower)) [
      | inl e ↦ most b above (ground arith) other
      | inr e ↦ passed b (ground arith) below other
    ],
  )

  pub find_high_lem :
      (fuel first : ℕ)
      → first % al ≡ 0
      → first < fuel
      → Highest first (find_high fuel used units al first)
  unfolding find_high
  find_high_lem zero first aligned enough = absurd (omega arith)
  find_high_lem (suc fuel) first aligned enough =
      let f = free_units_lem used first units in
      let k = free_units used first units in
      let (below, multiple, most) = align_down_lem (first - al) al some_al in
      elim (Bool-cases (k == units)) [
        | inl e ↦ rw e (
          omega arith,
          (aligned, λ j h. f.free_before j (ground arith)),
          λ b above low fits. absurd (omega arith),
        )
        | inr e ↦
            let refused : Fits used units al first → ⊥ =
              blocked first k first (ground (arith, f.at_most))
                (f.used_after (ground (arith, f.at_most))) (omega arith) (omega arith) in
            let lower : (b : ℕ) → b % al ≡ 0 → b < first → b + al ≤ first =
              λ b h. below_multiple first b aligned h in
            elim (Bool-cases (ltb first al)) [
              | inl small ↦
                  rw (e, small)
                    (λ b low fits. elim (Bool-cases (b == first)) [
                      | inl same ↦
                          refused (subst (Fits used units al) ((==_iff b first).0 same) fits)
                      | inr other ↦ absurd (ground (arith, lower b fits.0))
                    ])
              | inr large ↦
                  rw (e, large)
                    (downward first (align_down (first - al) al)
                      (find_high fuel used units al (align_down (first - al) al))
                      (λ b above low fits. elim (Bool-cases (b == first)) [
                        | inl same ↦
                            refused (subst (Fits used units al) ((==_iff b first).0 same) fits)
                        | inr other ↦ absurd (ground (arith, lower b fits.0, most b fits.0))
                      ])
                      (omega arith)
                      (find_high_lem fuel (align_down (first - al) al) multiple (ground arith)))
            ]
      ]

-- What a search gives: the lowest or the highest place in the bank where the units fit, and none only
-- when they fit nowhere.
abbrev pub Searched : (ℕ → Bool) → ℕ → ℕ → ℕ → Bool → Option ℕ → Type 0
Searched used active units al high none = (b : ℕ) → b + units ≤ active → Fits used units al b → ⊥
Searched used active units al high (some at) =
    (at + units ≤ active)
    × Fits used units al at
    × ((b : ℕ) → b + units ≤ active → Fits used units al b → if high then b ≤ at else at ≤ b)

found_high :
    (used : ℕ → Bool) (active units al : ℕ) (some_al : 0 < al) (some_units : 0 < units) (top : ℕ)
    (r : Option ℕ)
    → units ≤ active
    → top ≤ active - units
    → ((b : ℕ) → b % al ≡ 0 → b ≤ active - units → b ≤ top)
    → Highest used units al some_al some_units top r
    → Searched used active units al true r
found_high used active units al some_al some_units top none le low most h =
    λ b within fits. h b (most b fits.0 (omega arith)) fits
found_high used active units al some_al some_units top (some at) le low most (high, fits, last) = (
  omega arith,
  fits,
  λ b within other. elim (Bool-cases (leb b at)) [
    | inl e ↦ ground arith
    | inr e ↦ absurd (last b (ground arith) (most b other.0 (omega arith)) other)
  ],
)

found_low :
    (used : ℕ → Bool) (active units al : ℕ) (some_al : 0 < al) (some_units : 0 < units)
    (r : Option ℕ)
    → units ≤ active
    → Lowest used units al some_al some_units 0 (active - units) r
    → Searched used active units al false r
found_low used active units al some_al some_units none le h =
    λ b within fits. h b (omega arith) (omega arith) fits
found_low used active units al some_al some_units (some at) le (low, high, fits, least) = (
  omega arith,
  fits,
  λ b within other. elim (Bool-cases (leb at b)) [
    | inl e ↦ ground arith
    | inr e ↦ absurd (least b (omega arith) (ground arith) other)
  ],
)

-- The search of the heap donor gives the lowest place (or the highest, from the high end) that has the
-- alignment and so many free units in the bank, and none only when there is no such place.
pub find_free_lem :
    (used : ℕ → Bool) (active units al : ℕ) (high : Bool)
    → is_power al ≡ true
    → 0 < units
    → units ≤ active
    → Searched used active units al high (find_free used active units al high)
unfolding find_free
find_free_lem used active units al high power some_units le =
    let some_al : 0 < al = ground arith in
    let checks : (units == 0 || (not (is_power al) || ltb active units)) ≡ false = ground arith in
    by_end high checks
  where
    by_end :
        (high : Bool)
        → (units == 0 || (not (is_power al) || ltb active units)) ≡ false
        → Searched used active units al high (find_free used active units al high)
    by_end true checks =
        let some_al : 0 < al = ground arith in
        let (low, aligned, most) = align_down_lem (active - units) al some_al in
        rw checks (
          found_high used active units al some_al some_units (align_down (active - units) al)
            (find_high (active + 1) used units al (align_down (active - units) al)) le low most
            (find_high_lem used units al some_al some_units (active + 1)
              (align_down (active - units) al) aligned (omega (arith, low))))
    by_end false checks =
        let some_al : 0 < al = ground arith in
        rw checks (
          found_low used active units al some_al some_units
            (find_low (active + 1) used (active - units) units al 0) le
            (find_low_lem used units al some_al some_units (active + 1) (active - units) 0
              (omega arith)))
