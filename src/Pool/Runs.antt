-- ===== src/Pool/Runs.antt =====
-- The runs of free pages that cells describe: apart from each other, and so never more than half of
-- the pages.
use genshinimpact_nx.Base.{
  ℕ, ◌+◌, ◌*◌, ◌≤◌, ◌<◌, ◌≡◌, refl, ap, ◌⊎◌, inl, inr, Bool, true, false, ◌&&◌, ◌||◌, [], ◌∷◌, ◌++◌,
  arith, ltb, leb, Bool-cases, length,
}
use genshinimpact_nx.Pool.Cells.{Cell, Cells}

-- From `low` on the cells lie in order below `bound`, none is empty, and no two touch.
abbrev pub Spaced : ℕ → ℕ → Cells → Type 0
Spaced low bound [] = low ≤ bound + 1
Spaced low bound (c ∷ cs) =
    (low ≤ c.first)
    × (0 < c.pages)
    × (c.first + c.pages ≤ bound)
    × Spaced (c.first + c.pages + 1) bound cs

-- An arena of `bound` pages has at most (bound + 1) / 2 runs.
pub Spaced-length :
    (low bound : ℕ) (xs : Cells) → Spaced low bound xs → low + 2 * length xs ≤ bound + 1
Spaced-length low bound [] s = omega arith
Spaced-length low bound (c ∷ cs) (above, some_pages, below, s) =
    omega (arith, Spaced-length (c.first + c.pages + 1) bound cs s)

pub Spaced-middle :
    (low bound : ℕ) (pre xs ys : Cells)
    → ((l : ℕ) → Spaced l bound xs → Spaced l bound ys)
    → Spaced low bound (pre ++ xs)
    → Spaced low bound (pre ++ ys)
Spaced-middle low bound [] xs ys change s = change low s
Spaced-middle low bound (c ∷ pre) xs ys change (above, some_pages, below, s) =
    (above, some_pages, below, Spaced-middle (c.first + c.pages + 1) bound pre xs ys change s)

pub Spaced-lower :
    (low high bound : ℕ) (xs : Cells) → low ≤ high → Spaced high bound xs → Spaced low bound xs
Spaced-lower low high bound [] le s = omega arith
Spaced-lower low high bound (c ∷ cs) le (above, some_pages, below, s) =
    (omega arith, some_pages, below, s)

pub Spaced-tail :
    (low bound : ℕ) (pre xs : Cells)
    → Spaced low bound (pre ++ xs)
    → (l : ℕ) × (low ≤ l) × Spaced l bound xs
Spaced-tail low bound [] xs s = (low, omega arith, s)
Spaced-tail low bound (c ∷ pre) xs (above, some_pages, below, s) =
    let (l, le, t) = Spaced-tail (c.first + c.pages + 1) bound pre xs s in (l, omega arith, t)

-- Whether a page lies in so many pages from `first` on.
abbrev pub in_run : ℕ → ℕ → ℕ → Bool
in_run first pages q = leb first q && ltb q (first + pages)

abbrev pub covers : ℕ → Cells → Bool
covers q [] = false
covers q (c ∷ cs) = in_run c.first c.pages q || covers q cs

pub covers-append : (q : ℕ) (xs ys : Cells) → covers q (xs ++ ys) ≡ (covers q xs || covers q ys)
covers-append q [] ys = refl
covers-append q (c ∷ cs) ys = ground (arith, covers-append q cs ys)

-- What follows lies at `low` or above.
pub covers-low : (low bound q : ℕ) (xs : Cells) → Spaced low bound xs → covers q xs ≡ true → low ≤ q
covers-low low bound q [] s h = absurd (ground arith)
covers-low low bound q (c ∷ cs) (above, some_pages, below, s) h = elim (Bool-cases (covers q cs)) [
  | inl e ↦ omega (arith, covers-low (c.first + c.pages + 1) bound q cs s e)
  | inr e ↦ ground arith
]

pub covers-bound :
    (low bound q : ℕ) (xs : Cells) → Spaced low bound xs → covers q xs ≡ true → q < bound
covers-bound low bound q [] s h = absurd (ground arith)
covers-bound low bound q (c ∷ cs) (above, some_pages, below, s) h =
    elim (Bool-cases (covers q cs)) [
      | inl e ↦ covers-bound (c.first + c.pages + 1) bound q cs s e
      | inr e ↦ ground arith
    ]

-- The cells before a cell lie below it, with a page between.
pub covers-before :
    (low bound q : ℕ) (pre : Cells) (c : Cell) (post : Cells)
    → Spaced low bound (pre ++ c ∷ post)
    → covers q pre ≡ true
    → q + 1 < c.first
covers-before low bound q [] c post s h = absurd (ground arith)
covers-before low bound q (b ∷ pre) c post (above, some_pages, below, s) h =
    elim (Bool-cases (covers q pre)) [
      | inl e ↦ covers-before (b.first + b.pages + 1) bound q pre c post s e
      | inr e ↦
          let (l, le, (at, full, end, rest)) =
            Spaced-tail (b.first + b.pages + 1) bound pre (c ∷ post) s in
          ground arith
    ]

pub covers-behind :
    (low bound q : ℕ) (pre : Cells) (c : Cell) (post : Cells)
    → Spaced low bound (pre ++ c ∷ post)
    → covers q post ≡ true
    → c.first + c.pages < q
covers-behind low bound q pre c post s h =
    let (l, le, (above, some_pages, below, t)) = Spaced-tail low bound pre (c ∷ post) s in
    omega (arith, covers-low (c.first + c.pages + 1) bound q post t h)

-- The cells lie in order from `low` on, and end before `high` with a page between.
abbrev pub SpacedTo : ℕ → Cells → ℕ → Type 0
SpacedTo low [] high = low ≤ high
SpacedTo low (c ∷ cs) high =
    (low ≤ c.first) × (0 < c.pages) × SpacedTo (c.first + c.pages + 1) cs high

pub Spaced-split :
    (low bound : ℕ) (pre : Cells) (c : Cell) (post : Cells)
    → Spaced low bound (pre ++ c ∷ post)
    → SpacedTo low pre c.first
      × (0 < c.pages)
      × (c.first + c.pages ≤ bound)
      × Spaced (c.first + c.pages + 1) bound post
Spaced-split low bound [] c post s = s
Spaced-split low bound (b ∷ pre) c post (above, some_pages, below, s) =
    let (front, full, end, back) = Spaced-split (b.first + b.pages + 1) bound pre c post s in
    ((above, some_pages, front), full, end, back)

SpacedTo-first : (low : ℕ) (pre : Cells) (high : ℕ) → SpacedTo low pre high → low ≤ high
SpacedTo-first low [] high s = s
SpacedTo-first low (c ∷ cs) high (above, some_pages, s) =
    omega (arith, SpacedTo-first (c.first + c.pages + 1) cs high s)

pub Spaced-join :
    (low bound : ℕ) (pre : Cells) (c : Cell) (post : Cells)
    → SpacedTo low pre c.first
    → 0 < c.pages
    → c.first + c.pages ≤ bound
    → Spaced (c.first + c.pages + 1) bound post
    → Spaced low bound (pre ++ c ∷ post)
Spaced-join low bound [] c post front some_pages below back = (front, some_pages, below, back)
Spaced-join low bound (b ∷ pre) c post (above, full, front) some_pages below back = (
  above,
  full,
  omega (arith, SpacedTo-first (b.first + b.pages + 1) pre c.first front),
  Spaced-join (b.first + b.pages + 1) bound pre c post front some_pages below back,
)

-- The cells of `pre` lie before `first`, those of `post` do not.
abbrev pub AllBefore : ℕ → Cells → Type 0
AllBefore first [] = Unit
AllBefore first (c ∷ cs) = (c.first < first) × AllBefore first cs

abbrev pub FromOn : ℕ → Cells → Type 0
FromOn first [] = Unit
FromOn first (c ∷ cs) = first ≤ c.first

abbrev pub Untouched : ℕ → ℕ → Cells → Type 0
Untouched first pages xs = (q : ℕ) → in_run first pages q ≡ true → covers q xs ≡ false

-- A run that touches no cell lies between those before it and those behind it.
pub Spaced-raise :
    (low bound first pages : ℕ) (post : Cells)
    → Spaced low bound post
    → 0 < pages
    → first + pages ≤ bound
    → FromOn first post
    → Untouched first pages post
    → Spaced (first + pages) bound post
Spaced-raise low bound first pages [] s some_pages below from free = omega arith
Spaced-raise low bound first pages (c ∷ cs) (above, full, end, s) some_pages below from free =
    (ground (arith, free c.first), full, end, s)

pub snoc_cases : (xs : Cells) → (xs ≡ []) ⊎ ((pre : Cells) × (b : Cell) × (xs ≡ pre ++ b ∷ []))
snoc_cases [] = inl refl
snoc_cases (c ∷ cs) = elim (snoc_cases cs) [
  | inl e ↦ inr ([], c, ap (c ∷◌) e)
  | inr (pre, b, e) ↦ inr (c ∷ pre, b, ap (c ∷◌) e)
]

pub AllBefore-last :
    (first : ℕ) (pre : Cells) (b : Cell) → AllBefore first (pre ++ b ∷ []) → b.first < first
AllBefore-last first [] b (h, rest) = h
AllBefore-last first (c ∷ cs) b (h, rest) = AllBefore-last first cs b rest

-- The cells before `b` and `b` itself end before `first` with a page between.
pub SpacedTo-snoc :
    (low first : ℕ) (pre : Cells) (b : Cell)
    → SpacedTo low pre b.first
    → 0 < b.pages
    → b.first + b.pages < first
    → SpacedTo low (pre ++ b ∷ []) first
SpacedTo-snoc low first [] b front some_pages below = (front, some_pages, omega arith)
SpacedTo-snoc low first (c ∷ cs) b (above, full, front) some_pages below =
    (above, full, SpacedTo-snoc (c.first + c.pages + 1) first cs b front some_pages below)

pub run_joined :
    (first n m q : ℕ) → in_run first (n + m) q ≡ (in_run first n q || in_run (first + n) m q)
run_joined first n m q = ground arith

pub covers-middle :
    (q : ℕ) (pre xs ys : Cells)
    → covers q xs ≡ covers q ys
    → covers q (pre ++ xs) ≡ covers q (pre ++ ys)
covers-middle q pre xs ys e = rw (covers-append q pre xs, covers-append q pre ys, e) refl

or_regroup : (a b c : Bool) → (a || (b || c)) ≡ ((a || b) || c)
or_regroup true b c = refl
or_regroup false b c = refl

-- Two cells that touch cover what one cell of all their pages does.
pub covers-joined :
    (q : ℕ) (pre : Cells) (x d : Cell) (post : Cells)
    → x.first + x.pages ≡ d.first
    → covers q (pre ++ x ∷ d ∷ post)
      ≡ covers q (pre ++ record x { pages = x.pages + d.pages } ∷ post)
covers-joined q pre x d post touch =
    covers-middle q pre (x ∷ d ∷ post) (record x { pages = x.pages + d.pages } ∷ post) (
      rw (run_joined x.first x.pages d.pages q, touch)
        (or_regroup (leb x.first q && ltb q d.first) (in_run d.first d.pages q) (covers q post)))

or_move : (p i r z : Bool) → (p || ((i || r) || z)) ≡ ((p || (i || z)) || r)
or_move p i r z = ground arith

-- A cell that gets pages at its end covers these too.
pub covers-widened :
    (q : ℕ) (pre : Cells) (b : Cell) (first pages : ℕ) (post : Cells)
    → b.first + b.pages ≡ first
    → covers q (pre ++ record b { pages = b.pages + pages } ∷ post)
      ≡ (covers q (pre ++ b ∷ post) || in_run first pages q)
covers-widened q pre b first pages post touch =
    rw
      (
        covers-append q pre (b ∷ post),
        covers-append q pre (record b { pages = b.pages + pages } ∷ post),
        run_joined b.first b.pages pages q,
        touch,
      )
      (or_move (covers q pre) (leb b.first q && ltb q first) (in_run first pages q) (covers q post))
