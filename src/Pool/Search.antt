-- ===== src/Pool/Search.antt =====
-- The search for a free extent: the one that fits best, and in it the highest aligned place.
use genshinimpact_nx.Base.{
  ℕ, zero, suc, ◌+◌, ◌-◌, ◌*◌, ◌/◌, ◌≤◌, ◌<◌, ◌≡◌, refl, sym, ap, ◌∙◌, ◌⊎◌, inl, inr, Bool, true,
  false, ◌&&◌, ◌||◌, Option, none, some, List, [], ◌∷◌, ◌++◌, append_assoc, arith, ltb, ◌==◌,
  if◌then◌else◌, Bool-cases, length, ◌>>=◌,
}
use mathlib.Core.Path.{subst}
use genshinimpact_nx.Pool.Extents.{Extent, Extents}
use genshinimpact_nx.Pool.Cells.{Cell, Cells, first_or, Seg, count_cells, nonzero}
use genshinimpact_nx.Pool.Donor.{align_down, size_max}
use genshinimpact_nx.Pool.Extents.{consume_extent}
use genshinimpact_nx.Pool.Runs.{in_run, covers, covers-append}
use genshinimpact_nx.Pool.Consume.{IsArena, Consumed, covered, consume_extent_lem}
use genshinimpact_nx.Pool.Backing.{mmap_page}

-- The best extent so far; node 0 is none.
pub record Best : Type 0 where
  pub node : ℕ
  pub first : ℕ
  pub waste : ℕ

abbrev pub no_best : Best
no_best = record { node = 0; first = 0; waste = size_max }

-- The highest aligned place in an extent, when there is one.
unfoldable pub latest_place : ℕ → ℕ → ℕ → Extent → Option ℕ
latest_place base need alignment extent =
    let latest_first = extent.first_page + extent.pages - need in
    let aligned = align_down (base + latest_first * mmap_page) alignment in
    let first = (aligned - base) / mmap_page in
    if ltb extent.pages need
    then none
    else if ltb aligned base
    then none
    else if ltb first extent.first_page || ltb latest_first first
    then none
    else some first

-- Less waste is better, and then the higher place.
unfoldable pub is_better : ℕ → Best → Option ℕ → Bool
is_better waste best none = false
is_better waste best (some first) =
    ltb waste best.waste || waste == best.waste && ltb best.first first

unfoldable pub take_better : ℕ → ℕ → Best → Option ℕ → Best
unfolding is_better
take_better node waste best none = best
take_better node waste best (some first) =
    if is_better waste best (some first)
    then record { node = node; first = first; waste = waste }
    else best

-- The walk ends at an extent without waste. `none` is running out of fuel.
unfoldable pub find_from : ℕ → (ℕ → Extent) → ℕ → ℕ → ℕ → ℕ → Best → Option Best
unfolding latest_place is_better take_better
find_from zero m base need alignment node best = none
find_from (suc fuel) m base need alignment node best =
    let extent = m node in
    let waste = extent.pages - need in
    let place = latest_place base need alignment extent in
    let now = take_better node waste best place in
    let later = find_from fuel m base need alignment extent.next now in
    if node == 0
    then some best
    else if is_better waste best place && waste == 0
    then some now
    else later

-- `oc_dynamic_find_extent_locked`: the node, 0 for none, and the first page.
unfoldable pub find_extent : ℕ → ℕ → ℕ → Extents → Option (ℕ × ℕ)
unfolding find_from
find_extent base need alignment s = do
  best ← find_from (s.capacity + 1) s.nodes base need alignment s.head no_best
  some (best.node, best.first)

-- An extent among the cells that holds the pages.
pub record Holds (xs : Cells) (need : ℕ) (best : Best) : Type 0 where
  pub pre : Cells
  pub post : Cells
  pub cell : Cell
  pub parts : xs ≡ pre ++ cell ∷ post
  pub same_node : cell.node ≡ best.node
  pub from : cell.first ≤ best.first
  pub to : best.first + need ≤ cell.first + cell.pages

abbrev place_of : Option ℕ → ℕ
place_of none = 0
place_of (some n) = n

refused_not :
    {A : Type 0} (b : Bool) (x : Option A) (a : A)
    → (if b then none else x) ≡ some a
    → (b ≡ false) × (x ≡ some a)
refused_not true x a h = absurd (ground (arith, h))
refused_not false x a h = (refl, h)

-- A place that is found lies in the extent.
latest_place_lem :
    (base need alignment first : ℕ) (e : Extent)
    → latest_place base need alignment e ≡ some first
    → (e.first_page ≤ first) × (first + need ≤ e.first_page + e.pages)
unfolding latest_place
latest_place_lem base need alignment first e h =
    let latest_first = e.first_page + e.pages - need in
    let aligned = align_down (base + latest_first * mmap_page) alignment in
    let found = (aligned - base) / mmap_page in
    let (fits, h2) = refused_not (ltb e.pages need) _ first h in
    let (above, h3) = refused_not (ltb aligned base) _ first h2 in
    let (inside, h4) = refused_not (ltb found e.first_page || ltb latest_first found) _ first h3 in
    let same : found ≡ first = ap place_of h4 in
    (ground (arith, inside, same), ground (arith, inside, same, fits))

take_better-Holds :
    (node waste need : ℕ) (best : Best) (place : Option ℕ) (xs pre post : Cells) (c : Cell)
    → xs ≡ pre ++ c ∷ post
    → c.node ≡ node
    → ((first : ℕ) → place ≡ some first → (c.first ≤ first) × (first + need ≤ c.first + c.pages))
    → (best.node ≡ 0) ⊎ Holds xs need best
    → ((take_better node waste best place).node ≡ 0)
      ⊎ Holds xs need (take_better node waste best place)
unfolding take_better is_better
take_better-Holds node waste need best none xs pre post c parts same_node lies held = held
take_better-Holds node waste need best (some first) xs pre post c parts same_node lies held =
    elim (Bool-cases (ltb waste best.waste || waste == best.waste && ltb best.first first)) [
      | inr e ↦ rw e held
      | inl e ↦
          let (low, high) = lies first refl in
          rw e (
            inr (record {
              pre = pre;
              post = post;
              cell = c;
              parts = parts;
              same_node = same_node;
              from = low;
              to = high;
            }))
    ]

-- The walk from the node of the first of the cells that are left.
find_from_lem :
    (m : ℕ → Extent) (base need alignment : ℕ) (xs : Cells)
    → count_cells 0 xs ≡ 0
    → (fuel : ℕ) (pre post : Cells) (start : ℕ) (best : Best) → xs ≡ pre ++ post
    → Seg m start post 0
    → count_cells 0 post ≡ 0
    → length post < fuel
    → (best.node ≡ 0) ⊎ Holds xs need best
    → (r : Best) × (find_from fuel m base need alignment (first_or 0 post) best ≡ some r)
      × ((r.node ≡ 0) ⊎ Holds xs need r)
unfolding find_from
find_from_lem m base need alignment xs none0 zero pre post start best parts s none1 enough held =
    absurd (omega arith)
find_from_lem m base need alignment xs none0 (suc fuel) pre [] start best parts s none1 enough
      held =
    (best, refl, held)
find_from_lem m base need alignment xs none0 (suc fuel) pre (c ∷ cs) start best parts (e, s) none1
      enough held =
    let extent = m c.node in
    let waste = extent.pages - need in
    let place = latest_place base need alignment extent in
    let now = take_better c.node waste best place in
    let some_node : (c.node == 0) ≡ false = nonzero c.node (c ∷ cs) none1 (ground arith) in
    let better =
      take_better-Holds c.node waste need best place xs pre cs c parts refl
        (λ first found.
          let low_high = latest_place_lem base need alignment first extent found in
          subst (λ (x : Extent). (x.first_page ≤ first) × (first + need ≤ x.first_page + x.pages)) e
            low_high)
        held in
    elim (Bool-cases (is_better waste best place && waste == 0)) [
      | inl stop ↦ (now, rw (some_node, stop) refl, better)
      | inr go ↦
          let (r, run, kept) =
            find_from_lem m base need alignment xs none0 fuel (pre ++ c ∷ []) cs c.node now
              (parts ∙ sym (append_assoc pre (c ∷ []) cs)) s (omega (arith, none1)) (omega arith)
              better in
          let next : extent.next ≡ first_or 0 cs = ap (λ (x : Extent). x.next) e in
          let run2 : find_from fuel m base need alignment extent.next now ≡ some r =
            ap (λ n. find_from fuel m base need alignment n now) next ∙ run in
          (r, walked fuel best r some_node go run2, kept)
    ]
  where
    walked :
        (fuel : ℕ) (best r : Best)
        → (c.node == 0) ≡ false
        → (is_better ((m c.node).pages - need) best (latest_place base need alignment (m c.node))
            && (m c.node).pages - need == 0)
          ≡ false
        → find_from fuel m base need alignment (m c.node).next (
            take_better c.node
              ((m c.node).pages - need)
              best
              (latest_place base need alignment (m c.node)))
          ≡ some r
        → find_from (suc fuel) m base need alignment c.node best ≡ some r
    walked fuel best r some_node go run = rw (some_node, go) run

-- The pages that the search finds can be taken out of the extent that it names.
abbrev pub Found : ℕ → Extents → Cells → ℕ → ℕ × ℕ → Type 0
Found bound s xs need (node, first) =
    (node ≡ 0)
    ⊎ (Consumed bound first need (covered xs) (consume_extent node first need s)
        × ((q : ℕ) → in_run first need q ≡ true → covers q xs ≡ true))

Holds-Found :
    (bound : ℕ) (s : Extents) (xs : Cells) (ps : List ℕ) (need : ℕ) (best : Best)
    → IsArena bound s xs ps
    → 0 < need
    → Holds xs need best
    → Found bound s xs need (best.node, best.first)
Holds-Found bound s xs ps need best v some_need h =
    let w = subst (λ ys. IsArena bound s ys ps) h.parts v in
    let taken =
      consume_extent_lem bound s h.pre h.post h.cell ps w best.first need h.from some_need h.to in
    inr (
      subst (λ n. Consumed bound best.first need (covered xs) (consume_extent n best.first need s))
          h.same_node
          (subst
            (λ ys.
              Consumed bound best.first need (covered ys)
                (consume_extent h.cell.node best.first need s))
            (sym h.parts) taken),
      λ q inside.
          ap (covers q) h.parts
          ∙ covers-append q h.pre (h.cell ∷ h.post)
          ∙ ground (arith, inside, h.from, h.to),
    )

find_extent-run :
    (base need alignment : ℕ) (s : Extents) (r : Best)
    → find_from (s.capacity + 1) s.nodes base need alignment s.head no_best ≡ some r
    → find_extent base need alignment s ≡ some (r.node, r.first)
unfolding find_extent
find_extent-run base need alignment s r run = rw run refl

pub find_extent_lem :
    (bound : ℕ) (s : Extents) (xs : Cells) (ps : List ℕ) (base need alignment : ℕ)
    → IsArena bound s xs ps
    → 0 < need
    → (r : ℕ × ℕ) × (find_extent base need alignment s ≡ some r) × Found bound s xs need r
find_extent_lem bound s xs ps base need alignment v some_need =
    let l = v.linked in
    let none0 : count_cells 0 xs ≡ 0 = omega (arith, l.each 0) in
    let (r, run, kept) =
      find_from_lem s.nodes base need alignment xs none0 (s.capacity + 1) [] xs 0 no_best refl
        l.chain none0 (omega (arith, l.total)) (inl refl) in
    (
      (r.node, r.first),
      find_extent-run base need alignment s r (
          ap (λ n. find_from (s.capacity + 1) s.nodes base need alignment n no_best) l.head_is
          ∙ run),
      elim kept [ inl e ↦ inl e | inr h ↦ Holds-Found bound s xs ps need r v some_need h ],
    )
