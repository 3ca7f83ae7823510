-- ===== src/Pool/Return.antt =====
-- Giving pages back to the free extents.
use genshinimpact_nx.Base.{
  ℕ, zero, suc, ◌+◌, ◌/◌, ◌^◌, ◌≤◌, ◌<◌, ◌≡◌, refl, sym, ap, ◌∙◌, inl, inr, true, false, some, List,
  [], ◌∷◌, ◌++◌, append_assoc, arith, ltb, ◌==◌, ==_iff, Bool-cases, length,
}
use mathlib.Core.Path.{subst}
use genshinimpact_nx.Pool.Extents.{
  Extent, zero_extent, Extents, write, set_next, set_pages, link_previous, extent_node_return,
  find_place, absorb_next,
}
use genshinimpact_nx.Pool.Cells.{
  Cell, Cells, first_or, last_or, count_cells, extent_of, Seg, nonzero, Linked,
}
use genshinimpact_nx.Pool.Moves.{
  same_node, node_here, not_null, returnable, first_or-append, last_or-append, replace_lem,
  remove_lem,
}
use genshinimpact_nx.Pool.Runs.{
  covers-joined, Spaced, Spaced-lower, SpacedTo, Spaced-join, AllBefore, FromOn,
}
use genshinimpact_nx.Pool.Consume.{word_small, Represents, covered}

-- The walk ends between the cells that lie before `first` and the others.
pub record Place (m : ℕ → Extent) (fuel first start : ℕ) (xs : Cells) : Type 0 where
  pub pre : Cells
  pub post : Cells
  pub parts : xs ≡ pre ++ post
  pub found :
      find_place fuel m first start (first_or 0 xs) ≡ some (last_or start pre, first_or 0 post)
  pub before : AllBefore first pre
  pub behind : FromOn first post

pub find_place_lem :
    (m : ℕ → Extent) (fuel first start : ℕ) (xs : Cells)
    → Seg m start xs 0
    → count_cells 0 xs ≡ 0
    → length xs < fuel
    → Place m fuel first start xs
unfolding find_place
find_place_lem m zero first start xs s none0 enough = absurd (omega arith)
find_place_lem m (suc fuel) first start [] s none0 enough = record {
  pre = [];
  post = [];
  parts = refl;
  found = refl;
  before = tt;
  behind = tt;
}
find_place_lem m (suc fuel) first start (c ∷ cs) (e, s) none0 enough =
    let some_node = nonzero c.node (c ∷ cs) none0 (ground arith) in
    let p = find_place_lem m fuel first c.node cs s (omega (arith, none0)) (omega arith) in
    elim (Bool-cases (ltb c.first first)) [
      | inl less ↦ record {
        pre = c ∷ p.pre;
        post = p.post;
        parts = ap (c ∷◌) p.parts;
        found = rw (some_node, e, less) p.found;
        before = (ground arith, p.before);
        behind = p.behind;
      }
      | inr not_less ↦ record {
        pre = [];
        post = c ∷ cs;
        parts = refl;
        found = rw (some_node, e, not_less) refl;
        before = tt;
        behind = ground arith;
      }
    ]

-- An arena in which one run may touch the next.
pub record Touching (bound : ℕ) (s : Extents) (pre : Cells) (x : Cell) (post : Cells) (ps : List ℕ)
    : Type 0 where
  pub linked : Linked s (pre ++ x ∷ post) ps
  pub front : SpacedTo 0 pre x.first
  pub some_pages : 0 < x.pages
  pub below : x.first + x.pages ≤ bound
  pub back : Spaced (x.first + x.pages) bound post
  pub small : bound < 2 ^ 32
  pub room : s.capacity ≡ (bound + 1) / 2

absorb-none-eval :
    (bound : ℕ) (s : Extents) (pre : Cells) (x : Cell) (ps : List ℕ)
    → Touching bound s pre x [] ps
    → absorb_next x.node s ≡ s
unfolding absorb_next
absorb-none-eval bound s pre x ps v = rw (node_here s pre [] x ps v.linked) refl

absorb-none :
    (bound : ℕ) (s : Extents) (pre : Cells) (x : Cell) (ps : List ℕ)
    → Touching bound s pre x [] ps
    → Represents bound (absorb_next x.node s) (covered (pre ++ x ∷ []))
absorb-none bound s pre x ps v = rw (absorb-none-eval bound s pre x ps v) (
  pre ++ x ∷ [],
  ps,
  record {
    linked = v.linked;
    spaced = Spaced-join 0 bound pre x [] v.front v.some_pages v.below (omega (arith, v.below));
    small = v.small;
    room = v.room;
  },
  λ q. refl,
)

module _ (bound : ℕ) (s : Extents) (pre : Cells) (x d : Cell) (post : Cells) (ps : List ℕ)
    (v : Touching bound s pre x (d ∷ post) ps) where
  after_x : Linked s ((pre ++ x ∷ []) ++ d ∷ post) ps
  after_x = subst (λ xs. Linked s xs ps) (sym (append_assoc pre (x ∷ []) (d ∷ post))) v.linked

  next_here : s.nodes d.node ≡ extent_of d x.node (first_or 0 post)
  next_here =
      node_here s (pre ++ x ∷ []) post d ps after_x
      ∙ ap (λ p. extent_of d p (first_or 0 post)) (last_or-append 0 pre x)

  absorb-apart-eval : (x.first + x.pages == d.first) ≡ false → absorb_next x.node s ≡ s
  unfolding absorb_next
  absorb-apart-eval gap =
      rw
        (
          node_here s pre (d ∷ post) x ps v.linked,
          next_here,
          not_null s (pre ++ x ∷ []) post d ps after_x,
          gap,
        )
        refl

  absorb-apart :
      (x.first + x.pages == d.first) ≡ false
      → Represents bound (absorb_next x.node s) (covered (pre ++ x ∷ d ∷ post))
  absorb-apart gap =
      let (low, full, end, back) = v.back in
      rw (absorb-apart-eval gap) (
        pre ++ x ∷ d ∷ post,
        ps,
        record {
          linked = v.linked;
          spaced =
              Spaced-join 0 bound pre x (d ∷ post) v.front v.some_pages v.below
                (ground arith, full, end, back);
          small = v.small;
          room = v.room;
        },
        λ q. refl,
      )

  -- The state with the two cells joined.
  abbrev joined : Extents
  joined = record s {
    nodes =
        write d.node (record zero_extent { next = s.free_head })
          (link_previous (first_or 0 post) x.node
            (set_next x.node (first_or 0 post) (set_pages x.node (x.pages + d.pages) s.nodes)));
    free_head = d.node;
    free_count = s.free_count + 1;
  }

  absorb-joined-eval : (x.first + x.pages == d.first) ≡ true → absorb_next x.node s ≡ joined
  unfolding absorb_next extent_node_return
  absorb-joined-eval touch =
      let (low, full, end, back) = v.back in
      let small = v.small in
      rw
        (
          node_here s pre (d ∷ post) x ps v.linked,
          next_here,
          not_null s (pre ++ x ∷ []) post d ps after_x,
          touch,
          returnable s (pre ++ x ∷ []) post d ps after_x,
          word_small (x.pages + d.pages) (ground (arith, touch)),
        )
        refl

  absorb-joined :
      (x.first + x.pages == d.first) ≡ true
      → Represents bound (absorb_next x.node s) (covered (pre ++ x ∷ d ∷ post))
  absorb-joined touch =
      let y : Cell = record x { pages = x.pages + d.pages } in
      let (low, full, end, back) = v.back in
      let here = node_here s pre (d ∷ post) x ps v.linked in
      let g = set_pages x.node (x.pages + d.pages) s.nodes in
      let wider : Linked (record s { nodes = g }) (pre ++ y ∷ d ∷ post) ps =
        replace_lem s pre (d ∷ post) x x.first (x.pages + d.pages) ps g v.linked
          (rw (same_node x.node) (ap (λ (e : Extent). record e { pages = x.pages + d.pages }) here))
          (λ a ne. rw ne refl) in
      let assoc = append_assoc pre (y ∷ []) (d ∷ post) in
      let assoc' = append_assoc pre (y ∷ []) post in
      let linked : Linked joined ((pre ++ y ∷ []) ++ post) (d.node ∷ ps) =
        remove_lem (record s { nodes = g }) joined (pre ++ y ∷ []) post d ps
          (subst (λ xs. Linked (record s { nodes = g }) xs ps) (sym assoc) wider)
          (λ a. rw (last_or-append 0 pre y, not_null s pre (d ∷ post) x ps v.linked) refl)
          (v.linked.head_is
            ∙ first_or-append pre (x ∷ d ∷ post) (y ∷ post) refl
            ∙ sym (ap (first_or 0) assoc'))
          refl refl refl in
      rw (absorb-joined-eval touch) (
        pre ++ y ∷ post,
        d.node ∷ ps,
        record {
          linked = subst (λ xs. Linked joined xs (d.node ∷ ps)) assoc' linked;
          spaced =
              Spaced-join 0 bound pre y post v.front (omega (arith, v.some_pages))
                (ground (arith, touch, end))
                (Spaced-lower _ _ bound post (ground (arith, touch)) back);
          small = v.small;
          room = v.room;
        },
        λ q. covers-joined q pre x d post ((==_iff (x.first + x.pages) d.first).0 touch),
      )

pub absorb_lem :
    (bound : ℕ) (s : Extents) (pre : Cells) (x : Cell) (post : Cells) (ps : List ℕ)
    → Touching bound s pre x post ps
    → Represents bound (absorb_next x.node s) (covered (pre ++ x ∷ post))
absorb_lem bound s pre x [] ps v = absorb-none bound s pre x ps v
absorb_lem bound s pre x (d ∷ post) ps v = elim (Bool-cases (x.first + x.pages == d.first)) [
  | inl touch ↦ absorb-joined bound s pre x d post ps v touch
  | inr gap ↦ absorb-apart bound s pre x d post ps v gap
]
