-- ===== src/Pool/Links.antt =====
-- Cells linked in, taken out and changed: the steps that the operations on extents are made of.
use genshinimpact_nx.Base.{ℕ, ◌+◌, ◌≤◌, ◌≡◌, refl, false, [], ◌∷◌, arith, ◌==◌, if◌then◌else◌}
use genshinimpact_nx.Pool.Extents.{Extent, write, set_next, set_previous, link_previous}
use genshinimpact_nx.Pool.Cells.{
  Cell, Cells, first_or, last_or, one_if, count_cells, extent_of, Seg, frame, relink_front,
  relink_back, apart, nonzero, last-counted,
}

-- `link_next` without its branch for the head.
abbrev pub bridge : ℕ → ℕ → (ℕ → Extent) → ℕ → Extent
bridge p v m = if p == 0 then m else set_next p v m

-- A cell between two segments.
abbrev pub linked_in : (ℕ → Extent) → Cells → Cell → Cells → ℕ → Extent
linked_in m pre d post =
    link_previous (first_or 0 post) d.node (
      bridge (last_or 0 pre) d.node
        (write d.node (extent_of d (last_or 0 pre) (first_or 0 post)) m))

module _ (m : ℕ → Extent) (d : Cell) where
  not_new : (a : ℕ) → one_if (a == d.node) ≡ 0 → (a == d.node) ≡ false
  not_new a h = ground arith

  pub linked_in-pre :
      (pre post : Cells)
      → ((a : ℕ) → count_cells a pre + count_cells a post + one_if (a == d.node) ≤ 1)
      → count_cells 0 pre + count_cells 0 post ≡ 0
      → Seg m 0 pre (first_or 0 post)
      → Seg (linked_in m pre d post) 0 pre d.node
  linked_in-pre [] post once none0 s = tt
  linked_in-pre (c ∷ cs) [] once none0 s =
      frame (set_next (last_or 0 (c ∷ cs)) d.node m) (linked_in m (c ∷ cs) d []) 0 (c ∷ cs) d.node
        (relink_back m 0 d.node c cs 0 s (λ a. omega (arith, once a)))
        (λ a h.
          rw
            (
              nonzero (last_or 0 (c ∷ cs)) (c ∷ cs) (omega (arith, none0)) (last-counted c cs),
              not_new a (omega (arith, once a)),
            )
            refl)
  linked_in-pre (c ∷ cs) (b ∷ bs) once none0 s =
      frame (set_next (last_or 0 (c ∷ cs)) d.node m) (linked_in m (c ∷ cs) d (b ∷ bs)) 0 (c ∷ cs)
        d.node (relink_back m 0 d.node c cs b.node s (λ a. omega (arith, once a)))
        (λ a h.
          rw
            (
              nonzero b.node (b ∷ bs) (omega (arith, none0)) (ground arith),
              nonzero (last_or 0 (c ∷ cs)) (c ∷ cs) (omega (arith, none0)) (last-counted c cs),
              apart a b.node (b ∷ bs) (omega (arith, once a)) (ground arith),
              not_new a (omega (arith, once a)),
            )
            refl)

  pub linked_in-post :
      (pre post : Cells)
      → ((a : ℕ) → count_cells a pre + count_cells a post + one_if (a == d.node) ≤ 1)
      → count_cells 0 pre + count_cells 0 post ≡ 0
      → Seg m (last_or 0 pre) post 0
      → Seg (linked_in m pre d post) d.node post 0
  linked_in-post pre [] once none0 s = tt
  linked_in-post [] (b ∷ bs) once none0 s =
      frame (set_previous b.node d.node m) (linked_in m [] d (b ∷ bs)) d.node (b ∷ bs) 0
        (relink_front m 0 d.node (b ∷ bs) 0 s (λ a. omega (arith, once a)))
        (λ a h. ground (arith, once a, none0))
  linked_in-post (c ∷ cs) (b ∷ bs) once none0 s =
      frame (set_previous b.node d.node m) (linked_in m (c ∷ cs) d (b ∷ bs)) d.node (b ∷ bs) 0
        (relink_front m (last_or 0 (c ∷ cs)) d.node (b ∷ bs) 0 s (λ a. omega (arith, once a)))
        (λ a h. ground (arith, once a, none0, last-counted c cs))

  pub linked_in-node :
      (pre post : Cells)
      → ((a : ℕ) → count_cells a pre + count_cells a post + one_if (a == d.node) ≤ 1)
      → linked_in m pre d post d.node ≡ extent_of d (last_or 0 pre) (first_or 0 post)
  linked_in-node [] [] once = ground arith
  linked_in-node [] (b ∷ bs) once = ground (arith, once d.node)
  linked_in-node (c ∷ cs) [] once = ground (arith, once d.node, last-counted c cs)
  linked_in-node (c ∷ cs) (b ∷ bs) once = ground (arith, once d.node, last-counted c cs)

-- The two segments around a cell, joined.
abbrev pub taken_out : (ℕ → Extent) → Cells → Cells → ℕ → Extent
taken_out m pre post =
    link_previous (first_or 0 post) (last_or 0 pre) (bridge (last_or 0 pre) (first_or 0 post) m)

module _ (m : ℕ → Extent) (p : ℕ) where
  pub taken_out-pre :
      (pre post : Cells)
      → ((a : ℕ) → count_cells a pre + count_cells a post ≤ 1)
      → count_cells 0 pre + count_cells 0 post ≡ 0
      → Seg m 0 pre p
      → Seg (taken_out m pre post) 0 pre (first_or 0 post)
  taken_out-pre [] post once none0 s = tt
  taken_out-pre (c ∷ cs) [] once none0 s =
      frame (set_next (last_or 0 (c ∷ cs)) 0 m) (taken_out m (c ∷ cs) []) 0 (c ∷ cs) 0
        (relink_back m 0 0 c cs p s (λ a. omega (arith, once a)))
        (λ a h.
          rw (nonzero (last_or 0 (c ∷ cs)) (c ∷ cs) (omega (arith, none0)) (last-counted c cs))
            refl)
  taken_out-pre (c ∷ cs) (b ∷ bs) once none0 s =
      frame (set_next (last_or 0 (c ∷ cs)) b.node m) (taken_out m (c ∷ cs) (b ∷ bs)) 0 (c ∷ cs)
        b.node (relink_back m 0 b.node c cs p s (λ a. omega (arith, once a)))
        (λ a h.
          rw
            (
              nonzero b.node (b ∷ bs) (omega (arith, none0)) (ground arith),
              nonzero (last_or 0 (c ∷ cs)) (c ∷ cs) (omega (arith, none0)) (last-counted c cs),
              apart a b.node (b ∷ bs) (omega (arith, once a)) (ground arith),
            )
            refl)

  pub taken_out-post :
      (pre post : Cells)
      → ((a : ℕ) → count_cells a pre + count_cells a post ≤ 1)
      → count_cells 0 pre + count_cells 0 post ≡ 0
      → Seg m p post 0
      → Seg (taken_out m pre post) (last_or 0 pre) post 0
  taken_out-post pre [] once none0 s = tt
  taken_out-post [] (b ∷ bs) once none0 s =
      frame (set_previous b.node 0 m) (taken_out m [] (b ∷ bs)) 0 (b ∷ bs) 0
        (relink_front m p 0 (b ∷ bs) 0 s (λ a. omega (arith, once a)))
        (λ a h. rw (nonzero b.node (b ∷ bs) (omega (arith, none0)) (ground arith)) refl)
  taken_out-post (c ∷ cs) (b ∷ bs) once none0 s =
      let last = last_or 0 (c ∷ cs) in
      frame (set_previous b.node last m) (taken_out m (c ∷ cs) (b ∷ bs)) last (b ∷ bs) 0
        (relink_front m p last (b ∷ bs) 0 s (λ a. omega (arith, once a)))
        (λ a h.
          rw
            (
              nonzero b.node (b ∷ bs) (omega (arith, none0)) (ground arith),
              nonzero last (c ∷ cs) (omega (arith, none0)) (last-counted c cs),
              apart a last (c ∷ cs) (omega (arith, once a)) (last-counted c cs),
            )
            refl)

-- Neither step touches a node that is not linked.
pub linked_in-other :
    (m : ℕ → Extent) (pre post : Cells) (d : Cell) (a : ℕ)
    → count_cells a pre + count_cells a post ≡ 0
    → (a == d.node) ≡ false
    → linked_in m pre d post a ≡ m a
linked_in-other m [] [] d a out new = rw new refl
linked_in-other m [] (b ∷ bs) d a out new = ground (arith, out, new)
linked_in-other m (c ∷ cs) [] d a out new =
    ground
      (arith, new, apart a (last_or 0 (c ∷ cs)) (c ∷ cs) (omega (arith, out)) (last-counted c cs))
linked_in-other m (c ∷ cs) (b ∷ bs) d a out new = ground (
  arith,
  new,
  apart a (last_or 0 (c ∷ cs)) (c ∷ cs) (omega (arith, out)) (last-counted c cs),
  apart a b.node (b ∷ bs) (omega (arith, out)) (ground arith),
)

pub taken_out-other :
    (m : ℕ → Extent) (pre post : Cells) (a : ℕ)
    → count_cells a pre + count_cells a post ≡ 0
    → taken_out m pre post a ≡ m a
taken_out-other m [] [] a out = refl
taken_out-other m [] (b ∷ bs) a out = ground (arith, out)
taken_out-other m (c ∷ cs) [] a out =
    ground (arith, apart a (last_or 0 (c ∷ cs)) (c ∷ cs) (omega (arith, out)) (last-counted c cs))
taken_out-other m (c ∷ cs) (b ∷ bs) a out = ground (
  arith,
  apart a (last_or 0 (c ∷ cs)) (c ∷ cs) (omega (arith, out)) (last-counted c cs),
  apart a b.node (b ∷ bs) (omega (arith, out)) (ground arith),
)
