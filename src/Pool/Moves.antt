-- ===== src/Pool/Moves.antt =====
-- The steps of Pool/Links on the whole state: cells changed, linked in and taken out.
use genshinimpact_nx.Base.{
  ℕ, suc, ◌+◌, ◌-◌, ◌≤◌, ◌<◌, ◌≡◌, refl, ap, ◌∙◌, true, false, ◌&&◌, ◌||◌, List, [], ◌∷◌, ◌++◌,
  arith, ltb, leb, ◌==◌, if◌then◌else◌, length, length-append,
}
use genshinimpact_nx.Pool.Extents.{Extent, zero_extent, Extents, write, extent_node_take}
use genshinimpact_nx.Pool.Cells.{
  Cell, Cells, first_or, last_or, one_if, count_cells, count_nodes, count_cells-append, extent_of,
  frame, Seg-append, Seg-split, nonzero, last-counted, head_or_zero, frame_free, Linked,
}
use genshinimpact_nx.Pool.Links.{
  linked_in, linked_in-pre, linked_in-post, linked_in-node, taken_out, taken_out-pre,
  taken_out-post, linked_in-other, taken_out-other,
}

pub Linked-same :
    (s : Extents) (xs : Cells) (ps : List ℕ) (g : ℕ → Extent)
    → Linked s xs ps
    → ((a : ℕ) → g a ≡ s.nodes a)
    → Linked (record s { nodes = g }) xs ps
Linked-same s xs ps g l same = record {
  head_is = l.head_is;
  chain = frame s.nodes g 0 xs 0 l.chain (λ a h. same a);
  free_is = l.free_is;
  free_nodes = frame_free s.nodes g ps l.free_nodes (λ a h. same a);
  free_length = l.free_length;
  total = l.total;
  each = l.each;
}

length-middle :
    (pre post : Cells) (c : Cell) → length (pre ++ c ∷ post) ≡ suc (length (pre ++ post))
length-middle [] post c = refl
length-middle (b ∷ pre) post c = ap suc (length-middle pre post c)

-- What holds of each node of a state with a cell between two segments.
each_middle :
    (s : Extents) (pre post : Cells) (c : Cell) (ps : List ℕ)
    → Linked s (pre ++ c ∷ post) ps
    → (a : ℕ)
    → count_cells a pre + one_if (a == c.node) + count_cells a post + count_nodes a ps
      ≡ one_if (ltb 0 a && leb a s.capacity)
each_middle s pre post c ps l a = omega (arith, l.each a, count_cells-append a pre (c ∷ post))

pub first_or-append :
    (pre xs ys : Cells)
    → first_or 0 xs ≡ first_or 0 ys
    → first_or 0 (pre ++ xs) ≡ first_or 0 (pre ++ ys)
first_or-append [] xs ys e = e
first_or-append (c ∷ pre) xs ys e = refl

out_of : (a p : ℕ) → one_if (a == p) ≡ 0 → (a == p) ≡ false
out_of a p h = ground arith

pub same_node : (a : ℕ) → (a == a) ≡ true
same_node a = ground arith

-- A cell gets other pages; its node and the links stay.
pub replace_lem :
    (s : Extents) (pre post : Cells) (c : Cell) (f n : ℕ) (ps : List ℕ) (g : ℕ → Extent)
    → Linked s (pre ++ c ∷ post) ps
    → g c.node ≡ extent_of (record c { first = f; pages = n }) (last_or 0 pre) (first_or 0 post)
    → ((a : ℕ) → (a == c.node) ≡ false → g a ≡ s.nodes a)
    → Linked (record s { nodes = g }) (pre ++ record c { first = f; pages = n } ∷ post) ps
replace_lem s pre post c f n ps g l here others =
    let d : Cell = record c { first = f; pages = n } in
    let each = each_middle s pre post c ps l in
    let (front, (e, back)) = Seg-split s.nodes 0 pre (c ∷ post) 0 l.chain in
    let bound : (a : ℕ) → one_if (ltb 0 a && leb a s.capacity) ≤ 1 = λ a. ground arith in
    let same : (a : ℕ) → one_if (a == c.node) ≡ 0 → g a ≡ s.nodes a =
      λ a h. others a (out_of a c.node h) in
    record {
      head_is = l.head_is ∙ first_or-append pre (c ∷ post) (d ∷ post) refl;
      chain =
          Seg-append g 0 pre (d ∷ post) 0
            (frame s.nodes g 0 pre c.node front (λ a h. same a (omega (arith, each a, bound a))))
            (
              here,
              frame s.nodes g c.node post 0 back (λ a h. same a (omega (arith, each a, bound a))),
            );
      free_is = l.free_is;
      free_nodes =
          frame_free s.nodes g ps l.free_nodes (λ a h. same a (omega (arith, each a, bound a)));
      free_length = l.free_length;
      total = omega (arith, l.total, length-middle pre post c, length-middle pre post d);
      each = λ a. omega (arith, each a, count_cells-append a pre (d ∷ post));
    }

-- The first of the free nodes is linked in as a cell.
pub insert_lem :
    (s t : Extents) (pre post : Cells) (d : Cell) (ps : List ℕ)
    → Linked s (pre ++ post) (d.node ∷ ps)
    → ((a : ℕ) → t.nodes a ≡ linked_in s.nodes pre d post a)
    → t.head ≡ first_or 0 (pre ++ d ∷ post)
    → t.free_head ≡ head_or_zero ps
    → t.free_count + 1 ≡ s.free_count
    → t.capacity ≡ s.capacity
    → Linked t (pre ++ d ∷ post) ps
insert_lem s t pre post d ps l nodes head free free_count capacity =
    let split : (a : ℕ)
        → count_cells a pre + count_cells a post + one_if (a == d.node) + count_nodes a ps
          ≡ one_if (ltb 0 a && leb a s.capacity) =
      λ a. omega (arith, l.each a, count_cells-append a pre post) in
    let bound : (a : ℕ) → one_if (ltb 0 a && leb a s.capacity) ≤ 1 = λ a. ground arith in
    let once : (a : ℕ) → count_cells a pre + count_cells a post + one_if (a == d.node) ≤ 1 =
      λ a. omega (arith, split a, bound a) in
    let none0 : count_cells 0 pre + count_cells 0 post ≡ 0 = omega (arith, split 0) in
    let (front, back) = Seg-split s.nodes 0 pre post 0 l.chain in
    let g = linked_in s.nodes pre d post in
    let (e, free_nodes) = l.free_nodes in
    record {
      head_is = head;
      chain =
          frame g t.nodes 0 (pre ++ d ∷ post) 0
            (Seg-append g 0 pre (d ∷ post) 0 (linked_in-pre s.nodes d pre post once none0 front) (
              linked_in-node s.nodes d pre post once,
              linked_in-post s.nodes d pre post once none0 back,
            ))
            (λ a h. nodes a);
      free_is = free;
      free_nodes = frame_free s.nodes t.nodes ps free_nodes (λ a h.
          nodes a
          ∙ linked_in-other s.nodes pre post d a (omega (arith, split a, bound a))
              (out_of a d.node (omega (arith, split a, bound a))));
      free_length = omega (arith, l.free_length, free_count);
      total = omega (arith, l.total, length-middle pre post d, capacity);
      each = λ a. omega (
        arith,
        split a,
        count_cells-append a pre (d ∷ post),
        ap (λ n. one_if (ltb 0 a && leb a n)) capacity,
      );
    }

-- A cell is taken out and its node becomes the first of the free ones.
pub remove_lem :
    (s t : Extents) (pre post : Cells) (c : Cell) (ps : List ℕ)
    → Linked s (pre ++ c ∷ post) ps
    → ((a : ℕ)
        → t.nodes a
          ≡ write c.node (record zero_extent { next = s.free_head }) (taken_out s.nodes pre post) a)
    → t.head ≡ first_or 0 (pre ++ post)
    → t.free_head ≡ c.node
    → t.free_count ≡ s.free_count + 1
    → t.capacity ≡ s.capacity
    → Linked t (pre ++ post) (c.node ∷ ps)
remove_lem s t pre post c ps l nodes head free free_count capacity =
    let split = each_middle s pre post c ps l in
    let bound : (a : ℕ) → one_if (ltb 0 a && leb a s.capacity) ≤ 1 = λ a. ground arith in
    let once : (a : ℕ) → count_cells a pre + count_cells a post ≤ 1 =
      λ a. omega (arith, split a, bound a) in
    let none0 : count_cells 0 pre + count_cells 0 post ≡ 0 = omega (arith, split 0) in
    let (front, (e, back)) = Seg-split s.nodes 0 pre (c ∷ post) 0 l.chain in
    let g = taken_out s.nodes pre post in
    let kept : (a : ℕ) → one_if (a == c.node) ≡ 0 → t.nodes a ≡ g a =
      λ a h. nodes a ∙ rw (out_of a c.node h) refl in
    record {
      head_is = head;
      chain =
          frame g t.nodes 0 (pre ++ post) 0
            (Seg-append g 0 pre post 0 (taken_out-pre s.nodes c.node pre post once none0 front)
              (taken_out-post s.nodes c.node pre post once none0 back))
            (λ a h. kept a (omega (arith, h, split a, bound a, count_cells-append a pre post)));
      free_is = free;
      free_nodes = (
        ap (λ (x : Extent). x.next) (nodes c.node) ∙ rw (same_node c.node) l.free_is,
        frame_free s.nodes t.nodes ps l.free_nodes (λ a h.
            kept a (omega (arith, h, split a, bound a))
            ∙ taken_out-other s.nodes pre post a (omega (arith, split a, bound a))),
      );
      free_length = omega (arith, l.free_length, free_count);
      total = omega (arith, l.total, length-middle pre post c, capacity);
      each = λ a. omega (
        arith,
        split a,
        count_cells-append a pre post,
        ap (λ n. one_if (ltb 0 a && leb a n)) capacity,
      );
    }

-- The head after what stands behind `pre` has changed from `xs` to `ys`.
pub head_after :
    (h : ℕ) (pre xs ys : Cells)
    → count_cells 0 pre ≡ 0
    → h ≡ first_or 0 (pre ++ xs)
    → (if last_or 0 pre == 0 then first_or 0 ys else h) ≡ first_or 0 (pre ++ ys)
head_after h [] xs ys none0 e = refl
head_after h (c ∷ cs) xs ys none0 e =
    rw (nonzero (last_or 0 (c ∷ cs)) (c ∷ cs) none0 (last-counted c cs)) e

pub last_or-append : (a : ℕ) (xs : Cells) (d : Cell) → last_or a (xs ++ d ∷ []) ≡ d.node
last_or-append a [] d = refl
last_or-append a (c ∷ cs) d = last_or-append c.node cs d

pub first_free :
    (s : Extents) (xs : Cells) (q : ℕ) (ps : List ℕ)
    → Linked s xs (q ∷ ps)
    → ((q == 0) ≡ false) × (count_cells q xs ≡ 0)
first_free s xs q ps l = (ground (arith, l.each 0), ground (arith, l.each q))

-- A free node is taken while there is one.
pub take_lem :
    (s : Extents) (xs : Cells) (q : ℕ) (ps : List ℕ)
    → Linked s xs (q ∷ ps)
    → extent_node_take s ≡ (
      q,
      record s {
        nodes = write q zero_extent s.nodes;
        free_head = head_or_zero ps;
        free_count = s.free_count - 1;
      },
    )
unfolding extent_node_take
take_lem s xs q ps l =
    let (some_node, out) = first_free s xs q ps l in
    let some_count : (s.free_count == 0) ≡ false = ground (arith, l.free_length) in
    rw (l.free_is, some_node, some_count, l.free_nodes.0) refl

-- What is known of the node of a cell.
module _ (s : Extents) (pre post : Cells) (c : Cell) (ps : List ℕ)
    (l : Linked s (pre ++ c ∷ post) ps) where
  pub node_here : s.nodes c.node ≡ extent_of c (last_or 0 pre) (first_or 0 post)
  node_here = (Seg-split s.nodes 0 pre (c ∷ post) 0 l.chain).1.0

  pub node_counted : 0 < count_cells c.node (pre ++ c ∷ post)
  node_counted = ground (arith, count_cells-append c.node pre (c ∷ post))

  pub not_null : (c.node == 0) ≡ false
  not_null = nonzero c.node (pre ++ c ∷ post) (omega (arith, l.each 0)) node_counted

  pub pre_none0 : count_cells 0 pre ≡ 0
  pre_none0 = omega (arith, l.each 0, count_cells-append 0 pre (c ∷ post))

  pub returnable : (ltb s.capacity c.node || leb s.capacity s.free_count) ≡ false
  returnable =
      ground
        (arith, l.each c.node, node_counted, l.total, l.free_length, length-append pre (c ∷ post))
