-- ===== src/Pool/Cells.antt =====
-- What the linked nodes of Pool/Extents stand for: a list of cells, each a node with its run of pages.
use genshinimpact_nx.Base.{
  ℕ, zero, suc, ◌+◌, ◌≤◌, ◌<◌, ◌≡◌, ap, ◌∙◌, inl, inr, Bool, false, ◌&&◌, List, [], ◌∷◌, ◌++◌,
  arith, ltb, leb, ◌==◌, if◌then◌else◌, ==_iff, Bool-cases, length,
}
use genshinimpact_nx.Pool.Extents.{Extent, Extents, set_next, set_previous}

pub record Cell : Type 0 where
  pub node : ℕ
  pub first : ℕ
  pub pages : ℕ

abbrev pub Cells : Type 0
Cells = List Cell

-- The first node of a segment that ends before `stop`, and the last of one that begins behind `start`.
abbrev pub first_or : ℕ → Cells → ℕ
first_or stop [] = stop
first_or stop (c ∷ cs) = c.node

abbrev pub last_or : ℕ → Cells → ℕ
last_or start [] = start
last_or start (c ∷ cs) = last_or c.node cs

-- How often a node stands in a list.
abbrev pub one_if : Bool → ℕ
one_if b = if b then 1 else 0

abbrev pub count_cells : ℕ → Cells → ℕ
count_cells a [] = 0
count_cells a (c ∷ cs) = one_if (a == c.node) + count_cells a cs

abbrev pub count_nodes : ℕ → List ℕ → ℕ
count_nodes a [] = 0
count_nodes a (p ∷ ps) = one_if (a == p) + count_nodes a ps

pub count_cells-append :
    (a : ℕ) (xs ys : Cells) → count_cells a (xs ++ ys) ≡ count_cells a xs + count_cells a ys
count_cells-append a [] ys = omega arith
count_cells-append a (x ∷ xs) ys = omega (arith, count_cells-append a xs ys)

abbrev pub extent_of : Cell → ℕ → ℕ → Extent
extent_of c start next = record {
  first_page = c.first;
  pages = c.pages;
  previous = start;
  next = next;
}

-- From behind the node `start` the links lead both ways through the cells to the node `stop`.
abbrev pub Seg : (ℕ → Extent) → ℕ → Cells → ℕ → Type 0
Seg m start [] stop = Unit
Seg m start (c ∷ cs) stop = (m c.node ≡ extent_of c start (first_or stop cs)) × Seg m c.node cs stop

pub frame :
    (m g : ℕ → Extent) (start : ℕ) (xs : Cells) (stop : ℕ)
    → Seg m start xs stop
    → ((a : ℕ) → 0 < count_cells a xs → g a ≡ m a)
    → Seg g start xs stop
frame m g start [] stop s same = tt
frame m g start (c ∷ cs) stop (e, s) same =
    (same c.node (ground arith) ∙ e, frame m g c.node cs stop s (λ a h. same a (omega arith)))

pub Seg-append :
    (m : ℕ → Extent) (start : ℕ) (xs ys : Cells) (stop : ℕ)
    → Seg m start xs (first_or stop ys)
    → Seg m (last_or start xs) ys stop
    → Seg m start (xs ++ ys) stop
Seg-append m start [] ys stop s t = t
Seg-append m start (c ∷ []) ys stop (e, s) t = (e, t)
Seg-append m start (c ∷ d ∷ cs) ys stop (e, s) t = (e, Seg-append m c.node (d ∷ cs) ys stop s t)

pub Seg-split :
    (m : ℕ → Extent) (start : ℕ) (xs ys : Cells) (stop : ℕ)
    → Seg m start (xs ++ ys) stop
    → Seg m start xs (first_or stop ys) × Seg m (last_or start xs) ys stop
Seg-split m start [] ys stop s = (tt, s)
Seg-split m start (c ∷ []) ys stop (e, s) = ((e, tt), s)
Seg-split m start (c ∷ d ∷ cs) ys stop (e, s) =
    let (front, back) = Seg-split m c.node (d ∷ cs) ys stop s in ((e, front), back)

-- The first cell is linked to another node before it.
pub relink_front :
    (m : ℕ → Extent) (start new : ℕ) (xs : Cells) (stop : ℕ)
    → Seg m start xs stop
    → ((a : ℕ) → count_cells a xs ≤ 1)
    → Seg (set_previous (first_or 0 xs) new m) new xs stop
relink_front m start new [] stop s once = tt
relink_front m start new (c ∷ cs) stop (e, s) once = (
  ground (arith, e),
  frame m (set_previous c.node new m) c.node cs stop s (λ a h. ground (arith, once c.node, once a)),
)

pub last-counted : (c : Cell) (cs : Cells) → 0 < count_cells (last_or 0 (c ∷ cs)) (c ∷ cs)
last-counted c [] = ground arith
last-counted c (d ∷ cs) = omega (arith, last-counted d cs)

-- A node that does not stand among the cells is none of theirs.
pub apart : (a p : ℕ) (xs : Cells) → count_cells a xs ≡ 0 → 0 < count_cells p xs → (a == p) ≡ false
apart a p xs out in_xs = elim (Bool-cases (a == p)) [
  | inl e ↦ absurd (omega (arith, ap (λ x. count_cells x xs) ((==_iff a p).0 e)))
  | inr e ↦ e
]

-- A node that stands among the cells is not 0, when 0 is none of theirs.
pub nonzero : (p : ℕ) (xs : Cells) → count_cells 0 xs ≡ 0 → 0 < count_cells p xs → (p == 0) ≡ false
nonzero zero xs out in_xs = absurd (omega arith)
nonzero (suc p) xs out in_xs = ground arith

fresh_here : (c : Cell) (xs : Cells) → count_cells c.node (c ∷ xs) ≤ 1 → count_cells c.node xs ≡ 0
fresh_here c xs once = ground (arith, once)

-- The last cell is linked to another node behind it.
pub relink_back :
    (m : ℕ → Extent) (start new : ℕ) (c : Cell) (cs : Cells) (stop : ℕ)
    → Seg m start (c ∷ cs) stop
    → ((a : ℕ) → count_cells a (c ∷ cs) ≤ 1)
    → Seg (set_next (last_or 0 (c ∷ cs)) new m) start (c ∷ cs) new
relink_back m start new c [] stop (e, s) once = (ground (arith, e), tt)
relink_back m start new c (d ∷ cs) stop (e, s) once = (
  rw
      (apart c.node (last_or 0 (d ∷ cs)) (d ∷ cs) (fresh_here c (d ∷ cs) (once c.node))
        (last-counted d cs))
      e,
  relink_back m c.node new d cs stop s (λ a. omega (arith, once a)),
)

-- The nodes that are free, in the order of their links.
abbrev pub head_or_zero : List ℕ → ℕ
head_or_zero [] = 0
head_or_zero (p ∷ ps) = p

abbrev pub FreeNodes : (ℕ → Extent) → List ℕ → Type 0
FreeNodes m [] = Unit
FreeNodes m (p ∷ ps) = ((m p).next ≡ head_or_zero ps) × FreeNodes m ps

pub frame_free :
    (m g : ℕ → Extent) (ps : List ℕ)
    → FreeNodes m ps
    → ((a : ℕ) → 0 < count_nodes a ps → g a ≡ m a)
    → FreeNodes g ps
frame_free m g [] s same = tt
frame_free m g (p ∷ ps) (e, s) same = (
  ap (λ (x : Extent). x.next) (same p (ground arith)) ∙ e,
  frame_free m g ps s (λ a h. same a (omega arith)),
)

-- The nodes from 1 to `capacity` each stand once, in a cell or among the free ones.
pub record Linked (s : Extents) (xs : Cells) (ps : List ℕ) : Type 0 where
  pub head_is : s.head ≡ first_or 0 xs
  pub chain : Seg s.nodes 0 xs 0
  pub free_is : s.free_head ≡ head_or_zero ps
  pub free_nodes : FreeNodes s.nodes ps
  pub free_length : s.free_count ≡ length ps
  pub total : length xs + length ps ≡ s.capacity
  pub each : (a : ℕ) → count_cells a xs + count_nodes a ps ≡ one_if (ltb 0 a && leb a s.capacity)
