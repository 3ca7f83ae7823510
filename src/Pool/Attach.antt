-- ===== src/Pool/Attach.antt =====
-- `oc_dynamic_return_extent_locked` as a whole: the pages join the free ones.
use genshinimpact_nx.Base.{
  ℕ, ◌+◌, ◌-◌, ◌≤◌, ◌<◌, ◌≡◌, refl, sym, ap, ◌∙◌, inl, inr, Bool, true, false, not, ◌&&◌, ◌||◌,
  Option, none, some, List, [], ◌∷◌, ◌++◌, append_assoc, arith, ◌==◌, if◌then◌else◌, ==_iff,
  Bool-cases, length,
}
use mathlib.Core.Path.{subst}
use genshinimpact_nx.Pool.Extents.{
  Extent, zero_extent, Extents, write, set_pages, link_previous, find_place, attach_extent,
  absorb_next, return_extent,
}
use genshinimpact_nx.Pool.Cells.{
  Cell, Cells, first_or, last_or, count_cells, count_cells-append, extent_of, head_or_zero,
}
use genshinimpact_nx.Pool.Links.{bridge}
use genshinimpact_nx.Pool.Moves.{
  same_node, node_here, not_null, last_or-append, first_free, take_lem, head_after, replace_lem,
  insert_lem,
}
use genshinimpact_nx.Pool.Runs.{
  covers-widened, Spaced, Spaced-lower, in_run, covers, covers-append, SpacedTo, Spaced-split,
  AllBefore, FromOn, Untouched, Spaced-raise, snoc_cases, AllBefore-last, SpacedTo-snoc,
}
use genshinimpact_nx.Pool.Consume.{word_small, IsArena, Represents, covered}
use genshinimpact_nx.Pool.Return.{find_place_lem, Touching, absorb_lem}

-- What the first half of the call gives: a cell with the pages, which may touch the one behind it.
pub record Attached (bound : ℕ) (s : Extents) (pre post : Cells) (first pages : ℕ) : Type 0 where
  pub front : Cells
  pub cell : Cell
  pub nodes_left : List ℕ
  pub after : Extents
  pub ran : attach_extent (last_or 0 pre) (first_or 0 post) first pages s ≡ some (cell.node, after)
  pub touching : Touching bound after front cell post nodes_left
  pub pages_are :
      (q : ℕ) → covers q (front ++ cell ∷ post) ≡ (covers q (pre ++ post) || in_run first pages q)

module _ (bound : ℕ) (s : Extents) (pre post : Cells) (q : ℕ) (qs : List ℕ)
    (v : IsArena bound s (pre ++ post) (q ∷ qs)) (first pages : ℕ) (some_pages : 0 < pages)
    (end : first + pages ≤ bound) where
  abbrev new_cell : Cell
  new_cell = record { node = q; first = first; pages = pages }

  -- The state with a node of its own for the pages.
  abbrev with_node : Extents
  with_node = record s {
    nodes = link_previous (first_or 0 post) q (
        bridge (last_or 0 pre) q (
          write q (extent_of new_cell (last_or 0 pre) (first_or 0 post))
            (write q zero_extent s.nodes)));
    head = if last_or 0 pre == 0 then q else s.head;
    free_head = head_or_zero qs;
    free_count = s.free_count - 1;
  }

  attach_new-eval :
      (not (last_or 0 pre == 0)
          && (s.nodes (last_or 0 pre)).first_page + (s.nodes (last_or 0 pre)).pages == first)
        ≡ false
      → attach_extent (last_or 0 pre) (first_or 0 post) first pages s ≡ some (q, with_node)
  unfolding attach_extent
  attach_new-eval alone =
      let small = v.small in
      let taken = take_lem s (pre ++ post) q qs v.linked in
      let some_q = (first_free s (pre ++ post) q qs v.linked).0 in
      let w1 = word_small first (omega arith) in
      let w2 = word_small pages (omega arith) in
      elim (Bool-cases (last_or 0 pre == 0)) [
        | inl e ↦ rw (alone, taken, some_q, w1, w2, e) refl
        | inr e ↦ rw (alone, taken, some_q, w1, w2, e) refl
      ]

  new_nodes :
      (l n a : ℕ) (x : Extent)
      → link_previous n q (bridge l q (write q x (write q zero_extent s.nodes))) a
        ≡ link_previous n q (bridge l q (write q x s.nodes)) a
  new_nodes l n a x = ground arith

  attach_new :
      (not (last_or 0 pre == 0)
          && (s.nodes (last_or 0 pre)).first_page + (s.nodes (last_or 0 pre)).pages == first)
        ≡ false
      → SpacedTo 0 pre first
      → Spaced (first + pages) bound post
      → Attached bound s pre post first pages
  attach_new alone front back = record {
    front = pre;
    cell = new_cell;
    nodes_left = qs;
    after = with_node;
    ran = attach_new-eval alone;
    touching = record {
      linked =
          insert_lem s with_node pre post new_cell qs v.linked
            (λ a. new_nodes (last_or 0 pre) (first_or 0 post) a _)
            (head_after s.head pre post (new_cell ∷ post)
              (omega (arith, v.linked.each 0, count_cells-append 0 pre post)) v.linked.head_is)
            refl (ground (arith, v.linked.free_length)) refl;
      front = front;
      some_pages = some_pages;
      below = end;
      back = back;
      small = v.small;
      room = v.room;
    };
    pages_are =
        λ a. ground (arith, covers-append a pre (new_cell ∷ post), covers-append a pre post);
  }

module _ (bound : ℕ) (s : Extents) (pre : Cells) (b : Cell) (post : Cells) (ps : List ℕ)
    (v : IsArena bound s (pre ++ b ∷ post) ps) (first pages : ℕ) (end : first + pages ≤ bound)
    (touch : (b.first + b.pages == first) ≡ true) where
  -- The state with the pages added to those of `b`.
  abbrev widened : Extents
  widened = record s { nodes = set_pages b.node (b.pages + pages) s.nodes }

  attach_joined-eval : attach_extent b.node (first_or 0 post) first pages s ≡ some (b.node, widened)
  unfolding attach_extent
  attach_joined-eval =
      let small = v.small in
      rw
        (
          node_here s pre post b ps v.linked,
          not_null s pre post b ps v.linked,
          touch,
          word_small pages (omega arith),
          word_small (b.pages + pages) (omega (arith, (==_iff (b.first + b.pages) first).0 touch)),
        )
        refl

  attach_joined :
      Spaced (first + pages) bound post → Attached bound s (pre ++ b ∷ []) post first pages
  attach_joined back =
      let x : Cell = record b { pages = b.pages + pages } in
      let same = (==_iff (b.first + b.pages) first).0 touch in
      let (front, full, below, rest) = Spaced-split 0 bound pre b post v.spaced in
      record {
        front = pre;
        cell = x;
        nodes_left = ps;
        after = widened;
        ran = rw (last_or-append 0 pre b) attach_joined-eval;
        touching = record {
          linked =
              replace_lem s pre post b b.first (b.pages + pages) ps _ v.linked
                (rw (same_node b.node) (
                  ap (λ (e : Extent). record e { pages = b.pages + pages })
                    (node_here s pre post b ps v.linked)))
                (λ a ne. rw ne refl);
          front = front;
          some_pages = omega (arith, full);
          below = omega (arith, same, end);
          back = Spaced-lower _ _ bound post (omega (arith, same)) back;
          small = v.small;
          room = v.room;
        };
        pages_are = λ q.
            covers-widened q pre b first pages post same
            ∙ ap (λ r. covers q r || in_run first pages q) (sym (append_assoc pre (b ∷ []) post));
      }

-- A state that gives pages back.
abbrev pub Returned : ℕ → ℕ → ℕ → (ℕ → Bool) → Option Extents → Type 0
Returned bound first pages free none = ⊥
Returned bound first pages free (some t) = Represents bound t (λ q. free q || in_run first pages q)

module _ (bound : ℕ) (s : Extents) (post : Cells) (q : ℕ) (qs : List ℕ) (first pages : ℕ)
    (some_pages : 0 < pages) (end : first + pages ≤ bound) (from : FromOn first post) where
  attach_first :
      IsArena bound s post (q ∷ qs)
      → Untouched first pages post
      → Attached bound s [] post first pages
  attach_first v free =
      attach_new bound s [] post q qs v first pages some_pages end refl (omega arith)
        (Spaced-raise 0 bound first pages post v.spaced some_pages end from free)

  attach_behind :
      (front : Cells) (b : Cell)
      → IsArena bound s (front ++ b ∷ post) (q ∷ qs)
      → b.first < first
      → Untouched first pages (front ++ b ∷ post)
      → Attached bound s (front ++ b ∷ []) post first pages
  attach_behind front b v before free =
      let (low, full, below, rest) = Spaced-split 0 bound front b post v.spaced in
      let parts : (a : ℕ)
          → in_run first pages a ≡ true
          → (in_run b.first b.pages a || covers a post) ≡ false =
        λ a h. ground (arith, free a h, covers-append a front (b ∷ post)) in
      let back =
        Spaced-raise (b.first + b.pages + 1) bound first pages post rest some_pages end from
          (λ a h. ground (arith, parts a h)) in
      let here : in_run first pages first ≡ true = ground arith in
      let gone = parts first here in
      elim (Bool-cases (b.first + b.pages == first)) [
        | inl touch ↦ attach_joined bound s front b post (q ∷ qs) v first pages end touch back
        | inr gap ↦
            let lower : b.first + b.pages < first = ground arith in
            attach_new bound s (front ++ b ∷ []) post q qs
              (subst (λ xs. IsArena bound s xs (q ∷ qs)) (sym (append_assoc front (b ∷ []) post)) v)
              first pages some_pages end
              (rw
                (
                  last_or-append 0 front b,
                  node_here s front post b (q ∷ qs) v.linked,
                  not_null s front post b (q ∷ qs) v.linked,
                  gap,
                )
                refl)
              (SpacedTo-snoc 0 first front b low full lower) back
      ]

-- The first half of the call, wherever the place is.
attach_lem :
    (bound : ℕ) (s : Extents) (pre post : Cells) (ps : List ℕ) (first pages : ℕ)
    → FromOn first post
    → 0 < pages
    → first + pages ≤ bound
    → 0 < length ps
    → IsArena bound s (pre ++ post) ps
    → AllBefore first pre
    → Untouched first pages (pre ++ post)
    → Attached bound s pre post first pages
attach_lem bound s pre post [] first pages from some_pages end left = absurd (omega arith)
attach_lem bound s pre post (q ∷ qs) first pages from some_pages end left = elim (snoc_cases pre) [
  | inl e ↦
      subst
        (λ l.
          IsArena bound s (l ++ post) (q ∷ qs)
          → AllBefore first l
          → Untouched first pages (l ++ post)
          → Attached bound s l post first pages)
        (sym e)
        (λ v before free. attach_first bound s post q qs first pages some_pages end from v free)
  | inr (front, b, e) ↦
      subst
        (λ l.
          IsArena bound s (l ++ post) (q ∷ qs)
          → AllBefore first l
          → Untouched first pages (l ++ post)
          → Attached bound s l post first pages)
        (sym e)
        (λ v before free.
          let assoc = append_assoc front (b ∷ []) post in
          attach_behind bound s post q qs first pages some_pages end from front b
            (subst (λ xs. IsArena bound s xs (q ∷ qs)) assoc v)
            (AllBefore-last first front b before)
            (subst (λ xs. Untouched first pages xs) assoc free))
]

return_extent-eval :
    (s : Extents) (first pages previous next node : ℕ) (t : Extents)
    → find_place (s.capacity + 1) s.nodes first 0 s.head ≡ some (previous, next)
    → attach_extent previous next first pages s ≡ some (node, t)
    → return_extent first pages s ≡ some (absorb_next node t)
unfolding return_extent
return_extent-eval s first pages previous next node t found ran = rw (found, ran) refl

-- Pages that are not free can be given back while a node is left, and exactly these pages join the
-- free ones: runs that touch are joined, and the links and the order are kept.
pub return_extent_lem :
    (bound : ℕ) (s : Extents) (xs : Cells) (ps : List ℕ) (first pages : ℕ)
    → IsArena bound s xs ps
    → Untouched first pages xs
    → 0 < pages
    → first + pages ≤ bound
    → 0 < length ps
    → Returned bound first pages (covered xs) (return_extent first pages s)
return_extent_lem bound s xs ps first pages v free some_pages end left =
    let l = v.linked in
    let none0 : count_cells 0 xs ≡ 0 = omega (arith, l.each 0) in
    let p =
      find_place_lem s.nodes (s.capacity + 1) first 0 xs l.chain none0 (omega (arith, l.total)) in
    let a =
      attach_lem bound s p.pre p.post ps first pages p.behind some_pages end left
        (subst (λ xs. IsArena bound s xs ps) p.parts v) p.before
        (subst (λ xs. Untouched first pages xs) p.parts free) in
    let (ys, qs, w, same) =
      absorb_lem bound a.after a.front a.cell p.post a.nodes_left a.touching in
    let found : find_place (s.capacity + 1) s.nodes first 0 s.head
        ≡ some (last_or 0 p.pre, first_or 0 p.post) =
      ap (find_place (s.capacity + 1) s.nodes first 0) l.head_is ∙ p.found in
    subst (Returned bound first pages (covered xs))
      (sym (
        return_extent-eval s first pages (last_or 0 p.pre) (first_or 0 p.post) a.cell.node a.after
          found a.ran))
      (
        ys,
        qs,
        w,
        λ q.
            ap (λ b. b || in_run first pages q) (ap (covers q) p.parts)
            ∙ sym (a.pages_are q)
            ∙ same q,
      )
