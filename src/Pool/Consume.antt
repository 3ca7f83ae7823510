-- ===== src/Pool/Consume.antt =====
-- Taking pages out of a free extent.
use genshinimpact_nx.Base.{
  ℕ, ◌+◌, ◌-◌, ◌/◌, ◌^◌, ◌≤◌, ◌<◌, ◌≡◌, refl, sym, ap, ◌∙◌, inl, inr, Bool, true, false, not, ◌&&◌,
  List, [], ◌∷◌, ◌++◌, append_assoc, arith, ltb, ◌==◌, if◌then◌else◌, Bool-cases, length,
  length-append,
}
use mathlib.Core.Path.{subst}
use genshinimpact_nx.Pool.Extents.{
  word, Extent, zero_extent, Extents, write, set_next, set_pages, link_previous, extent_node_take,
  extent_node_return, unlink_extent, split_extent, consume_extent,
}
use genshinimpact_nx.Pool.Cells.{
  Cell, Cells, first_or, last_or, count_cells-append, extent_of, head_or_zero, Linked,
}
use genshinimpact_nx.Pool.Links.{bridge, taken_out}
use genshinimpact_nx.Pool.Moves.{
  same_node, node_here, not_null, pre_none0, returnable, first_or-append, last_or-append,
  first_free, take_lem, head_after, replace_lem, insert_lem, remove_lem,
}
use genshinimpact_nx.Pool.Runs.{
  Spaced, Spaced-length, Spaced-middle, Spaced-lower, Spaced-tail, in_run, covers, covers-append,
  covers-before, covers-behind,
}

-- An arena of `bound` pages whose free runs are the cells.
pub record IsArena (bound : ℕ) (s : Extents) (xs : Cells) (ps : List ℕ) : Type 0 where
  pub linked : Linked s xs ps
  pub spaced : Spaced 0 bound xs
  pub small : bound < 2 ^ 32
  pub room : s.capacity ≡ (bound + 1) / 2

-- The free pages of an arena, whatever nodes describe them.
abbrev pub Represents : ℕ → Extents → (ℕ → Bool) → Type 0
Represents bound s free =
    (xs : Cells) × (ps : List ℕ) × IsArena bound s xs ps × ((q : ℕ) → free q ≡ covers q xs)

-- What a call does that takes pages out of an arena with these free pages.
abbrev pub Consumed : ℕ → ℕ → ℕ → (ℕ → Bool) → Bool × Extents → Type 0
Consumed bound first pages free (ok, t) =
    (ok ≡ true) × Represents bound t (λ q. free q && not (in_run first pages q))

abbrev pub covered : Cells → ℕ → Bool
covered xs q = covers q xs

pub word_small : (n : ℕ) → n < 2 ^ 32 → word n ≡ n
word_small n h = omega arith

module _ (bound : ℕ) (s : Extents) (pre post : Cells) (c : Cell) (ps : List ℕ)
    (v : IsArena bound s (pre ++ c ∷ post) ps) where
  -- The cell is exchanged for others that lie within it.
  pub within_cell :
      (ys : Cells) (first pages : ℕ)
      → c.first ≤ first
      → first + pages ≤ c.first + c.pages
      → ((q : ℕ) → covers q ys ≡ (in_run c.first c.pages q && not (in_run first pages q)))
      → (q : ℕ)
      → covers q (pre ++ (ys ++ post)) ≡ (covers q (pre ++ c ∷ post) && not (in_run first pages q))
  within_cell ys first pages above below part q = ground (
    arith,
    part q,
    covers-append q pre (ys ++ post),
    covers-append q ys post,
    covers-append q pre (c ∷ post),
    covers-before 0 bound q pre c post v.spaced,
    covers-behind 0 bound q pre c post v.spaced,
  )

  cell_fits : (0 < c.pages) × (c.first + c.pages ≤ bound)
  cell_fits =
      let (l, le, (above, some_pages, below, t)) = Spaced-tail 0 bound pre (c ∷ post) v.spaced in
      (some_pages, below)

  -- The cell keeps its node and gets fewer pages.
  shrunk :
      (f n : ℕ) (g : ℕ → Extent)
      → g c.node ≡ extent_of (record c { first = f; pages = n }) (last_or 0 pre) (first_or 0 post)
      → ((a : ℕ) → (a == c.node) ≡ false → g a ≡ s.nodes a)
      → c.first ≤ f
      → 0 < n
      → f + n ≤ c.first + c.pages
      → IsArena bound (record s { nodes = g }) (pre ++ record c { first = f; pages = n } ∷ post) ps
  shrunk f n g here others above some_pages below = record {
    linked = replace_lem s pre post c f n ps g v.linked here others;
    spaced =
        Spaced-middle 0 bound pre (c ∷ post) (record c { first = f; pages = n } ∷ post)
          (λ l (low, full, high, t).
            (omega arith, some_pages, omega arith, Spaced-lower _ _ bound post (omega arith) t))
          v.spaced;
    small = v.small;
    room = v.room;
  }

  -- The pages are taken from the low end, from the high end, or they are the whole run.
  consume_low-eval :
      (first pages : ℕ)
      → first ≡ c.first
      → 0 < pages
      → pages < c.pages
      → consume_extent c.node first pages s ≡ (
        true,
        record s {
          nodes =
              write c.node
                (extent_of
                  (record c { first = first + pages; pages = c.pages - pages })
                  (last_or 0 pre)
                  (first_or 0 post))
                s.nodes;
        },
      )
  unfolding consume_extent
  consume_low-eval first pages at some_pages less =
      let (full, below) = cell_fits in
      let none_before : (first - c.first == 0) ≡ true = ground arith in
      let some_behind : (c.first + c.pages - (first + pages) == 0) ≡ false = ground arith in
      let small = v.small in
      let end_word = word_small (first + pages) (omega arith) in
      let rest_word = word_small (c.first + c.pages - (first + pages)) (omega arith) in
      let rest : c.first + c.pages - (first + pages) ≡ c.pages - pages = omega arith in
      rw (node_here s pre post c ps v.linked, none_before, some_behind, end_word, rest_word, rest)
        refl

  consume_high-eval :
      (first pages : ℕ)
      → c.first < first
      → 0 < pages
      → first + pages ≡ c.first + c.pages
      → consume_extent c.node first pages s
        ≡ (true, record s { nodes = set_pages c.node (first - c.first) s.nodes })
  unfolding consume_extent
  consume_high-eval first pages above some_pages at =
      let (full, below) = cell_fits in
      let some_before : (first - c.first == 0) ≡ false = ground arith in
      let none_behind : (c.first + c.pages - (first + pages) == 0) ≡ true = ground arith in
      let small = v.small in
      rw
        (
          node_here s pre post c ps v.linked,
          some_before,
          none_behind,
          word_small (first - c.first) (omega arith),
        )
        refl

  consume_whole-eval :
      (first pages : ℕ)
      → first ≡ c.first
      → pages ≡ c.pages
      → consume_extent c.node first pages s ≡ (true, unlink_extent c.node s)
  unfolding consume_extent
  consume_whole-eval first pages at same =
      let none_before : (first - c.first == 0) ≡ true = ground arith in
      let none_behind : (c.first + c.pages - (first + pages) == 0) ≡ true = ground arith in
      rw (node_here s pre post c ps v.linked, none_before, none_behind) refl

  consume_middle-eval :
      (first pages q : ℕ) (t : Extents)
      → c.first < first
      → first + pages < c.first + c.pages
      → extent_node_take s ≡ (q, t)
      → (q == 0) ≡ false
      → consume_extent c.node first pages s ≡ (
        true,
        split_extent c.node q
            (first + pages)
            (first - c.first)
            (c.first + c.pages - (first + pages))
            t,
      )
  unfolding consume_extent
  consume_middle-eval first pages q t above below taken some_node =
      let some_before : (first - c.first == 0) ≡ false = ground arith in
      let some_behind : (c.first + c.pages - (first + pages) == 0) ≡ false = ground arith in
      rw (node_here s pre post c ps v.linked, taken, some_before, some_behind, some_node) refl

  consume_low :
      (first pages : ℕ)
      → first ≡ c.first
      → 0 < pages
      → pages < c.pages
      → Consumed bound first pages (covered (pre ++ c ∷ post)) (consume_extent c.node first pages s)
  consume_low first pages at some_pages less =
      let d : Cell = record c { first = first + pages; pages = c.pages - pages } in
      rw (consume_low-eval first pages at some_pages less) (
        refl,
        (
          pre ++ d ∷ post,
          ps,
          shrunk (first + pages) (c.pages - pages) _ (rw (same_node c.node) refl)
              (λ a ne. rw ne refl) (omega arith) (omega arith) (omega arith),
          λ q.
              sym (
                within_cell (d ∷ []) first pages (omega arith) (omega arith) (λ q. ground arith) q),
        ),
      )

  consume_high :
      (first pages : ℕ)
      → c.first < first
      → 0 < pages
      → first + pages ≡ c.first + c.pages
      → Consumed bound first pages (covered (pre ++ c ∷ post)) (consume_extent c.node first pages s)
  consume_high first pages above some_pages at =
      let d : Cell = record c { pages = first - c.first } in
      rw (consume_high-eval first pages above some_pages at) (
        refl,
        (
          pre ++ d ∷ post,
          ps,
          shrunk c.first (first - c.first) (set_pages c.node (first - c.first) s.nodes)
              (rw (same_node c.node) (
                ap (λ (e : Extent). record e { pages = first - c.first })
                  (node_here s pre post c ps v.linked)))
              (λ a ne. rw ne refl) (omega arith) (omega arith) (omega arith),
          λ q.
              sym (
                within_cell (d ∷ []) first pages (omega arith) (omega arith) (λ q. ground arith) q),
        ),
      )

  unlink-eval : unlink_extent c.node s ≡ record s {
    nodes = write c.node (record zero_extent { next = s.free_head }) (taken_out s.nodes pre post);
    head = if last_or 0 pre == 0 then first_or 0 post else s.head;
    free_head = c.node;
    free_count = s.free_count + 1;
  }
  unfolding extent_node_return
  unlink-eval = elim (Bool-cases (last_or 0 pre == 0)) [
    | inl e ↦
        rw
          (
            node_here s pre post c ps v.linked,
            e,
            not_null s pre post c ps v.linked,
            returnable s pre post c ps v.linked,
          )
          refl
    | inr e ↦
        rw
          (
            node_here s pre post c ps v.linked,
            e,
            not_null s pre post c ps v.linked,
            returnable s pre post c ps v.linked,
          )
          refl
  ]

  unlink_capacity : (unlink_extent c.node s).capacity ≡ s.capacity
  unlink_capacity = ap (λ (t : Extents). t.capacity) unlink-eval

  unlinked : Linked (unlink_extent c.node s) (pre ++ post) (c.node ∷ ps)
  unlinked = rw unlink-eval (
      remove_lem s _ pre post c ps v.linked (λ a. refl)
        (head_after s.head pre (c ∷ post) post (pre_none0 s pre post c ps v.linked)
          v.linked.head_is)
        refl refl refl)

  consume_whole :
      (first pages : ℕ)
      → first ≡ c.first
      → pages ≡ c.pages
      → Consumed bound first pages (covered (pre ++ c ∷ post)) (consume_extent c.node first pages s)
  consume_whole first pages at same = rw (consume_whole-eval first pages at same) (
    refl,
    (
      pre ++ post,
      c.node ∷ ps,
      record {
        linked = unlinked;
        spaced =
            Spaced-middle 0 bound pre (c ∷ post) post
              (λ l (low, full, high, t). Spaced-lower l _ bound post (omega arith) t) v.spaced;
        small = v.small;
        room = unlink_capacity ∙ v.room;
      },
      λ q. sym (within_cell [] first pages (omega arith) (omega arith) (λ q. ground arith) q),
    ),
  )

  -- A run that is split needs a node, and there is one: the runs are apart, so they are never more
  -- than the nodes.
  node_left : (d e : Cell) → Spaced 0 bound (pre ++ d ∷ e ∷ post) → 0 < length ps
  node_left d e spaced = omega (
    arith,
    Spaced-length 0 bound (pre ++ d ∷ e ∷ post) spaced,
    length-append pre (d ∷ e ∷ post),
    length-append pre (c ∷ post),
    v.linked.total,
    v.room,
  )

split_nodes :
    (m : ℕ → Extent) (n q x p : ℕ) (tail : Extent)
    → (n == 0) ≡ false
    → (n == q) ≡ false
    → (a : ℕ)
    → set_pages n p (set_next n q (link_previous x q (write q tail (write q zero_extent m)))) a
      ≡ link_previous x q (bridge n q (write q tail (set_pages n p m))) a
split_nodes m n q x p tail some_node other a = ground (arith, some_node, other)

split-Spaced :
    (bound : ℕ) (pre post : Cells) (c : Cell) (first pages q : ℕ)
    → c.first < first
    → 0 < pages
    → first + pages < c.first + c.pages
    → Spaced 0 bound (pre ++ c ∷ post)
    → Spaced 0 bound (
        pre
        ++ record c { pages = first - c.first }
          ∷ record { node = q; first = first + pages; pages = c.first + c.pages - (first + pages) }
          ∷ post)
split-Spaced bound pre post c first pages q above some_pages below =
    Spaced-middle 0 bound pre (c ∷ post) _ (λ l (low, full, high, t). (
      low,
      omega arith,
      omega arith,
      (omega arith, omega arith, omega arith, Spaced-lower _ _ bound post (omega arith) t),
    ))

consume_middle :
    (bound : ℕ) (s : Extents) (pre post : Cells) (c : Cell) (ps : List ℕ)
    → IsArena bound s (pre ++ c ∷ post) ps
    → (first pages : ℕ) → c.first < first
    → 0 < pages
    → first + pages < c.first + c.pages
    → Consumed bound first pages (covered (pre ++ c ∷ post)) (consume_extent c.node first pages s)
consume_middle bound s pre post c [] v first pages above some_pages below = absurd (
    omega (
      arith,
      node_left bound s pre post c [] v (record c { pages = first - c.first })
          (record { node = 0; first = first + pages; pages = c.first + c.pages - (first + pages) })
          (split-Spaced bound pre post c first pages 0 above some_pages below v.spaced),
    ))
consume_middle bound s pre post c (q ∷ qs) v first pages above some_pages below =
    let d : Cell = record c { pages = first - c.first } in
    let e : Cell = record {
      node = q;
      first = first + pages;
      pages = c.first + c.pages - (first + pages);
    } in
    let last = last_or 0 pre in
    let next = first_or 0 post in
    let here = node_here s pre post c (q ∷ qs) v.linked in
    let (full, within) = cell_fits bound s pre post c (q ∷ qs) v in
    let small = v.small in
    let (some_q, out) = first_free s (pre ++ c ∷ post) q qs v.linked in
    let other : (c.node == q) ≡ false = ground (arith, out, count_cells-append q pre (c ∷ post)) in
    let g = set_pages c.node (first - c.first) s.nodes in
    let one : Linked (record s { nodes = g }) (pre ++ d ∷ post) (q ∷ qs) =
      replace_lem s pre post c c.first (first - c.first) (q ∷ qs) g v.linked
        (rw (same_node c.node) (ap (λ (x : Extent). record x { pages = first - c.first }) here))
        (λ a ne. rw ne refl) in
    let t : Extents = record s {
      nodes = write q zero_extent s.nodes;
      free_head = head_or_zero qs;
      free_count = s.free_count - 1;
    } in
    let u = split_extent c.node q (first + pages) (first - c.first) e.pages t in
    let assoc = append_assoc pre (d ∷ []) post in
    let assoc' = append_assoc pre (d ∷ []) (e ∷ post) in
    let linked : Linked u ((pre ++ d ∷ []) ++ e ∷ post) qs =
      insert_lem (record s { nodes = g }) u (pre ++ d ∷ []) post e qs
        (subst (λ xs. Linked (record s { nodes = g }) xs (q ∷ qs)) (sym assoc) one)
        (λ a.
          rw
            (
              last_or-append 0 pre d,
              other,
              here,
              word_small (first - c.first) (omega arith),
              word_small (first + pages) (omega arith),
              word_small (c.first + c.pages - (first + pages)) (omega arith),
            )
            (split_nodes s.nodes c.node q next (first - c.first) (extent_of e c.node next)
              (not_null s pre post c (q ∷ qs) v.linked) other a))
        (v.linked.head_is
          ∙ first_or-append pre (c ∷ post) (d ∷ e ∷ post) refl
          ∙ sym (ap (first_or 0) assoc'))
        refl (ground (arith, v.linked.free_length)) refl in
    rw
      (consume_middle-eval bound s pre post c (q ∷ qs) v first pages q t above below
        (take_lem s (pre ++ c ∷ post) q qs v.linked) some_q)
      (
        refl,
        (
          pre ++ d ∷ e ∷ post,
          qs,
          record {
            linked = subst (λ xs. Linked u xs qs) assoc' linked;
            spaced = split-Spaced bound pre post c first pages q above some_pages below v.spaced;
            small = v.small;
            room = v.room;
          },
          λ a. sym (
              within_cell bound s pre post c (q ∷ qs) v (d ∷ e ∷ []) first pages (omega arith)
                (omega arith) (λ a. ground arith) a),
        ),
      )

-- Taking pages out of the run of a node always succeeds, and takes exactly these pages off the free
-- ones: the nodes never run out, and the links, the order and the gaps between runs are kept.
pub consume_extent_lem :
    (bound : ℕ) (s : Extents) (pre post : Cells) (c : Cell) (ps : List ℕ)
    → IsArena bound s (pre ++ c ∷ post) ps
    → (first pages : ℕ) → c.first ≤ first
    → 0 < pages
    → first + pages ≤ c.first + c.pages
    → Consumed bound first pages (covered (pre ++ c ∷ post)) (consume_extent c.node first pages s)
consume_extent_lem bound s pre post c ps v first pages above some_pages below =
    elim (Bool-cases (ltb c.first first)) [
      | inl more ↦ elim (Bool-cases (ltb (first + pages) (c.first + c.pages))) [
        | inl less ↦
            consume_middle bound s pre post c ps v first pages (ground arith) some_pages
              (ground arith)
        | inr ends ↦
            consume_high bound s pre post c ps v first pages (ground arith) some_pages
              (ground arith)
      ]
      | inr starts ↦ elim (Bool-cases (ltb pages c.pages)) [
        | inl less ↦
            consume_low bound s pre post c ps v first pages (ground arith) some_pages (ground arith)
        | inr whole ↦
            consume_whole bound s pre post c ps v first pages (ground arith) (ground arith)
      ]
    ]
