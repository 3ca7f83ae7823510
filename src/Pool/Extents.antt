-- ===== src/Pool/Extents.antt =====
-- The free extents of the dynamic arena: nodes in a fixed array, linked both ways in the order of
-- their pages, and a free list of unused nodes. Node 0 is no node.
use genshinimpact_nx.Base.{
  ℕ, zero, suc, ◌+◌, ◌-◌, ◌/◌, ◌%◌, ◌^◌, Bool, true, false, not, ◌&&◌, ◌||◌, Option, none, some,
  ltb, leb, ◌==◌, if◌then◌else◌, ◌>>=◌,
}

-- A field of `uint32_t`.
abbrev pub word : ℕ → ℕ
word n = n % 2 ^ 32

pub record Extent : Type 0 where
  pub first_page : ℕ
  pub pages : ℕ
  pub previous : ℕ
  pub next : ℕ

abbrev pub zero_extent : Extent
zero_extent = record { first_page = 0; pages = 0; previous = 0; next = 0 }

-- The array has `capacity + 1` nodes; `Pool.Cells` shows that only nodes 1 to `capacity` are linked.
pub record Extents : Type 0 where
  pub nodes : ℕ → Extent
  pub capacity : ℕ
  pub head : ℕ
  pub free_head : ℕ
  pub free_count : ℕ

abbrev pub write : ℕ → Extent → (ℕ → Extent) → ℕ → Extent
write p e m a = if a == p then e else m a

abbrev pub set_next : ℕ → ℕ → (ℕ → Extent) → ℕ → Extent
set_next p v m a = if a == p then record (m a) { next = v } else m a

abbrev pub set_previous : ℕ → ℕ → (ℕ → Extent) → ℕ → Extent
set_previous p v m a = if a == p then record (m a) { previous = v } else m a

abbrev pub set_pages : ℕ → ℕ → (ℕ → Extent) → ℕ → Extent
set_pages p v m a = if a == p then record (m a) { pages = v } else m a

-- `if (p) extents[p].previous = v;`
abbrev pub link_previous : ℕ → ℕ → (ℕ → Extent) → ℕ → Extent
link_previous p v m = if p == 0 then m else set_previous p v m

-- `if (p) extents[p].next = v; else head = v;`
abbrev pub link_next : ℕ → ℕ → Extents → Extents
link_next p v s =
    if p == 0 then record s { head = v } else record s { nodes = set_next p v s.nodes }

-- Node 0 says that there is none left.
unfoldable pub extent_node_take : Extents → ℕ × Extents
extent_node_take s =
    let node = s.free_head in
    if s.free_head == 0 || s.free_count == 0 then (0, s) else (
      node,
      record s {
        nodes = write node zero_extent s.nodes;
        free_head = (s.nodes node).next;
        free_count = s.free_count - 1;
      },
    )

unfoldable pub extent_node_return : ℕ → Extents → Extents
extent_node_return node s =
    if node == 0 || (ltb s.capacity node || leb s.capacity s.free_count) then s else record s {
      nodes = write node (record zero_extent { next = s.free_head }) s.nodes;
      free_head = node;
      free_count = s.free_count + 1;
    }

-- The part of the extent behind the allocation becomes a node of its own, `suffix_node`.
abbrev pub split_extent : ℕ → ℕ → ℕ → ℕ → ℕ → Extents → Extents
split_extent node suffix_node allocation_end prefix suffix s =
    let next = (s.nodes node).next in
    let tail : Extent = record {
      first_page = word allocation_end;
      pages = word suffix;
      previous = node;
      next = next;
    } in
    record s {
      nodes = set_pages node (word prefix) (
          set_next node suffix_node
            (link_previous next suffix_node (write suffix_node tail s.nodes)));
    }

abbrev pub unlink_extent : ℕ → Extents → Extents
unfolding extent_node_return
unlink_extent node s =
    let e = s.nodes node in
    let t = link_next e.previous e.next s in
    extent_node_return node (record t { nodes = link_previous e.next e.previous t.nodes })

-- `oc_dynamic_consume_extent_locked`; the Boolean is the `int` it returns. The caller has found the
-- pages within the extent, so no difference is negative.
unfoldable pub consume_extent : ℕ → ℕ → ℕ → Extents → Bool × Extents
unfolding extent_node_take
consume_extent node first pages s =
    let extent = s.nodes node in
    let extent_end = extent.first_page + extent.pages in
    let allocation_end = first + pages in
    let prefix = first - extent.first_page in
    let suffix = extent_end - allocation_end in
    let (suffix_node, t) = extent_node_take s in
    if not (prefix == 0) && not (suffix == 0)
    then (if suffix_node == 0
        then (false, t)
        else (true, split_extent node suffix_node allocation_end prefix suffix t))
    else if not (prefix == 0)
    then (true, record s { nodes = set_pages node (word prefix) s.nodes })
    else if not (suffix == 0)
    then (
      true,
      record s {
        nodes =
            write node (record extent { first_page = word allocation_end; pages = word suffix })
              s.nodes;
      },
    )
    else (true, unlink_extent node s)

-- The nodes before and behind the place of a page in the list, found by walking from the head. The
-- fuel is more than the number of nodes.
unfoldable pub find_place : ℕ → (ℕ → Extent) → ℕ → ℕ → ℕ → Option (ℕ × ℕ)
find_place zero m first previous next = none
find_place (suc fuel) m first previous next =
    let later = find_place fuel m first next (m next).next in
    if not (next == 0) && ltb (m next).first_page first then later else some (previous, next)

-- The pages join the node before them, or get a node of their own. `none` is `fatal_error`.
unfoldable pub attach_extent : ℕ → ℕ → ℕ → ℕ → Extents → Option (ℕ × Extents)
unfolding extent_node_take
attach_extent previous next first pages s =
    let before = s.nodes previous in
    let (node, t) = extent_node_take s in
    let extent : Extent = record {
      first_page = word first;
      pages = word pages;
      previous = previous;
      next = next;
    } in
    let u = link_next previous node (record t { nodes = write node extent t.nodes }) in
    if not (previous == 0) && before.first_page + before.pages == first
    then some (
      previous,
      record s { nodes = set_pages previous (word (before.pages + word pages)) s.nodes },
    )
    else if node == 0
    then none
    else some (node, record u { nodes = link_previous next node u.nodes })

-- A node that touches the one behind it takes over its pages.
unfoldable pub absorb_next : ℕ → Extents → Extents
unfolding extent_node_return
absorb_next node s =
    let e = s.nodes node in
    let n = s.nodes e.next in
    if not (e.next == 0) && e.first_page + e.pages == n.first_page
    then extent_node_return e.next (record s {
      nodes =
          link_previous n.next node
            (set_next node n.next (set_pages node (word (e.pages + n.pages)) s.nodes));
    })
    else s

-- `oc_dynamic_return_extent_locked`
unfoldable pub return_extent : ℕ → ℕ → Extents → Option Extents
unfolding find_place attach_extent absorb_next
return_extent first pages s = do
  place ← find_place (s.capacity + 1) s.nodes first 0 s.head
  attached ← attach_extent place.0 place.1 first pages s
  some (absorb_next attached.0 attached.1)

-- The arena as one free extent of all its pages.
abbrev pub whole_arena : ℕ → Extents
whole_arena arena_pages =
    let extent_capacity = (arena_pages + 1) / 2 in
    record {
      nodes = λ a.
          if a == 1
          then record { first_page = 0; pages = word arena_pages; previous = 0; next = 0 }
          else record zero_extent { next = if leb 2 a && ltb a extent_capacity then a + 1 else 0 };
      capacity = extent_capacity;
      head = 1;
      free_head = 2;
      free_count = extent_capacity - 1;
    }
