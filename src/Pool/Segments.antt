-- ===== src/Pool/Segments.antt =====
-- The arena's segments: those that hold pages of an allocation are mapped, and those that hold none
-- are unmapped.
use genshinimpact_nx.Base.{
  ℕ, zero, suc, ◌+◌, ◌-◌, ◌*◌, ◌/◌, ◌%◌, ◌^◌, min, max, Bool, true, false, not, ◌||◌, Option, none,
  some, ltb, leb, ◌==◌, if◌then◌else◌, ◌>>=◌,
}
use genshinimpact_nx.Pool.Extents.{word}
use genshinimpact_nx.Pool.Donor.{Kernel}
use genshinimpact_nx.Pool.Backing.{
  segment_bytes, segment_pages, units_per_segment, Arena, backing_map, backing_unmap,
}

abbrev pub update : {A : Type 0} → ℕ → A → (ℕ → A) → ℕ → A
update p v m a = if a == p then v else m a

-- `oc_dynamic_segment_mapped[segment] = 0;` and the lines behind it.
abbrev pub clear_segment : {K : Type 0} → ℕ → Arena K → Arena K
clear_segment segment s = record s {
  segment_mapped = update segment false s.segment_mapped;
  segment_sources = update segment 0 s.segment_sources;
  mapped_segments = s.mapped_segments - 1;
}

abbrev pub record_segment : {K : Type 0} → ℕ → ℕ → Arena K → Arena K
record_segment segment source s =
    let mapped = (s.mapped_segments + 1) % 2 ^ 64 in
    record s {
      segment_mapped = update segment true s.segment_mapped;
      segment_sources = update segment source s.segment_sources;
      mapped_segments = mapped;
      peak_mapped_segments = max s.peak_mapped_segments mapped;
    }

-- How many of the pages lie in the segment, when it holds one of them.
abbrev pub overlap : ℕ → ℕ → ℕ → ℕ
overlap first pages segment =
    let segment_first = segment * segment_pages in
    let segment_end = segment_first + segment_pages in
    let end = first + pages in min end segment_end - max first segment_first

abbrev pub segment_address : {K : Type 0} → ℕ → Arena K → ℕ
segment_address segment s = s.dynamic_base + segment * segment_bytes

abbrev pub refuse : {K : Type 0} → Option (Arena K) → Option (Bool × Arena K)
refuse none = none
refuse (some s) = some (false, s)

-- The pages of an allocation are counted in each of its segments.
unfoldable pub add_live : ℕ → ℕ → ℕ → ℕ → (ℕ → ℕ) → ℕ → ℕ
add_live zero segment first pages live = live
add_live (suc count) segment first pages live =
    add_live count (segment + 1) first pages
      (update segment (word (live segment + word (overlap first pages segment))) live)

-- `none` is `fatal_error`: a segment with fewer live pages than are taken from it.
unfoldable pub take_live : ℕ → ℕ → ℕ → ℕ → (ℕ → ℕ) → Option (ℕ → ℕ)
take_live zero segment first pages live = some live
take_live (suc count) segment first pages live =
    let owned = word (overlap first pages segment) in
    let later =
      take_live count (segment + 1) first pages (update segment (live segment - owned) live) in
    if ltb (live segment) owned then none else later

abbrev pub segment_count : ℕ → ℕ → ℕ
segment_count first pages = (first + pages - 1) / segment_pages + 1 - first / segment_pages

abbrev pub mapped_step :
    {K : Type 0} → ℕ → (ℕ → Bool) → ℕ → ℕ → Arena K → Bool × (ℕ → Bool) × Arena K
mapped_step segment newly zero source s =
    (true, update segment true newly, record_segment segment source s)
mapped_step segment newly (suc _) source s = (false, newly, s)

module _ {K : Type 0} (env : Kernel K) where
  abbrev pub unmap_segment : ℕ → Arena K → Option (ℕ × Arena K)
  unmap_segment segment s =
      backing_unmap env (segment_address segment s) segment_bytes (s.segment_sources segment) s

  -- One segment of the rollback. `none` is `fatal_error`.
  unfoldable pub undo_segment : ℕ → (ℕ → Bool) → Arena K → Option (Arena K)
  undo_segment segment newly s = if not (newly segment) then some s else do
    undo ← unmap_segment segment s
    if undo.0 == 0 then some (clear_segment segment undo.1) else none

  unfoldable pub undo_segments : ℕ → ℕ → (ℕ → Bool) → Arena K → Option (Arena K)
  unfolding undo_segment
  undo_segments zero segment newly s = some s
  undo_segments (suc count) segment newly s = do
    t ← undo_segment segment newly s
    undo_segments count (segment + 1) newly t

  -- One segment of the commit: whether it is mapped now, and which are new.
  unfoldable pub map_segment : ℕ → (ℕ → Bool) → Arena K → Option (Bool × (ℕ → Bool) × Arena K)
  unfolding backing_map
  map_segment segment newly s = if s.segment_mapped segment then some (true, newly, s) else do
    mapped ← backing_map env (segment_address segment s) segment_bytes units_per_segment true s
    some (mapped_step segment newly mapped.0 mapped.1 mapped.2)

  -- The segments one after the other; at the first that fails, those that are new are undone.
  unfoldable pub map_segments : ℕ → ℕ → ℕ → ℕ → (ℕ → Bool) → Arena K → Option (Bool × Arena K)
  unfolding map_segment undo_segments
  map_segments first total zero segment newly s = some (true, s)
  map_segments first total (suc count) segment newly s = do
    step ← map_segment segment newly s
    let later = map_segments first total count (segment + 1) step.1 step.2
    if step.0 then later else refuse (undo_segments total first step.1 step.2)

  -- A segment that holds no page any more; it stays when the kernel does not unmap it.
  unfoldable pub drop_segment : ℕ → Arena K → Option (Arena K)
  drop_segment segment s =
      if not (s.segment_mapped segment) || not (s.segment_live segment == 0) then some s else do
        result ← unmap_segment segment s
        some (if result.0 == 0 then clear_segment segment result.1 else result.1)

  unfoldable pub drop_segments : ℕ → ℕ → Arena K → Option (Arena K)
  unfolding drop_segment
  drop_segments zero segment s = some s
  drop_segments (suc count) segment s = do
    t ← drop_segment segment s
    drop_segments count (segment + 1) t

  -- `oc_dynamic_commit_segments_locked`
  unfoldable pub commit_segments : ℕ → ℕ → Arena K → Option (Bool × Arena K)
  unfolding map_segments add_live
  commit_segments first pages s =
      let first_segment = first / segment_pages in
      let count = segment_count first pages in
      if pages == 0 || (leb s.dynamic_pages first || ltb (s.dynamic_pages - first) pages)
      then some (false, s)
      else do
        mapped ← map_segments first_segment count count first_segment (λ _. false) s
        let live = add_live count first_segment first pages mapped.1.segment_live
        some (mapped.0, if mapped.0 then record mapped.1 { segment_live = live } else mapped.1)

  -- `oc_dynamic_release_segments_locked`
  unfoldable pub release_segments : ℕ → ℕ → Arena K → Option (Arena K)
  unfolding take_live drop_segments
  release_segments first pages s = do
    let first_segment = first / segment_pages
    let count = segment_count first pages
    live ← take_live count first_segment first pages s.segment_live
    drop_segments count first_segment (record s { segment_live = live })
