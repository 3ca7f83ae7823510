-- ===== src/Pool/Backing.antt =====
-- Memory behind the arena: it is mapped and unmapped as a whole segment of 8 MiB, from the heap donor
-- or as physical memory.
use genshinimpact_nx.Base.{
  ℕ, ◌+◌, ◌*◌, ◌/◌, ◌%◌, ◌^◌, Bool, true, false, not, ◌&&◌, ◌||◌, Option, none, some, ◌==◌,
  if◌then◌else◌, ◌>>=◌,
}
use genshinimpact_nx.Pool.Donor.{
  Backing, no_backing, physical, heap_alias, is_alias, heap_rw, code_rw, Kernel, unit_bytes, Donor,
  donor_allocate, donor_release, source_from_encoded,
}

abbrev pub mmap_page : ℕ
mmap_page = 4096

abbrev pub segment_bytes : ℕ
segment_bytes = 8 * 1024 * 1024

abbrev pub segment_pages : ℕ
segment_pages = segment_bytes / mmap_page

abbrev pub units_per_segment : ℕ
units_per_segment = segment_bytes / unit_bytes

-- The arena's globals: `oc_dynamic_base`, `oc_dynamic_pages`, the three arrays of segments and the
-- counters.
pub record Arena (K : Type 0) : Type 0 where
  pub donor : Donor K
  pub dynamic_base : ℕ
  pub dynamic_pages : ℕ
  pub segment_mapped : ℕ → Bool
  pub segment_sources : ℕ → ℕ
  pub segment_live : ℕ → ℕ
  pub mapped_segments : ℕ
  pub peak_mapped_segments : ℕ
  pub map_calls : ℕ
  pub last_map_result : ℕ
  pub unmap_ok : ℕ
  pub unmap_fail : ℕ

abbrev pub is_physical : Backing → Bool
is_physical physical = true
is_physical _ = false

module _ {K : Type 0} (env : Kernel K) where
  -- The heap at `source` appears at `destination` as code memory, which is made writable; that is
  -- undone when it does not become so. `none` is `fatal_error`: the undoing failed.
  unfoldable pub map_alias : ℕ → ℕ → ℕ → Donor K → Option (ℕ × Donor K)
  map_alias destination source size s =
      let (result, mapped) = env.map_code destination source size s.kernel in
      let (permission, allowed) = env.set_permission destination size mapped in
      let (undo, undone) = env.unmap_code destination source size allowed in
      let writable = env.range_state destination size code_rw allowed in
      if not (result == 0)
      then some (result, record s { kernel = mapped })
      else if permission == 0 && writable
      then some (0, record s { kernel = allowed })
      else if undo == 0
      then some (
        if permission == 0 then env.bad_query_memory else permission,
        record s { kernel = undone },
      )
      else none

  -- The units come from the donor, and go back to it when they cannot be mapped.
  unfoldable pub map_donor : ℕ → ℕ → ℕ → Bool → Donor K → Option (ℕ × ℕ × Donor K)
  unfolding donor_allocate donor_release map_alias
  map_donor destination size alignment high s = do
    let units = size / unit_bytes
    let (encoded, t) = donor_allocate env units alignment high s
    let source = source_from_encoded encoded t
    mapped ←
        if not (source == 0) && (env.has_process && env.range_state source size heap_rw t.kernel)
        then map_alias destination source size t
        else some (env.heap_alloc_failed, t)
    released ←
        if not (mapped.0 == 0) && not (encoded == 0)
        then donor_release env encoded units mapped.1
        else some mapped.1
    some (mapped.0, encoded, released)

  -- By the kind of memory that stands behind the arena.
  unfoldable pub map_by_backing : Backing → ℕ → ℕ → ℕ → Bool → Donor K → Option (ℕ × ℕ × Donor K)
  unfolding map_donor
  map_by_backing physical destination size alignment high s =
      let (result, kernel) = env.map_physical destination size s.kernel in
      some (result, 0, record s { kernel = kernel })
  map_by_backing heap_alias destination size alignment high s =
      if size % unit_bytes == 0
      then map_donor destination size alignment high s
      else some (env.heap_alloc_failed, 0, s)
  map_by_backing no_backing destination size alignment high s = some (env.heap_alloc_failed, 0, s)

  -- `oc_backing_map_locked`: the result code, the source and the state.
  unfoldable pub backing_map : ℕ → ℕ → ℕ → Bool → Arena K → Option (ℕ × ℕ × Arena K)
  unfolding map_by_backing
  backing_map destination size alignment high s = do
    mapped ← map_by_backing s.donor.backing destination size alignment high s.donor
    some (
      mapped.0,
      if mapped.0 == 0 then mapped.1 else 0,
      record s {
        donor = mapped.2;
        map_calls = (s.map_calls + 1) % 2 ^ 64;
        last_map_result = mapped.0;
      },
    )

  -- The donor's units go back when the kernel has taken the alias away. The write of a diagnosis
  -- line at the first failure is left out.
  unfoldable pub unmap_alias : ℕ → ℕ → ℕ → Arena K → Option (ℕ × Arena K)
  unfolding donor_release
  unmap_alias destination size source s =
      let (result, kernel) =
        env.unmap_code destination (source_from_encoded source s.donor) size s.donor.kernel in
      let d : Donor K = record s.donor { kernel = kernel } in
      if not (result == 0)
      then some (result, record s { donor = d; unmap_fail = (s.unmap_fail + 1) % 2 ^ 64 })
      else do
        released ← donor_release env source (size / unit_bytes) d
        some (0, record s { donor = released; unmap_ok = (s.unmap_ok + 1) % 2 ^ 64 })

  -- `oc_backing_unmap_locked`
  unfoldable pub backing_unmap : ℕ → ℕ → ℕ → Arena K → Option (ℕ × Arena K)
  unfolding unmap_alias
  backing_unmap destination size source s =
      let (result, kernel) = env.unmap_physical destination size s.donor.kernel in
      if is_physical s.donor.backing
      then some (result, record s { donor = record s.donor { kernel = kernel } })
      else if not (is_alias s.donor.backing) || (source == 0 || not (size % unit_bytes == 0))
      then some (env.bad_input, s)
      else if source_from_encoded source s.donor == 0 || not env.has_process
      then some (env.bad_input, s)
      else unmap_alias destination size source s
