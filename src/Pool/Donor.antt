-- ===== src/Pool/Donor.antt =====
-- The heap donor: a bank of 64 KiB units at the end of the process heap, which the kernel makes longer
-- and shorter.
use genshinimpact_nx.Base.{
  ℕ, zero, suc, ◌+◌, ◌-◌, ◌*◌, ◌/◌, ◌%◌, ◌^◌, max, bit_and, Bool, true, false, not, ◌&&◌, ◌||◌,
  Option, none, some, ltb, leb, ◌==◌, if◌then◌else◌,
}

-- Which memory stands behind the arena: `g_memory_backing_backend`.
pub data Backing : Type 0 where
  no_backing physical heap_alias : Backing

abbrev pub is_alias : Backing → Bool
is_alias heap_alias = true
is_alias _ = false

-- The states of a range that the code asks for with `oc_address_range_state`: read-write heap,
-- read-write code memory, and unmapped.
pub data MemoryState : Type 0 where
  heap_rw code_rw unmapped : MemoryState

-- The kernel's calls, with a result code, 0 for success, and whether a range is in a state; and three
-- codes of failure that the library defines.
pub record Kernel (K : Type 0) : Type 0 where
  pub set_heap_size : ℕ → K → ℕ × ℕ × K
  pub map_physical : ℕ → ℕ → K → ℕ × K
  pub unmap_physical : ℕ → ℕ → K → ℕ × K
  pub map_code : ℕ → ℕ → ℕ → K → ℕ × K
  pub unmap_code : ℕ → ℕ → ℕ → K → ℕ × K
  pub set_permission : ℕ → ℕ → K → ℕ × K
  pub has_process : Bool
  pub range_state : ℕ → ℕ → MemoryState → K → Bool
  pub heap_alloc_failed : ℕ
  pub bad_query_memory : ℕ
  pub bad_input : ℕ

abbrev pub size_max : ℕ
size_max = 2 ^ 64 - 1

abbrev pub unit_bytes : ℕ
unit_bytes = 64 * 1024

abbrev pub donor_initial_bytes : ℕ
donor_initial_bytes = 64 * 1024 * 1024

abbrev pub donor_grow_bytes : ℕ
donor_grow_bytes = 256 * 1024 * 1024

abbrev pub donor_shrink_bytes : ℕ
donor_shrink_bytes = 256 * 1024 * 1024

abbrev pub quantum_units : ℕ
quantum_units = 2 * 1024 * 1024 / unit_bytes

-- `units_used` is the array of `capacity` bytes, once it has been allocated. A pointer is its
-- address, 0 for NULL.
pub record Donor (K : Type 0) : Type 0 where
  pub kernel : K
  pub backing : Backing
  pub has_units : Bool
  pub units_used : ℕ → Bool
  pub base : ℕ
  pub kernel_base : ℕ
  pub kernel_offset : ℕ
  pub capacity : ℕ
  pub active : ℕ
  pub active_bytes : ℕ
  pub kernel_bytes : ℕ
  pub used_units : ℕ
  pub peak_used_units : ℕ
  pub grow_calls : ℕ
  pub shrink_calls : ℕ
  pub last_resize : ℕ

-- `x & ~(alignment - 1)` for a power of two, and the same rounded up.
abbrev pub align_down : ℕ → ℕ → ℕ
align_down x alignment = x / alignment * alignment

abbrev pub align_up : ℕ → ℕ → ℕ
align_up x alignment = align_down (x + alignment - 1) alignment

-- The bit test for a power of two.
abbrev pub is_power : ℕ → Bool
is_power n = not (n == 0) && bit_and n (n - 1) == 0

-- `while (used < units && !units_used[first + used]) ++used;`
unfoldable pub free_units : (ℕ → Bool) → ℕ → ℕ → ℕ
free_units used first zero = 0
free_units used first (suc units) =
    let more = free_units used (first + 1) units in if used first then 0 else suc more

-- The search from the low end, from `first` on. Each round moves `first`, so `active + 1` rounds are
-- enough; `last` is the last place where the units fit.
unfoldable pub find_low : ℕ → (ℕ → Bool) → ℕ → ℕ → ℕ → ℕ → Option ℕ
unfolding free_units
find_low zero used last units alignment first = none
find_low (suc fuel) used last units alignment first =
    let at = align_up first alignment in
    let free = free_units used at units in
    let later = find_low fuel used last units alignment (at + free + 1) in
    if ltb last first
    then none
    else if ltb last at
    then none
    else if free == units
    then some at
    else later

-- The search from the high end, from the aligned `first` down.
unfoldable pub find_high : ℕ → (ℕ → Bool) → ℕ → ℕ → ℕ → Option ℕ
unfolding free_units
find_high zero used units alignment first = none
find_high (suc fuel) used units alignment first =
    let lower = find_high fuel used units alignment (align_down (first - alignment) alignment) in
    if free_units used first units == units
    then some first
    else if ltb first alignment
    then none
    else lower

-- `none` is SIZE_MAX.
unfoldable pub find_free : (ℕ → Bool) → ℕ → ℕ → ℕ → Bool → Option ℕ
unfolding find_low find_high
find_free used active units alignment high =
    if units == 0 || (not (is_power alignment) || ltb active units)
    then none
    else if high
    then find_high (active + 1) used units alignment (align_down (active - units) alignment)
    else find_low (active + 1) used (active - units) units alignment 0

-- One more than the last unit below `unit` that is used, or 0.
unfoldable pub highest_used : (ℕ → Bool) → ℕ → ℕ
highest_used used zero = 0
highest_used used (suc unit) =
    let lower = highest_used used unit in if used unit then suc unit else lower

abbrev pub set_units : ℕ → ℕ → Bool → (ℕ → Bool) → ℕ → Bool
set_units first units b used a = if leb first a && ltb a (first + units) then b else used a

abbrev pub take_units : {K : Type 0} → ℕ → ℕ → Donor K → Donor K
take_units first units s =
    let current = (s.used_units + units) % 2 ^ 64 in
    record s {
      units_used = set_units first units true s.units_used;
      used_units = current;
      peak_used_units = max s.peak_used_units current;
    }

-- A place that was found is marked, and its number is one more; without one, the loop goes on.
abbrev pub use_found : {K : Type 0} → Option ℕ → ℕ → Donor K → ℕ × Donor K → ℕ × Donor K
use_found none units s later = later
use_found (some first) units s later = ((first + 1) % 2 ^ 32, take_units first units s)

-- Whether so many units from `first` on are all used.
unfoldable pub all_used : (ℕ → Bool) → ℕ → ℕ → Bool
all_used used first zero = true
all_used used first (suc units) = used first && all_used used (first + 1) units

module _ {K : Type 0} (env : Kernel K) where
  -- The new size is set, and undone when what was added is not read-write heap.
  unfoldable pub resize_kernel : ℕ → ℕ → Donor K → Bool × Donor K
  resize_kernel target kernel_size s =
      let (result, heap_base, kernel) = env.set_heap_size kernel_size s.kernel in
      let t : Donor K = record s {
        kernel = kernel;
        last_resize = result;
        grow_calls = if ltb s.active target then (s.grow_calls + 1) % 2 ^ 64 else s.grow_calls;
        shrink_calls =
            if ltb target s.active then (s.shrink_calls + 1) % 2 ^ 64 else s.shrink_calls;
      } in
      let (rollback, undone_base, undone) = env.set_heap_size s.kernel_bytes kernel in
      let added_ok =
        env.range_state (s.base + s.active * unit_bytes) ((target - s.active) * unit_bytes) heap_rw
          kernel in
      if not (result == 0) || not (heap_base == s.kernel_base)
      then (false, t)
      else if ltb s.active target && not added_ok
      then (false, record t { kernel = undone; last_resize = rollback })
      else (
        true,
        record t {
          active = target;
          active_bytes = target * unit_bytes;
          kernel_bytes = kernel_size;
        },
      )

  unfoldable pub donor_resize : ℕ → Donor K → Bool × Donor K
  unfolding resize_kernel
  donor_resize target s =
      if not (is_alias s.backing) || (s.kernel_base == 0 || (s.base == 0 || ltb s.capacity target))
      then (false, s)
      else if not (target % quantum_units == 0)
      then (false, s)
      else if ltb (size_max / unit_bytes) target
      then (false, s)
      else if ltb (size_max - target * unit_bytes) s.kernel_offset
      then (false, s)
      else resize_kernel target (s.kernel_offset + target * unit_bytes) s

  unfoldable pub donor_grow : ℕ → Donor K → Bool × Donor K
  unfolding donor_resize
  donor_grow minimum s =
      let grow_units = donor_grow_bytes / unit_bytes in
      let addition = if ltb grow_units minimum then minimum else grow_units in
      let wanted = if ltb (size_max - addition) s.active then s.capacity else s.active + addition in
      let target =
        align_down (if ltb s.capacity wanted then s.capacity else wanted) quantum_units in
      if leb s.capacity s.active
      then (false, s)
      else if leb target s.active
      then (false, s)
      else donor_resize target s

  unfoldable pub try_shrink : Donor K → Donor K
  unfolding highest_used donor_resize
  try_shrink s =
      let highest = highest_used s.units_used s.active in
      let initial = donor_initial_bytes / unit_bytes in
      let floor_units = if ltb s.capacity initial then s.capacity else initial in
      let least = if ltb floor_units highest then highest else floor_units in
      let rounded = align_up least quantum_units in
      let target = if ltb s.capacity rounded then s.capacity else rounded in
      if not (is_alias s.backing) || (not s.has_units || s.active == 0)
      then s
      else if ltb (size_max - (quantum_units - 1)) least
      then s
      else if leb s.active target || ltb (s.active - target) (donor_shrink_bytes / unit_bytes)
      then s
      else (donor_resize target s).1

  -- The loop of `oc_donor_allocate_locked`: each round but the last makes the bank longer, so
  -- `capacity + 1` rounds are enough. The result is one more than the first unit, 0 for none.
  unfoldable pub allocate_loop : ℕ → ℕ → ℕ → Bool → Donor K → ℕ × Donor K
  unfolding find_free donor_grow
  allocate_loop zero units alignment high s = (0, s)
  allocate_loop (suc fuel) units alignment high s =
      let (grown, t) = donor_grow units s in
      let later = allocate_loop fuel units alignment high t in
      use_found (find_free s.units_used s.active units alignment high) units s
        (if grown then later else (0, t))

  unfoldable pub donor_allocate : ℕ → ℕ → Bool → Donor K → ℕ × Donor K
  unfolding allocate_loop
  donor_allocate units alignment high s =
      if not (is_alias s.backing) || (not s.has_units || (units == 0 || ltb s.capacity units))
      then (0, s)
      else allocate_loop (s.capacity + 1) units alignment high s

  -- `none` is `fatal_error`: a unit that is not used.
  unfoldable pub donor_release : ℕ → ℕ → Donor K → Option (Donor K)
  unfolding all_used try_shrink
  donor_release encoded units s =
      let first = encoded - 1 in
      if encoded == 0 || (units == 0 || not s.has_units)
      then some s
      else if leb s.active first || ltb (s.active - first) units
      then some s
      else if not (all_used s.units_used first units)
      then none
      else some (
          try_shrink (record s {
            units_used = set_units first units false s.units_used;
            used_units = if leb units s.used_units then s.used_units - units else 0;
          }))

-- The address of the unit that a number stands for, 0 for NULL.
abbrev pub source_from_encoded : {K : Type 0} → ℕ → Donor K → ℕ
source_from_encoded encoded s =
    if encoded == 0 || s.base == 0
    then 0
    else if leb s.capacity (encoded - 1)
    then 0
    else s.base + (encoded - 1) * unit_bytes
