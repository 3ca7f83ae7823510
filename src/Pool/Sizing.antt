-- ===== src/Pool/Sizing.antt =====
-- The heap donor changes the kernel's state only by setting the size of the heap.
use genshinimpact_nx.Base.{
  ℕ, zero, suc, ◌+◌, ◌-◌, ◌*◌, ◌/◌, ◌≡◌, Bool, true, false, Option, none, some, arith,
  if◌then◌else◌, ◌==◌, ◌||◌, not, leb, ltb,
}
use mathlib.Core.Path.{subst}
use genshinimpact_nx.Pool.Donor.{
  size_max, unit_bytes, donor_initial_bytes, donor_grow_bytes, donor_shrink_bytes, quantum_units,
  align_down, align_up, highest_used, set_units, Kernel, Donor, find_free, resize_kernel,
  donor_resize, donor_grow, try_shrink, use_found, allocate_loop, donor_allocate, all_used,
  donor_release, is_alias,
}

-- What holds of the kernel and is kept by a change of the heap's size.
module _ {K : Type 0} (env : Kernel K) (P : K → Type 0)
    (sized : (size : ℕ) (k : K) → P k → P (env.set_heap_size size k).2) where
  abbrev Result : Bool × Donor K → Type 0
  Result r = P r.1.kernel

  abbrev KernelOf : Option (Donor K) → Type 0
  KernelOf none = Unit
  KernelOf (some s) = P s.kernel

  if_kept : (b : Bool) (x y : Bool × Donor K) → Result x → Result y → Result (if b then x else y)
  if_kept true x y p q = p
  if_kept false x y p q = q

  pair_kept :
      (b : Bool) (x y : ℕ × Donor K) → P x.1.kernel → P y.1.kernel → P (if b then x else y).1.kernel
  pair_kept true x y p q = p
  pair_kept false x y p q = q

  donor_kept : (b : Bool) (x y : Donor K) → P x.kernel → P y.kernel → P (if b then x else y).kernel
  donor_kept true x y p q = p
  donor_kept false x y p q = q

  option_kept :
      (b : Bool) (x y : Option (Donor K)) → KernelOf x → KernelOf y → KernelOf (if b then x else y)
  option_kept true x y p q = p
  option_kept false x y p q = q

  resize_kernel-keeps :
      (target size : ℕ) (s : Donor K) → P s.kernel → Result (resize_kernel env target size s)
  unfolding resize_kernel
  resize_kernel-keeps target size s h =
      let after = sized size s.kernel h in
      let undone = sized s.kernel_bytes (env.set_heap_size size s.kernel).2 after in
      ground (arith, after, undone)

  donor_resize-keeps : (target : ℕ) (s : Donor K) → P s.kernel → Result (donor_resize env target s)
  unfolding donor_resize
  donor_resize-keeps target s h =
      let resized = resize_kernel-keeps target (s.kernel_offset + target * unit_bytes) s h in
      ground (arith, h, resized)

  donor_grow-keeps : (minimum : ℕ) (s : Donor K) → P s.kernel → Result (donor_grow env minimum s)
  unfolding donor_grow
  donor_grow-keeps minimum s h =
      let grow_units = donor_grow_bytes / unit_bytes in
      let addition = if ltb grow_units minimum then minimum else grow_units in
      let wanted = if ltb (size_max - addition) s.active then s.capacity else s.active + addition in
      let target =
        align_down (if ltb s.capacity wanted then s.capacity else wanted) quantum_units in
      if_kept (leb s.capacity s.active) (false, s)
        (if leb target s.active then (false, s) else donor_resize env target s) h
        (if_kept (leb target s.active) (false, s) (donor_resize env target s) h
          (donor_resize-keeps target s h))

  try_shrink-keeps : (s : Donor K) → P s.kernel → P (try_shrink env s).kernel
  unfolding try_shrink
  try_shrink-keeps s h =
      let highest = highest_used s.units_used s.active in
      let initial = donor_initial_bytes / unit_bytes in
      let floor_units = if ltb s.capacity initial then s.capacity else initial in
      let least = if ltb floor_units highest then highest else floor_units in
      let rounded = align_up least quantum_units in
      let target = if ltb s.capacity rounded then s.capacity else rounded in
      let few = leb s.active target || ltb (s.active - target) (donor_shrink_bytes / unit_bytes) in
      let big = ltb (size_max - (quantum_units - 1)) least in
      let shrunk = (donor_resize env target s).1 in
      donor_kept (not (is_alias s.backing) || (not s.has_units || s.active == 0)) s
        (if big then s else if few then s else shrunk) h
        (donor_kept big s (if few then s else shrunk) h
          (donor_kept few s shrunk h (donor_resize-keeps target s h)))

  use_found-keeps :
      (found : Option ℕ) (units : ℕ) (s : Donor K) (later : ℕ × Donor K)
      → P s.kernel
      → P later.1.kernel
      → P (use_found found units s later).1.kernel
  use_found-keeps none units s later h more = more
  use_found-keeps (some first) units s later h more = h

  allocate_loop-keeps :
      (fuel units alignment : ℕ) (high : Bool) (s : Donor K)
      → P s.kernel
      → P (allocate_loop env fuel units alignment high s).1.kernel
  unfolding allocate_loop
  allocate_loop-keeps zero units alignment high s h = h
  allocate_loop-keeps (suc fuel) units alignment high s h =
      let t = donor_grow-keeps units s h in
      use_found-keeps (find_free s.units_used s.active units alignment high) units s _ h (
        pair_kept (donor_grow env units s).0
          (allocate_loop env fuel units alignment high (donor_grow env units s).1)
          (0, (donor_grow env units s).1)
          (allocate_loop-keeps fuel units alignment high (donor_grow env units s).1 t) t)

  pub donor_allocate-keeps :
      (units alignment : ℕ) (high : Bool) (s : Donor K)
      → P s.kernel
      → P (donor_allocate env units alignment high s).1.kernel
  unfolding donor_allocate
  donor_allocate-keeps units alignment high s h =
      pair_kept
        (not (is_alias s.backing) || (not s.has_units || (units == 0 || ltb s.capacity units)))
        (0, s) (allocate_loop env (s.capacity + 1) units alignment high s) h
        (allocate_loop-keeps (s.capacity + 1) units alignment high s h)

  release_keeps :
      (encoded units : ℕ) (s : Donor K) → P s.kernel → KernelOf (donor_release env encoded units s)
  unfolding donor_release
  release_keeps encoded units s h =
      let first = encoded - 1 in
      let fewer : Donor K = record s {
        units_used = set_units first units false s.units_used;
        used_units = if leb units s.used_units then s.used_units - units else 0;
      } in
      let shrunk : Option (Donor K) = some (try_shrink env fewer) in
      let missing = not (all_used s.units_used first units) in
      let outside = leb s.active first || ltb (s.active - first) units in
      option_kept (encoded == 0 || (units == 0 || not s.has_units)) (some s)
        (if outside then some s else if missing then none else shrunk) h
        (option_kept outside (some s) (if missing then none else shrunk) h
          (option_kept missing none shrunk tt (try_shrink-keeps fewer h)))

  pub donor_release-keeps :
      (encoded units : ℕ) (s t : Donor K)
      → P s.kernel
      → donor_release env encoded units s ≡ some t
      → P t.kernel
  donor_release-keeps encoded units s t h ran = subst KernelOf ran (release_keeps encoded units s h)
