-- ===== src/Pool/Tests.antt =====
-- Runs of the pool's calls on small arenas and banks, and instances of what is proved.
use genshinimpact_nx.Base.{
  inl, inr, Bool-cases, not, ◌||◌, ◌&&◌, ℕ, ◌+◌, ◌*◌, ◌^◌, ◌≡◌, refl, Bool, true, false, none, some,
  [], ◌∷◌, arith, ltb, ◌==◌, if◌then◌else◌,
}
use genshinimpact_nx.Pool.Extents.{Extents, zero_extent, consume_extent, return_extent, whole_arena}
use genshinimpact_nx.Pool.Cells.{Cell}
use genshinimpact_nx.Pool.Consume.{IsArena, Consumed, covered, consume_extent_lem}
use genshinimpact_nx.Pool.Attach.{Returned, return_extent_lem}
use genshinimpact_nx.Pool.Donor.{
  heap_alias, Kernel, Donor, find_free, donor_allocate, donor_release,
}
use genshinimpact_nx.Pool.Places.{Searched, find_free_lem}
use genshinimpact_nx.Pool.Bank.{IsDonor}
use genshinimpact_nx.Pool.Allot.{Allocated, donor_allocate_lem}
use genshinimpact_nx.Pool.Release.{Released, donor_release_lem}
use genshinimpact_nx.Pool.Backing.{Arena}
use genshinimpact_nx.Pool.Mapped.{IsKernel}
use genshinimpact_nx.Pool.Segments.{overlap}
use genshinimpact_nx.Pool.Live.{Live}

-- Four pages, all free, and all allocated.
abbrev whole_cell : Cell
whole_cell = record { node = 1; first = 0; pages = 4 }

whole_arena-IsArena : IsArena 4 (whole_arena 4) (whole_cell ∷ []) (2 ∷ [])
whole_arena-IsArena = record {
  linked = record {
    head_is = refl;
    chain = (refl, tt);
    free_is = refl;
    free_nodes = (refl, tt);
    free_length = refl;
    total = refl;
    each = λ a. ground arith;
  };
  spaced = (omega arith, omega arith, omega arith, omega arith);
  small = omega arith;
  room = refl;
}

consume_extent_example :
    Consumed 4 1 2 (covered (whole_cell ∷ [])) (consume_extent 1 1 2 (whole_arena 4))
consume_extent_example =
    consume_extent_lem 4 (whole_arena 4) [] [] whole_cell (2 ∷ []) whole_arena-IsArena 1 2
      (omega arith) (omega arith) (omega arith)

abbrev full_arena : Extents
full_arena = record {
  nodes = λ a. record zero_extent { next = if a == 1 then 2 else 0 };
  capacity = 2;
  head = 0;
  free_head = 1;
  free_count = 2;
}

full_arena-IsArena : IsArena 4 full_arena [] (1 ∷ 2 ∷ [])
full_arena-IsArena = record {
  linked = record {
    head_is = refl;
    chain = tt;
    free_is = refl;
    free_nodes = (refl, (refl, tt));
    free_length = refl;
    total = refl;
    each = λ a. ground arith;
  };
  spaced = omega arith;
  small = omega arith;
  room = refl;
}

return_extent_example : Returned 4 1 2 (covered []) (return_extent 1 2 full_arena)
return_extent_example =
    return_extent_lem 4 full_arena [] (1 ∷ 2 ∷ []) 1 2 full_arena-IsArena (λ q h. refl)
      (omega arith) (omega arith) (omega arith)

-- Of four pages, 1 and 2 are taken one by one. Page 2 joins page 3 when it comes back, but there is no
-- node for it until then.
abbrev ends_free : Extents
unfolding consume_extent
ends_free = (consume_extent 2 2 1 (consume_extent 1 1 1 (whole_arena 4)).1).1

return_extent-stuck : return_extent 2 1 ends_free ≡ none
unfolding return_extent consume_extent
return_extent-stuck = refl

find_free_example : Searched (λ u. ltb u 3) 16 4 2 false (find_free (λ u. ltb u 3) 16 4 2 false)
find_free_example = find_free_lem (λ u. ltb u 3) 16 4 2 false refl (omega arith) (omega arith)

-- A kernel that makes any alias and takes away those that it has made: its state says which are there.
abbrev Aliases : Type 0
Aliases = ℕ → ℕ → ℕ → Bool

abbrev no_aliases : Aliases
no_aliases d s n = false

abbrev add_alias : ℕ → ℕ → ℕ → Aliases → Aliases
add_alias d s n k e t m = (e == d && (t == s && m == n)) || k e t m

abbrev remove_alias : ℕ → Aliases → Aliases
remove_alias d k e t m = not (e == d) && k e t m

abbrev willing : Kernel Aliases
willing = record {
  set_heap_size = λ size k. (0, 2 ^ 32, k);
  map_physical = λ destination size k. (0, k);
  unmap_physical = λ destination size k. (0, k);
  map_code = λ destination source size k. (0, add_alias destination source size k);
  unmap_code = λ destination source size k.
      if k destination source size then (0, remove_alias destination k) else (1, k);
  set_permission = λ destination size k. (0, k);
  has_process = true;
  range_state = λ address size state k. true;
  heap_alloc_failed = 1;
  bad_query_memory = 2;
  bad_input = 3;
}

abbrev willing_laws : IsKernel willing
willing_laws = record {
  aliased = λ d s n k. k d s n;
  maps = λ d s n k done. ground arith;
  map_keeps = λ d s n e t m k h. ground (arith, h);
  permission_keeps = λ d s n e m k h. h;
  size_keeps = λ d s n size k h. h;
  unmap_keeps = λ d s n e t m k other h. elim (Bool-cases (k e t m)) [
    | inl made ↦ rw made (ground (arith, h, other, made))
    | inr not_made ↦ rw not_made h
  ];
  refuses = refl;
  refuses_query = refl;
}

-- A bank of 128 units that can have 256.
abbrev bank : Aliases → (ℕ → Bool) → ℕ → Donor Aliases
bank aliases used count = record {
  kernel = aliases;
  backing = heap_alias;
  has_units = true;
  units_used = used;
  base = 2 ^ 32;
  kernel_base = 2 ^ 32;
  kernel_offset = 0;
  capacity = 256;
  active = 128;
  active_bytes = 128 * 65536;
  kernel_bytes = 128 * 65536;
  used_units = count;
  peak_used_units = count;
  grow_calls = 0;
  shrink_calls = 0;
  last_resize = 0;
}

no_units-IsDonor : IsDonor (bank no_aliases (λ _. false) 0)
no_units-IsDonor = record {
  active_fits = omega arith;
  outside = λ u h. refl;
  counted = refl;
  small = omega arith;
}

donor_allocate_example :
    Allocated
      (bank no_aliases (λ _. false) 0)
      32
      16
      (donor_allocate willing 32 16 true (bank no_aliases (λ _. false) 0))
donor_allocate_example =
    donor_allocate_lem willing 32 16 true (bank no_aliases (λ _. false) 0) no_units-IsDonor refl
      refl refl (omega arith) (omega arith)

two_units-IsDonor : IsDonor (bank no_aliases (λ u. ltb u 2) 2)
two_units-IsDonor = record {
  active_fits = omega arith;
  outside = λ u h. ground (arith, h);
  counted = refl;
  small = omega arith;
}

donor_release_example :
    (t : Donor Aliases) × (donor_release willing (0 + 1) 2 (bank no_aliases (λ u. ltb u 2) 2)
      ≡ some t)
    × Released willing (bank no_aliases (λ u. ltb u 2) 2) 0 2 t
donor_release_example =
    donor_release_lem willing 0 2 (bank no_aliases (λ u. ltb u 2) 2) two_units-IsDonor refl
      (omega arith) (omega arith) (λ u low high. ground (arith, high))

-- An arena of two segments, none of them mapped.
abbrev two_segments : Arena Aliases
two_segments = record {
  donor = bank no_aliases (λ _. false) 0;
  dynamic_base = 2 ^ 36;
  dynamic_pages = 4096;
  segment_mapped = λ _. false;
  segment_sources = λ _. 0;
  segment_live = λ _. 0;
  mapped_segments = 0;
  peak_mapped_segments = 0;
  map_calls = 0;
  last_map_result = 0;
  unmap_ok = 0;
  unmap_fail = 0;
}

abbrev one_mapped : Arena Aliases
one_mapped = record two_segments {
  donor = bank (add_alias (2 ^ 36) (2 ^ 32) (8 * 1024 * 1024) no_aliases) (λ u. ltb u 128) 128;
  segment_mapped = λ a. a == 0;
  segment_sources = λ a. if a == 0 then 1 else 0;
  segment_live = λ a. overlap 0 2 a;
  mapped_segments = 1;
  peak_mapped_segments = 1;
}
