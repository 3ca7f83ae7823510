-- ===== src/Broker/Allocate.antt =====
-- `__wrap_malloc`, `__wrap_calloc`, `__wrap_memalign`, `__wrap_aligned_alloc` and
-- `__wrap_posix_memalign` of source/memory_broker.c.
use genshinimpact_nx.Base.{
  ℕ, ◌*◌, ◌/◌, ◌%◌, ◌^◌, Bool, true, false, not, ◌&&◌, ◌||◌, Option, none, some, ltb, leb, ◌==◌,
  if◌then◌else◌, ◌>>=◌,
}
use genshinimpact_nx.Broker.Counters.{size_max}
use genshinimpact_nx.Broker.Model.{Request, malloc, calloc, memalign, aligned_alloc, Backend, State}
use genshinimpact_nx.Broker.Entry.{
  large_alloc_bytes, max_align, pointer_size, enomem, einval, valid_power_of_two, with_errno,
  record_request, host_pool_fallback, hist_live_add, host_pool_route,
}

-- Whether `count * size` passes SIZE_MAX.
abbrev pub too_many : ℕ → ℕ → Bool
too_many count size = not (size == 0) && ltb (size_max / size) count

-- A call's result: the pointer and what follows. `none` is a pointer misused.
abbrev pub Call : Type 0 → Type 0 → Type 0
Call N Q = Option (Option ℕ × State N Q)

module _ {N Q : Type 0} (env : Backend N Q) where
  -- The function of newlib, on the part of the state that it knows.
  abbrev pub primary : Request → State N Q → Option ℕ × State N Q
  primary request s =
      let (result, native) = env.real_alloc request s.native in
      (result, record s { native = native })

  -- A block of newlib that is handed out is counted twice: what is live, and the request.
  abbrev pub count_block : ℕ → ℕ → State N Q → Option (State N Q)
  count_block p size s = do t ← hist_live_add env p s; some (record_request size false t)

  -- The pool as the last resort: `errno` is the caller's where it serves, newlib's where it does not.
  unfoldable pub last_resort : ℕ → ℕ → Bool → ℕ → State N Q → Option ℕ × State N Q
  last_resort size alignment clear caller_errno s =
      let (result, t) = host_pool_fallback env size alignment clear s in
      (
        result,
        record_request size true
            (with_errno (elim result [ none ↦ s.native.errno | some p ↦ caller_errno ]) t),
      )

  -- The pool first, for a large request.
  unfoldable pub routed : Bool → ℕ → ℕ → Bool → State N Q → Option ℕ × State N Q
  routed large size alignment clear s =
      if large then host_pool_route env size alignment clear s else (none, s)

  unfoldable pub wrap_malloc : ℕ → State N Q → Call N Q
  unfolding routed last_resort
  wrap_malloc size s =
      let (pooled, t) = routed (leb large_alloc_bytes size) size max_align false s in
      let (result, u) = primary (malloc size) t in
      elim pooled [
        | some p ↦ some (some p, with_errno s.native.errno t)
        | none ↦ elim result [
          | some p ↦ do
            v ← hist_live_add env p u
            some (some p, if size == 0 then v else record_request size false v)
          | none ↦
              if size == 0
              then some (none, u)
              else some (last_resort size max_align false s.native.errno u)
        ]
      ]

  unfoldable pub wrap_calloc : ℕ → ℕ → State N Q → Call N Q
  unfolding routed last_resort
  wrap_calloc count size s =
      let large =
        not (count == 0)
        && (not (size == 0)
            && (not (too_many count size) && leb large_alloc_bytes (count * size))) in
      let (pooled, t) = routed large (count * size) max_align true s in
      let (result, u) = primary (calloc count size) t in
      elim pooled [
        | some p ↦ some (some p, with_errno s.native.errno t)
        | none ↦ elim result [
          | some p ↦ do v ← count_block p (count * size % 2 ^ 64) u; some (some p, v)
          | none ↦
              if count == 0 || size == 0
              then some (none, u)
              else if too_many count size
              then some (none, with_errno enomem u)
              else some (last_resort (count * size) max_align true s.native.errno u)
        ]
      ]

  -- `memalign` and `aligned_alloc` differ in the request and in which alignments they accept.
  unfoldable pub wrap_aligned : Request → Bool → ℕ → ℕ → State N Q → Call N Q
  unfolding routed last_resort
  wrap_aligned request valid alignment size s =
      let (pooled, t) = routed (leb large_alloc_bytes size && valid) size alignment false s in
      let (result, u) = primary request t in
      elim pooled [
        | some p ↦ some (some p, with_errno s.native.errno t)
        | none ↦ elim result [
          | some p ↦ do v ← count_block p size u; some (some p, v)
          | none ↦
              if size == 0
              then some (none, u)
              else if not valid
              then some (none, with_errno einval u)
              else some (last_resort size alignment false s.native.errno u)
        ]
      ]

  unfoldable pub wrap_memalign : ℕ → ℕ → State N Q → Call N Q
  unfolding wrap_aligned
  wrap_memalign alignment size s =
      wrap_aligned (memalign alignment size)
        (valid_power_of_two alignment && leb pointer_size alignment) alignment size s

  -- `valid` is computed with `size % alignment` only after the test for a power of two.
  unfoldable pub wrap_aligned_alloc : ℕ → ℕ → State N Q → Call N Q
  unfolding wrap_aligned
  wrap_aligned_alloc alignment size s =
      wrap_aligned (aligned_alloc alignment size)
        (valid_power_of_two alignment && size % alignment == 0) alignment size s

  -- The code that is returned, what is stored through `result_out` (or nothing), and the state.
  -- `out` says whether `result_out` is not NULL.
  unfoldable pub wrap_posix_memalign :
      Bool → ℕ → ℕ → State N Q → Option (ℕ × Option (Option ℕ) × State N Q)
  unfolding routed
  wrap_posix_memalign out alignment size s =
      let (pooled, t) = routed (leb large_alloc_bytes size) size alignment false s in
      let (result, u) = primary (memalign alignment size) t in
      let (replacement, w) = host_pool_fallback env size alignment false u in
      if not out || (ltb alignment pointer_size || not (valid_power_of_two alignment))
      then some (einval, none, s)
      else elim pooled [
        | some p ↦ some (0, some (some p), with_errno s.native.errno t)
        | none ↦ elim result [
          | some p ↦ do
            v ← count_block p size (with_errno s.native.errno u)
            some (0, some (some p), v)
          | none ↦
              if size == 0
              then some (0, some none, with_errno s.native.errno u)
              else elim replacement [
                | none ↦ some (enomem, none, with_errno s.native.errno w)
                | some p ↦
                    some (0, some (some p), record_request size true (with_errno s.native.errno w))
              ]
        ]
      ]
