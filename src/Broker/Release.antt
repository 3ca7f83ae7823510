-- ===== src/Broker/Release.antt =====
-- `__wrap_free`, `__wrap_realloc` and `__wrap_malloc_usable_size` of source/memory_broker.c.
use genshinimpact_nx.Base.{ℕ, min, true, false, Option, none, some, leb, ◌==◌, if◌then◌else◌, ◌>>=◌}
use genshinimpact_nx.Broker.Counters.{hist_live_remove_size}
use genshinimpact_nx.Broker.Model.{Backend, State, copy_bytes}
use genshinimpact_nx.Broker.Entry.{
  large_alloc_bytes, max_align, enomem, with_errno, record_request, host_pool_fallback,
  hist_live_add, hist_live_remove, host_pool_route,
}
use genshinimpact_nx.Broker.Allocate.{Call, wrap_malloc}

module _ {N Q : Type 0} (env : Backend N Q) where
  -- `hist_live_remove(pointer); __real_free(pointer);`
  unfoldable pub free_native : ℕ → State N Q → Option (State N Q)
  free_native p s = do
    t ← hist_live_remove env p s
    native ← env.real_free p t.native
    some (record t { native = native })

  unfoldable pub wrap_free : Option ℕ → State N Q → Option (State N Q)
  unfolding free_native
  wrap_free none s = some s
  wrap_free (some p) s =
      let (released, pool) = env.pool_release p s.pool in
      let t : State N Q = record s { pool = pool } in
      if released then some t else if env.pool_contains p pool then some t else free_native p t

  -- A pool block that moves: the bytes are copied and the old block is given back.
  unfoldable pub realloc_copied : ℕ → ℕ → ℕ → Call N Q → Call N Q
  realloc_copied p usable size none = none
  realloc_copied p usable size (some (none, t)) = some (none, t)
  realloc_copied p usable size (some (some q, t)) = some (
    some q,
    record t {
      native = record (t.native) { mem = copy_bytes q p (min usable size) t.native.mem };
      pool = (env.pool_release p t.pool).1;
    },
  )

  -- A block of the pool.
  unfoldable pub realloc_pool : ℕ → ℕ → ℕ → State N Q → Call N Q
  unfolding realloc_copied
  realloc_pool p usable size s =
      if size == 0
      then some (none, record s { pool = (env.pool_release p s.pool).1 })
      else if leb size usable
      then some (some p, s)
      else realloc_copied p usable size (wrap_malloc env size s)

  -- A block of newlib moves to a block `q` of the pool.
  unfoldable pub migrate : ℕ → ℕ → ℕ → ℕ → State N Q → Option (State N Q)
  unfolding free_native
  migrate p q usable size s = free_native p (record s {
    native = record (s.native) { mem = copy_bytes q p (min usable size) s.native.mem };
  })

  -- What follows where newlib's `realloc` fails: the block moves to the pool, or stays.
  unfoldable pub realloc_spill : ℕ → ℕ → ℕ → ℕ → State N Q → Call N Q
  unfolding migrate
  realloc_spill p usable size caller_errno s =
      let (pooled, t) = host_pool_fallback env size max_align false s in
      elim pooled [
        | none ↦ some (none, with_errno s.native.errno t)
        | some q ↦ do
          u ← migrate p q usable size t
          some (some q, record_request size true (with_errno caller_errno u))
      ]

  -- What follows where it gives a block: the live counters are balanced anew.
  unfoldable pub realloc_resized : ℕ → ℕ → ℕ → State N Q → Call N Q
  realloc_resized q usable size s = do
    t ← hist_live_add env q (record s { hist = hist_live_remove_size usable s.hist })
    some (some q, record_request size false t)

  -- A block of newlib, to a size that is not 0: newlib's own `realloc`, and the pool if it fails.
  unfoldable pub realloc_primary : ℕ → ℕ → ℕ → State N Q → Call N Q
  unfolding realloc_spill realloc_resized
  realloc_primary p size caller_errno s = do
    prev_usable ← env.real_usable_size p s.native.newlib
    (result, native) ← env.real_realloc p size s.native
    elim result [
      | some q ↦ realloc_resized q prev_usable size (record s { native = native })
      | none ↦ realloc_spill p prev_usable size caller_errno (record s { native = native })
    ]

  -- A large size: the pool first.
  unfoldable pub realloc_large : ℕ → ℕ → State N Q → Call N Q
  unfolding migrate realloc_primary
  realloc_large p size s = do
    old_usable ← env.real_usable_size p s.native.newlib
    let (pooled, t) = host_pool_route env size max_align false s
    elim pooled [
      | none ↦ realloc_primary p size s.native.errno t
      | some q ↦ do u ← migrate p q old_usable size t; some (some q, with_errno s.native.errno u)
    ]

  -- `realloc(pointer, 0)` of newlib
  unfoldable pub realloc_zero : ℕ → State N Q → Call N Q
  realloc_zero p s = do
    t ← hist_live_remove env p s
    (result, native) ← env.real_realloc p 0 t.native
    some (result, record t { native = native })

  unfoldable pub wrap_realloc : Option ℕ → ℕ → State N Q → Call N Q
  unfolding realloc_pool realloc_zero realloc_primary realloc_large
  wrap_realloc none size s = wrap_malloc env size s
  wrap_realloc (some p) size s = elim (env.pool_query p s.pool) [
    | some usable ↦ realloc_pool p usable size s
    | none ↦
        if env.pool_contains p s.pool
        then some (none, with_errno enomem s)
        else if size == 0
        then realloc_zero p s
        else if leb large_alloc_bytes size
        then realloc_large p size s
        else realloc_primary p size s.native.errno s
  ]

  unfoldable pub wrap_malloc_usable_size : Option ℕ → State N Q → Option ℕ
  wrap_malloc_usable_size none s = some 0
  wrap_malloc_usable_size (some p) s = elim (env.pool_query p s.pool) [
    | some usable ↦ some usable
    | none ↦ if env.pool_contains p s.pool then some 0 else env.real_usable_size p s.native.newlib
  ]
