-- ===== src/Broker/Model.antt =====
-- What source/memory_broker.c works with: newlib's allocator, which is not in the repository, and the
-- sparse pool of source/libc_shim.c, whose functions are an interface here.
use genshinimpact_nx.Base.{ℕ, ◌+◌, ◌-◌, Bool, ◌&&◌, Option, ltb, leb, if◌then◌else◌}
use genshinimpact_nx.Broker.Counters.{Counters}

-- A call of `__real_malloc`, `__real_calloc`, `__real_memalign` or `__real_aligned_alloc`.
pub data Request : Type 0 where
  malloc : ℕ → Request
  calloc : ℕ → ℕ → Request
  memalign : ℕ → ℕ → Request
  aligned_alloc : ℕ → ℕ → Request

-- What newlib reads and writes: its own state, the bytes of memory and `errno`.
pub record Native (N : Type 0) : Type 0 where
  pub newlib : N
  pub mem : ℕ → ℕ
  pub errno : ℕ

-- A pointer is its address, and NULL is `none`. `none` around the result of a call means that the
-- call was given a pointer that is no block of newlib. The functions of the pool are
-- `nx_sparse_pool_host_alloc_aligned`, which may change `errno`, `nx_sparse_pool_owned_release`,
-- `nx_sparse_pool_owned_query` and `nx_sparse_pool_contains_address`.
pub record Backend (N Q : Type 0) : Type 0 where
  pub real_alloc : Request → Native N → Option ℕ × Native N
  pub real_realloc : ℕ → ℕ → Native N → Option (Option ℕ × Native N)
  pub real_free : ℕ → Native N → Option (Native N)
  pub real_usable_size : ℕ → N → Option ℕ
  pub pool_alloc : ℕ → ℕ → ℕ → Q → Option ℕ × ℕ × Q
  pub pool_release : ℕ → Q → Bool × Q
  pub pool_query : ℕ → Q → Option ℕ
  pub pool_contains : ℕ → Q → Bool

-- `depth` is the `memory_broker_depth` of the thread.
pub record State (N Q : Type 0) : Type 0 where
  pub native : Native N
  pub pool : Q
  pub depth : ℕ
  pub hist : Counters

-- `memset(pointer, 0, size)`
abbrev pub clear_bytes : ℕ → ℕ → (ℕ → ℕ) → ℕ → ℕ
clear_bytes pointer size mem a = if leb pointer a && ltb a (pointer + size) then 0 else mem a

-- `memcpy(to, from, size)`
abbrev pub copy_bytes : ℕ → ℕ → ℕ → (ℕ → ℕ) → ℕ → ℕ
copy_bytes to from size mem a =
    if leb to a && ltb a (to + size) then mem (from + (a - to)) else mem a
