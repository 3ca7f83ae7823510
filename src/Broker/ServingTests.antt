-- ===== src/Broker/ServingTests.antt =====
-- An allocator with room for one block and a pool with room for another, and instances of what is
-- proved of the calls that allocate and resize.
use genshinimpact_nx.Base.{
  ℕ, ◌%◌, ◌^◌, Bool, true, false, ◌&&◌, Option, none, some, ltb, ◌==◌, if◌then◌else◌,
}
use genshinimpact_nx.Broker.Counters.{no_counts}
use genshinimpact_nx.Broker.Model.{Request, Native, Backend, State, clear_bytes}
use genshinimpact_nx.Broker.Entry.{enomem}
use genshinimpact_nx.Broker.Blocks.{bytes_of, align_of, clears}

-- The state of either is the size of its only block.
abbrev free : Option ℕ → Bool
free none = true
free (some size) = false

abbrev native_place : ℕ
native_place = 2 ^ 12

abbrev pool_place : ℕ
pool_place = 2 ^ 40

abbrev size_at : ℕ → ℕ → Option ℕ → Option ℕ
size_at place p n = if p == place then n else none

-- Serves requests of less than 1000 bytes.
abbrev one_alloc : Request → Native (Option ℕ) → Option ℕ × Native (Option ℕ)
one_alloc r s =
    if ltb (bytes_of r) 1000 && (native_place % align_of r == 0 && free s.newlib)
    then (
      some native_place,
      record s {
        newlib = some (bytes_of r);
        mem = if clears r then clear_bytes native_place (bytes_of r) s.mem else s.mem;
      },
    )
    else (none, record s { errno = enomem })

abbrev one_pool_alloc : ℕ → ℕ → ℕ → Option ℕ → Option ℕ × ℕ × Option ℕ
one_pool_alloc size alignment e q =
    if pool_place % alignment == 0 && free q then (some pool_place, e, some size) else (none, e, q)

abbrev one_env : Backend (Option ℕ) (Option ℕ)
one_env = record {
  real_alloc = one_alloc;
  real_realloc = λ p size s. none;
  real_free = λ p s. some (record s { newlib = none });
  real_usable_size = size_at native_place;
  pool_alloc = one_pool_alloc;
  pool_release = λ p q. (p == pool_place, if p == pool_place then none else q);
  pool_query = size_at pool_place;
  pool_contains = λ p q. p == pool_place;
}

abbrev empty_state : State (Option ℕ) (Option ℕ)
empty_state = record {
  native = record { newlib = none; mem = λ a. a; errno = 7 };
  pool = none;
  depth = 0;
  hist = no_counts;
}

-- A block of the pool of 100 bytes.
abbrev pool_state : State (Option ℕ) (Option ℕ)
pool_state = record empty_state { pool = some 100 }
