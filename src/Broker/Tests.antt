-- ===== src/Broker/Tests.antt =====
-- Runs of the allocator calls over a small newlib and a small pool, and instances of what is proved.
use genshinimpact_nx.Base.{
  ◌∷◌, [], ℤ, pos, negsuc, ℕ, ◌+◌, ◌-◌, ◌*◌, ◌^◌, ◌≤◌, ◌<◌, ◌≡◌, refl, inr, true, Option, none,
  some, arith, ltb, leb, ◌==◌, if◌then◌else◌, get_or, ◌>>=◌,
}
use genshinimpact_nx.Broker.Counters.{
  hist_upper, hist_buckets, hist_bucket, no_counts, hist_live_add_size, hist_live_remove_size,
}
use genshinimpact_nx.Broker.Model.{
  Request, malloc, calloc, memalign, aligned_alloc, Native, Backend, State,
}
use genshinimpact_nx.Broker.Entry.{enomem, host_pool_fallback, host_pool_route}
use genshinimpact_nx.Broker.Allocate.{routed, last_resort, wrap_malloc, wrap_calloc}
use genshinimpact_nx.Broker.Release.{wrap_free}
use genshinimpact_nx.Broker.Sbrk.{
  SbrkHeap, extend, wrap_sbrk_r, run, Extends, extend_lem, Within, run-Within,
}
use genshinimpact_nx.Broker.Buckets.{hist_bucket_lem, IsCounted, add-IsCounted, remove-add}
use genshinimpact_nx.Broker.Ownership.{IsBackend, Done, wrap_free-Placed}

-- Blocks by address, and the next address to be given out.
record Blocks : Type 0 where
  size_of : ℕ → Option ℕ
  next : ℕ

abbrev put : ℕ → Option ℕ → Blocks → Blocks
put p size b = record b { size_of = λ a. if a == p then size else b.size_of a }

abbrev grow : ℕ → Blocks → Blocks
grow size b = record (put b.next (some size) b) { next = b.next + size }

abbrev request_size : Request → ℕ
request_size (malloc n) = n
request_size (calloc m n) = m * n
request_size (memalign a n) = n
request_size (aligned_alloc a n) = n

-- Serves requests of less than 1000 bytes; others fail with ENOMEM.
abbrev small_alloc : Request → Native Blocks → Option ℕ × Native Blocks
small_alloc r s =
    if ltb (request_size r) 1000
    then (some s.newlib.next, record s { newlib = grow (request_size r) s.newlib })
    else (none, record s { errno = enomem })

abbrev small_free : ℕ → Native Blocks → Option (Native Blocks)
small_free p s = do size ← s.newlib.size_of p; some (record s { newlib = put p none s.newlib })

abbrev small_realloc : ℕ → ℕ → Native Blocks → Option (Option ℕ × Native Blocks)
small_realloc p size s = do
  old ← s.newlib.size_of p
  some (
      if ltb size 1000
      then (some p, record s { newlib = put p (some size) s.newlib })
      else (none, record s { errno = enomem }))

abbrev pool_base : ℕ
pool_base = 2 ^ 40

abbrev small_env : Backend Blocks Blocks
small_env = record {
  real_alloc = small_alloc;
  real_realloc = small_realloc;
  real_free = small_free;
  real_usable_size = λ p b. b.size_of p;
  pool_alloc = λ size alignment e q. (some (pool_base + q.next), e, grow size q);
  pool_release = λ p q. (leb pool_base p, put (p - pool_base) none q);
  pool_query = λ p q. if leb pool_base p then q.size_of (p - pool_base) else none;
  pool_contains = λ p q. leb pool_base p;
}

small_env-IsBackend : IsBackend small_env
small_env-IsBackend = record {
  free_block = λ s p h. (record s { newlib = put p none s.newlib }, rw h.1 refl);
  release_region = λ p a q. refl;
}

abbrev nothing : Blocks
nothing = record { size_of = λ _. none; next = 16 }

abbrev start : State Blocks Blocks
start = record {
  native = record { newlib = nothing; mem = λ a. a; errno = 7 };
  pool = nothing;
  depth = 0;
  hist = no_counts;
}

-- A block of 100 bytes of newlib.
abbrev with_block : State Blocks Blocks
with_block = record start { native = record (start.native) { newlib = grow 100 nothing } }

result_of : Option (Option ℕ × State Blocks Blocks) → Option (Option ℕ)
result_of none = none
result_of (some r) = some r.0

large_goes_to_the_pool :
    result_of (wrap_malloc small_env (2 ^ 20) start) ≡ some (some (pool_base + 16))
unfolding result_of wrap_malloc routed host_pool_route host_pool_fallback last_resort
large_goes_to_the_pool = refl

failure_goes_to_the_pool :
    result_of (wrap_calloc small_env 10 500 start) ≡ some (some (pool_base + 16))
unfolding result_of wrap_calloc routed host_pool_route host_pool_fallback last_resort
failure_goes_to_the_pool = refl

no_counts-IsCounted : IsCounted no_counts
no_counts-IsCounted = record {
  live_length = refl;
  peak_length = refl;
  total_is = refl;
  total_peak = omega arith;
}

hist_bucket_example :
    (hist_bucket 5000 < hist_buckets)
    × (5000 ≤ get_or hist_upper (hist_bucket 5000) 0)
    × ((j : ℕ) → j < hist_bucket 5000 → get_or hist_upper j 0 < 5000)
hist_bucket_example = hist_bucket_lem 5000 (omega arith)

add-IsCounted_example :
    IsCounted (hist_live_add_size 100 no_counts)
    × ((hist_live_add_size 100 no_counts).total_live ≡ 0 + 100)
add-IsCounted_example = add-IsCounted no_counts 100 no_counts-IsCounted (omega arith)

remove-add_example :
    let d = hist_live_remove_size 100 (hist_live_add_size 100 no_counts) in
    (d.live ≡ no_counts.live) × (d.total_live ≡ 0)
remove-add_example = remove-add no_counts 100 no_counts-IsCounted (omega arith)

wrap_free-Placed_example :
    Done small_env (wrap_free small_env (some 16) with_block)
    × (leb pool_base 16 ≡ true
        → (t : State Blocks Blocks) × (wrap_free small_env (some 16) with_block ≡ some t)
          × (t.native ≡ with_block.native))
wrap_free-Placed_example =
    wrap_free-Placed small_env small_env-IsBackend 16 with_block (inr (100, refl))

-- A newlib whose own heap is full, over a pool that serves every request.
abbrev no_room : ℤ → ℕ → Blocks → Option ℕ × ℕ × Blocks
no_room increment e b = (none, enomem, b)

abbrev from_pool : ℕ → ℕ → Blocks → Option ℕ × Blocks
from_pool size alignment q = (some (pool_base + q.next), grow size q)

abbrev fresh_heap : SbrkHeap Blocks Blocks
fresh_heap = record {
  newlib = nothing;
  pool = nothing;
  errno = 0;
  count = 0;
  bytes = 0;
  denied = 0;
}

two_extensions : (run no_room from_pool (pos 100 ∷ pos 5000000 ∷ []) fresh_heap).count ≡ 2
unfolding wrap_sbrk_r
two_extensions = refl

extend_example : Extends no_room from_pool 100 fresh_heap (extend no_room from_pool 100 fresh_heap)
extend_example = extend_lem no_room from_pool 100 fresh_heap (omega arith)

-- What is taken from the pool is what its next address has passed.
abbrev passed : Blocks → ℕ
passed q = q.next

from_pool-adds :
    (size alignment p : ℕ) (q : Blocks)
    → (from_pool size alignment q).0 ≡ some p
    → passed (from_pool size alignment q).1 ≡ passed q + size
from_pool-adds size alignment p q h = refl

from_pool-serves :
    (size alignment : ℕ) (q : Blocks)
    → (from_pool size alignment q).0 ≡ none
    → passed (from_pool size alignment q).1 ≡ passed q
from_pool-serves size alignment q h = absurd (ground (arith, h))

run-Within_example :
    Within no_room from_pool passed from_pool-adds from_pool-serves fresh_heap
      (run no_room from_pool (pos 100 ∷ negsuc 3 ∷ pos 5000000 ∷ []) fresh_heap)
run-Within_example =
    run-Within no_room from_pool passed from_pool-adds from_pool-serves
      (pos 100 ∷ negsuc 3 ∷ pos 5000000 ∷ []) fresh_heap (omega arith)
