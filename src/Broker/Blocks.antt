-- ===== src/Broker/Blocks.antt =====
-- What newlib's allocator and the pool promise of their blocks, and what an allocation gives.
use genshinimpact_nx.Base.{
  ℕ, ◌+◌, ◌*◌, ◌%◌, ◌≤◌, ◌<◌, ◌≡◌, ◌⊎◌, Bool, true, false, ◌&&◌, Option, none, some, leb, ltb, ◌==◌,
}
use genshinimpact_nx.Broker.Model.{
  Request, malloc, calloc, memalign, aligned_alloc, Native, Backend, State,
}
use genshinimpact_nx.Broker.Entry.{max_align, valid_power_of_two}

-- The bytes that a request asks for, their alignment, and whether they are to be zero.
abbrev pub bytes_of : Request → ℕ
bytes_of (malloc size) = size
bytes_of (calloc count size) = count * size
bytes_of (memalign alignment size) = size
bytes_of (aligned_alloc alignment size) = size

abbrev pub align_of : Request → ℕ
align_of (malloc size) = max_align
align_of (calloc count size) = max_align
align_of (memalign alignment size) = alignment
align_of (aligned_alloc alignment size) = alignment

abbrev pub clears : Request → Bool
clears (calloc count size) = true
clears _ = false

-- What both promise: a block is new, large enough and aligned, and other blocks stay. `manages` says
-- which addresses newlib writes to by itself.
pub record IsAllocator {N Q : Type 0} (env : Backend N Q) : Type 0 where
  pub manages : ℕ → N → Bool
  pub pool_given :
      (size alignment e : ℕ) (q : Q) (p : ℕ)
      → (env.pool_alloc size alignment e q).0 ≡ some p
      → (usable : ℕ) × (env.pool_query p (env.pool_alloc size alignment e q).2 ≡ some usable)
        × (size ≤ usable)
        × (p % alignment ≡ 0)
        × (env.pool_query p q ≡ none)
  pub pool_others :
      (size alignment e : ℕ) (q : Q) (p a : ℕ)
      → (env.pool_alloc size alignment e q).0 ≡ some p
      → (a == p) ≡ false
      → env.pool_query a (env.pool_alloc size alignment e q).2 ≡ env.pool_query a q
  pub pool_refused :
      (size alignment e : ℕ) (q : Q) (a : ℕ)
      → (env.pool_alloc size alignment e q).0 ≡ none
      → env.pool_query a (env.pool_alloc size alignment e q).2 ≡ env.pool_query a q
  pub real_given :
      (r : Request) (s : Native N) (p : ℕ)
      → (env.real_alloc r s).0 ≡ some p
      → (usable : ℕ) × (env.real_usable_size p (env.real_alloc r s).1.newlib ≡ some usable)
        × (bytes_of r ≤ usable)
        × (valid_power_of_two (align_of r) ≡ true → p % align_of r ≡ 0)
        × (env.real_usable_size p s.newlib ≡ none)
        × (clears r ≡ true → (i : ℕ) → i < bytes_of r → (env.real_alloc r s).1.mem (p + i) ≡ 0)
  pub real_others :
      (r : Request) (s : Native N) (p a : ℕ)
      → (env.real_alloc r s).0 ≡ some p
      → (a == p) ≡ false
      → env.real_usable_size a (env.real_alloc r s).1.newlib ≡ env.real_usable_size a s.newlib
  pub real_refused :
      (r : Request) (s : Native N) (a : ℕ)
      → (env.real_alloc r s).0 ≡ none
      → env.real_usable_size a (env.real_alloc r s).1.newlib ≡ env.real_usable_size a s.newlib
  pub real_writes :
      (r : Request) (s : Native N) (a : ℕ)
      → manages a (env.real_alloc r s).1.newlib ≡ false
      → (env.real_alloc r s).1.mem a ≡ s.mem a

module _ {N Q : Type 0} (env : Backend N Q) (laws : IsAllocator env) where
  -- A new block of the pool or of newlib, and all else as before.
  pub record Given (size alignment : ℕ) (clear : Bool) (s : State N Q) (p : ℕ) (t : State N Q)
      : Type 0 where
    pub usable : ℕ
    pub fits : size ≤ usable
    pub aligned : valid_power_of_two alignment ≡ true → p % alignment ≡ 0
    pub owner :
        ((env.pool_query p t.pool ≡ some usable) × (env.pool_query p s.pool ≡ none))
        ⊎ ((env.real_usable_size p t.native.newlib ≡ some usable)
            × (env.real_usable_size p s.native.newlib ≡ none)
            × ((a : ℕ) → env.pool_query a t.pool ≡ env.pool_query a s.pool))
    pub pool_same : (a : ℕ) → (a == p) ≡ false → env.pool_query a t.pool ≡ env.pool_query a s.pool
    pub newlib_same :
        (a : ℕ)
        → (a == p) ≡ false
        → env.real_usable_size a t.native.newlib ≡ env.real_usable_size a s.native.newlib
    pub zeroed : clear ≡ true → (i : ℕ) → i < size → t.native.mem (p + i) ≡ 0
    pub untouched :
        (a : ℕ)
        → laws.manages a t.native.newlib ≡ false
        → (clear && (leb p a && ltb a (p + size))) ≡ false
        → t.native.mem a ≡ s.native.mem a

  -- No block is new, and none is gone: newlib has refused, and so has the pool, where it is asked.
  pub record NotGiven (request : Request) (asked : Bool) (size alignment : ℕ) (s t : State N Q)
      : Type 0 where
    pub pool_same : (a : ℕ) → env.pool_query a t.pool ≡ env.pool_query a s.pool
    pub newlib_same :
        (a : ℕ) → env.real_usable_size a t.native.newlib ≡ env.real_usable_size a s.native.newlib
    pub untouched :
        (a : ℕ) → laws.manages a t.native.newlib ≡ false → t.native.mem a ≡ s.native.mem a
    pub newlib_refused :
        (n : Native N) × (n.newlib ≡ s.native.newlib) × ((env.real_alloc request n).0 ≡ none)
    pub pool_refused :
        asked ≡ true
        → s.depth ≡ 0
        → (e : ℕ) × (q : Q) × ((a : ℕ) → env.pool_query a q ≡ env.pool_query a s.pool)
          × ((env.pool_alloc size alignment e q).0 ≡ none)

  -- A call of the pool that gives nothing.
  pub record Quiet (s t : State N Q) : Type 0 where
    pub same_newlib : t.native.newlib ≡ s.native.newlib
    pub same_mem : t.native.mem ≡ s.native.mem
    pub same_depth : t.depth ≡ s.depth
    pub pool_same : (a : ℕ) → env.pool_query a t.pool ≡ env.pool_query a s.pool

  abbrev pub FromPool : ℕ → ℕ → Bool → State N Q → Option ℕ × State N Q → Type 0
  FromPool size alignment clear s (some p, t) =
      Given size alignment clear s p t × (t.native.newlib ≡ s.native.newlib)
  FromPool size alignment clear s (none, t) =
      Quiet s t
      × (((size == 0) ≡ false)
          → s.depth ≡ 0
          → (env.pool_alloc size alignment s.native.errno s.pool).0 ≡ none)
