-- ===== src/Broker/Resize.antt =====
-- `__wrap_realloc` on a block of the pool: it is released, stays, or moves with its bytes.
use genshinimpact_nx.Base.{
  ℕ, ◌+◌, ◌%◌, ◌≤◌, ◌<◌, ◌≡◌, ◌⊎◌, true, false, ◌&&◌, none, some, leb, ltb, ◌==◌,
}
use genshinimpact_nx.Broker.Model.{malloc, Backend, State}
use genshinimpact_nx.Broker.Entry.{max_align, valid_power_of_two}
use genshinimpact_nx.Broker.Allocate.{Call}
use genshinimpact_nx.Broker.Blocks.{IsAllocator, NotGiven}

-- Giving a block of the pool back takes it out of the pool, and no other.
pub record IsRelease {N Q : Type 0} (env : Backend N Q) : Type 0 where
  pub released :
      (p usable : ℕ) (q : Q)
      → env.pool_query p q ≡ some usable
      → env.pool_query p (env.pool_release p q).1 ≡ none
  pub others :
      (p usable a : ℕ) (q : Q)
      → env.pool_query p q ≡ some usable
      → (a == p) ≡ false
      → env.pool_query a (env.pool_release p q).1 ≡ env.pool_query a q

module _ {N Q : Type 0} (env : Backend N Q) (laws : IsAllocator env) where
  -- The block is given back, and nothing else happens.
  pub record Released (p : ℕ) (s t : State N Q) : Type 0 where
    pub gone : env.pool_query p t.pool ≡ none
    pub pool_same : (a : ℕ) → (a == p) ≡ false → env.pool_query a t.pool ≡ env.pool_query a s.pool
    pub native_same : t.native ≡ s.native

  -- The bytes of the block are in a new block that is large enough, and the old one is given back.
  pub record Moved (p usable size : ℕ) (s : State N Q) (q : ℕ) (t : State N Q) : Type 0 where
    pub room : ℕ
    pub fits : size ≤ room
    pub aligned : valid_power_of_two max_align ≡ true → q % max_align ≡ 0
    pub owner :
        ((env.pool_query q t.pool ≡ some room) × (env.pool_query q s.pool ≡ none))
        ⊎ ((env.real_usable_size q t.native.newlib ≡ some room)
            × (env.real_usable_size q s.native.newlib ≡ none))
    pub gone : env.pool_query p t.pool ≡ none
    pub pool_same :
        (a : ℕ)
        → (a == p) ≡ false
        → (a == q) ≡ false
        → env.pool_query a t.pool ≡ env.pool_query a s.pool
    pub newlib_same :
        (a : ℕ)
        → (a == q) ≡ false
        → env.real_usable_size a t.native.newlib ≡ env.real_usable_size a s.native.newlib
    pub copied :
        (i : ℕ)
        → i < usable
        → laws.manages (p + i) t.native.newlib ≡ false
        → t.native.mem (q + i) ≡ s.native.mem (p + i)
    pub untouched :
        (a : ℕ)
        → laws.manages a t.native.newlib ≡ false
        → (leb q a && ltb a (q + usable)) ≡ false
        → t.native.mem a ≡ s.native.mem a

  -- What becomes of a block `p` of `usable` bytes that is to have `size` bytes.
  abbrev pub Resizes : ℕ → ℕ → ℕ → State N Q → Call N Q → Type 0
  Resizes p usable size s none = ⊥
  Resizes p usable size s (some (none, t)) =
      ((size ≡ 0) × Released p s t)
      ⊎ ((usable < size) × NotGiven env laws (malloc size) true size max_align s t)
  Resizes p usable size s (some (some q, t)) =
      ((0 < size) × (size ≤ usable) × (q ≡ p) × (t ≡ s))
      ⊎ ((usable < size) × Moved p usable size s q t)
