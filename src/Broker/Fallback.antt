-- ===== src/Broker/Fallback.antt =====
-- `host_pool_fallback` of source/memory_broker.c: the pool gives a new block, or nothing changes.
use genshinimpact_nx.Base.{
  ℕ, ◌≡◌, refl, sym, inl, inr, Bool, true, false, not, ◌||◌, none, some, arith, ◌==◌, Bool-cases,
  Option-cases, if◌then◌else◌,
}
use mathlib.Core.Path.{subst}
use genshinimpact_nx.Broker.Model.{Backend, State, clear_bytes}
use genshinimpact_nx.Broker.Entry.{host_pool_fallback}
use genshinimpact_nx.Broker.Blocks.{IsAllocator, Given, Quiet, FromPool}

module _ {N Q : Type 0} (env : Backend N Q) (laws : IsAllocator env) where
  pub Quiet-refl : (s : State N Q) → Quiet env laws s s
  Quiet-refl s = record {
    same_newlib = refl;
    same_mem = refl;
    same_depth = refl;
    pool_same = λ a. refl;
  }

  -- The memory that the caller gets, cleared where it asks for that.
  abbrev served_state : ℕ → ℕ → ℕ → Bool → State N Q → State N Q
  served_state size alignment p clear s =
      let (result, e, pool) = env.pool_alloc size alignment s.native.errno s.pool in
      let t : State N Q = record s { pool = pool; native = record (s.native) { errno = e } } in
      if clear
      then record t { native = record (t.native) { mem = clear_bytes p size t.native.mem } }
      else t

  abbrev asked_state : ℕ → ℕ → State N Q → State N Q
  asked_state size alignment s =
      let (result, e, pool) = env.pool_alloc size alignment s.native.errno s.pool in
      record s { pool = pool; native = record (s.native) { errno = e } }

  fallback-skips :
      (size alignment : ℕ) (clear : Bool) (s : State N Q)
      → (size == 0 || not (s.depth == 0)) ≡ true
      → host_pool_fallback env size alignment clear s ≡ (none, s)
  unfolding host_pool_fallback
  fallback-skips size alignment clear s skips = rw skips refl

  fallback-fails :
      (size alignment : ℕ) (clear : Bool) (s : State N Q)
      → (size == 0 || not (s.depth == 0)) ≡ false
      → (env.pool_alloc size alignment s.native.errno s.pool).0 ≡ none
      → host_pool_fallback env size alignment clear s ≡ (none, asked_state size alignment s)
  unfolding host_pool_fallback
  fallback-fails size alignment clear s asks e = rw (asks, e) refl

  fallback-serves :
      (size alignment : ℕ) (clear : Bool) (s : State N Q) (p : ℕ)
      → (size == 0 || not (s.depth == 0)) ≡ false
      → (env.pool_alloc size alignment s.native.errno s.pool).0 ≡ some p
      → host_pool_fallback env size alignment clear s
        ≡ (some p, served_state size alignment p clear s)
  unfolding host_pool_fallback
  fallback-serves size alignment clear s p asks e = rw (asks, e) refl

  served-Given :
      (size alignment p : ℕ) (clear : Bool) (s : State N Q)
      → (env.pool_alloc size alignment s.native.errno s.pool).0 ≡ some p
      → Given env laws size alignment clear s p (served_state size alignment p clear s)
  served-Given size alignment p true s e =
      let (usable, known, fits, aligned, new) =
        laws.pool_given size alignment s.native.errno s.pool p e in
      record {
        usable = usable;
        fits = fits;
        aligned = λ _. aligned;
        owner = inl (known, new);
        pool_same = λ a. laws.pool_others size alignment s.native.errno s.pool p a e;
        newlib_same = λ a _. refl;
        zeroed = λ _ i h. ground (arith, h);
        untouched = λ a _ out. rw out refl;
      }
  served-Given size alignment p false s e =
      let (usable, known, fits, aligned, new) =
        laws.pool_given size alignment s.native.errno s.pool p e in
      record {
        usable = usable;
        fits = fits;
        aligned = λ _. aligned;
        owner = inl (known, new);
        pool_same = λ a. laws.pool_others size alignment s.native.errno s.pool p a e;
        newlib_same = λ a _. refl;
        zeroed = λ h. absurd (ground (arith, h));
        untouched = λ a _ _. refl;
      }

  served-newlib :
      (size alignment p : ℕ) (clear : Bool) (s : State N Q)
      → (served_state size alignment p clear s).native.newlib ≡ s.native.newlib
  served-newlib size alignment p true s = refl
  served-newlib size alignment p false s = refl

  pub fallback-FromPool :
      (size alignment : ℕ) (clear : Bool) (s : State N Q)
      → FromPool env laws size alignment clear s (host_pool_fallback env size alignment clear s)
  fallback-FromPool size alignment clear s =
      let answer = env.pool_alloc size alignment s.native.errno s.pool in
      elim (Bool-cases (size == 0 || not (s.depth == 0))) [
        | inl skips ↦
            subst (FromPool env laws size alignment clear s)
              (sym (fallback-skips size alignment clear s skips))
              (Quiet-refl s, λ some_size free. absurd (ground (arith, skips, free)))
        | inr asks ↦ elim (Option-cases answer.0) [
          | inl e ↦
              subst (FromPool env laws size alignment clear s)
                (sym (fallback-fails size alignment clear s asks e))
                (
                  record {
                    same_newlib = refl;
                    same_mem = refl;
                    same_depth = refl;
                    pool_same = λ a. laws.pool_refused size alignment s.native.errno s.pool a e;
                  },
                  λ _ _. e,
                )
          | inr (p, e) ↦
              subst (FromPool env laws size alignment clear s)
                (sym (fallback-serves size alignment clear s p asks e))
                (served-Given size alignment p clear s e, served-newlib size alignment p clear s)
        ]
      ]

  -- The same state but for the counters and `errno`.
  pub relabel :
      (size alignment : ℕ) (clear : Bool) (s : State N Q) (p : ℕ) (t u : State N Q)
      → Given env laws size alignment clear s p t
      → u.pool ≡ t.pool
      → u.native.newlib ≡ t.native.newlib
      → u.native.mem ≡ t.native.mem
      → Given env laws size alignment clear s p u
  relabel size alignment clear s p t u g pool newlib mem = record {
    usable = g.usable;
    fits = g.fits;
    aligned = g.aligned;
    owner = rw (pool, newlib) g.owner;
    pool_same = rw pool g.pool_same;
    newlib_same = rw newlib g.newlib_same;
    zeroed = rw mem g.zeroed;
    untouched = rw (mem, newlib) g.untouched;
  }
