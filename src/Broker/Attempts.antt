-- ===== src/Broker/Attempts.antt =====
-- The steps of an allocating call: the pool first for a large size, then newlib, then the pool.
use genshinimpact_nx.Base.{
  ℕ, ◌≡◌, refl, sym, ap, ◌∙◌, inl, inr, Bool, true, false, Option, none, some, arith, ◌==◌,
}
use mathlib.Core.Path.{subst}
use genshinimpact_nx.Broker.Model.{Request, Native, Backend, State}
use genshinimpact_nx.Broker.Entry.{with_errno, record_request, host_pool_fallback, host_pool_route}
use genshinimpact_nx.Broker.Allocate.{Call, primary, last_resort, routed}
use genshinimpact_nx.Broker.Blocks.{
  bytes_of, align_of, clears, IsAllocator, Given, NotGiven, Quiet, FromPool,
}
use genshinimpact_nx.Broker.Fallback.{Quiet-refl, fallback-FromPool, relabel}

module _ {N Q : Type 0} (env : Backend N Q) (laws : IsAllocator env) where
  -- What a first attempt at the pool leaves.
  abbrev pub Tried : ℕ → ℕ → Bool → State N Q → Option ℕ × State N Q → Type 0
  Tried size alignment clear s (none, t) = Quiet env laws s t
  Tried size alignment clear s (some p, t) = Given env laws size alignment clear s p t

  route-Tried :
      (size alignment : ℕ) (clear : Bool) (s : State N Q) (r : Option ℕ × State N Q)
      → FromPool env laws size alignment clear s r
      → Tried size alignment clear s
          (elim r.0 [ none ↦ r | some p ↦ (some p, record_request size true r.1) ])
  route-Tried size alignment clear s (none, t) h = h.0
  route-Tried size alignment clear s (some p, t) h =
      relabel env laws size alignment clear s p t (record_request size true t) h.0 refl refl refl

  pub routed-Tried :
      (large : Bool) (size alignment : ℕ) (clear : Bool) (s : State N Q)
      → Tried size alignment clear s (routed env large size alignment clear s)
  unfolding routed host_pool_route
  routed-Tried true size alignment clear s =
      route-Tried size alignment clear s (host_pool_fallback env size alignment clear s)
        (fallback-FromPool env laws size alignment clear s)
  routed-Tried false size alignment clear s = Quiet-refl env laws s

  -- Newlib has given no block, and nothing else has changed.
  pub record Unchanged (request : Request) (s u : State N Q) : Type 0 where
    pub same_depth : u.depth ≡ s.depth
    pub pool_same : (a : ℕ) → env.pool_query a u.pool ≡ env.pool_query a s.pool
    pub newlib_same :
        (a : ℕ) → env.real_usable_size a u.native.newlib ≡ env.real_usable_size a s.native.newlib
    pub untouched :
        (a : ℕ) → laws.manages a u.native.newlib ≡ false → u.native.mem a ≡ s.native.mem a
    pub newlib_refused :
        (n : Native N) × (n.newlib ≡ s.native.newlib) × ((env.real_alloc request n).0 ≡ none)

  pub refused-Unchanged :
      (request : Request) (s t : State N Q)
      → Quiet env laws s t
      → (env.real_alloc request t.native).0 ≡ none
      → Unchanged request s (primary env request t).1
  refused-Unchanged request s t quiet e = record {
    same_depth = quiet.same_depth;
    pool_same = quiet.pool_same;
    newlib_same = λ a.
        laws.real_refused request t.native a e
        ∙ ap (λ n. env.real_usable_size a n) quiet.same_newlib;
    untouched = λ a m. laws.real_writes request t.native a m ∙ ap (λ f. f a) quiet.same_mem;
    newlib_refused = (t.native, quiet.same_newlib, e);
  }

  -- A block of newlib, for the request that is passed on.
  pub newlib-Given :
      (request : Request) (s t : State N Q) (p : ℕ)
      → Quiet env laws s t
      → (env.real_alloc request t.native).0 ≡ some p
      → Given env laws
          (bytes_of request)
          (align_of request)
          (clears request)
          s
          p
          (primary env request t).1
  newlib-Given request s t p quiet e =
      let (usable, known, fits, aligned, new, zeroed) = laws.real_given request t.native p e in
      record {
        usable = usable;
        fits = fits;
        aligned = aligned;
        owner = inr (
          known,
          ap (λ n. env.real_usable_size p n) (sym quiet.same_newlib) ∙ new,
          quiet.pool_same,
        );
        pool_same = λ a _. quiet.pool_same a;
        newlib_same = λ a other.
            laws.real_others request t.native p a e other
            ∙ ap (λ n. env.real_usable_size a n) quiet.same_newlib;
        zeroed = zeroed;
        untouched = λ a m _. laws.real_writes request t.native a m ∙ ap (λ f. f a) quiet.same_mem;
      }

  pub renamed-Given :
      (request : Request) (size alignment : ℕ) (clear : Bool) (s : State N Q) (p : ℕ)
      (u : State N Q)
      → bytes_of request ≡ size
      → align_of request ≡ alignment
      → clears request ≡ clear
      → Given env laws (bytes_of request) (align_of request) (clears request) s p u
      → Given env laws size alignment clear s p u
  renamed-Given request size alignment clear s p u bytes align clearing given =
      rw (← bytes, ← align, ← clearing) given

  pub newlib_known :
      (request : Request) (t : State N Q) (p : ℕ)
      → (env.real_alloc request t.native).0 ≡ some p
      → (usable : ℕ) × (env.real_usable_size p (env.real_alloc request t.native).1.newlib
          ≡ some usable)
  newlib_known request t p e =
      let found = laws.real_given request t.native p e in (found.0, found.1)

  -- A block that the pool gives after newlib has refused.
  pub later-Given :
      (request : Request) (size alignment : ℕ) (clear : Bool) (s u : State N Q) (p : ℕ)
      (t : State N Q)
      → Unchanged request s u
      → Given env laws size alignment clear u p t
      → t.native.newlib ≡ u.native.newlib
      → Given env laws size alignment clear s p t
  later-Given request size alignment clear s u p t same given newlib = record {
    usable = given.usable;
    fits = given.fits;
    aligned = given.aligned;
    owner = elim given.owner [
      | inl (known, new) ↦ inl (known, sym (same.pool_same p) ∙ new)
      | inr (known, new, pool) ↦
          inr (known, sym (same.newlib_same p) ∙ new, λ a. pool a ∙ same.pool_same a)
    ];
    pool_same = λ a other. given.pool_same a other ∙ same.pool_same a;
    newlib_same = λ a other. given.newlib_same a other ∙ same.newlib_same a;
    zeroed = given.zeroed;
    untouched = λ a m out.
        given.untouched a m out ∙ same.untouched a (ap (λ n. laws.manages a n) (sym newlib) ∙ m);
  }

  -- What a call gives: a new block of the size, the alignment and the bytes asked for, or NULL, when
  -- newlib refuses and, where it is `asked`, the pool does too. It hands newlib no bad pointer.
  abbrev pub Serves : Request → Bool → ℕ → ℕ → Bool → State N Q → Call N Q → Type 0
  Serves request asked size alignment clear s none = ⊥
  Serves request asked size alignment clear s (some (none, t)) =
      NotGiven env laws request asked size alignment s t
  Serves request asked size alignment clear s (some (some p, t)) =
      Given env laws size alignment clear s p t

  pub refused-Serves :
      (request : Request) (asked : Bool) (size alignment : ℕ) (s u t : State N Q)
      → Unchanged request s u
      → asked ≡ false
      → t.pool ≡ u.pool
      → t.native.newlib ≡ u.native.newlib
      → t.native.mem ≡ u.native.mem
      → NotGiven env laws request asked size alignment s t
  refused-Serves request asked size alignment s u t same unasked pool newlib mem = record {
    pool_same = rw pool same.pool_same;
    newlib_same = rw newlib same.newlib_same;
    untouched = rw (newlib, mem) same.untouched;
    newlib_refused = same.newlib_refused;
    pool_refused = λ h _. absurd (ground (arith, h, unasked));
  }

  last-Serves :
      (request : Request) (asked : Bool) (size alignment : ℕ) (clear : Bool) (e : ℕ)
      (s u : State N Q) (r : Option ℕ × State N Q)
      → Unchanged request s u
      → (size == 0) ≡ false
      → FromPool env laws size alignment clear u r
      → Serves request asked size alignment clear s (
          some (
            r.0,
            record_request size true
                (with_errno (elim r.0 [ none ↦ u.native.errno | some p ↦ e ]) r.1),
          ))
  last-Serves request asked size alignment clear e s u (some p, t) same nonzero (given, newlib) =
      relabel env laws size alignment clear s p t (record_request size true (with_errno e t))
        (later-Given request size alignment clear s u p t same given newlib) refl refl refl
  last-Serves request asked size alignment clear e s u (none, t) same nonzero (quiet, refused) =
      record {
        pool_same = λ a. quiet.pool_same a ∙ same.pool_same a;
        newlib_same =
            λ a. ap (λ n. env.real_usable_size a n) quiet.same_newlib ∙ same.newlib_same a;
        untouched = λ a m.
            ap (λ f. f a) quiet.same_mem
            ∙ same.untouched a (ap (λ n. laws.manages a n) (sym quiet.same_newlib) ∙ m);
        newlib_refused = same.newlib_refused;
        pool_refused = λ _ free.
            (u.native.errno, u.pool, same.pool_same, refused nonzero (same.same_depth ∙ free));
      }

  pub last_resort-Serves :
      (request : Request) (asked : Bool) (size alignment : ℕ) (clear : Bool) (e : ℕ)
      (s u : State N Q)
      → Unchanged request s u
      → (size == 0) ≡ false
      → Serves request asked size alignment clear s
          (some (last_resort env size alignment clear e u))
  unfolding last_resort
  last_resort-Serves request asked size alignment clear e s u same nonzero =
      last-Serves request asked size alignment clear e s u
        (host_pool_fallback env size alignment clear u) same nonzero
        (fallback-FromPool env laws size alignment clear u)

  pub pooled-Given :
      (large : Bool) (size alignment : ℕ) (clear : Bool) (s : State N Q) (p : ℕ)
      → (routed env large size alignment clear s).0 ≡ some p
      → Given env laws size alignment clear s p
          (with_errno s.native.errno (routed env large size alignment clear s).1)
  pooled-Given large size alignment clear s p h =
      let t = (routed env large size alignment clear s).1 in
      relabel env laws size alignment clear s p t (with_errno s.native.errno t)
        (subst (λ x. Tried size alignment clear s (x, t)) h
          (routed-Tried large size alignment clear s))
        refl refl refl

  pub routed-Quiet :
      (large : Bool) (size alignment : ℕ) (clear : Bool) (s : State N Q)
      → (routed env large size alignment clear s).0 ≡ none
      → Quiet env laws s (routed env large size alignment clear s).1
  routed-Quiet large size alignment clear s h =
      let t = (routed env large size alignment clear s).1 in
      subst (λ x. Tried size alignment clear s (x, t)) h (routed-Tried large size alignment clear s)
