-- ===== src/Broker/Sbrk.antt =====
-- source/sbrk_extend.c: newlib's heap grows by blocks of the pool, up to a cap.
use genshinimpact_nx.Base.{
  ℕ, ◌+◌, ◌-◌, ◌*◌, ◌/◌, ◌%◌, ◌^◌, ◌≤◌, ◌<◌, max, ◌≡◌, refl, ap, ◌⊎◌, inl, inr, ◌||◌, Option, none,
  some, List, [], ◌∷◌, arith, ℤ, pos, negsuc, ltb, leb, ◌==◌, if◌then◌else◌, Bool-cases,
  Option-cases,
}
use genshinimpact_nx.Broker.Entry.{enomem}

abbrev pub extension_block_min : ℕ
extension_block_min = 4 * 1024 * 1024

abbrev pub extension_total_max : ℕ
extension_total_max = 256 * 1024 * 1024

-- `g_sbrk_extension_count`, `g_sbrk_extension_bytes`, `g_sbrk_extension_denied` and the `errno` of
-- the caller, beside the states of newlib and of the pool.
pub record SbrkHeap (N Q : Type 0) : Type 0 where
  pub newlib : N
  pub pool : Q
  pub errno : ℕ
  pub count : ℕ
  pub bytes : ℕ
  pub denied : ℕ

-- The size of the block that is asked for: whole pages, and no less than the least block.
unfoldable pub extension_block : ℕ → ℕ
extension_block increment =
    let block = if ltb increment extension_block_min then extension_block_min else increment in
    (block + 0xfff) / 0x1000 * 0x1000

record IsBlock (increment block : ℕ) : Type 0 where
  covers : increment ≤ block
  least : extension_block_min ≤ block
  whole_pages : block % 0x1000 ≡ 0
  no_more : block < max increment extension_block_min + 0x1000

extension_block_lem : (increment : ℕ) → IsBlock increment (extension_block increment)
unfolding extension_block
extension_block_lem increment = record {
  covers = ground arith;
  least = ground arith;
  whole_pages = ground arith;
  no_more = ground arith;
}

-- `real` is newlib's `_sbrk_r`, which may fail and then sets `errno`, `alloc` the allocation of the
-- pool; `none` is the pointer -1.
module _ {N Q : Type 0} (real : ℤ → ℕ → N → Option ℕ × ℕ × N)
    (alloc : ℕ → ℕ → Q → Option ℕ × Q) where
  -- What follows where newlib's own heap cannot grow.
  unfoldable pub extend : ℕ → SbrkHeap N Q → Option ℕ × SbrkHeap N Q
  unfolding extension_block
  extend increment s =
      let block = extension_block increment in
      let (extension, pool) = alloc block 0x1000 s.pool in
      if leb extension_total_max s.bytes || ltb (extension_total_max - s.bytes) block
      then (none, record s { denied = (s.denied + 1) % 2 ^ 64; errno = enomem })
      else elim extension [
        | none ↦ (none, record s { pool = pool; errno = enomem })
        | some p ↦ (
          some p,
          record s {
            pool = pool;
            count = (s.count + 1) % 2 ^ 64;
            bytes = (s.bytes + block) % 2 ^ 64;
          },
        )
      ]

  abbrev pub increment_size : ℤ → ℕ
  increment_size (pos n) = n
  increment_size (negsuc n) = 0

  unfoldable pub wrap_sbrk_r : ℤ → SbrkHeap N Q → Option ℕ × SbrkHeap N Q
  unfolding extend
  wrap_sbrk_r increment s =
      let (result, e, newlib) = real increment s.errno s.newlib in
      let t : SbrkHeap N Q = record s { newlib = newlib; errno = e } in
      elim result [
        | some p ↦ (some p, t)
        | none ↦
            if increment_size increment == 0 then (none, t) else extend (increment_size increment) t
      ]

  -- The calls of a run, one after the other.
  abbrev pub run : List ℤ → SbrkHeap N Q → SbrkHeap N Q
  run [] s = s
  run (increment ∷ rest) s = run rest (wrap_sbrk_r increment s).1

  -- An extension that is given is the block of the pool that was asked for: whole pages that cover the
  -- request, at least the least block, and less than a page more than is needed.
  pub record Extended (increment : ℕ) (s : SbrkHeap N Q) (p : ℕ) (t : SbrkHeap N Q) : Type 0 where
    pub block : ℕ
    pub given : alloc block 0x1000 s.pool ≡ (some p, t.pool)
    pub covers : increment ≤ block
    pub least : extension_block_min ≤ block
    pub whole_pages : block % 0x1000 ≡ 0
    pub no_more : block < max increment extension_block_min + 0x1000
    pub added : t.bytes ≡ s.bytes + block
    pub capped : t.bytes ≤ extension_total_max
    pub counted : t.count ≡ (s.count + 1) % 2 ^ 64
    pub same_newlib : t.newlib ≡ s.newlib

  -- One that is refused would pass the cap, and the pool is not asked, or the pool refuses it.
  pub record NotExtended (increment : ℕ) (s : SbrkHeap N Q) (t : SbrkHeap N Q) : Type 0 where
    pub same_bytes : t.bytes ≡ s.bytes
    pub same_count : t.count ≡ s.count
    pub same_newlib : t.newlib ≡ s.newlib
    pub no_memory : t.errno ≡ enomem
    pub reason :
        ((extension_total_max < s.bytes + max increment extension_block_min + 0x1000)
          × (t.pool ≡ s.pool)
          × (t.denied ≡ (s.denied + 1) % 2 ^ 64))
        ⊎ ((block : ℕ) × (increment ≤ block) × (alloc block 0x1000 s.pool ≡ (none, t.pool)))

  abbrev pub Extends : ℕ → SbrkHeap N Q → Option ℕ × SbrkHeap N Q → Type 0
  Extends increment s (none, t) = NotExtended increment s t
  Extends increment s (some p, t) = Extended increment s p t

  -- While the total is within the cap, a heap extension that is given is the block of the pool
  -- that was asked for, of whole pages that cover the request, no less than the least block and
  -- less than a page more than needed; it is added to the total, which stays within the cap. One
  -- that is refused leaves the total and the count and sets ENOMEM: it might pass the cap, and
  -- the pool is not asked, or the pool refuses a block that covers the request.
  pub extend_lem :
      (increment : ℕ) (s : SbrkHeap N Q)
      → s.bytes ≤ extension_total_max
      → Extends increment s (extend increment s)
  unfolding extend
  extend_lem increment s low =
      let block = extension_block increment in
      let size = extension_block_lem increment in
      elim (Bool-cases
        (leb extension_total_max s.bytes || ltb (extension_total_max - s.bytes) block)) [
          | inl over ↦
              rw (over, extend)
                (record {
                  same_bytes = refl;
                  same_count = refl;
                  same_newlib = refl;
                  no_memory = refl;
                  reason = inl (ground (arith, over, size.no_more), refl, refl);
                })
          | inr fits ↦ elim (Option-cases (alloc block 0x1000 s.pool).0) [
            | inl e ↦
                rw (fits, e, extend)
                  (record {
                    same_bytes = refl;
                    same_count = refl;
                    same_newlib = refl;
                    no_memory = refl;
                    reason =
                        inr (block, size.covers, ap (λ a. (a, (alloc block 0x1000 s.pool).1)) e);
                  })
            | inr (p, e) ↦
                let total : (s.bytes + block) % 2 ^ 64 ≡ s.bytes + block = ground (arith, fits) in
                rw (fits, e, extend)
                  (record {
                    block = block;
                    given = ap (λ a. (a, (alloc block 0x1000 s.pool).1)) e;
                    covers = size.covers;
                    least = size.least;
                    whole_pages = size.whole_pages;
                    no_more = size.no_more;
                    added = total;
                    capped = rw total (ground (arith, fits));
                    counted = refl;
                    same_newlib = refl;
                  })
          ]
        ]

  -- The pool says how many bytes are taken from it: an allocation that it serves adds its size.
  module _ (taken : Q → ℕ)
      (served : (size alignment p : ℕ) (q : Q)
        → (alloc size alignment q).0 ≡ some p
        → taken (alloc size alignment q).1 ≡ taken q + size)
      (refused : (size alignment : ℕ) (q : Q)
        → (alloc size alignment q).0 ≡ none
        → taken (alloc size alignment q).1 ≡ taken q) where
    -- The total of the extensions is within the cap, and is what they have taken from the pool.
    abbrev pub Within : SbrkHeap N Q → SbrkHeap N Q → Type 0
    Within s t = (t.bytes ≤ extension_total_max) × (taken t.pool + s.bytes ≡ taken s.pool + t.bytes)

    extend-Within :
        (increment : ℕ) (s : SbrkHeap N Q) (r : Option ℕ × SbrkHeap N Q)
        → s.bytes ≤ extension_total_max
        → Extends increment s r
        → Within s r.1
    extend-Within increment s (none, t) low not_given = (
      omega (arith, low, not_given.same_bytes),
      elim not_given.reason [
        | inl (over, same, denied) ↦ omega (arith, ap taken same, not_given.same_bytes)
        | inr (block, covers, asked) ↦
            let same = refused block 0x1000 s.pool (ap (λ x. x.0) asked) in
            let pool = ap (λ x. taken x.1) asked in omega (arith, same, pool, not_given.same_bytes)
      ],
    )
    extend-Within increment s (some p, t) low given =
        let more = served given.block 0x1000 p s.pool (ap (λ x. x.0) given.given) in
        let pool = ap (λ x. taken x.1) given.given in
        (given.capped, omega (arith, more, pool, given.added))

    wrap_sbrk_r-Within :
        (increment : ℤ) (s : SbrkHeap N Q)
        → s.bytes ≤ extension_total_max
        → Within s (wrap_sbrk_r increment s).1
    unfolding wrap_sbrk_r
    wrap_sbrk_r-Within increment s low =
        let (result, e, newlib) = real increment s.errno s.newlib in
        let t : SbrkHeap N Q = record s { newlib = newlib; errno = e } in
        elim (Option-cases result) [
          | inr (p, h) ↦ rw (h, wrap_sbrk_r) (low, refl)
          | inl h ↦ elim (Bool-cases (increment_size increment == 0)) [
            | inl zero_or_less ↦ rw (h, zero_or_less, wrap_sbrk_r) (low, refl)
            | inr more ↦
                rw (h, more, wrap_sbrk_r)
                  (extend-Within (increment_size increment) t (extend (increment_size increment) t)
                    low (extend_lem (increment_size increment) t low))
          ]
        ]

    -- However often newlib asks for more heap, the total of the extensions stays within the cap,
    -- and grows by exactly the bytes that are taken from the pool for them, where an allocation
    -- that the pool serves takes the size asked for and one that it refuses takes none.
    pub run-Within :
        (increments : List ℤ) (s : SbrkHeap N Q)
        → s.bytes ≤ extension_total_max
        → Within s (run increments s)
    run-Within [] s low = (low, refl)
    run-Within (increment ∷ rest) s low =
        let first = wrap_sbrk_r-Within increment s low in
        let later = run-Within rest (wrap_sbrk_r increment s).1 first.0 in
        (later.0, omega (arith, first.1, later.1))
