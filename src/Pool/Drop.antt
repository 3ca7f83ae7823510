-- ===== src/Pool/Drop.antt =====
-- The release of an allocation's segments: its pages are no longer live, and segments without live pages
-- are unmapped.
use genshinimpact_nx.Base.{◌⊎◌, ℕ, ◌/◌, ◌≡◌, Bool, true, false, not, ◌&&◌, ◌==◌}
use genshinimpact_nx.Pool.Donor.{Kernel}
use genshinimpact_nx.Pool.Backing.{segment_pages, Arena}
use genshinimpact_nx.Pool.Mapped.{IsKernel}
use genshinimpact_nx.Pool.Segments.{segment_count}
use genshinimpact_nx.Pool.Runs.{in_run}
use genshinimpact_nx.Pool.Backed.{IsBacked, SameArena}
use genshinimpact_nx.Pool.Unmapping.{Refused}
use genshinimpact_nx.Pool.Segments.{segment_address}
use genshinimpact_nx.Pool.Live.{pages_in, Live}

abbrev pub without_run : ℕ → ℕ → (ℕ → Bool) → ℕ → Bool
without_run first pages used q = used q && not (in_run first pages q)

module _ {K : Type 0} (env : Kernel K) (safe : IsKernel env) where
  -- The segments of the run that hold no page are unmapped, but for those at whose address the kernel
  -- refuses, and no others.
  record Dropped (s : Arena K) (g count : ℕ) (t : Arena K) : Type 0 where
    backed : IsBacked env safe t
    same : SameArena s t
    unchanged :
        (a : ℕ)
        → (in_run g count a && s.segment_live a == 0) ≡ false
        → t.segment_mapped a ≡ s.segment_mapped a
    emptied :
        (a : ℕ)
        → (in_run g count a && s.segment_live a == 0) ≡ true
        → (t.segment_mapped a ≡ false) ⊎ Refused env safe (segment_address a s)

  -- What the release gives.
  pub record ReleaseDone (s : Arena K) (used : ℕ → Bool) (first pages : ℕ) (t : Arena K)
      : Type 0 where
    pub backed : IsBacked env safe t
    pub counted : Live t (without_run first pages used)
    pub unchanged :
        (a : ℕ)
        → (in_run (first / segment_pages) (segment_count first pages) a
            && pages_in (without_run first pages used) a == 0)
          ≡ false
        → t.segment_mapped a ≡ s.segment_mapped a
    pub emptied :
        (a : ℕ)
        → (in_run (first / segment_pages) (segment_count first pages) a
            && pages_in (without_run first pages used) a == 0)
          ≡ true
        → (t.segment_mapped a ≡ false) ⊎ Refused env safe (segment_address a s)
