-- ===== src/Pool/Unmapping.antt =====
-- Taking a mapped segment away: its units go back to the donor, or the kernel refuses and it stays.
use genshinimpact_nx.Base.{
  ℕ, ◌+◌, ◌/◌, ◌%◌, ◌^◌, ◌≡◌, refl, sym, ap, ◌∙◌, ◌⊎◌, inl, inr, true, false, some, arith, ◌==◌,
  Bool-cases,
}
use mathlib.Core.Path.{subst}
use genshinimpact_nx.Pool.Donor.{
  heap_alias, is_alias, Kernel, unit_bytes, Donor, donor_release, source_from_encoded,
}
use genshinimpact_nx.Pool.Backing.{
  is_physical, segment_bytes, units_per_segment, Arena, unmap_alias, backing_unmap,
}
use genshinimpact_nx.Pool.Release.{donor_release_lem}
use genshinimpact_nx.Pool.Sizing.{donor_release-keeps}
use genshinimpact_nx.Pool.Mapped.{IsKernel, Others, kernel-IsDonor, the_kernel}
use genshinimpact_nx.Pool.Segments.{clear_segment, segment_address, unmap_segment}
use genshinimpact_nx.Pool.Backed.{IsBacked, SameArena, in_bank, cleared_segment}

module _ {K : Type 0} (env : Kernel K) (safe : IsKernel env) where
  unmap_alias-run :
      (destination size source code : ℕ) (k : K) (s : Arena K) (d : Donor K)
      → env.unmap_code destination (source_from_encoded source s.donor) size s.donor.kernel
        ≡ (code, k)
      → (code == 0) ≡ true
      → donor_release env source (size / unit_bytes) (the_kernel k s.donor) ≡ some d
      → unmap_alias env destination size source s
        ≡ some (0, record s { donor = d; unmap_ok = (s.unmap_ok + 1) % 2 ^ 64 })
  unfolding unmap_alias
  unmap_alias-run destination size source code k s d gone done ran = rw (gone, ran, done) refl

  unmap_run :
      (s : Arena K) (g : ℕ)
      → s.donor.backing ≡ heap_alias
      → (s.segment_sources g == 0) ≡ false
      → (source_from_encoded (s.segment_sources g) s.donor == 0) ≡ false
      → env.has_process ≡ true
      → unmap_segment env g s
        ≡ unmap_alias env (segment_address g s) segment_bytes (s.segment_sources g) s
  unfolding backing_unmap
  unmap_run s g alias some_source addressed process =
      rw (ap is_physical alias, ap is_alias alias, addressed, process, some_source) refl

  -- The segments stay where the kernel keeps all aliases.
  still_there :
      (s : Arena K) (k : K) (calls : ℕ)
      → IsBacked env safe s
      → ((d t n : ℕ) → safe.aliased d t n s.donor.kernel ≡ true → safe.aliased d t n k ≡ true)
      → IsBacked env safe (record s { donor = the_kernel k s.donor; unmap_fail = calls })
  still_there s k calls backed kept = record {
    books = kernel-IsDonor env safe s.donor k backed.books;
    present = backed.present;
    alias = backed.alias;
    room = backed.room;
    behind = λ a there.
        let b = backed.behind a there in
        record {
          first = b.first;
          named = b.named;
          taken = b.taken;
          addressed = b.addressed;
          process = b.process;
        };
    apart = backed.apart;
    aliased = λ a there. kept (segment_address a s) _ segment_bytes (backed.aliased a there);
  }

  unmap_alias-fails :
      (destination size source code : ℕ) (k : K) (s : Arena K)
      → env.unmap_code destination (source_from_encoded source s.donor) size s.donor.kernel
        ≡ (code, k)
      → (code == 0) ≡ false
      → unmap_alias env destination size source s
        ≡ some (
          code,
          record s { donor = the_kernel k s.donor; unmap_fail = (s.unmap_fail + 1) % 2 ^ 64 },
        )
  unfolding unmap_alias
  unmap_alias-fails destination size source code k s gone failed = rw (gone, failed) refl

  -- The kernel does not take away an alias that is at the address.
  pub record Refused (address : ℕ) : Type 0 where
    pub kernel : K
    pub source : ℕ
    pub there : safe.aliased address source segment_bytes kernel ≡ true
    pub refused : ((env.unmap_code address source segment_bytes kernel).0 == 0) ≡ false

  -- The result of taking a mapped segment away: it is gone with its units, or the kernel has refused and
  -- it stays.
  pub record Unmapped (s : Arena K) (g : ℕ) (r : ℕ × Arena K) : Type 0 where
    pub same : SameArena s r.1
    pub same_mapped : r.1.segment_mapped ≡ s.segment_mapped
    pub outcome :
        ((r.0 ≡ 0) × IsBacked env safe (clear_segment g r.1))
        ⊎ (((r.0 == 0) ≡ false) × IsBacked env safe r.1 × Refused (segment_address g s))

  pub unmap_segment_lem :
      (s : Arena K) (g : ℕ)
      → IsBacked env safe s
      → s.segment_mapped g ≡ true
      → (r : ℕ × Arena K) × (unmap_segment env g s ≡ some r) × Unmapped s g r
  unmap_segment_lem s g backed mapped =
      let b = backed.behind g mapped in
      let source = s.segment_sources g in
      let address = segment_address g s in
      let from = source_from_encoded source s.donor in
      let gone = env.unmap_code address from segment_bytes s.donor.kernel in
      let some_source : (source == 0) ≡ false = ground (arith, b.named) in
      let run = unmap_run s g backed.alias some_source b.addressed b.process in
      elim (Bool-cases (gone.0 == 0)) [
        | inl done ↦
            let kept : Others env safe address s.donor.kernel gone.1 = λ d t n other h.
              safe.unmap_keeps d t n address from segment_bytes s.donor.kernel (inl other) h in
            let (d, ran, back) =
              donor_release_lem env b.first units_per_segment (the_kernel gone.1 s.donor)
                (kernel-IsDonor env safe s.donor gone.1 backed.books) backed.present (omega arith)
                (in_bank env safe s.donor source backed.books b) b.taken in
            let ran_source : donor_release env source units_per_segment (the_kernel gone.1 s.donor)
                ≡ some d =
              subst
                (λ e. donor_release env e units_per_segment (the_kernel gone.1 s.donor) ≡ some d)
                (sym b.named) ran in
            let others : Others env safe address s.donor.kernel d.kernel = λ e t n other h.
              donor_release-keeps env (λ l. safe.aliased e t n l ≡ true) (safe.size_keeps e t n)
                source units_per_segment (the_kernel gone.1 s.donor) d (kept e t n other h)
                ran_source in
            let calls = (s.unmap_ok + 1) % 2 ^ 64 in
            (
              (0, record s { donor = d; unmap_ok = calls }),
              run
                  ∙ unmap_alias-run address segment_bytes source gone.0 gone.1 s d refl done
                      ran_source,
              record {
                same = record { same_base = refl; same_pages = refl; same_live = refl };
                same_mapped = refl;
                outcome =
                    inl (
                      refl,
                      cleared_segment env safe s g gone.1 d backed b mapped back others calls,
                    );
              },
            )
        | inr failed ↦
            let calls = (s.unmap_fail + 1) % 2 ^ 64 in
            (
              (gone.0, record s { donor = the_kernel gone.1 s.donor; unmap_fail = calls }),
              run ∙ unmap_alias-fails address segment_bytes source gone.0 gone.1 s refl failed,
              record {
                same = record { same_base = refl; same_pages = refl; same_live = refl };
                same_mapped = refl;
                outcome = inr (
                  failed,
                  still_there s gone.1 calls backed (λ d t n h.
                      safe.unmap_keeps d t n address from segment_bytes s.donor.kernel (inr failed)
                        h),
                  record {
                    kernel = s.donor.kernel;
                    source = from;
                    there = backed.aliased g mapped;
                    refused = failed;
                  },
                );
              },
            )
      ]
