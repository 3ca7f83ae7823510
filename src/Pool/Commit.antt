-- ===== src/Pool/Commit.antt =====
-- The commit of an allocation's segments: all are mapped, or the arena is as it was.
use genshinimpact_nx.Base.{
  ℕ, zero, suc, ◌+◌, ◌%◌, ◌^◌, ◌≡◌, refl, sym, ap, ◌∙◌, inl, inr, Bool, true, false, not, ◌&&◌,
  ◌||◌, some, arith, ◌==◌, if◌then◌else◌, ==_iff, Bool-cases,
}
use mathlib.Core.Path.{subst}
use genshinimpact_nx.Pool.Donor.{Backing, heap_alias, is_alias, Kernel, Donor}
use genshinimpact_nx.Pool.Backing.{
  segment_bytes, units_per_segment, Arena, map_donor, map_by_backing, backing_map,
}
use genshinimpact_nx.Pool.Mapped.{IsKernel, Undoes, Backs, MapOutcome, map_donor_lem}
use genshinimpact_nx.Pool.Segments.{
  update, record_segment, segment_address, map_segment, mapped_step,
}
use genshinimpact_nx.Pool.Backed.{IsBacked, SameArena, recorded, moved_donor}

-- What one step of the commit gives.
pub record Stepped {K : Type 0} (env : Kernel K) (safe : IsKernel env) (s : Arena K) (g : ℕ)
    (newly : ℕ → Bool) (r : Bool × (ℕ → Bool) × Arena K) : Type 0 where
  pub backed : IsBacked env safe r.2
  pub same : SameArena s r.2
  pub mapped : r.0 ≡ true → (a : ℕ) → r.2.segment_mapped a ≡ (s.segment_mapped a || a == g)
  pub new : r.0 ≡ true → (a : ℕ) → r.1 a ≡ (newly a || (a == g && not (s.segment_mapped g)))
  pub stopped : r.0 ≡ false → (r.2.segment_mapped ≡ s.segment_mapped) × (r.1 ≡ newly)

module _ {K : Type 0} (env : Kernel K) (safe : IsKernel env) (undoes : Undoes env safe) where
  by_alias :
      (b : Backing) (destination : ℕ) (s : Donor K)
      → b ≡ heap_alias
      → map_by_backing env b destination segment_bytes units_per_segment true s
        ≡ map_donor env destination segment_bytes units_per_segment true s
  unfolding map_by_backing
  by_alias b destination s e = rw e refl

  backing_map-run :
      (destination size al : ℕ) (s : Arena K) (o : ℕ × ℕ × Donor K)
      → map_by_backing env s.donor.backing destination size al true s.donor ≡ some o
      → backing_map env destination size al true s
        ≡ some (
          o.0,
          if o.0 == 0 then o.1 else 0,
          record s { donor = o.2; map_calls = (s.map_calls + 1) % 2 ^ 64; last_map_result = o.0 },
        )
  unfolding backing_map
  backing_map-run destination size al s o run = rw run refl

  map_segment-run :
      (g : ℕ) (newly : ℕ → Bool) (s : Arena K) (code source : ℕ) (t : Arena K)
      → s.segment_mapped g ≡ false
      → backing_map env (segment_address g s) segment_bytes units_per_segment true s
        ≡ some (code, source, t)
      → map_segment env g newly s ≡ some (mapped_step g newly code source t)
  unfolding map_segment
  map_segment-run g newly s code source t unmapped run = rw (unmapped, run) refl

  map_segment-there :
      (g : ℕ) (newly : ℕ → Bool) (s : Arena K)
      → s.segment_mapped g ≡ true
      → map_segment env g newly s ≡ some (true, newly, s)
  unfolding map_segment
  map_segment-there g newly s mapped = rw mapped refl

  there_already :
      (s : Arena K) (g a : ℕ)
      → s.segment_mapped g ≡ true
      → s.segment_mapped a ≡ (s.segment_mapped a || a == g)
  there_already s g a mapped = elim (Bool-cases (a == g)) [
    | inl e ↦
        let here = subst (λ b. s.segment_mapped b ≡ true) (sym ((==_iff a g).0 e)) mapped in
        ground (arith, here, e)
    | inr e ↦ ground (arith, e)
  ]

  after_map :
      (g : ℕ) (newly : ℕ → Bool) (s : Arena K)
      → IsBacked env safe s
      → s.segment_mapped g ≡ false
      → (o : ℕ × ℕ × Donor K)
      → map_donor env (segment_address g s) segment_bytes units_per_segment true s.donor ≡ some o
      → MapOutcome env safe (segment_address g s) segment_bytes s.donor units_per_segment o
      → (r : Bool × (ℕ → Bool) × Arena K) × (map_segment env g newly s ≡ some r)
        × Stepped env safe s g newly r
  after_map g newly s backed unmapped (zero, source, d) ran outcome =
      let calls = (s.map_calls + 1) % 2 ^ 64 in
      let t : Arena K = record s { donor = d; map_calls = calls; last_map_result = 0 } in
      let backs : Backs env safe (segment_address g s) segment_bytes s.donor units_per_segment
          source d =
        elim outcome.outcome [ inl p ↦ p.1 | inr p ↦ absurd (ground (arith, p.0)) ] in
      (
        (true, update g true newly, record_segment g source t),
        map_segment-run g newly s 0 source t unmapped (
            backing_map-run (segment_address g s) segment_bytes units_per_segment s (0, source, d)
              (by_alias s.donor.backing (segment_address g s) s.donor backed.alias ∙ ran)),
        record {
          backed =
              recorded env safe s g source d backed unmapped backs outcome.books outcome.fixed
                outcome.others calls 0;
          same = record { same_base = refl; same_pages = refl; same_live = refl };
          mapped = λ _ a. ground arith;
          new = λ _ a. ground (arith, unmapped);
          stopped = λ h. absurd (ground (arith, h));
        },
      )
  after_map g newly s backed unmapped (suc code, source, d) ran outcome =
      let calls = (s.map_calls + 1) % 2 ^ 64 in
      let t : Arena K = record s { donor = d; map_calls = calls; last_map_result = suc code } in
      let kept : (u : ℕ) → d.units_used u ≡ s.donor.units_used u = elim outcome.outcome [
        | inl p ↦ absurd (ground (arith, p.0))
        | inr p ↦ p.1
      ] in
      (
        (false, newly, t),
        map_segment-run g newly s (suc code) _ t unmapped (
            backing_map-run (segment_address g s) segment_bytes units_per_segment s
              (suc code, source, d)
              (by_alias s.donor.backing (segment_address g s) s.donor backed.alias ∙ ran)),
        record {
          backed =
              moved_donor env safe s d calls (suc code) backed outcome.books outcome.fixed kept g
                unmapped outcome.others;
          same = record { same_base = refl; same_pages = refl; same_live = refl };
          mapped = λ h. absurd (ground (arith, h));
          new = λ h. absurd (ground (arith, h));
          stopped = λ _. (refl, refl);
        },
      )

  -- One segment: it was mapped, is mapped now, or cannot be, and then nothing has changed.
  pub map_segment_lem :
      (g : ℕ) (newly : ℕ → Bool) (s : Arena K)
      → IsBacked env safe s
      → (r : Bool × (ℕ → Bool) × Arena K) × (map_segment env g newly s ≡ some r)
        × Stepped env safe s g newly r
  map_segment_lem g newly s backed = elim (Bool-cases (s.segment_mapped g)) [
    | inl mapped ↦ (
      (true, newly, s),
      map_segment-there g newly s mapped,
      record {
        backed = backed;
        same = record { same_base = refl; same_pages = refl; same_live = refl };
        mapped = λ _ a. there_already s g a mapped;
        new = λ _ a. ground (arith, mapped);
        stopped = λ h. absurd (ground (arith, h));
      },
    )
    | inr unmapped ↦
        let destination = segment_address g s in
        let (o, ran, outcome) =
          map_donor_lem env safe undoes destination segment_bytes units_per_segment true s.donor
            backed.books backed.present (ap is_alias backed.alias) refl (omega arith) backed.room in
        after_map g newly s backed unmapped o ran outcome
  ]
