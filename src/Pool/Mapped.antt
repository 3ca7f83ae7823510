-- ===== src/Pool/Mapped.antt =====
-- Memory of the heap donor behind a range: it is mapped, or the donor is as it was.
use genshinimpact_nx.Base.{
  ℕ, zero, suc, ◌+◌, ◌/◌, ◌≤◌, ◌<◌, ◌≡◌, refl, ap, ◌∙◌, ◌⊎◌, inl, inr, Bool, true, false, not, ◌&&◌,
  some, arith, ◌==◌, if◌then◌else◌, ==_iff, Bool-cases,
}
use mathlib.Core.Path.{subst}
use genshinimpact_nx.Pool.Donor.{
  is_alias, heap_rw, code_rw, Kernel, unit_bytes, Donor, is_power, set_units, donor_allocate,
  donor_release, source_from_encoded,
}
use genshinimpact_nx.Pool.Backing.{map_alias, map_donor}
use genshinimpact_nx.Pool.Bank.{IsDonor, Fixed, Fixed-trans}
use genshinimpact_nx.Pool.Allot.{Taken, Allocated, Fits-free, donor_allocate_lem}
use genshinimpact_nx.Pool.Sizing.{donor_allocate-keeps, donor_release-keeps}
use genshinimpact_nx.Pool.Release.{donor_release_lem}

ready_parts : (a b c : Bool) → (not a && (b && c)) ≡ true → (a ≡ false) × (b ≡ true)
ready_parts a b c h = (ground (arith, h), ground (arith, h))

-- What the code relies on. `aliased` says which range of the heap stands at which address: a mapping
-- that succeeds puts it there, other calls leave it, as does one that takes another address away or
-- that fails. The library's codes of failure are not 0.
pub record IsKernel {K : Type 0} (env : Kernel K) : Type 0 where
  pub aliased : ℕ → ℕ → ℕ → K → Bool
  pub maps :
      (d s n : ℕ) (k : K)
      → (env.map_code d s n k).0 ≡ 0
      → aliased d s n (env.map_code d s n k).1 ≡ true
  pub map_keeps :
      (d s n e t m : ℕ) (k : K)
      → aliased d s n k ≡ true
      → aliased d s n (env.map_code e t m k).1 ≡ true
  pub permission_keeps :
      (d s n e m : ℕ) (k : K)
      → aliased d s n k ≡ true
      → aliased d s n (env.set_permission e m k).1 ≡ true
  pub size_keeps :
      (d s n size : ℕ) (k : K)
      → aliased d s n k ≡ true
      → aliased d s n (env.set_heap_size size k).2 ≡ true
  pub unmap_keeps :
      (d s n e t m : ℕ) (k : K)
      → ((d == e) ≡ false) ⊎ (((env.unmap_code e t m k).0 == 0) ≡ false)
      → aliased d s n k ≡ true
      → aliased d s n (env.unmap_code e t m k).1 ≡ true
  pub refuses : (env.heap_alloc_failed == 0) ≡ false
  pub refuses_query : (env.bad_query_memory == 0) ≡ false

-- An alias that is there can be taken away, which the undoing of a commit needs.
abbrev pub Undoes : {K : Type 0} (env : Kernel K) → IsKernel env → Type 0
Undoes {K} env safe =
    (d s n : ℕ) (k : K) → safe.aliased d s n k ≡ true → (env.unmap_code d s n k).0 ≡ 0

-- The aliases at other addresses are still there.
abbrev pub Others : {K : Type 0} (env : Kernel K) → IsKernel env → ℕ → K → K → Type 0
Others env safe destination k l =
    (d s n : ℕ)
    → (d == destination) ≡ false
    → safe.aliased d s n k ≡ true
    → safe.aliased d s n l ≡ true

-- The units are the donor's own, at a place that has an address, and were free.
pub record Backs {K : Type 0} (env : Kernel K) (safe : IsKernel env) (destination size : ℕ)
    (s : Donor K) (units encoded : ℕ) (d : Donor K) : Type 0 where
  pub first : ℕ
  pub named : encoded ≡ first + 1
  pub inside : first + units ≤ d.active
  pub were_free : (u : ℕ) → first ≤ u → u < first + units → s.units_used u ≡ false
  pub marked : (u : ℕ) → d.units_used u ≡ set_units first units true s.units_used u
  pub addressed : (source_from_encoded encoded d == 0) ≡ false
  pub process : env.has_process ≡ true
  pub aliased : safe.aliased destination (source_from_encoded encoded d) size d.kernel ≡ true

-- The result of mapping: with code 0 there are units behind the range; otherwise none is taken.
pub record MapOutcome {K : Type 0} (env : Kernel K) (safe : IsKernel env) (destination size : ℕ)
    (s : Donor K) (units : ℕ) (r : ℕ × ℕ × Donor K) : Type 0 where
  pub books : IsDonor r.2
  pub fixed : Fixed s r.2
  pub others : Others env safe destination s.kernel r.2.kernel
  pub outcome :
      ((r.0 == 0) ≡ true × Backs env safe destination size s units r.1 r.2)
      ⊎ ((r.0 == 0) ≡ false × ((u : ℕ) → r.2.units_used u ≡ s.units_used u))

abbrev pub the_kernel : {K : Type 0} → K → Donor K → Donor K
the_kernel k s = record s { kernel = k }

module _ {K : Type 0} (env : Kernel K) (safe : IsKernel env) where
  pub kernel-IsDonor : (s : Donor K) (k : K) → IsDonor s → IsDonor (the_kernel k s)
  kernel-IsDonor s k donor = record {
    active_fits = donor.active_fits;
    outside = donor.outside;
    counted = donor.counted;
    small = donor.small;
  }

  pub kernel-Fixed : (s t : Donor K) (k : K) → Fixed s t → Fixed s (the_kernel k t)
  kernel-Fixed s t k fixed = record {
    same_capacity = fixed.same_capacity;
    same_backing = fixed.same_backing;
    same_has_units = fixed.same_has_units;
    same_base = fixed.same_base;
  }

module _ {K : Type 0} (env : Kernel K) (safe : IsKernel env) (undoes : Undoes env safe) where
  -- Making an alias changes nothing of the donor but the kernel's own state: with code 0 the alias is
  -- there, and those at other addresses are.
  record AliasOutcome (destination source size code : ℕ) (k l : K) : Type 0 where
    there : (code == 0) ≡ true → safe.aliased destination source size l ≡ true
    others : Others env safe destination k l

  map_alias_lem :
      (destination source size : ℕ) (s : Donor K)
      → (code : ℕ) × (k : K) × (map_alias env destination source size s
          ≡ some (code, the_kernel k s))
        × AliasOutcome destination source size code s.kernel k
  unfolding map_alias
  map_alias_lem destination source size s =
      let mapped = env.map_code destination source size s.kernel in
      let allowed = env.set_permission destination size mapped.1 in
      let undone = env.unmap_code destination source size allowed.1 in
      elim (Bool-cases (mapped.0 == 0)) [
        | inr e ↦ (
          mapped.0,
          mapped.1,
          rw e refl,
          record {
            there = λ h. absurd (ground (arith, e, h));
            others = λ d t n _. safe.map_keeps d t n destination source size s.kernel;
          },
        )
        | inl e ↦
            let made : safe.aliased destination source size allowed.1 ≡ true =
              safe.permission_keeps destination source size destination size mapped.1
                (safe.maps destination source size s.kernel ((==_iff mapped.0 0).0 e)) in
            let undo : (undone.0 == 0) ≡ true =
              (==_iff undone.0 0).1 (undoes destination source size allowed.1 made) in
            let kept : Others env safe destination s.kernel allowed.1 = λ d t n _ h.
              safe.permission_keeps d t n destination size mapped.1
                (safe.map_keeps d t n destination source size s.kernel h) in
            elim (Bool-cases
              (allowed.0 == 0 && env.range_state destination size code_rw allowed.1)) [
                | inl e2 ↦
                    (0, allowed.1, rw (e, e2) refl, record { there = λ _. made; others = kept })
                | inr e2 ↦ (
                  if allowed.0 == 0 then env.bad_query_memory else allowed.0,
                  undone.1,
                  rw (e, e2, undo) refl,
                  record {
                    there = λ h. absurd (not_zero allowed.0 h);
                    others = λ d t n other h.
                        safe.unmap_keeps d t n destination source size allowed.1 (inl other)
                          (kept d t n other h);
                  },
                )
              ]
      ]
    where
      not_zero : (code : ℕ) → ((if code == 0 then env.bad_query_memory else code) == 0) ≡ true → ⊥
      not_zero code h = elim (Bool-cases (code == 0)) [
        | inl e ↦ ground (arith, e, h, safe.refuses_query)
        | inr e ↦ ground (arith, e, h)
      ]

  module _ (units : ℕ) (destination size alignment : ℕ) (high : Bool) (s : Donor K)
      (some_units : 0 < units) (present : s.has_units ≡ true) where
    -- Units that were taken and could not be mapped go back, and the donor is as it was.
    given_back :
        (first code : ℕ) (k : K) (t : Donor K)
        → Taken s units alignment first t
        → Others env safe destination s.kernel k
        → (code == 0) ≡ false
        → (d : Donor K) × (donor_release env (suc first) units (the_kernel k t) ≡ some d)
          × MapOutcome env safe destination size s units (code, suc first, d)
    given_back first code k t taken others failed =
        let next : first + 1 ≡ suc first = omega arith in
        let held : (u : ℕ) → first ≤ u → u < first + units → (the_kernel k t).units_used u ≡ true =
          λ u low high. rw taken.marked (ground arith) in
        let (d, ran, released) =
          donor_release_lem env first units (the_kernel k t)
            (kernel-IsDonor env safe t k taken.books) (taken.fixed.same_has_units ∙ present)
            some_units taken.inside held in
        let returned : donor_release env (suc first) units (the_kernel k t) ≡ some d =
          subst (λ e. donor_release env e units (the_kernel k t) ≡ some d) next ran in
        (
          d,
          returned,
          record {
            others = λ e r n other h.
                donor_release-keeps env (λ l. safe.aliased e r n l ≡ true) (safe.size_keeps e r n)
                  (suc first) units (the_kernel k t) d (others e r n other h) returned;
            books = released.books;
            fixed =
                Fixed-trans s (the_kernel k t) d (kernel-Fixed env safe s t k taken.fixed)
                  released.fixed;
            outcome = inr (
              failed,
              λ u.
                  rw (released.cleared, taken.marked)
                    (ground (arith, Fits-free s.units_used units alignment first taken.fits u)),
            );
          },
        )

    mapped_or_not :
        (first code : ℕ) (k : K) (t : Donor K)
        → Taken s units alignment first t
        → (code == 0) ≡ true
        → (source_from_encoded (suc first) t == 0) ≡ false
        → env.has_process ≡ true
        → AliasOutcome destination (source_from_encoded (suc first) t) size code t.kernel k
        → Others env safe destination s.kernel t.kernel
        → MapOutcome env safe destination size s units (code, suc first, the_kernel k t)
    mapped_or_not first code k t taken done addressed process alias kept = record {
      others = λ d r n other h. alias.others d r n other (kept d r n other h);
      books = kernel-IsDonor env safe t k taken.books;
      fixed = kernel-Fixed env safe s t k taken.fixed;
      outcome = inl (
        done,
        record {
          first = first;
          named = omega arith;
          inside = taken.inside;
          were_free = Fits-free s.units_used units alignment first taken.fits;
          marked = λ u. ap (λ f. f u) taken.marked;
          addressed = addressed;
          process = process;
          aliased = alias.there done;
        },
      );
    }

    -- The call's result when an alias of the units was made, and when it could not be.
    alias_made :
        (first code : ℕ) (k : K) (t : Donor K)
        → donor_allocate env units alignment high s ≡ (suc first, t)
        → (not (source_from_encoded (suc first) t == 0)
            && (env.has_process
                && env.range_state (source_from_encoded (suc first) t) size heap_rw t.kernel))
          ≡ true
        → map_alias env destination (source_from_encoded (suc first) t) size t
          ≡ some (code, the_kernel k t)
        → size / unit_bytes ≡ units
        → (code == 0) ≡ true
        → map_donor env destination size alignment high s ≡ some (code, suc first, the_kernel k t)
    unfolding map_donor
    alias_made first code k t run ready made many done = rw (many, run, ready, made, done) refl

    alias_refused :
        (first code : ℕ) (k : K) (t : Donor K)
        → donor_allocate env units alignment high s ≡ (suc first, t)
        → (not (source_from_encoded (suc first) t == 0)
            && (env.has_process
                && env.range_state (source_from_encoded (suc first) t) size heap_rw t.kernel))
          ≡ true
        → map_alias env destination (source_from_encoded (suc first) t) size t
          ≡ some (code, the_kernel k t)
        → size / unit_bytes ≡ units
        → (code == 0) ≡ false
        → (d : Donor K) → donor_release env (suc first) units (the_kernel k t) ≡ some d
        → map_donor env destination size alignment high s ≡ some (code, suc first, d)
    unfolding map_donor
    alias_refused first code k t run ready made many failed d back =
        let named : (suc first == 0) ≡ false = ground arith in
        rw (many, run, ready, made, back, failed, named) refl

    allocated_keeps :
        (r : ℕ × Donor K)
        → donor_allocate env units alignment high s ≡ r
        → Others env safe destination s.kernel r.1.kernel
    allocated_keeps r run d t n other h =
        subst (λ (x : ℕ × Donor K). safe.aliased d t n x.1.kernel ≡ true) run
          (donor_allocate-keeps env (λ l. safe.aliased d t n l ≡ true) (safe.size_keeps d t n) units
            alignment high s h)

    -- The way from the units, or from none, to the result.
    from_units :
        (r : ℕ × Donor K)
        → donor_allocate env units alignment high s ≡ r
        → Allocated s units alignment r
        → size / unit_bytes ≡ units
        → (o : ℕ × ℕ × Donor K) × (map_donor env destination size alignment high s ≡ some o)
          × MapOutcome env safe destination size s units o
    unfolding map_donor
    from_units (zero, t) run refused many = (
      (env.heap_alloc_failed, 0, t),
      rw (many, run, safe.refuses) refl,
      record {
        books = refused.books;
        fixed = refused.fixed;
        others = allocated_keeps (0, t) run;
        outcome = inr (safe.refuses, λ u. ap (λ f. f u) refused.unmarked);
      },
    )
    from_units (suc first, t) run taken many =
        let source = source_from_encoded (suc first) t in
        let named : (suc first == 0) ≡ false = ground arith in
        let kept = allocated_keeps (suc first, t) run in
        elim (Bool-cases (
          not (source == 0) && (env.has_process && env.range_state source size heap_rw t.kernel))) [
            | inr e ↦
                let (d, ran, outcome) =
                  given_back first env.heap_alloc_failed t.kernel t taken kept safe.refuses in
                (
                  (env.heap_alloc_failed, suc first, d),
                  rw (many, run, e, ran, safe.refuses, named) refl,
                  outcome,
                )
            | inl e ↦
                let (code, k, made, alias) = map_alias_lem destination source size t in
                let ready =
                  ready_parts (source == 0) env.has_process
                    (env.range_state source size heap_rw t.kernel) e in
                elim (Bool-cases (code == 0)) [
                  | inl done ↦ (
                    (code, suc first, the_kernel k t),
                    alias_made first code k t run e made many done,
                    mapped_or_not first code k t taken done ready.0 ready.1 alias kept,
                  )
                  | inr failed ↦
                      let (d, ran, outcome) =
                        given_back first code k t taken
                          (λ d r n other h. alias.others d r n other (kept d r n other h)) failed in
                      (
                        (code, suc first, d),
                        alias_refused first code k t run e made many failed d ran,
                        outcome,
                      )
                ]
          ]

  -- The donor's half of a mapping, on units that the bank can hold.
  pub map_donor_lem :
      (destination size alignment : ℕ) (high : Bool) (s : Donor K)
      → IsDonor s
      → s.has_units ≡ true
      → is_alias s.backing ≡ true
      → is_power alignment ≡ true
      → 0 < size / unit_bytes
      → size / unit_bytes ≤ s.capacity
      → (o : ℕ × ℕ × Donor K) × (map_donor env destination size alignment high s ≡ some o)
        × MapOutcome env safe destination size s (size / unit_bytes) o
  map_donor_lem destination size alignment high s donor present alias power some_units fits =
      let units = size / unit_bytes in
      from_units units destination size alignment high s some_units present
        (donor_allocate env units alignment high s) refl
        (donor_allocate_lem env units alignment high s donor present alias power some_units fits)
        refl
