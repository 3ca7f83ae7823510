-- ===== src/Pool/Allot.antt =====
-- The heap donor gives out units that were free and takes back units that are in use.
use genshinimpact_nx.Base.{
  ℕ, zero, suc, ◌+◌, ◌-◌, ◌%◌, ◌^◌, ◌≤◌, ◌<◌, ◌≡◌, refl, sym, ◌∙◌, inl, inr, Bool, true, false, not,
  ◌||◌, arith, ltb, leb, ◌==◌, Bool-cases, Option-cases,
}
use mathlib.Core.Path.{subst}
use genshinimpact_nx.Pool.Donor.{
  is_alias, Kernel, Donor, is_power, find_free, donor_grow, set_units, take_units, allocate_loop,
  donor_allocate,
}
use genshinimpact_nx.Pool.Places.{Fits, Searched, find_free_lem}
use genshinimpact_nx.Pool.Bank.{
  IsDonor, count_used-le, count_used-set, Kept, Kept-IsDonor, Fixed, Fixed-trans, donor_grow-Grown,
}

-- The result of a search for so many units: they were free, are aligned and lie in the bank, and are
-- now in use, all else as before. With 0, no such units are free in the bank, as long as it is now.
pub record Taken {K : Type 0} (s : Donor K) (units al first : ℕ) (t : Donor K) : Type 0 where
  pub inside : first + units ≤ t.active
  pub fits : Fits s.units_used units al first
  pub marked : t.units_used ≡ set_units first units true s.units_used
  pub books : IsDonor t
  pub fixed : Fixed s t

pub record Refused {K : Type 0} (s : Donor K) (units al : ℕ) (t : Donor K) : Type 0 where
  pub unmarked : t.units_used ≡ s.units_used
  pub nowhere : (b : ℕ) → b + units ≤ t.active → Fits s.units_used units al b → ⊥
  pub books : IsDonor t
  pub fixed : Fixed s t

abbrev pub Allocated : {K : Type 0} → Donor K → ℕ → ℕ → ℕ × Donor K → Type 0
Allocated s units al (zero, t) = Refused s units al t
Allocated s units al (suc first, t) = Taken s units al first t

-- Every unit of a place that fits is free.
pub Fits-free :
    (used : ℕ → Bool) (units al first : ℕ)
    → Fits used units al first
    → (u : ℕ) → first ≤ u
    → u < first + units
    → used u ≡ false
Fits-free used units al first fits u low high =
    let offset : first + (u - first) ≡ u = omega arith in
    subst (λ v. used v ≡ false) offset (fits.1 (u - first) (omega arith))

module _ {K : Type 0} where
  -- Free units that are marked are counted.
  take_units-Taken :
      (s : Donor K) (units al first : ℕ)
      → IsDonor s
      → first + units ≤ s.active
      → Fits s.units_used units al first
      → Taken s units al first (take_units first units s)
  take_units-Taken s units al first donor inside fits =
      let free = Fits-free s.units_used units al first fits in
      let total = count_used-set s.units_used first units s.active free in
      let least = count_used-le (set_units first units true s.units_used) s.active in
      record {
        inside = inside;
        fits = fits;
        marked = refl;
        books = record {
          active_fits = donor.active_fits;
          outside = λ u h. ground (arith, donor.outside u h);
          counted = omega (arith, total, least, donor.counted, donor.small, donor.active_fits);
          small = donor.small;
        };
        fixed = record {
          same_capacity = refl;
          same_backing = refl;
          same_has_units = refl;
          same_base = refl;
        };
      }

  Allocated-Kept :
      (s t : Donor K) (units al : ℕ) (r : ℕ × Donor K)
      → Kept s t
      → Allocated t units al r
      → Allocated s units al r
  Allocated-Kept s t units al (zero, u) kept r = record {
    unmarked = r.unmarked ∙ kept.same_units;
    nowhere =
        subst (λ used. (b : ℕ) → b + units ≤ u.active → Fits used units al b → ⊥) kept.same_units
          r.nowhere;
    books = r.books;
    fixed = Fixed-trans s t u kept.fixed r.fixed;
  }
  Allocated-Kept s t units al (suc first, u) kept r = record {
    inside = r.inside;
    fits = subst (λ used. Fits used units al first) kept.same_units r.fits;
    marked =
        subst (λ used. u.units_used ≡ set_units first units true used) kept.same_units r.marked;
    books = r.books;
    fixed = Fixed-trans s t u kept.fixed r.fixed;
  }

  Refused-Kept :
      (s t : Donor K) (units al : ℕ)
      → Kept s t
      → IsDonor t
      → t.active ≡ s.active
      → ((b : ℕ) → b + units ≤ s.active → Fits s.units_used units al b → ⊥)
      → Refused s units al t
  Refused-Kept s t units al kept donor same nowhere = record {
    unmarked = kept.same_units;
    nowhere = rw same nowhere;
    books = donor;
    fixed = kept.fixed;
  }

  -- The search by the bank's length: 0 units more than it has are nowhere.
  search_bank :
      (s : Donor K) (units al : ℕ) (high : Bool)
      → is_power al ≡ true
      → 0 < units
      → Searched s.units_used s.active units al high (find_free s.units_used s.active units al high)
  unfolding find_free
  search_bank s units al high power some_units = elim (Bool-cases (leb units s.active)) [
    | inl e ↦ find_free_lem s.units_used s.active units al high power some_units (ground arith)
    | inr e ↦
        let refused : (units == 0 || (not (is_power al) || ltb s.active units)) ≡ true =
          ground arith in
        rw refused (λ b inside fits. absurd (ground arith))
  ]

module _ {K : Type 0} (env : Kernel K) where
  allocate_loop_lem :
      (fuel units al : ℕ) (high : Bool) (s : Donor K)
      → is_power al ≡ true
      → 0 < units
      → IsDonor s
      → s.capacity < fuel + s.active
      → Allocated s units al (allocate_loop env fuel units al high s)
  unfolding allocate_loop
  allocate_loop_lem zero units al high s power some_units donor enough =
      absurd (omega (arith, donor.active_fits))
  allocate_loop_lem (suc fuel) units al high s power some_units donor enough =
      let found = find_free s.units_used s.active units al high in
      let searched = search_bank s units al high power some_units in
      let grown = donor_grow-Grown env units s donor.active_fits in
      let t = (donor_grow env units s).1 in
      let kept_donor : IsDonor t =
        Kept-IsDonor env s t donor grown.kept grown.in_capacity
          (λ u h. donor.outside u (omega (arith, grown.no_shorter))) in
      elim (Option-cases found) [
        | inl e ↦ elim (Bool-cases (donor_grow env units s).0) [
          | inl more ↦
              let run : allocate_loop env (suc fuel) units al high s
                  ≡ allocate_loop env fuel units al high t =
                rw (e, more) refl in
              subst (Allocated s units al) (sym run) (
                Allocated-Kept s t units al (allocate_loop env fuel units al high t) grown.kept (
                  allocate_loop_lem fuel units al high t power some_units kept_donor
                    (rw grown.kept.fixed.same_capacity (omega (arith, grown.longer more)))))
          | inr stop ↦
              let run : allocate_loop env (suc fuel) units al high s ≡ (0, t) =
                rw (allocate_loop, e, stop) refl in
              subst (Allocated s units al) (sym run) (
                Refused-Kept s t units al grown.kept kept_donor (grown.stays stop)
                  (subst (Searched s.units_used s.active units al high) e searched))
        ]
        | inr (first, e) ↦
            let (inside, fits, best) =
              subst (Searched s.units_used s.active units al high) e searched in
            let same_unit : (first + 1) % 2 ^ 32 ≡ suc first =
              omega (arith, donor.active_fits, donor.small) in
            let run : allocate_loop env (suc fuel) units al high s
                ≡ (suc first, take_units first units s) =
              rw (e, same_unit) refl in
            subst (Allocated s units al) (sym run)
              (take_units-Taken s units al first donor inside fits)
      ]

  -- The donor's allocation, when the bank exists and can be as long as asked.
  pub donor_allocate_lem :
      (units al : ℕ) (high : Bool) (s : Donor K)
      → IsDonor s
      → s.has_units ≡ true
      → is_alias s.backing ≡ true
      → is_power al ≡ true
      → 0 < units
      → units ≤ s.capacity
      → Allocated s units al (donor_allocate env units al high s)
  unfolding donor_allocate
  donor_allocate_lem units al high s donor present alias power some_units fits =
      let checks : (not (is_alias s.backing)
            || (not s.has_units || (units == 0 || ltb s.capacity units)))
          ≡ false =
        ground arith in
      rw checks
        (allocate_loop_lem (s.capacity + 1) units al high s power some_units donor (omega arith))
