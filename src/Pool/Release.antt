-- ===== src/Pool/Release.antt =====
-- Units that are given back to the heap donor are free again, and the bank may become shorter.
use genshinimpact_nx.Base.{
  ℕ, zero, suc, ◌+◌, ◌-◌, ◌/◌, ◌≤◌, ◌<◌, ◌≡◌, refl, sym, inl, inr, Bool, true, false, not, ◌||◌,
  some, arith, ltb, leb, ◌==◌, if◌then◌else◌, ==_iff, Bool-cases,
}
use mathlib.Core.Path.{subst}
use genshinimpact_nx.Pool.Donor.{
  is_alias, Kernel, size_max, unit_bytes, donor_initial_bytes, donor_shrink_bytes, quantum_units,
  Donor, align_up, donor_resize, highest_used, try_shrink, set_units, all_used, donor_release,
}
use genshinimpact_nx.Pool.Places.{align_up_lem}
use genshinimpact_nx.Pool.Bank.{
  IsDonor, count_used-clear, Kept, Resized, Kept-IsDonor, Fixed, Fixed-trans,
}
use genshinimpact_nx.Pool.Bank.{donor_resize-Resized, Kept-refl}

-- All units from `highest_used` on are free.
highest_used_lem : (used : ℕ → Bool) (n u : ℕ) → highest_used used n ≤ u → u < n → used u ≡ false
unfolding highest_used
highest_used_lem used zero u low high = absurd (omega arith)
highest_used_lem used (suc n) u low high = elim (Bool-cases (used n)) [
  | inl e ↦ absurd (ground (arith, low))
  | inr e ↦ elim (Bool-cases (u == n)) [
    | inl here ↦ subst (λ v. used v ≡ false) (sym ((==_iff u n).0 (ground arith))) e
    | inr below ↦
        let lower : highest_used used n ≤ u = ground (arith, low) in
        highest_used_lem used n u lower (ground arith)
  ]
]

-- Units that are all in use.
pub all_used_lem :
    (used : ℕ → Bool) (units first : ℕ)
    → ((u : ℕ) → first ≤ u → u < first + units → used u ≡ true)
    → all_used used first units ≡ true
unfolding all_used
all_used_lem used zero first taken = refl
all_used_lem used (suc units) first taken =
    rw (taken first (omega arith) (omega arith))
      (all_used_lem used units (first + 1) (λ u low high. taken u (omega arith) (omega arith)))

module _ {K : Type 0} (env : Kernel K) where
  Resized-IsDonor :
      (target : ℕ) (s : Donor K)
      → IsDonor s
      → ((u : ℕ) → target ≤ u → s.units_used u ≡ false)
      → IsDonor (donor_resize env target s).1 × Kept s (donor_resize env target s).1
  Resized-IsDonor target s donor unused =
      let resized = donor_resize-Resized env target s in
      by_result (donor_resize env target s) resized
    where
      by_result : (r : Bool × Donor K) → Resized env s target r → IsDonor r.1 × Kept s r.1
      by_result (true, t) r =
          let (at, le) = r.succeeded refl in
          (
            Kept-IsDonor env s t donor r.kept (omega (arith, at, le))
                (λ u h. unused u (omega (arith, at))),
            r.kept,
          )
      by_result (false, t) r =
          let at = r.failed refl in
          (
            Kept-IsDonor env s t donor r.kept (omega (arith, at, donor.active_fits))
                (λ u h. donor.outside u (omega (arith, at))),
            r.kept,
          )

  -- The bank is never made shorter than its last unit in use.
  pub try_shrink_lem :
      (s : Donor K) → IsDonor s → IsDonor (try_shrink env s) × Kept s (try_shrink env s)
  unfolding try_shrink
  try_shrink_lem s donor =
      let highest = highest_used s.units_used s.active in
      let initial = donor_initial_bytes / unit_bytes in
      let floor_units = if ltb s.capacity initial then s.capacity else initial in
      let least = if ltb floor_units highest then highest else floor_units in
      let rounded = align_up least quantum_units in
      let target = if ltb s.capacity rounded then s.capacity else rounded in
      let (above, aligned, smallest) = align_up_lem least quantum_units (ground arith) in
      let unused : (u : ℕ) → target ≤ u → s.units_used u ≡ false = λ u h.
        elim (Bool-cases (ltb u s.active)) [
          | inl e ↦
              highest_used_lem s.units_used s.active u (ground (arith, above, donor.active_fits))
                (ground arith)
          | inr e ↦ donor.outside u (ground arith)
        ] in
      let same : IsDonor s × Kept s s = (donor, Kept-refl env s) in
      either_way s (not (is_alias s.backing) || (not s.has_units || s.active == 0)) s
        (if ltb (size_max - (quantum_units - 1)) least
          then s
          else if leb s.active target || ltb (s.active - target) (donor_shrink_bytes / unit_bytes)
          then s
          else (donor_resize env target s).1)
        same
        (either_way s (ltb (size_max - (quantum_units - 1)) least) s
          (if leb s.active target || ltb (s.active - target) (donor_shrink_bytes / unit_bytes)
            then s
            else (donor_resize env target s).1)
          same
          (either_way s
            (leb s.active target || ltb (s.active - target) (donor_shrink_bytes / unit_bytes)) s
            (donor_resize env target s).1 same (Resized-IsDonor target s donor unused)))
    where
      either_way :
          (s : Donor K) (b : Bool) (t u : Donor K)
          → IsDonor t × Kept s t
          → IsDonor u × Kept s u
          → IsDonor (if b then t else u) × Kept s (if b then t else u)
      either_way s true t u p q = p
      either_way s false t u p q = q

  -- What a release of units in use gives.
  pub record Released (s : Donor K) (first units : ℕ) (t : Donor K) : Type 0 where
    pub cleared : t.units_used ≡ set_units first units false s.units_used
    pub books : IsDonor t
    pub fixed : Fixed s t

  -- Units in use are given back: they are free, and all others are as before.
  pub donor_release_lem :
      (first units : ℕ) (s : Donor K)
      → IsDonor s
      → s.has_units ≡ true
      → 0 < units
      → first + units ≤ s.active
      → ((u : ℕ) → first ≤ u → u < first + units → s.units_used u ≡ true)
      → (t : Donor K) × (donor_release env (first + 1) units s ≡ some t) × Released s first units t
  unfolding donor_release
  donor_release_lem first units s donor present some_units inside taken =
      let fewer : Donor K = record s {
        units_used = set_units first units false s.units_used;
        used_units = if leb units s.used_units then s.used_units - units else 0;
      } in
      let total = count_used-clear s.units_used first units s.active taken in
      let fewer-IsDonor : IsDonor fewer = record {
        active_fits = donor.active_fits;
        outside = λ u h. ground (arith, donor.outside u h);
        counted = ground (arith, total, donor.counted);
        small = donor.small;
      } in
      let (books, kept) = try_shrink_lem fewer fewer-IsDonor in
      let owned = all_used_lem s.units_used units first taken in
      let back : first + 1 - 1 ≡ first = omega arith in
      let named : (first + 1 == 0 || (units == 0 || not s.has_units)) ≡ false = ground arith in
      let held : (leb s.active first || ltb (s.active - first) units) ≡ false = ground arith in
      (
        try_shrink env fewer,
        rw (back, named, held, owned) refl,
        record {
          cleared = kept.same_units;
          books = books;
          fixed =
              Fixed-trans s fewer (try_shrink env fewer)
                (record {
                  same_capacity = refl;
                  same_backing = refl;
                  same_has_units = refl;
                  same_base = refl;
                })
                kept.fixed;
        },
      )
