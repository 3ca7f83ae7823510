-- ===== src/Pool/Bank.antt =====
-- The books of the heap donor: the units in use are counted, and lie in the bank.
use genshinimpact_nx.Base.{
  ℕ, zero, suc, ◌+◌, ◌-◌, ◌/◌, ◌^◌, ◌≤◌, ◌<◌, min, ◌≡◌, refl, sym, ap, ◌∙◌, inl, inr, Bool, true,
  false, arith, ltb, leb, if◌then◌else◌, Bool-cases,
}
use genshinimpact_nx.Pool.Donor.{
  Kernel, size_max, unit_bytes, donor_grow_bytes, quantum_units, Donor, align_down, resize_kernel,
  donor_resize, donor_grow, set_units,
}

-- How many units below `n` are in use.
abbrev pub count_used : (ℕ → Bool) → ℕ → ℕ
count_used used zero = 0
count_used used (suc n) = (if used n then 1 else 0) + count_used used n

pub record IsDonor {K : Type 0} (s : Donor K) : Type 0 where
  pub active_fits : s.active ≤ s.capacity
  pub outside : (u : ℕ) → s.active ≤ u → s.units_used u ≡ false
  pub counted : s.used_units ≡ count_used s.units_used s.active
  pub small : s.capacity < 2 ^ 32

pub count_used-le : (used : ℕ → Bool) (n : ℕ) → count_used used n ≤ n
count_used-le used zero = omega arith
count_used-le used (suc n) = ground (arith, count_used-le used n)

-- Units that are not in use do not count.
pub count_used-add :
    (used : ℕ → Bool) (n k : ℕ)
    → ((u : ℕ) → n ≤ u → used u ≡ false)
    → count_used used (n + k) ≡ count_used used n
count_used-add used n zero unused = ap (count_used used) (plus_nothing n)
  where
    plus_nothing : (n : ℕ) → n + 0 ≡ n
    plus_nothing n = omega arith
count_used-add used n (suc k) unused =
    ap (count_used used) (plus_suc n k)
    ∙ rw (unused (n + k) (omega arith)) (omega (arith, count_used-add used n k unused))
  where
    plus_suc : (n k : ℕ) → n + suc k ≡ suc (n + k)
    plus_suc n k = omega arith

-- Two lengths of the bank that both hold all units in use have the same count.
pub count_used-same :
    (used : ℕ → Bool) (n m : ℕ)
    → ((u : ℕ) → n ≤ u → used u ≡ false)
    → ((u : ℕ) → m ≤ u → used u ≡ false)
    → count_used used n ≡ count_used used m
count_used-same used n m from_n from_m = elim (Bool-cases (leb n m)) [
  | inl e ↦
      let whole : n + (m - n) ≡ m = ground arith in
      sym (sym (ap (count_used used) whole) ∙ count_used-add used n (m - n) from_n)
  | inr e ↦
      let whole : m + (n - m) ≡ n = ground arith in
      sym (ap (count_used used) whole) ∙ count_used-add used m (n - m) from_m
]

-- Free units that are taken count once each, and units in use that are given back no more.
pub count_used-set :
    (used : ℕ → Bool) (first units : ℕ) (n : ℕ)
    → ((u : ℕ) → first ≤ u → u < first + units → used u ≡ false)
    → count_used (set_units first units true used) n ≡ count_used used n + min units (n - first)
count_used-set used first units zero free = omega arith
count_used-set used first units (suc n) free =
    ground (arith, count_used-set used first units n free, free n)

pub count_used-clear :
    (used : ℕ → Bool) (first units : ℕ) (n : ℕ)
    → ((u : ℕ) → first ≤ u → u < first + units → used u ≡ true)
    → count_used (set_units first units false used) n + min units (n - first) ≡ count_used used n
count_used-clear used first units zero taken = omega arith
count_used-clear used first units (suc n) taken =
    ground (arith, count_used-clear used first units n taken, taken n)

-- What no call of the donor changes.
pub record Fixed {K : Type 0} (s t : Donor K) : Type 0 where
  pub same_capacity : t.capacity ≡ s.capacity
  pub same_backing : t.backing ≡ s.backing
  pub same_has_units : t.has_units ≡ s.has_units
  pub same_base : t.base ≡ s.base

-- What the calls that change the length of the bank leave alone.
pub record Kept {K : Type 0} (s t : Donor K) : Type 0 where
  pub same_units : t.units_used ≡ s.units_used
  pub same_used : t.used_units ≡ s.used_units
  pub fixed : Fixed s t

module _ {K : Type 0} where
  pub Fixed-trans : (s t u : Donor K) → Fixed s t → Fixed t u → Fixed s u
  Fixed-trans s t u p q = record {
    same_capacity = q.same_capacity ∙ p.same_capacity;
    same_backing = q.same_backing ∙ p.same_backing;
    same_has_units = q.same_has_units ∙ p.same_has_units;
    same_base = q.same_base ∙ p.same_base;
  }

  pub Fixed-refl : (s : Donor K) → Fixed s s
  Fixed-refl s = record {
    same_capacity = refl;
    same_backing = refl;
    same_has_units = refl;
    same_base = refl;
  }

module _ {K : Type 0} (env : Kernel K) where
  -- The bank has its new length or the old one.
  pub record Resized (s : Donor K) (target : ℕ) (r : Bool × Donor K) : Type 0 where
    pub kept : Kept s r.1
    pub failed : r.0 ≡ false → r.1.active ≡ s.active
    pub succeeded : r.0 ≡ true → (r.1.active ≡ target) × (target ≤ s.capacity)

  pub donor_resize-Resized :
      (target : ℕ) (s : Donor K) → Resized s target (donor_resize env target s)
  unfolding donor_resize resize_kernel
  donor_resize-Resized target s = record {
    kept = record {
      same_units = ground arith;
      same_used = ground arith;
      fixed = record {
        same_capacity = ground arith;
        same_backing = ground arith;
        same_has_units = ground arith;
        same_base = ground arith;
      };
    };
    failed = ground arith;
    succeeded = ground arith;
  }

  -- A bank whose length changed keeps its books, when all units in use lie in it.
  pub Kept-IsDonor :
      (s t : Donor K)
      → IsDonor s
      → Kept s t
      → t.active ≤ s.capacity
      → ((u : ℕ) → t.active ≤ u → s.units_used u ≡ false)
      → IsDonor t
  Kept-IsDonor s t donor kept fits unused = record {
    active_fits = rw kept.fixed.same_capacity fits;
    outside = rw kept.same_units unused;
    counted =
        kept.same_used
        ∙ donor.counted
        ∙ count_used-same s.units_used s.active t.active donor.outside unused
        ∙ ap (λ units. count_used units t.active) (sym kept.same_units);
    small = rw kept.fixed.same_capacity donor.small;
  }

  pub Kept-refl : (s : Donor K) → Kept s s
  Kept-refl s = record { same_units = refl; same_used = refl; fixed = Fixed-refl s }

  -- The bank is longer, or as it was.
  pub record Grown (s : Donor K) (r : Bool × Donor K) : Type 0 where
    pub kept : Kept s r.1
    pub no_shorter : s.active ≤ r.1.active
    pub in_capacity : r.1.active ≤ s.capacity
    pub longer : r.0 ≡ true → s.active < r.1.active
    pub stays : r.0 ≡ false → r.1.active ≡ s.active

  Grown-refl : (s : Donor K) → s.active ≤ s.capacity → Grown s (false, s)
  Grown-refl s fits = record {
    kept = Kept-refl s;
    no_shorter = omega arith;
    in_capacity = fits;
    longer = λ e. absurd (ground arith);
    stays = λ _. refl;
  }

  Resized-Grown :
      (s : Donor K) (target : ℕ) (r : Bool × Donor K)
      → s.active ≤ s.capacity
      → s.active < target
      → Resized s target r
      → Grown s r
  Resized-Grown s target (true, t) fits more resized =
      let (at, le) = resized.succeeded refl in
      record {
        kept = resized.kept;
        no_shorter = omega (arith, at);
        in_capacity = omega (arith, at);
        longer = λ e. omega (arith, at);
        stays = λ e. absurd (ground arith);
      }
  Resized-Grown s target (false, t) fits more resized =
      let at = resized.failed refl in
      record {
        kept = resized.kept;
        no_shorter = omega (arith, at);
        in_capacity = omega (arith, at);
        longer = λ e. absurd (ground arith);
        stays = λ _. at;
      }

  pub donor_grow-Grown :
      (minimum : ℕ) (s : Donor K) → s.active ≤ s.capacity → Grown s (donor_grow env minimum s)
  unfolding donor_grow
  donor_grow-Grown minimum s fits =
      let grow_units = donor_grow_bytes / unit_bytes in
      let addition = if ltb grow_units minimum then minimum else grow_units in
      let wanted = if ltb (size_max - addition) s.active then s.capacity else s.active + addition in
      let target =
        align_down (if ltb s.capacity wanted then s.capacity else wanted) quantum_units in
      elim (Bool-cases (leb s.capacity s.active)) [
        | inl e ↦ rw e (Grown-refl s fits)
        | inr e ↦ elim (Bool-cases (leb target s.active)) [
          | inl e2 ↦ rw (e, e2) (Grown-refl s fits)
          | inr e2 ↦
              rw (e, e2)
                (Resized-Grown s target (donor_resize env target s) fits (ground arith)
                  (donor_resize-Resized target s))
        ]
      ]
