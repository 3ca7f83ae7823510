-- ===== src/Pool/Backed.antt =====
-- Each mapped segment of the arena has units of the heap donor of its own.
use genshinimpact_nx.Base.{
  ◌*◌, ℕ, ◌+◌, ◌-◌, ◌≤◌, ◌<◌, max, ◌≡◌, refl, sym, ap, ◌∙◌, ◌⊎◌, inl, inr, Bool, true, false, arith,
  leb, ◌==◌, if◌then◌else◌, ==_iff, Bool-cases,
}
use mathlib.Core.Path.{subst}
use genshinimpact_nx.Pool.Donor.{heap_alias, Kernel, Donor, source_from_encoded}
use genshinimpact_nx.Pool.Backing.{segment_bytes, units_per_segment, Arena}
use genshinimpact_nx.Pool.Bank.{IsDonor, Fixed}
use genshinimpact_nx.Pool.Release.{Released}
use genshinimpact_nx.Pool.Mapped.{IsKernel, Others, Backs}
use genshinimpact_nx.Pool.Segments.{clear_segment, record_segment, segment_address}

-- The units that a mapped segment's source stands for are in use, and have an address.
pub record Behind {K : Type 0} (env : Kernel K) (d : Donor K) (encoded : ℕ) : Type 0 where
  pub first : ℕ
  pub named : encoded ≡ first + 1
  pub taken : (u : ℕ) → first ≤ u → u < first + units_per_segment → d.units_used u ≡ true
  pub addressed : (source_from_encoded encoded d == 0) ≡ false
  pub process : env.has_process ≡ true

-- An arena on the heap donor: no two mapped segments share units, and at each one's address the kernel
-- shows its own units.
pub record IsBacked {K : Type 0} (env : Kernel K) (safe : IsKernel env) (s : Arena K) : Type 0 where
  pub books : IsDonor s.donor
  pub present : s.donor.has_units ≡ true
  pub alias : s.donor.backing ≡ heap_alias
  pub room : units_per_segment ≤ s.donor.capacity
  pub behind : (a : ℕ) → s.segment_mapped a ≡ true → Behind env s.donor (s.segment_sources a)
  pub apart :
      (a b : ℕ)
      → s.segment_mapped a ≡ true
      → s.segment_mapped b ≡ true
      → (a == b) ≡ false
      → (s.segment_sources a + units_per_segment ≤ s.segment_sources b)
        ⊎ (s.segment_sources b + units_per_segment ≤ s.segment_sources a)
  pub aliased :
      (a : ℕ)
      → s.segment_mapped a ≡ true
      → safe.aliased
          (segment_address a s)
          (source_from_encoded (s.segment_sources a) s.donor)
          segment_bytes
          s.donor.kernel
        ≡ true

-- What mapping and unmapping leave alone.
pub record SameArena {K : Type 0} (s t : Arena K) : Type 0 where
  pub same_base : t.dynamic_base ≡ s.dynamic_base
  pub same_pages : t.dynamic_pages ≡ s.dynamic_pages
  pub same_live : t.segment_live ≡ s.segment_live

swap : {A B : Type 0} → A ⊎ B → B ⊎ A
swap (inl a) = inr a
swap (inr b) = inl b

-- Units in use and free units do not meet.
free_apart :
    (used : ℕ → Bool) (f g n : ℕ)
    → 0 < n
    → ((u : ℕ) → f ≤ u → u < f + n → used u ≡ true)
    → ((u : ℕ) → g ≤ u → u < g + n → used u ≡ false)
    → (f + n ≤ g) ⊎ (g + n ≤ f)
free_apart used f g n some_units taken free = elim (Bool-cases (leb (f + n) g)) [
  | inl e ↦ inl (ground arith)
  | inr e ↦ elim (Bool-cases (leb (g + n) f)) [
    | inl e2 ↦ inr (ground arith)
    | inr e2 ↦
        let used_here = taken (max f g) (ground arith) (ground arith) in
        let free_here = free (max f g) (ground arith) (ground arith) in
        absurd (ground (arith, used_here, free_here))
  ]
]

module _ {K : Type 0} (env : Kernel K) (safe : IsKernel env) where
  pub SameArena-trans : (s t u : Arena K) → SameArena s t → SameArena t u → SameArena s u
  SameArena-trans s t u p q = record {
    same_base = q.same_base ∙ p.same_base;
    same_pages = q.same_pages ∙ p.same_pages;
    same_live = q.same_live ∙ p.same_live;
  }

  -- A source keeps its address while the donor's base and capacity stay.
  source-Fixed :
      (d e : Donor K) (encoded : ℕ)
      → Fixed d e
      → source_from_encoded encoded e ≡ source_from_encoded encoded d
  source-Fixed d e encoded fixed = rw (fixed.same_base, fixed.same_capacity) refl

  Behind-Fixed :
      (d e : Donor K) (encoded : ℕ)
      → Fixed d e
      → (b : Behind env d encoded)
      → ((u : ℕ) → b.first ≤ u → u < b.first + units_per_segment → e.units_used u ≡ true)
      → Behind env e encoded
  Behind-Fixed d e encoded fixed b kept = record {
    first = b.first;
    named = b.named;
    taken = kept;
    addressed = ap (λ source. source == 0) (source-Fixed d e encoded fixed) ∙ b.addressed;
    process = b.process;
  }

  -- Units in use lie in the bank.
  pub in_bank :
      (d : Donor K) (encoded : ℕ)
      → IsDonor d
      → (b : Behind env d encoded) → b.first + units_per_segment ≤ d.active
  in_bank d encoded books b = elim (Bool-cases (leb (b.first + units_per_segment) d.active)) [
    | inl e ↦ ground arith
    | inr e ↦
        let last = b.first + (units_per_segment - 1) in
        let used = b.taken last (omega arith) (omega arith) in
        let unused = books.outside last (ground arith) in absurd (ground (arith, used, unused))
  ]

  -- An alias at another address is still that of its segment.
  kept_alias :
      (s : Arena K) (d : Donor K) (a destination : ℕ)
      → s.segment_mapped a ≡ true
      → IsBacked env safe s
      → Fixed s.donor d
      → Others env safe destination s.donor.kernel d.kernel
      → (segment_address a s == destination) ≡ false
      → safe.aliased
          (segment_address a s)
          (source_from_encoded (s.segment_sources a) d)
          segment_bytes
          d.kernel
        ≡ true
  kept_alias s d a destination there backed fixed others apart =
      subst (λ x. safe.aliased (segment_address a s) x segment_bytes d.kernel ≡ true)
        (sym (source-Fixed s.donor d (s.segment_sources a) fixed))
        (others (segment_address a s) (source_from_encoded (s.segment_sources a) s.donor)
          segment_bytes apart (backed.aliased a there))

  other_address :
      (base a g : ℕ)
      → (a == g) ≡ false
      → (base + a * segment_bytes == base + g * segment_bytes) ≡ false
  other_address base a g e = ground (arith, e)

  -- The segment is mapped on units that were free.
  module _ (s : Arena K) (g source : ℕ) (d : Donor K) (backed : IsBacked env safe s)
      (unmapped : s.segment_mapped g ≡ false)
      (backs : Backs env safe
        (segment_address g s)
        segment_bytes
        s.donor
        units_per_segment
        source
        d)
      (books : IsDonor d) (fixed : Fixed s.donor d)
      (others : Others env safe (segment_address g s) s.donor.kernel d.kernel) where
    abbrev more : ℕ → ℕ → Arena K
    more calls result =
        record_segment g source
          (record s { donor = d; map_calls = calls; last_map_result = result })

    kept-Behind : (a : ℕ) → s.segment_mapped a ≡ true → Behind env d (s.segment_sources a)
    kept-Behind a mapped =
        let b = backed.behind a mapped in
        Behind-Fixed s.donor d (s.segment_sources a) fixed b
          (λ u low high. rw (backs.marked u, b.taken u low high) (either_true _))
      where
        either_true : (b : Bool) → (if b then true else true) ≡ true
        either_true true = refl
        either_true false = refl

    new-Behind : Behind env d source
    new-Behind = record {
      first = backs.first;
      named = backs.named;
      taken = λ u low high. rw (backs.marked u) (ground arith);
      addressed = backs.addressed;
      process = backs.process;
    }

    new_apart :
        (a : ℕ)
        → s.segment_mapped a ≡ true
        → (s.segment_sources a + units_per_segment ≤ source)
          ⊎ (source + units_per_segment ≤ s.segment_sources a)
    new_apart a mapped =
        let b = backed.behind a mapped in
        let sides =
          free_apart s.donor.units_used b.first backs.first units_per_segment (omega arith) b.taken
            backs.were_free in
        elim sides [
          | inl e ↦ inl (omega (arith, e, b.named, backs.named))
          | inr e ↦ inr (omega (arith, e, b.named, backs.named))
        ]

    pub recorded : (calls result : ℕ) → IsBacked env safe (more calls result)
    recorded calls result = record {
      books = books;
      present = fixed.same_has_units ∙ backed.present;
      alias = fixed.same_backing ∙ backed.alias;
      room = rw fixed.same_capacity backed.room;
      behind = λ a. elim (Bool-cases (a == g)) [
        | inl e ↦ rw e (λ _. new-Behind)
        | inr e ↦ rw e (kept-Behind a)
      ];
      apart = λ a b. elim (Bool-cases (a == g)) [
        | inl e ↦ elim (Bool-cases (b == g)) [
          | inl e2 ↦ λ _ _ apart. absurd (ground (arith, e, e2, apart))
          | inr e2 ↦ rw (e, e2) (λ _ mapped _. swap (new_apart b mapped))
        ]
        | inr e ↦ elim (Bool-cases (b == g)) [
          | inl e2 ↦ rw (e, e2) (λ mapped _ _. new_apart a mapped)
          | inr e2 ↦ rw (e, e2) (backed.apart a b)
        ]
      ];
      aliased = λ a. elim (Bool-cases (a == g)) [
        | inl e ↦
            let same = (==_iff a g).0 e in
            rw e (λ _.
              subst
                (λ x.
                  safe.aliased (segment_address x s) (source_from_encoded source d) segment_bytes
                    d.kernel
                  ≡ true)
                (sym same) backs.aliased)
        | inr e ↦ rw e (λ there.
            kept_alias s d a (segment_address g s) there backed fixed others
              (other_address s.dynamic_base a g e))
      ];
    }

  -- The segment's units have gone back.
  module _ (s : Arena K) (g : ℕ) (k : K) (d : Donor K) (backed : IsBacked env safe s)
      (b : Behind env s.donor (s.segment_sources g)) (mapped : s.segment_mapped g ≡ true)
      (back : Released env (record s.donor { kernel = k }) b.first units_per_segment d)
      (others : Others env safe (segment_address g s) s.donor.kernel d.kernel) where
    abbrev fewer : ℕ → Arena K
    fewer calls = clear_segment g (record s { donor = d; unmap_ok = calls })

    from_kernel : Fixed s.donor d
    from_kernel = record {
      same_capacity = back.fixed.same_capacity;
      same_backing = back.fixed.same_backing;
      same_has_units = back.fixed.same_has_units;
      same_base = back.fixed.same_base;
    }

    still-Behind :
        (a : ℕ) → s.segment_mapped a ≡ true → (a == g) ≡ false → Behind env d (s.segment_sources a)
    still-Behind a there other =
        let c = backed.behind a there in
        let sides = backed.apart a g there mapped other in
        Behind-Fixed s.donor d (s.segment_sources a) from_kernel c (λ u low high.
          rw back.cleared (ground (arith, c.taken u low high, sides, c.named, b.named)))

    pub cleared_segment : (calls : ℕ) → IsBacked env safe (fewer calls)
    cleared_segment calls = record {
      books = back.books;
      present = from_kernel.same_has_units ∙ backed.present;
      alias = from_kernel.same_backing ∙ backed.alias;
      room = rw from_kernel.same_capacity backed.room;
      behind = λ a. elim (Bool-cases (a == g)) [
        | inl e ↦ rw e (λ h. absurd (ground (arith, h)))
        | inr e ↦ rw e (λ there. still-Behind a there e)
      ];
      apart = λ a c. elim (Bool-cases (a == g)) [
        | inl e ↦ rw e (λ h. absurd (ground (arith, h)))
        | inr e ↦ elim (Bool-cases (c == g)) [
          | inl e2 ↦ rw (e, e2) (λ _ h. absurd (ground (arith, h)))
          | inr e2 ↦ rw (e, e2) (backed.apart a c)
        ]
      ];
      aliased = λ a. elim (Bool-cases (a == g)) [
        | inl e ↦ rw e (λ h. absurd (ground (arith, h)))
        | inr e ↦ rw e (λ there.
            kept_alias s d a (segment_address g s) there backed from_kernel others
              (other_address s.dynamic_base a g e))
      ];
    }

  -- The segments stay behind a donor with the same units in use.
  pub moved_donor :
      (s : Arena K) (d : Donor K) (calls result : ℕ)
      → IsBacked env safe s
      → IsDonor d
      → Fixed s.donor d
      → ((u : ℕ) → d.units_used u ≡ s.donor.units_used u)
      → (g : ℕ) → s.segment_mapped g ≡ false
      → Others env safe (segment_address g s) s.donor.kernel d.kernel
      → IsBacked env safe (record s { donor = d; map_calls = calls; last_map_result = result })
  moved_donor s d calls result backed books fixed same g unmapped others = record {
    books = books;
    present = fixed.same_has_units ∙ backed.present;
    alias = fixed.same_backing ∙ backed.alias;
    room = rw fixed.same_capacity backed.room;
    behind = λ a mapped.
        let b = backed.behind a mapped in
        Behind-Fixed s.donor d (s.segment_sources a) fixed b
          (λ u low high. same u ∙ b.taken u low high);
    apart = backed.apart;
    aliased = λ a there.
        let apart : (a == g) ≡ false = elim (Bool-cases (a == g)) [
          | inl e ↦
              let here = subst (λ x. s.segment_mapped x ≡ true) ((==_iff a g).0 e) there in
              absurd (ground (arith, here, unmapped))
          | inr e ↦ e
        ] in
        kept_alias s d a (segment_address g s) there backed fixed others
          (other_address s.dynamic_base a g apart);
  }
