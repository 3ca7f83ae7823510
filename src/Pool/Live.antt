-- ===== src/Pool/Live.antt =====
-- The live pages of the segments: how many of a segment's pages are allocated.
use genshinimpact_nx.Base.{
  ℕ, zero, suc, ◌+◌, ◌-◌, ◌*◌, ◌/◌, ◌≤◌, ◌<◌, min, max, ◌≡◌, refl, sym, ap, ◌∙◌, ◌⊎◌, inl, inr,
  Bool, true, false, ◌||◌, arith, ltb, ◌==◌, if◌then◌else◌, ==_iff, Bool-cases,
}
use genshinimpact_nx.Pool.Extents.{word}
use genshinimpact_nx.Pool.Donor.{Kernel}
use genshinimpact_nx.Pool.Backing.{segment_pages, Arena}
use genshinimpact_nx.Pool.Bank.{count_used, count_used-le}
use genshinimpact_nx.Pool.Mapped.{IsKernel}
use genshinimpact_nx.Pool.Segments.{update, overlap, add_live, segment_count}
use genshinimpact_nx.Pool.Runs.{in_run}
use genshinimpact_nx.Pool.Backed.{IsBacked}

-- How many of the allocated pages lie among `n` pages, and in a segment.
unfoldable pub pages_of : (ℕ → Bool) → ℕ → ℕ → ℕ
pages_of used b n = count_used (λ j. used (b + j)) n

abbrev pub pages_in : (ℕ → Bool) → ℕ → ℕ
pages_in used a = pages_of used (a * segment_pages) segment_pages

abbrev pub Live : {K : Type 0} → Arena K → (ℕ → Bool) → Type 0
Live s used = (a : ℕ) → s.segment_live a ≡ pages_in used a

abbrev pub with_run : ℕ → ℕ → (ℕ → Bool) → ℕ → Bool
with_run first pages used q = in_run first pages q || used q

abbrev pub common : ℕ → ℕ → ℕ → ℕ → ℕ
common first pages b n = min (first + pages) (b + n) - max first b

-- A run of pages that were not allocated counts for its overlap.
pub count_run :
    (used : ℕ → Bool) (first pages b n : ℕ)
    → ((q : ℕ) → in_run first pages q ≡ true → used q ≡ false)
    → pages_of (with_run first pages used) b n ≡ pages_of used b n + common first pages b n
unfolding pages_of
count_run used first pages b zero free = omega arith
count_run used first pages b (suc n) free =
    ground (arith, count_run used first pages b n free, free (b + n))

pub pages_of-le : (used : ℕ → Bool) (b n : ℕ) → pages_of used b n ≤ n
unfolding pages_of
pages_of-le used b n = count_used-le (λ j. used (b + j)) n

pub add_live_lem :
    (count g first pages : ℕ) (live : ℕ → ℕ) (a : ℕ)
    → add_live count g first pages live a
      ≡ (if in_run g count a then word (live a + word (overlap first pages a)) else live a)
unfolding add_live
add_live_lem zero g first pages live a = ground arith
add_live_lem (suc count) g first pages live a =
    add_live_lem count (g + 1) first pages
      (update g (word (live g + word (overlap first pages g))) live) a
    ∙ elim (Bool-cases (a == g)) [
      | inl e ↦
          let same : in_run g (suc count) a ≡ true = ground (arith, e) in
          let later : in_run (g + 1) count a ≡ false = ground (arith, e) in
          rw (same, later, e)
            (ap (λ x. word (live x + word (overlap first pages x))) (sym ((==_iff a g).0 e)))
      | inr e ↦
          let same : in_run g (suc count) a ≡ in_run (g + 1) count a = ground (arith, e) in
          rw (same, e) refl
    ]

words_small : (m n : ℕ) → m + n ≤ segment_pages → word (m + word n) ≡ m + n
words_small m n h = omega (arith, h)

plus_none : (m : ℕ) → m + 0 ≡ m
plus_none m = omega arith

-- The segments of a run are those that overlap it.
pub in_segments :
    (first pages a : ℕ)
    → 0 < pages
    → in_run (first / segment_pages) (segment_count first pages) a ≡ false
    → overlap first pages a ≡ 0
in_segments first pages a some_pages out =
    let below : (a < first / segment_pages) ⊎ ((first + pages - 1) / segment_pages < a) =
      elim (Bool-cases (ltb a (first / segment_pages))) [
        | inl e ↦ inl (ground arith)
        | inr e ↦ inr (ground arith)
      ] in
    elim below [ inl e ↦ omega (arith, e) | inr e ↦ omega (arith, e) ]

pub add_live-counts :
    (used : ℕ → Bool) (live : ℕ → ℕ) (first pages a : ℕ)
    → 0 < pages
    → ((q : ℕ) → in_run first pages q ≡ true → used q ≡ false)
    → live a ≡ pages_in used a
    → add_live (segment_count first pages) (first / segment_pages) first pages live a
      ≡ pages_in (with_run first pages used) a
add_live-counts used live first pages a some_pages free counted =
    let run = count_run used first pages (a * segment_pages) segment_pages free in
    let most = pages_of-le (with_run first pages used) (a * segment_pages) segment_pages in
    add_live_lem (segment_count first pages) (first / segment_pages) first pages live a
    ∙ elim (Bool-cases (in_run (first / segment_pages) (segment_count first pages) a)) [
      | inl e ↦
          rw (e, counted)
            (words_small (pages_in used a) (overlap first pages a) (omega (arith, run, most))
              ∙ sym run)
      | inr e ↦
          rw (e, counted)
            (sym (
              run
              ∙ ap (λ n. pages_in used a + n) (in_segments first pages a some_pages e)
              ∙ plus_none (pages_in used a)))
    ]

-- What the commit gives for pages that were not allocated.
pub record CommitDone {K : Type 0} (env : Kernel K) (safe : IsKernel env) (s : Arena K)
    (used : ℕ → Bool) (first pages : ℕ) (r : Bool × Arena K) : Type 0 where
  pub backed : IsBacked env safe r.1
  pub same_base : r.1.dynamic_base ≡ s.dynamic_base
  pub same_pages : r.1.dynamic_pages ≡ s.dynamic_pages
  pub all_mapped :
      r.0 ≡ true
      → (q : ℕ) → in_run first pages q ≡ true
      → r.1.segment_mapped (q / segment_pages) ≡ true
  pub no_others :
      r.0 ≡ true → (a : ℕ) → overlap first pages a ≡ 0 → r.1.segment_mapped a ≡ s.segment_mapped a
  pub counted : r.0 ≡ true → Live r.1 (with_run first pages used)
  pub as_before :
      r.0 ≡ false → ((a : ℕ) → r.1.segment_mapped a ≡ s.segment_mapped a) × Live r.1 used

module _ {K : Type 0} (env : Kernel K) (safe : IsKernel env) where
  pub relive :
      (s : Arena K) (live : ℕ → ℕ)
      → IsBacked env safe s
      → IsBacked env safe (record s { segment_live = live })
  relive s live backed = record {
    books = backed.books;
    present = backed.present;
    alias = backed.alias;
    room = backed.room;
    behind = backed.behind;
    apart = backed.apart;
    aliased = backed.aliased;
  }
