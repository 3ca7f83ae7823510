-- ===== src/Broker/Buckets.antt =====
-- The buckets of the allocation histogram, and the live counters.
use genshinimpact_nx.Base.{
  ℕ, zero, suc, ◌+◌, ◌-◌, ◌%◌, ◌^◌, ◌≤◌, ◌<◌, ◌≡◌, refl, ap, ◌∙◌, inl, inr, List, [], ◌∷◌, arith,
  leb, ◌==◌, Bool-cases, length, set, length-set, get_or,
}
use genshinimpact_nx.Broker.Counters.{
  hist_upper, hist_buckets, bucket_from, hist_bucket, Counters, hist_live_add_size,
  hist_live_remove_size,
}

-- The search ends at the first bound that is not below `n`, `k` places on.
record FirstBound (uppers : List ℕ) (n i : ℕ) : Type 0 where
  place : ℕ
  found_at : bucket_from uppers n i ≡ i + place
  inside_list : place < length uppers
  bounded : n ≤ get_or uppers place 0
  below : (j : ℕ) → j < place → get_or uppers j 0 < n

below_later :
    (u n k : ℕ) (rest : List ℕ)
    → u < n
    → ((j : ℕ) → j < k → get_or rest j 0 < n)
    → (j : ℕ) → j < suc k
    → get_or (u ∷ rest) j 0 < n
below_later u n k rest first later zero h = first
below_later u n k rest first later (suc j) h = later j (omega arith)

first_bound :
    (uppers : List ℕ) (n i m : ℕ)
    → m < length uppers
    → n ≤ get_or uppers m 0
    → FirstBound uppers n i
unfolding bucket_from
first_bound [] n i m within h = absurd (omega arith)
first_bound (u ∷ rest) n i zero within h = record {
  place = 0;
  found_at = ground arith;
  inside_list = omega arith;
  bounded = h;
  below = λ j h. absurd (omega arith);
}
first_bound (u ∷ rest) n i (suc m) within h =
    let r = first_bound rest n (i + 1) m (omega arith) h in
    elim (Bool-cases (leb n u)) [
      | inl e ↦ record {
        place = 0;
        found_at = rw e (omega arith);
        inside_list = omega arith;
        bounded = ground arith;
        below = λ j h. absurd (omega arith);
      }
      | inr e ↦ record {
        place = suc r.place;
        found_at = rw e (omega (arith, r.found_at));
        inside_list = omega (arith, r.inside_list);
        bounded = r.bounded;
        below = below_later u n r.place rest (ground arith) r.below;
      }
    ]

-- The bucket of a size is the first whose bound is not below it.
pub hist_bucket_lem :
    (n : ℕ)
    → n < 2 ^ 64
    → (hist_bucket n < hist_buckets)
      × (n ≤ get_or hist_upper (hist_bucket n) 0)
      × ((j : ℕ) → j < hist_bucket n → get_or hist_upper j 0 < n)
unfolding hist_bucket
hist_bucket_lem n small =
    let r = first_bound hist_upper n 0 11 (omega arith) (omega arith) in
    let at : bucket_from hist_upper n 0 ≡ r.place = omega (arith, r.found_at) in
    rw at (r.inside_list, r.bounded, r.below)

-- The sum of the buckets.
abbrev pub sum : List ℕ → ℕ
sum [] = 0
sum (x ∷ xs) = x + sum xs

sum-set : (xs : List ℕ) (i v : ℕ) → i < length xs → sum (set xs i v) + get_or xs i 0 ≡ sum xs + v
sum-set [] i v h = absurd (omega arith)
sum-set (x ∷ xs) zero v h = omega arith
sum-set (x ∷ xs) (suc i) v h = omega (arith, sum-set xs i v (omega arith))

get_or-set : (xs : List ℕ) (i v : ℕ) → i < length xs → get_or (set xs i v) i 0 ≡ v
get_or-set [] i v h = absurd (omega arith)
get_or-set (x ∷ xs) zero v h = refl
get_or-set (x ∷ xs) (suc i) v h = get_or-set xs i v (omega arith)

get_or-sum : (xs : List ℕ) (i : ℕ) → get_or xs i 0 ≤ sum xs
get_or-sum [] i = omega arith
get_or-sum (x ∷ xs) zero = omega arith
get_or-sum (x ∷ xs) (suc i) = omega (arith, get_or-sum xs i)

set_back : (xs : List ℕ) (i v : ℕ) → set (set xs i v) i (get_or xs i 0) ≡ xs
set_back [] i v = refl
set_back (x ∷ xs) zero v = refl
set_back (x ∷ xs) (suc i) v = ap (x ∷◌) (set_back xs i v)

-- The total is the sum of the buckets, and no peak is below what is live.
pub record IsCounted (c : Counters) : Type 0 where
  pub live_length : length c.live ≡ hist_buckets
  pub peak_length : length c.peak_live ≡ hist_buckets
  pub total_is : c.total_live ≡ sum c.live
  pub total_peak : c.total_live ≤ c.peak_total_live

-- While what is live stays below 2 ^ 64, a block that is added keeps the total equal to the sum of the
-- buckets and the peak of the total at or above it.
pub add-IsCounted :
    (c : Counters) (usable : ℕ)
    → IsCounted c
    → c.total_live + usable < 2 ^ 64
    → IsCounted (hist_live_add_size usable c)
      × ((hist_live_add_size usable c).total_live ≡ c.total_live + usable)
unfolding hist_live_add_size
add-IsCounted c usable w room = elim (Bool-cases (usable == 0)) [
  | inl e ↦ rw e (w, ground arith)
  | inr e ↦
      let b = hist_bucket usable in
      let live = (get_or c.live b 0 + usable) % 2 ^ 64 in
      let within = (hist_bucket_lem usable (omega arith)).0 in
      let sums = sum-set c.live b live (omega (arith, w.live_length)) in
      let part = get_or-sum c.live b in
      let whole : live ≡ get_or c.live b 0 + usable = omega (arith, part, w.total_is) in
      let total : (c.total_live + usable) % 2 ^ 64 ≡ c.total_live + usable = omega arith in
      rw e (
        record {
          live_length = length-set c.live b live ∙ w.live_length;
          peak_length = length-set c.peak_live b _ ∙ w.peak_length;
          total_is = omega (arith, total, whole, sums, w.total_is);
          total_peak = ground arith;
        },
        total,
      )
]

-- A block that is removed after it was added leaves the live counters as they were.
pub remove-add :
    (c : Counters) (usable : ℕ)
    → IsCounted c
    → c.total_live + usable < 2 ^ 64
    → let d = hist_live_remove_size usable (hist_live_add_size usable c) in
      (d.live ≡ c.live) × (d.total_live ≡ c.total_live)
unfolding hist_live_add_size hist_live_remove_size
remove-add c usable w room = elim (Bool-cases (usable == 0)) [
  | inl e ↦ rw e (refl, refl)
  | inr e ↦
      let b = hist_bucket usable in
      let live = (get_or c.live b 0 + usable) % 2 ^ 64 in
      let within = (hist_bucket_lem usable (omega arith)).0 in
      let part = get_or-sum c.live b in
      let whole : live ≡ get_or c.live b 0 + usable = omega (arith, part, w.total_is) in
      let back : get_or (set c.live b live) b 0 - usable ≡ get_or c.live b 0 =
        omega (arith, whole, get_or-set c.live b live (omega (arith, w.live_length))) in
      rw e (ap (set (set c.live b live) b) back ∙ set_back c.live b live, omega arith)
]
