-- ===== src/Broker/Counters.antt =====
-- The allocation histogram of source/memory_broker.c. The atomic counters are read and written one
-- call at a time, so `hist_peak_bump` is a maximum.
use genshinimpact_nx.Base.{
  ℕ, ◌+◌, ◌-◌, ◌^◌, ◌%◌, Bool, List, [], ◌∷◌, ltb, leb, ◌==◌, if◌then◌else◌, set, get_or, replicate,
}

abbrev pub hist_buckets : ℕ
hist_buckets = 12

abbrev pub size_max : ℕ
size_max = 2 ^ 64 - 1

abbrev pub hist_upper : List ℕ
hist_upper =
    64 ∷ 256 ∷ 1024 ∷ 4096 ∷ 16384 ∷ 65536 ∷ 262144 ∷ 1048576 ∷ 4194304 ∷ 16777216 ∷ 67108864
    ∷ size_max ∷ []

pub record Counters : Type 0 where
  pub calls : List ℕ
  pub bytes : List ℕ
  pub fallback : List ℕ
  pub live : List ℕ
  pub peak_live : List ℕ
  pub total_live : ℕ
  pub peak_total_live : ℕ

abbrev pub no_counts : Counters
no_counts = record {
  calls = replicate hist_buckets 0;
  bytes = replicate hist_buckets 0;
  fallback = replicate hist_buckets 0;
  live = replicate hist_buckets 0;
  peak_live = replicate hist_buckets 0;
  total_live = 0;
  peak_total_live = 0;
}

-- `for (i = 0; i < HIST_BUCKETS; ++i) if (n <= hist_upper[i]) return i;` from `i` on.
unfoldable pub bucket_from : List ℕ → ℕ → ℕ → ℕ
bucket_from [] n i = hist_buckets - 1
bucket_from (upper ∷ rest) n i =
    let later = bucket_from rest n (i + 1) in if leb n upper then i else later

unfoldable pub hist_bucket : ℕ → ℕ
unfolding bucket_from
hist_bucket n = bucket_from hist_upper n 0

abbrev pub hist_peak_bump : ℕ → ℕ → ℕ
hist_peak_bump peak value = if ltb peak value then value else peak

-- `__atomic_add_fetch(&counts[b], n)` on `uint64_t`.
abbrev pub add_at : List ℕ → ℕ → ℕ → List ℕ
add_at counts b n = set counts b ((get_or counts b 0 + n) % 2 ^ 64)

unfoldable pub hist_record_request : ℕ → Bool → Counters → Counters
unfolding hist_bucket
hist_record_request requested fell_back c =
    let b = hist_bucket requested in
    record c {
      calls = add_at c.calls b 1;
      bytes = add_at c.bytes b requested;
      fallback = if fell_back then add_at c.fallback b 1 else c.fallback;
    }

-- `hist_live_add` once the usable size is known.
unfoldable pub hist_live_add_size : ℕ → Counters → Counters
unfolding hist_bucket
hist_live_add_size usable c =
    let b = hist_bucket usable in
    let bucket_live = (get_or c.live b 0 + usable) % 2 ^ 64 in
    let total = (c.total_live + usable) % 2 ^ 64 in
    if usable == 0 then c else record c {
      live = set c.live b bucket_live;
      peak_live = set c.peak_live b (hist_peak_bump (get_or c.peak_live b 0) bucket_live);
      total_live = total;
      peak_total_live = hist_peak_bump c.peak_total_live total;
    }

-- The counters stop at 0, as subtraction on ℕ does.
unfoldable pub hist_live_remove_size : ℕ → Counters → Counters
unfolding hist_bucket
hist_live_remove_size usable c =
    let b = hist_bucket usable in
    if usable == 0 then c else record c {
      live = set c.live b (get_or c.live b 0 - usable);
      total_live = c.total_live - usable;
    }
