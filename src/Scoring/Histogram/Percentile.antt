-- ===== src/Scoring/Histogram/Percentile.antt =====
-- The range that Percentile of internal/domain/scoring/histogram.go returns holds the nearest rank.
use native.Mathlib.Nat.{mul-le-mul, le_refl}
use many_router.Base.{
  sym, ltb→lt, ◌%◌, ◌∙◌, ℕ, ◌+◌, ◌*◌, ◌/◌, ◌^◌, ◌≤◌, ◌<◌, ◌≡◌, refl, true, false, Option, some,
  none, List, [], ◌∷◌, ok, arith, ltb, length, Bool-cases, inl, inr,
}
use many_router.Scoring.Histogram.{
  LatencyHistogram, LatencyBucket, PercentileRange, count_samples, sample_count, find_bucket,
  range_of, percentile_of, latency_buckets, latency_bucket_count,
}
use many_router.Scoring.Histogram.Rank.{percentile_rank-eq-ceil}

abbrev pub sum : List ℕ → ℕ
sum [] = 0
sum (x ∷ xs) = x + sum xs

-- SampleCount is the sum of the counts, which a uint64 holds.
pub count_samples_lem :
    (total : ℕ) (counts : List ℕ) {n : ℕ}
    → total < 2 ^ 64
    → count_samples total counts ≡ ok n
    → (n ≡ total + sum counts) × (n < 2 ^ 64)
unfolding count_samples
count_samples_lem total [] h e = ground arith
count_samples_lem total (c ∷ counts) {n} h e =
    ground (arith, count_samples_lem (total + c) counts {n = n})

-- The range is that of the bucket at some index: the counts before it do not reach the rank, and
-- with its own they do. `previous` is the bucket before, if there is one.
pub data IsBucket (p rank samples : ℕ) (r : PercentileRange)
    : ℕ → Option LatencyBucket → List LatencyBucket → List ℕ → Type 0 where
  here :
      {before : ℕ} {previous : Option LatencyBucket} {bucket : LatencyBucket} {count : ℕ}
      {buckets : List LatencyBucket} {counts : List ℕ}
      → before < rank
      → rank ≤ before + count
      → r ≡ range_of p rank samples previous bucket
      → IsBucket p rank samples r before previous (bucket ∷ buckets) (count ∷ counts)
  later :
      {before : ℕ} {previous : Option LatencyBucket} {bucket : LatencyBucket} {count : ℕ}
      {buckets : List LatencyBucket} {counts : List ℕ}
      → IsBucket p rank samples r (before + count) (some bucket) buckets counts
      → IsBucket p rank samples r before previous (bucket ∷ buckets) (count ∷ counts)

module _ (p rank samples before count : ℕ) (previous : Option LatencyBucket)
    (bucket : LatencyBucket) (buckets : List LatencyBucket) (counts : List ℕ)
    (fits : before + count < 2 ^ 64) where
  find_bucket-short :
      ltb (before + count) rank ≡ true
      → find_bucket p rank samples before previous (bucket ∷ buckets) (count ∷ counts)
        ≡ find_bucket p rank samples (before + count) (some bucket) buckets counts
  unfolding find_bucket
  find_bucket-short short =
      let whole : (before + count) % 2 ^ 64 ≡ before + count = omega arith in rw (whole, short) refl

  find_bucket-reached :
      ltb (before + count) rank ≡ false
      → find_bucket p rank samples before previous (bucket ∷ buckets) (count ∷ counts)
        ≡ ok (range_of p rank samples previous bucket)
  unfolding find_bucket
  find_bucket-reached reached =
      let whole : (before + count) % 2 ^ 64 ≡ before + count = omega arith in
      rw (whole, reached) refl

find_bucket_total :
    (p rank samples before : ℕ) (previous : Option LatencyBucket) (buckets : List LatencyBucket)
    (counts : List ℕ)
    → length buckets ≡ length counts
    → before < rank
    → rank ≤ before + sum counts
    → before + sum counts < 2 ^ 64
    → (r : PercentileRange) × (find_bucket p rank samples before previous buckets counts ≡ ok r)
      × IsBucket p rank samples r before previous buckets counts
unfolding find_bucket
find_bucket_total p rank samples before previous buckets [] l h k b = absurd (omega arith)
find_bucket_total p rank samples before previous [] (count ∷ counts) l h k b = absurd (omega arith)
find_bucket_total p rank samples before previous (bucket ∷ buckets) (count ∷ counts) l h k b =
    let fits : before + count < 2 ^ 64 = omega arith in
    elim (Bool-cases (ltb (before + count) rank)) [
      | inl short ↦
          let (r, found, at) =
            find_bucket_total p rank samples (before + count) (some bucket) buckets counts
              (omega arith) (ltb→lt _ _ short) (omega arith) (omega arith) in
          (
            r,
            find_bucket-short p rank samples before count previous bucket buckets counts fits short
                ∙ found,
            later at,
          )
      | inr reached ↦ (
        range_of p rank samples previous bucket,
        find_bucket-reached p rank samples before count previous bucket buckets counts fits reached,
        here h (ground arith) refl,
      )
    ]

length-latency_buckets : length latency_buckets ≡ latency_bucket_count
unfolding latency_buckets
length-latency_buckets = refl

-- What SampleCount returns is the sum of the counts and a uint64.
pub sample_count_lem :
    (h : LatencyHistogram) {n : ℕ} → sample_count h ≡ ok n → (n ≡ sum h.counts) × (n < 2 ^ 64)
unfolding sample_count
sample_count_lem h e = omega (arith, count_samples_lem 0 h.counts (omega arith) e)

-- For a histogram of seventeen counts whose sum is a uint64 and not zero, and a percentile from 1
-- to 100, Percentile succeeds, and its range is that of the bucket which holds the nearest rank,
-- samples * percentile / 100 rounded up: the counts before the bucket stay below that rank, and the
-- counts through it reach it.
pub percentile_of-total :
    (h : LatencyHistogram) (p n : ℕ)
    → length h.counts ≡ latency_bucket_count
    → sample_count h ≡ ok n
    → 0 < n
    → 0 < p
    → p ≤ 100
    → (r : PercentileRange) × (percentile_of h p ≡ ok r)
      × IsBucket p ((n * p + 99) / 100) n r 0 none latency_buckets h.counts
unfolding percentile_of
percentile_of-total h p n len counted some_samples low high =
    let (total, small) = sample_count_lem h counted in
    let rank = percentile_rank-eq-ceil n p small high in
    let above : n * p ≤ n * 100 = mul-le-mul (le_refl n) high in
    let below : n * 1 ≤ n * p = mul-le-mul (le_refl n) low in
    let (r, found, at) =
      find_bucket_total p ((n * p + 99) / 100) n 0 none latency_buckets h.counts
        (length-latency_buckets ∙ sym len) (omega arith) (omega arith) (omega arith) in
    (r, ground (arith, counted, found, rank), at)
