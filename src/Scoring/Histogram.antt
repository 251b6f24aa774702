-- ===== src/Scoring/Histogram.antt =====
-- internal/domain/scoring/histogram.go: latency histograms over seventeen shared buckets. A count is
-- a uint64: the code's own overflow tests stand here, and unchecked sums and products wrap.
pub mod Rank
pub mod Percentile
pub mod Merge
use many_router.Base.{
  zero, suc, ℕ, ◌+◌, ◌-◌, ◌*◌, ◌/◌, ◌%◌, ◌^◌, Bool, true, false, not, ◌||◌, Option, some, none,
  List, [], ◌∷◌, Result, ok, err, ◌>>=◌, ◌>>◌, guard, reject, ◌==◌, ltb, length, is_empty,
  if◌then◌else◌,
}
use many_router.Scoring.Types.{ScoringError, invalid_histogram, no_samples, invalid_metric}

abbrev pub latency_bucket_count : ℕ
latency_bucket_count = 17

-- ^uint64(0)
abbrev pub max_uint64 : ℕ
max_uint64 = 2 ^ 64 - 1

abbrev pub wrap : ℕ → ℕ
wrap n = n % 2 ^ 64

pub record LatencyBucket : Type 0 where
  pub upper_bound_millis : ℕ  -- int64, never negative
  pub infinite : Bool

abbrev up_to : ℕ → LatencyBucket
up_to n = record { upper_bound_millis = n; infinite = false }

unfoldable pub latency_buckets : List LatencyBucket
latency_buckets =
    up_to 50
    ∷ up_to 100
    ∷ up_to 250
    ∷ up_to 500
    ∷ up_to 1_000
    ∷ up_to 2_000
    ∷ up_to 3_000
    ∷ up_to 5_000
    ∷ up_to 8_000
    ∷ up_to 10_000
    ∷ up_to 15_000
    ∷ up_to 30_000
    ∷ up_to 60_000
    ∷ up_to 120_000
    ∷ up_to 300_000
    ∷ up_to 600_000
    ∷ record { upper_bound_millis = 0; infinite = true }
    ∷ []

-- `Counts [17]uint64`: a list that always has seventeen elements.
pub record LatencyHistogram : Type 0 where
  pub counts : List ℕ

unfoldable pub new_latency_histogram : List ℕ → Result ScoringError LatencyHistogram
new_latency_histogram counts = do
  guard (length counts == latency_bucket_count) invalid_histogram
  ok (record { counts = counts })

-- The loop of SampleCount, with the total so far.
unfoldable pub count_samples : ℕ → List ℕ → Result ScoringError ℕ
count_samples total [] = ok total
count_samples total (count ∷ counts) = do
  reject (ltb (max_uint64 - total) count) invalid_histogram
  count_samples (total + count) counts

unfoldable pub sample_count : LatencyHistogram → Result ScoringError ℕ
sample_count h = count_samples 0 h.counts

-- The inner loop of MergeLatencyHistograms: one histogram into the merged counts.
unfoldable pub add_counts : List ℕ → List ℕ → Result ScoringError (List ℕ)
add_counts merged [] = ok merged
add_counts [] (count ∷ counts) = ok []
add_counts (total ∷ merged) (count ∷ counts) = do
  reject (ltb (max_uint64 - total) count) invalid_histogram
  rest ← add_counts merged counts
  ok ((total + count) ∷ rest)

unfoldable pub merge_counts : List ℕ → List LatencyHistogram → Result ScoringError (List ℕ)
merge_counts merged [] = ok merged
merge_counts merged (h ∷ hs) = do next ← add_counts merged h.counts; merge_counts next hs

abbrev pub zero_counts : ℕ → List ℕ
zero_counts zero = []
zero_counts (suc n) = 0 ∷ zero_counts n

unfoldable pub merge_latency_histograms :
    List LatencyHistogram → Result ScoringError LatencyHistogram
merge_latency_histograms hs = do
  reject (is_empty hs) invalid_histogram
  merged ← merge_counts (zero_counts latency_bucket_count) hs
  total ← sample_count (record { counts = merged })
  ok (record { counts = merged })

pub record PercentileRange : Type 0 where
  pub percentile : ℕ
  pub rank : ℕ
  pub sample_count : ℕ
  pub lower_bound_millis : ℕ
  pub lower_bound_inclusive : Bool
  pub upper_bound_millis : ℕ
  pub upper_bound_infinite : Bool

unfoldable pub percentile_rank : ℕ → ℕ → ℕ
percentile_rank samples percentile =
    let whole = wrap (samples / 100 * percentile) in
    let remainder = wrap (samples % 100 * percentile) in wrap (whole + wrap (remainder + 99) / 100)

abbrev lower_millis : Option LatencyBucket → ℕ
lower_millis none = 0
lower_millis (some bucket) = bucket.upper_bound_millis

abbrev is_first : Option LatencyBucket → Bool
is_first none = true
is_first (some bucket) = false

-- The bucket at hand as the range of the percentile; `previous` is that of index - 1.
unfoldable pub range_of : ℕ → ℕ → ℕ → Option LatencyBucket → LatencyBucket → PercentileRange
range_of percentile rank samples previous bucket = record {
  percentile = percentile;
  rank = rank;
  sample_count = samples;
  lower_bound_millis = lower_millis previous;
  lower_bound_inclusive = is_first previous;
  upper_bound_millis = bucket.upper_bound_millis;
  upper_bound_infinite = bucket.infinite;
}

-- The loop of Percentile over the counts and the buckets beside them.
unfoldable pub find_bucket :
    (percentile rank samples cumulative : ℕ)
    → Option LatencyBucket
    → List LatencyBucket
    → List ℕ
    → Result ScoringError PercentileRange
find_bucket p rank samples cumulative previous buckets [] = err invalid_histogram
find_bucket p rank samples cumulative previous [] (count ∷ counts) = err invalid_histogram
find_bucket p rank samples cumulative previous (bucket ∷ buckets) (count ∷ counts) =
    let through = wrap (cumulative + count) in
    let rest = find_bucket p rank samples through (some bucket) buckets counts in
    if ltb through rank then rest else ok (range_of p rank samples previous bucket)

unfoldable pub percentile_of : LatencyHistogram → ℕ → Result ScoringError PercentileRange
percentile_of h percentile = do
  reject (percentile == 0 || ltb 100 percentile) invalid_metric
  samples ← sample_count h
  reject (samples == 0) no_samples
  find_bucket percentile (percentile_rank samples percentile) samples 0 none latency_buckets
      h.counts

pub record LatencySummary : Type 0 where
  pub histogram : LatencyHistogram
  pub samples : ℕ
  pub p50 : PercentileRange
  pub p90 : PercentileRange
  pub p95 : PercentileRange

unfoldable pub summarize_latency : List LatencyHistogram → Result ScoringError LatencySummary
summarize_latency hs = do
  merged ← merge_latency_histograms hs
  p50 ← percentile_of merged 50
  p90 ← percentile_of merged 90
  p95 ← percentile_of merged 95
  ok (record { histogram = merged; samples = p50.sample_count; p50 = p50; p90 = p90; p95 = p95 })
