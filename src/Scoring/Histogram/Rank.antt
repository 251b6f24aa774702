-- ===== src/Scoring/Histogram/Rank.antt =====
-- The nearest rank of internal/domain/scoring/histogram.go (percentileRank) and the overflow of its
-- uint64 arithmetic.
use native.Mathlib.Nat.{mul-le-mul, le_refl}
use many_router.Base.{ℕ, ◌+◌, ◌*◌, ◌/◌, ◌%◌, ◌^◌, ◌≤◌, ◌<◌, ◌≡◌, ap, arith}
use many_router.Scoring.Histogram.{percentile_rank}

-- For a uint64 count of samples and a percentile of at most 100 the rank is
-- samples * percentile / 100 rounded up.
pub percentile_rank-eq-ceil :
    (samples percentile : ℕ)
    → samples < 2 ^ 64
    → percentile ≤ 100
    → percentile_rank samples percentile ≡ (samples * percentile + 99) / 100
unfolding percentile_rank
percentile_rank-eq-ceil samples percentile h k =
    let q = samples / 100 in
    let r = samples % 100 in
    let split : samples ≡ 100 * q + r = omega arith in
    let product : samples * percentile ≡ 100 * (q * percentile) + r * percentile =
      omega (arith, ap (λ (t : ℕ). t * percentile) split) in
    let whole : q * percentile ≤ q * 100 = mul-le-mul (le_refl q) k in
    let part : r * percentile ≤ r * 100 = mul-le-mul (le_refl r) k in omega arith
