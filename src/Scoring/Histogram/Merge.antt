-- ===== src/Scoring/Histogram/Merge.antt =====
-- MergeLatencyHistograms of internal/domain/scoring/histogram.go adds bucket by bucket, and fails
-- exactly where the samples together leave uint64.
use many_router.Base.{
  ◌⊎◌, ℕ, suc, ◌+◌, ◌-◌, ◌^◌, ◌≤◌, ◌<◌, ◌≡◌, refl, sym, ◌∙◌, ap, false, List, [], ◌∷◌, ok, err,
  reject, arith, ltb, length, All, is_empty, >>=-eq-ok, Result-cases, inl, inr,
}
use many_router.Scoring.Types.{ScoringError, invalid_histogram}
use many_router.Scoring.Histogram.{
  LatencyHistogram, count_samples, sample_count, add_counts, merge_counts, zero_counts,
  merge_latency_histograms, latency_bucket_count, max_uint64,
}
use many_router.Scoring.Histogram.Percentile.{sum, sample_count_lem}

-- The counts added bucket by bucket, in the natural numbers.
abbrev pub zip_add : List ℕ → List ℕ → List ℕ
zip_add [] ys = []
zip_add (x ∷ xs) [] = x ∷ xs
zip_add (x ∷ xs) (y ∷ ys) = (x + y) ∷ zip_add xs ys

abbrev pub add_all : List ℕ → List LatencyHistogram → List ℕ
add_all counts [] = counts
add_all counts (h ∷ hs) = add_all (zip_add counts h.counts) hs

-- All samples of the histograms.
abbrev pub total_samples : List LatencyHistogram → ℕ
total_samples [] = 0
total_samples (h ∷ hs) = sum h.counts + total_samples hs

abbrev pub IsHistogram : LatencyHistogram → Type 0
IsHistogram h = length h.counts ≡ latency_bucket_count

length-zip_add : (xs ys : List ℕ) → length (zip_add xs ys) ≡ length xs
length-zip_add [] ys = refl
length-zip_add (x ∷ xs) [] = refl
length-zip_add (x ∷ xs) (y ∷ ys) = ap suc (length-zip_add xs ys)

sum-zip_add : (xs ys : List ℕ) → length xs ≡ length ys → sum (zip_add xs ys) ≡ sum xs + sum ys
sum-zip_add [] [] h = refl
sum-zip_add [] (y ∷ ys) h = absurd (omega arith)
sum-zip_add (x ∷ xs) [] h = absurd (omega arith)
sum-zip_add (x ∷ xs) (y ∷ ys) h = omega (arith, sum-zip_add xs ys (omega arith))

add_counts-ok : (xs ys : List ℕ) {r : List ℕ} → add_counts xs ys ≡ ok r → r ≡ zip_add xs ys
unfolding add_counts
add_counts-ok [] [] h = cc
add_counts-ok (x ∷ xs) [] h = cc
add_counts-ok [] (y ∷ ys) h = cc
add_counts-ok (x ∷ xs) (y ∷ ys) {r} h =
    let (u, _, rest) = >>=-eq-ok (reject (ltb (max_uint64 - x) y) invalid_histogram) _ h in
    let (zs, summed, last) = >>=-eq-ok (add_counts xs ys) _ rest in
    let e = add_counts-ok xs ys summed in ground arith

add_counts-fits :
    (xs ys : List ℕ)
    → length xs ≡ length ys
    → sum xs + sum ys < 2 ^ 64
    → add_counts xs ys ≡ ok (zip_add xs ys)
unfolding add_counts
add_counts-fits [] [] l h = refl
add_counts-fits [] (y ∷ ys) l h = absurd (omega arith)
add_counts-fits (x ∷ xs) [] l h = refl
add_counts-fits (x ∷ xs) (y ∷ ys) l h =
    let small : ltb (max_uint64 - x) y ≡ false = ground arith in
    rw (small, add_counts-fits xs ys (omega arith) (omega arith)) refl

merge_counts-ok :
    (counts : List ℕ) (hs : List LatencyHistogram) {r : List ℕ}
    → merge_counts counts hs ≡ ok r
    → r ≡ add_all counts hs
unfolding merge_counts
merge_counts-ok counts [] h = cc
merge_counts-ok counts (g ∷ hs) h =
    let (next, first, rest) = >>=-eq-ok (add_counts counts g.counts) (λ m. merge_counts m hs) h in
    merge_counts-ok next hs rest ∙ ap (λ c. add_all c hs) (add_counts-ok counts g.counts first)

sum-add_all :
    (counts : List ℕ) (hs : List LatencyHistogram)
    → length counts ≡ latency_bucket_count
    → All IsHistogram hs
    → sum (add_all counts hs) ≡ sum counts + total_samples hs
sum-add_all counts [] l a = omega arith
sum-add_all counts (h ∷ hs) l a = omega (
  arith,
  sum-add_all (zip_add counts h.counts) hs (length-zip_add counts h.counts ∙ l) a.1,
  sum-zip_add counts h.counts (l ∙ sym a.0),
)

merge_counts-fits :
    (counts : List ℕ) (hs : List LatencyHistogram)
    → length counts ≡ latency_bucket_count
    → All IsHistogram hs
    → sum counts + total_samples hs < 2 ^ 64
    → merge_counts counts hs ≡ ok (add_all counts hs)
unfolding merge_counts
merge_counts-fits counts [] l a h = refl
merge_counts-fits counts (g ∷ hs) l a h =
    let sums = sum-zip_add counts g.counts (l ∙ sym a.0) in
    rw (add_counts-fits counts g.counts (l ∙ sym a.0) (omega arith)) (
      merge_counts-fits (zip_add counts g.counts) hs (length-zip_add counts g.counts ∙ l) a.1
        (omega arith))

pub count_samples-fits :
    (total : ℕ) (counts : List ℕ)
    → total + sum counts < 2 ^ 64
    → count_samples total counts ≡ ok (total + sum counts)
unfolding count_samples
count_samples-fits total [] h = ap ok (omega arith)
count_samples-fits total (c ∷ counts) h = ground (arith, count_samples-fits (total + c) counts)

count_samples-err :
    (total : ℕ) (counts : List ℕ) {e : ScoringError}
    → count_samples total counts ≡ err e
    → e ≡ invalid_histogram
unfolding count_samples
count_samples-err total [] h = cc
count_samples-err total (c ∷ counts) {e} h =
    ground (arith, count_samples-err (total + c) counts {e = e})

add_counts-err :
    (xs ys : List ℕ) {e : ScoringError} → add_counts xs ys ≡ err e → e ≡ invalid_histogram
unfolding add_counts
add_counts-err [] [] h = cc
add_counts-err (x ∷ xs) [] h = cc
add_counts-err [] (y ∷ ys) h = cc
add_counts-err (x ∷ xs) (y ∷ ys) {e} h = ground (arith, add_counts-err xs ys {e = e})

merge_counts-err :
    (counts : List ℕ) (hs : List LatencyHistogram) {e : ScoringError}
    → merge_counts counts hs ≡ err e
    → e ≡ invalid_histogram
unfolding merge_counts
merge_counts-err counts [] h = cc
merge_counts-err counts (g ∷ hs) {e} h = elim (Result-cases (add_counts counts g.counts)) [
  | inl (next, p) ↦ merge_counts-err next hs (rw (p, merge_counts) at h)
  | inr (e', p) ↦ ground (arith, p, add_counts-err counts g.counts p)
]

merge-err :
    (hs : List LatencyHistogram) {e : ScoringError}
    → merge_latency_histograms hs ≡ err e
    → e ≡ invalid_histogram
unfolding merge_latency_histograms sample_count
merge-err hs {e} h = elim (Result-cases (merge_counts (zero_counts latency_bucket_count) hs)) [
  | inl (m, p) ↦ ground (arith, p, count_samples-err 0 m {e = e})
  | inr (e', p) ↦ ground (arith, p, merge_counts-err (zero_counts latency_bucket_count) hs p)
]

merge-ok :
    (hs : List LatencyHistogram) {m : LatencyHistogram}
    → All IsHistogram hs
    → merge_latency_histograms hs ≡ ok m
    → total_samples hs < 2 ^ 64
unfolding merge_latency_histograms
merge-ok hs a h =
    let zeros = zero_counts latency_bucket_count in
    let (u, _, rest) = >>=-eq-ok (reject (is_empty hs) invalid_histogram) _ h in
    let (r, merged, rest') = >>=-eq-ok (merge_counts zeros hs) _ rest in
    let (n, counted, _) = >>=-eq-ok (sample_count (record { counts = r })) _ rest' in
    let (e, small) = sample_count_lem (record { counts = r }) counted in
    omega (arith, sum-add_all zeros hs refl a, ap sum (merge_counts-ok zeros hs merged))

merge-fits :
    (hs : List LatencyHistogram)
    → is_empty hs ≡ false
    → All IsHistogram hs
    → total_samples hs < 2 ^ 64
    → merge_latency_histograms hs
      ≡ ok (record { counts = add_all (zero_counts latency_bucket_count) hs })
unfolding merge_latency_histograms sample_count
merge-fits hs some a h =
    let zeros = zero_counts latency_bucket_count in
    let merged = add_all zeros hs in
    let sums : sum merged ≡ 0 + total_samples hs = sum-add_all zeros hs refl a in
    rw (
      some,
      merge_counts-fits zeros hs refl a (omega arith),
      count_samples-fits 0 merged (omega arith),
    )

le_or_lt : (a b : ℕ) → (a ≤ b) ⊎ (b < a)
le_or_lt a b = ground arith

-- For one or more histograms of seventeen counts: if their samples together are a uint64, the merge
-- succeeds with the counts added bucket by bucket; otherwise it is refused as an invalid histogram.
pub merge_latency_histograms-total :
    (hs : List LatencyHistogram)
    → is_empty hs ≡ false
    → All IsHistogram hs
    → ((total_samples hs < 2 ^ 64)
        × (merge_latency_histograms hs
            ≡ ok (record { counts = add_all (zero_counts latency_bucket_count) hs })))
      ⊎ ((2 ^ 64 ≤ total_samples hs) × (merge_latency_histograms hs ≡ err invalid_histogram))
merge_latency_histograms-total hs some a = elim (Result-cases (merge_latency_histograms hs)) [
  | inl (m, e) ↦ let fits = merge-ok hs a e in inl (fits, merge-fits hs some a fits)
  | inr (x, e) ↦ elim (le_or_lt (2 ^ 64) (total_samples hs)) [
    | inl over ↦ inr (over, e ∙ ap err (merge-err hs e))
    | inr fits ↦ inl (fits, merge-fits hs some a fits)
  ]
]
