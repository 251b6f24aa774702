-- ===== src/Scoring/MetricExamples.antt =====
-- Runs of the evidence, window, histogram and dimension rules, and their theorems at concrete inputs.
use many_router.Base.{
  ◌^◌, ◌≤◌, ◌<◌, true, false, not, ◌&&◌, List, [], ◌∷◌, map, codes, none, ok, err, ◌≡◌, refl, ◌⊎◌,
  All, text_eq, trim_space, drop_spaces, is_space, contains_text, leb, if◌then◌else◌, arith,
}
use many_router.Base.Int.{pos, ◌+ℤ◌, ◌-ℤ◌}
use many_router.Float.Fixed.{
  Fixed, fixed_float, Fixed-IsFloat64, mul_fixed, div_fixed, abs_fixed, lit_fixed,
}
use many_router.Scoring.Types.{
  Window, window_eq, medium, insufficient, Dimension, valid_score, clamp_score, validate_weights,
  validate_weights_from, validate_dimension_scores, confidence_from_rank, confidence_rank,
  lower_confidence, invalid_evidence, invalid_histogram, default_window_weights,
}
use many_router.Scoring.Evidence.{
  EvidenceInput, EvidenceAssessment, assess_evidence, scan_gaps, scan_factors, scan_factor,
  refuses_factor, record_factor, known_confidence_factor, required_confidence_factors,
  scan_required, conclude_evidence, samples_issues, pending_issues, start_scan, effective_minimum,
}
use many_router.Scoring.Evidence.Laws.{assess_evidence-conclusion, is_unblocked, lowest_rank}
use many_router.Scoring.Evidence.Errors.{assess_evidence-total, is_malformed}
use many_router.Scoring.Windows.{
  WindowScoreInput, CombinedWindowScore, window_issue, window_missing, combine_window_scores,
  index_windows, lookup_window, combine_loop, combine_step, combine_present, keep_usable,
  skip_missing, skip_unusable, weight_total, weigh_windows, clamp_scores, weighted, unavailable,
  known_window,
}
use many_router.Scoring.Windows.Laws.{some_usable, some_unready}
use many_router.Scoring.Windows.Readiness.{combine_window_scores-readiness}
use many_router.Scoring.Histogram.{
  LatencyHistogram, PercentileRange, percentile_of, sample_count, count_samples, latency_buckets,
  latency_bucket_count, merge_latency_histograms, zero_counts,
}
use many_router.Scoring.Histogram.Percentile.{IsBucket, percentile_of-total}
use many_router.Scoring.Histogram.Merge.{merge_latency_histograms-total, total_samples, add_all}
use many_router.Scoring.Dimensions.{
  MetricRule, MetricInput, metric, DimensionScore, normalize_metric, score_components,
  score_dimension,
}
use many_router.Scoring.Dimensions.Bounds.{
  IsRegular, component_total, score_dimension-explained, score_dimension-valid,
  normalize_metric-anchors,
}

unfoldable good_evidence : EvidenceInput
unfolding required_confidence_factors
good_evidence = record {
  sample_count = 60;
  minimum_samples = 0;
  factors = map (λ name. record { name = name; level = medium }) required_confidence_factors;
  collection_gaps = [];
  attribution_pending = false;
}

abbrev good_assessment : EvidenceAssessment
good_assessment = record {
  confidence = medium;
  usable_for_scoring = true;
  decision_ready = true;
  sample_count = 60;
  minimum_samples = 50;
  issues = [];
}

assess_good : assess_evidence good_evidence ≡ ok good_assessment
unfolding good_evidence assess_evidence scan_gaps scan_factors scan_factor refuses_factor
    record_factor known_confidence_factor required_confidence_factors scan_required
    conclude_evidence samples_issues pending_issues start_scan effective_minimum confidence_rank
    confidence_from_rank text_eq contains_text trim_space drop_spaces is_space
assess_good = refl

assess_evidence-conclusion_example :
    (true ≡ is_unblocked good_evidence)
    × (medium ≡ (
        if is_unblocked good_evidence
        then confidence_from_rank (pos (lowest_rank good_evidence.factors))
        else insufficient))
    × (true ≡ (is_unblocked good_evidence && leb 2 (lowest_rank good_evidence.factors)))
assess_evidence-conclusion_example = assess_evidence-conclusion good_evidence assess_good

assess_evidence-total_example :
    ((is_malformed good_evidence ≡ true) × (assess_evidence good_evidence ≡ err invalid_evidence))
    ⊎ ((is_malformed good_evidence ≡ false)
        × ((a : EvidenceAssessment) × (assess_evidence good_evidence ≡ ok a)))
assess_evidence-total_example = assess_evidence-total good_evidence

abbrev few_latencies : LatencyHistogram
few_latencies = record { counts = 1 ∷ 2 ∷ 4 ∷ 0 ∷ 3 ∷ zero_counts 12 }

percentile_of-total_example :
    (r : PercentileRange) × (percentile_of few_latencies 95 ≡ ok r)
    × IsBucket 95 10 10 r 0 none latency_buckets few_latencies.counts
unfolding sample_count count_samples
percentile_of-total_example =
    percentile_of-total few_latencies 95 10 refl refl (omega arith) (omega arith) (omega arith)

abbrev two_histograms : List LatencyHistogram
two_histograms = few_latencies ∷ few_latencies ∷ []

merge_latency_histograms-total_example :
    ((total_samples two_histograms < 2 ^ 64)
      × (merge_latency_histograms two_histograms
          ≡ ok (record { counts = add_all (zero_counts latency_bucket_count) two_histograms })))
    ⊎ ((2 ^ 64 ≤ total_samples two_histograms)
        × (merge_latency_histograms two_histograms ≡ err invalid_histogram))
merge_latency_histograms-total_example =
    merge_latency_histograms-total two_histograms refl (refl, (refl, tt))

abbrev slow_rule : MetricRule Fixed
slow_rule = record {
  best = fixed_float.lit 100 0;
  worst = fixed_float.lit 500 0;
  weight = fixed_float.lit 1 0;
}

abbrev one_metric : List (MetricInput Fixed)
one_metric = metric (codes "ttft_p50_ms") (fixed_float.lit 200 0) slow_rule ∷ []

abbrev one_score : DimensionScore Fixed
one_score = record {
  dimension = Dimension.latency;
  score = fixed_float.lit 75 0;
  components =
      record {
        metric = codes "ttft_p50_ms";
        raw_value = fixed_float.lit 200 0;
        normalized = fixed_float.lit 75 0;
        weight = fixed_float.lit 1 0;
      }
      ∷ [];
}

score_one : score_dimension Dimension.latency one_metric ≡ ok one_score
unfolding score_dimension score_components normalize_metric validate_weights validate_weights_from
    clamp_score mul_fixed div_fixed abs_fixed lit_fixed ◌+ℤ◌ ◌-ℤ◌
score_one = refl

one_metric-IsRegular : All IsRegular one_metric
unfolding lit_fixed ◌-ℤ◌
one_metric-IsRegular = (record { offset = refl; span = refl }, tt)

score_dimension-valid_example : valid_score (fixed_float.lit 75 0) ≡ true
score_dimension-valid_example =
    score_dimension-valid Fixed-IsFloat64 Dimension.latency one_metric one_metric-IsRegular
      score_one

score_dimension-explained_example :
    (Dimension.latency ≡ Dimension.latency)
    × (one_score.score ≡ clamp_score (component_total (fixed_float.lit 0 0) one_score.components))
    × (codes "ttft_p50_ms" ∷ [] ≡ codes "ttft_p50_ms" ∷ [])
    × (fixed_float.lit 200 0 ∷ [] ≡ fixed_float.lit 200 0 ∷ [])
    × (fixed_float.lit 1 0 ∷ [] ≡ fixed_float.lit 1 0 ∷ [])
score_dimension-explained_example = score_dimension-explained Dimension.latency one_metric score_one

normalize_best : normalize_metric slow_rule.best slow_rule ≡ ok (fixed_float.lit 100 0)
unfolding normalize_metric clamp_score mul_fixed div_fixed lit_fixed ◌-ℤ◌
normalize_best = refl

normalize_worst : normalize_metric slow_rule.worst slow_rule ≡ ok (fixed_float.lit 0 0)
unfolding normalize_metric clamp_score mul_fixed div_fixed lit_fixed ◌-ℤ◌
normalize_worst = refl

normalize_metric-anchors_example :
    (fixed_float.lit 100 0 ≡ fixed_float.lit 100 0) × (fixed_float.lit 0 0 ≡ fixed_float.lit 0 0)
normalize_metric-anchors_example =
    normalize_metric-anchors Fixed-IsFloat64 slow_rule refl normalize_best normalize_worst

abbrev ready_window : WindowScoreInput Fixed
ready_window = record {
  window = Window.window_1_hour;
  complete = true;
  scores = record {
    price = fixed_float.lit 80 0;
    latency = fixed_float.lit 70 0;
    sla = fixed_float.lit 60 0;
    quality = fixed_float.lit 50 0;
  };
  evidence = good_evidence;
}

abbrev combined : CombinedWindowScore Fixed
combined = record {
  policy_version = codes "m2-shadow-v1";
  available = true;
  scores = ready_window.scores;
  effective_weights = record { window = Window.window_1_hour; weight = fixed_float.lit 1 0 } ∷ [];
  confidence = insufficient;
  decision_ready = false;
  issues =
      window_issue Window.window_15_minutes window_missing
      ∷ window_issue Window.window_24_hours window_missing
      ∷ [];
}

combine_one : combine_window_scores (ready_window ∷ []) ≡ ok combined
unfolding combine_window_scores index_windows lookup_window combine_loop combine_step
    combine_present keep_usable skip_missing skip_unusable weight_total weigh_windows clamp_scores
    weighted unavailable known_window default_window_weights window_eq validate_dimension_scores
    valid_score clamp_score lower_confidence confidence_rank confidence_from_rank good_evidence
    assess_evidence scan_gaps scan_factors scan_factor refuses_factor record_factor
    known_confidence_factor required_confidence_factors scan_required conclude_evidence
    samples_issues pending_issues start_scan effective_minimum text_eq contains_text trim_space
    drop_spaces is_space mul_fixed div_fixed lit_fixed ◌+ℤ◌ ◌-ℤ◌
combine_one = refl

combine_window_scores-readiness_example :
    (combined.available ≡ some_usable (ready_window ∷ []) default_window_weights)
    × (combined.decision_ready ≡ not (some_unready (ready_window ∷ []) default_window_weights))
combine_window_scores-readiness_example =
    combine_window_scores-readiness (ready_window ∷ []) combine_one
