-- ===== src/Scoring/Examples.antt =====
-- Runs of the scoring domain on fixed-point numbers, and its theorems at concrete inputs.
use many_router.Base.{ℕ, true, false, [], ◌∷◌, some, none, ok, ◌≡◌, refl, text_eq}
use many_router.Base.Int.{◌+ℤ◌, ◌-ℤ◌}
use many_router.Float.{◌≼◌}
use many_router.Float.Fixed.{Fixed, fixed_float, Fixed-IsFloat64, mul_fixed, abs_fixed, lit_fixed}
use many_router.Scoring.Types.{
  DimensionScores, AutoWeights, balanced, high, join, keep, exclude, valid_score, clamp_score,
  validate_dimension_scores, validate_weights, validate_weights_from, weights_of_kind,
  fixed_auto_weights, composite_score, policy_version_m2_shadow_v1,
}
use many_router.Scoring.Types.Bounds.{composite_score-valid}
use many_router.Scoring.Types.Monotone.{IsBelow, composite_score-mono}
use many_router.Scoring.Gates.{
  CheckState, Authenticity, HardGateInput, default_hard_gate_policy, evaluate_hard_gates,
  collect_check, collect_authenticity, collect_failures, credential_invalid,
}
use many_router.Scoring.Gates.Laws.{gates_table, evaluate_hard_gates-eq-table}
use many_router.Scoring.Recommendation.{
  RecommendationInput, RecommendationPolicy, ShadowAdvice, recommend, recommend_unexcluded,
  recommend_cleared, recommend_by_score, advise_candidate, draft_advice,
  validate_recommendation_policy, join_threshold_met,
}
use many_router.Scoring.Recommendation.Laws.{IsJustified, recommend-IsJustified}
use many_router.Scoring.Recommendation.Hysteresis.{recommend-hysteresis, recommend-excluded}
use many_router.Scoring.Windows.{CombinedWindowScore}

abbrev points : ℕ → Fixed
points n = fixed_float.lit n 0

abbrev scores_of : ℕ → ℕ → ℕ → ℕ → DimensionScores Fixed
scores_of p l s q = record {
  price = points p;
  latency = points l;
  sla = points s;
  quality = points q;
}

abbrev balanced_weights : AutoWeights Fixed
balanced_weights = record {
  price = fixed_float.lit 25 2;
  latency = fixed_float.lit 25 2;
  sla = fixed_float.lit 30 2;
  quality = fixed_float.lit 20 2;
}

composite_80 : composite_score (scores_of 80 80 80 80) balanced_weights ≡ ok (points 80)
unfolding composite_score validate_dimension_scores validate_weights validate_weights_from
    valid_score clamp_score mul_fixed lit_fixed abs_fixed ◌+ℤ◌ ◌-ℤ◌
composite_80 = refl

composite_85 : composite_score (scores_of 80 80 80 100) balanced_weights ≡ ok (points 84)
unfolding composite_score validate_dimension_scores validate_weights validate_weights_from
    valid_score clamp_score mul_fixed lit_fixed abs_fixed ◌+ℤ◌ ◌-ℤ◌
composite_85 = refl

composite_score-valid_example : valid_score (points 80) ≡ true
composite_score-valid_example =
    composite_score-valid Fixed-IsFloat64 (scores_of 80 80 80 80) balanced_weights composite_80

better_quality : IsBelow (scores_of 80 80 80 80) (scores_of 80 80 80 100)
unfolding lit_fixed
better_quality = record { price = refl; latency = refl; sla = refl; quality = refl }

composite_score-mono_example : points 80 ≼ points 84
composite_score-mono_example =
    composite_score-mono Fixed-IsFloat64 (scores_of 80 80 80 80) (scores_of 80 80 80 100)
      balanced_weights better_quality composite_80 composite_85

abbrev clear_gates : HardGateInput
clear_gates = record {
  authenticity = Authenticity.consistent;
  credential_valid = CheckState.pass;
  balance_available = CheckState.pass;
  major_risk_absent = CheckState.pass;
  attributed_consecutive_failures = 2;
}

abbrev bad_credential : HardGateInput
bad_credential = record clear_gates { credential_valid = CheckState.fail }

evaluate_hard_gates-eq-table_example :
    evaluate_hard_gates bad_credential default_hard_gate_policy
    ≡ gates_table bad_credential default_hard_gate_policy
evaluate_hard_gates-eq-table_example =
    evaluate_hard_gates-eq-table bad_credential default_hard_gate_policy

abbrev policy : RecommendationPolicy Fixed
policy = record {
  version = policy_version_m2_shadow_v1;
  join_threshold = points 75;
  exit_threshold = points 65;
  required_consecutive_windows = 2;
  hard_gates = record { consecutive_failure_limit = 3 };
}

abbrev windows_of_80 : CombinedWindowScore Fixed
windows_of_80 = record {
  policy_version = policy_version_m2_shadow_v1;
  available = true;
  scores = scores_of 80 80 80 80;
  effective_weights = [];
  confidence = high;
  decision_ready = true;
  issues = [];
}

abbrev candidate_of_80 : RecommendationInput Fixed
candidate_of_80 = record {
  auto_kind = balanced;
  current_member = false;
  windows = windows_of_80;
  hard_gates = clear_gates;
  consecutive_join_windows = 2;
  consecutive_exit_windows = 0;
}

abbrev joining_advice : ShadowAdvice Fixed
joining_advice = record {
  action = some join;
  policy_version = policy_version_m2_shadow_v1;
  auto_kind = balanced;
  current_member = false;
  composite_score = some (points 80);
  dimension_scores = scores_of 80 80 80 80;
  strategy_weights = balanced_weights;
  window_weights = [];
  confidence = high;
  reasons = join_threshold_met ∷ [];
  hard_reasons = [];
  pending_hard_gates = [];
  window_issues = [];
}

recommend_80 : recommend candidate_of_80 policy ≡ ok joining_advice
unfolding recommend recommend_unexcluded recommend_cleared recommend_by_score advise_candidate
    draft_advice validate_recommendation_policy evaluate_hard_gates collect_check
    collect_authenticity collect_failures fixed_auto_weights weights_of_kind text_eq composite_score
    validate_dimension_scores validate_weights validate_weights_from valid_score clamp_score
    mul_fixed lit_fixed abs_fixed ◌+ℤ◌ ◌-ℤ◌
recommend_80 = refl

recommend-IsJustified_example : IsJustified candidate_of_80 policy joining_advice
recommend-IsJustified_example = recommend-IsJustified candidate_of_80 policy recommend_80

recommend-hysteresis_example :
    (b : ShadowAdvice Fixed) × (recommend (record candidate_of_80 { current_member = true }) policy
      ≡ ok b)
    × (b.action ≡ some keep)
recommend-hysteresis_example =
    recommend-hysteresis Fixed-IsFloat64 candidate_of_80 policy recommend_80 refl

abbrev failed_candidate : RecommendationInput Fixed
failed_candidate = record candidate_of_80 { hard_gates = bad_credential }

recommend-excluded_example :
    (advice : ShadowAdvice Fixed) × (recommend failed_candidate policy ≡ ok advice)
    × (advice.action ≡ some exclude)
    × (advice.confidence ≡ high)
    × (advice.composite_score ≡ none)
    × (advice.hard_reasons ≡ credential_invalid ∷ [])
recommend-excluded_example = recommend-excluded failed_candidate policy refl refl refl
