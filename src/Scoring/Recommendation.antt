-- ===== src/Scoring/Recommendation.antt =====
-- internal/domain/scoring/recommendation.go: the shadow advice for one supplier, model and
-- strategy.
pub mod Laws
pub mod Hysteresis
use many_router.Base.{
  ℕ, Bool, true, false, not, ◌&&◌, ◌||◌, Option, some, none, List, [], ◌∷◌, Text, text_eq, Result,
  ok, err, ◌>>=◌, ◌>>◌, guard, reject, ◌==◌, leb, is_empty, if◌then◌else◌,
}
use many_router.Float.{Float64}
use many_router.Scoring.Types.{
  ScoringError, invalid_recommendation, AutoKind, AdviceAction, join, keep, exit, watch, exclude,
  WindowWeight, AutoWeights, DimensionScores, Confidence, high, insufficient, valid_score,
  fixed_auto_weights, composite_score,
}
use many_router.Scoring.Gates.{
  GateReason, HardGateInput, HardGatePolicy, HardGateResult, evaluate_hard_gates,
}
use many_router.Scoring.Windows.{CombinedWindowScore, WindowIssue}

pub data AdviceReason : Type 0 where
  hard_gate_failed hard_gate_pending evidence_not_ready : AdviceReason
  join_threshold_met join_confirmation_pending member_within_exit_line : AdviceReason
  exit_threshold_met exit_confirmation_pending below_join_threshold : AdviceReason

pub record RecommendationPolicy (W : Type 0) : Type 0 where
  pub version : Text
  pub join_threshold : W
  pub exit_threshold : W
  pub required_consecutive_windows : ℕ  -- uint64
  pub hard_gates : HardGatePolicy

pub record RecommendationInput (W : Type 0) : Type 0 where
  pub auto_kind : AutoKind
  pub current_member : Bool
  pub windows : CombinedWindowScore W
  pub hard_gates : HardGateInput
  pub consecutive_join_windows : ℕ  -- uint64
  pub consecutive_exit_windows : ℕ  -- uint64

-- The action is `none` while Recommend has not chosen one (the empty string in Go).
pub record ShadowAdvice (W : Type 0) : Type 0 where
  pub action : Option AdviceAction
  pub policy_version : Text
  pub auto_kind : AutoKind
  pub current_member : Bool
  pub composite_score : Option W
  pub dimension_scores : DimensionScores W
  pub strategy_weights : AutoWeights W
  pub window_weights : List (WindowWeight W)
  pub confidence : Confidence
  pub reasons : List AdviceReason
  pub hard_reasons : List GateReason
  pub pending_hard_gates : List GateReason
  pub window_issues : List WindowIssue

module _ {W : Type 0} where
  abbrev pub conclude : ShadowAdvice W → AdviceAction → AdviceReason → ShadowAdvice W
  conclude advice action reason = record advice { action = some action; reasons = reason ∷ [] }

module _ {W : Type 0} ⦃f : Float64 W⦄ where
  open f use {lit, lt, le}

  unfoldable pub validate_recommendation_policy :
      RecommendationPolicy W → Result ScoringError (Unit {0})
  validate_recommendation_policy policy =
      reject
        (not (valid_score policy.join_threshold)
          || not (valid_score policy.exit_threshold)
          || le policy.join_threshold policy.exit_threshold
          || policy.required_consecutive_windows == 0)
        invalid_recommendation

  unfoldable pub advise_current_member :
      ShadowAdvice W → RecommendationInput W → RecommendationPolicy W → W → ShadowAdvice W
  advise_current_member advice input policy composite =
      if le policy.exit_threshold composite
      then conclude advice keep member_within_exit_line
      else if leb policy.required_consecutive_windows input.consecutive_exit_windows
      then conclude advice exit exit_threshold_met
      else conclude advice watch exit_confirmation_pending

  unfoldable pub advise_candidate :
      ShadowAdvice W → RecommendationInput W → RecommendationPolicy W → W → ShadowAdvice W
  advise_candidate advice input policy composite =
      if lt composite policy.join_threshold
      then conclude advice watch below_join_threshold
      else if leb policy.required_consecutive_windows input.consecutive_join_windows
      then conclude advice join join_threshold_met
      else conclude advice watch join_confirmation_pending

  -- The advice before any decision.
  unfoldable pub draft_advice :
      RecommendationInput W → RecommendationPolicy W → HardGateResult → ShadowAdvice W
  draft_advice input policy gates = record {
    action = none;
    policy_version = policy.version;
    auto_kind = input.auto_kind;
    current_member = input.current_member;
    composite_score = none;
    dimension_scores = input.windows.scores;
    strategy_weights = record {
      price = lit 0 0;
      latency = lit 0 0;
      sla = lit 0 0;
      quality = lit 0 0;
    };
    window_weights = input.windows.effective_weights;
    confidence = input.windows.confidence;
    reasons = [];
    hard_reasons = gates.reasons;
    pending_hard_gates = gates.pending;
    window_issues = input.windows.issues;
  }

  -- The end of Recommend, once the evidence is ready.
  unfoldable pub recommend_by_score :
      RecommendationInput W
      → RecommendationPolicy W
      → AutoWeights W
      → ShadowAdvice W
      → Result ScoringError (ShadowAdvice W)
  recommend_by_score input policy weights advice = do
    composite ← composite_score input.windows.scores weights
    let scored = record advice { composite_score = some composite }
    ok (
        if input.current_member
        then advise_current_member scored input policy composite
        else advise_candidate scored input policy composite)

  -- Recommend once no hard gate failed or waits.
  unfoldable pub recommend_cleared :
      RecommendationInput W
      → RecommendationPolicy W
      → AutoWeights W
      → ShadowAdvice W
      → Result ScoringError (ShadowAdvice W)
  recommend_cleared input policy weights advice = do
    validate_recommendation_policy policy
    if not input.windows.available || not input.windows.decision_ready
        then ok (conclude advice watch evidence_not_ready)
        else recommend_by_score input policy weights advice

  unfoldable pub pending_advice : ShadowAdvice W → ShadowAdvice W
  pending_advice advice =
      conclude (record advice { confidence = insufficient }) watch hard_gate_pending

  -- Recommend after the hard gates, none of which failed.
  unfoldable pub recommend_unexcluded :
      RecommendationInput W
      → RecommendationPolicy W
      → HardGateResult
      → Result ScoringError (ShadowAdvice W)
  recommend_unexcluded input policy gates = do
    guard (text_eq input.windows.policy_version policy.version) invalid_recommendation
    weights ← fixed_auto_weights policy.version input.auto_kind
    let advice = record (draft_advice input policy gates) { strategy_weights = weights }
    if not (is_empty gates.pending)
        then ok (pending_advice advice)
        else recommend_cleared input policy weights advice

  unfoldable pub excluded_advice :
      RecommendationInput W → RecommendationPolicy W → HardGateResult → ShadowAdvice W
  excluded_advice input policy gates =
      conclude (record (draft_advice input policy gates) { confidence = high }) exclude
        hard_gate_failed

  unfoldable pub recommend :
      RecommendationInput W → RecommendationPolicy W → Result ScoringError (ShadowAdvice W)
  recommend input policy = do
    gates ← evaluate_hard_gates input.hard_gates policy.hard_gates
    if gates.excluded
        then ok (excluded_advice input policy gates)
        else recommend_unexcluded input policy gates
