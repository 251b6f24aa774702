-- ===== src/Scoring/Recommendation/Hysteresis.antt =====
-- What Recommend of internal/domain/scoring/recommendation.go advises on both sides of a threshold,
-- and what no score can change.
use many_router.Base.{
  ◌≡◌, refl, true, false, Option, some, none, text_eq_iff, ok, arith, sym, ◌∙◌, any_of, select,
  ◌==◌,
}
use many_router.Float.{Float64, IsFloat64, ◌≼◌, le_of_not_lt}
use many_router.Scoring.Types.{AdviceAction, join, keep, exit, watch, exclude, high, valid_score}
use many_router.Scoring.Types.Bounds.{composite_score-valid}
use many_router.Scoring.Gates.{HardGateResult, evaluate_hard_gates}
use many_router.Scoring.Gates.Laws.{
  gate_order, standing, is_failed, is_waiting, is_malformed, evaluate_hard_gates-eq-table,
}
use many_router.Scoring.Recommendation.{
  RecommendationPolicy, RecommendationInput, ShadowAdvice, validate_recommendation_policy,
  advise_current_member, recommend_by_score, recommend_cleared, recommend_unexcluded,
  excluded_advice, draft_advice, recommend, conclude, member_within_exit_line,
}
use many_router.Scoring.Recommendation.Laws.{IsScored, Justifies, recommend-IsJustified}

module _ {W : Type 0} ⦃f : Float64 W⦄ where
  open f use {lt, le}

  joined :
      (input : RecommendationInput W) (policy : RecommendationPolicy W) (action : AdviceAction)
      → ◌≡◌ {A = Option AdviceAction} (some action) (some join)
      → Justifies input policy action
      → Justifies input policy join
  joined input policy join e j = j
  joined input policy keep e j = cc
  joined input policy exit e j = cc
  joined input policy watch e j = cc
  joined input policy exclude e j = cc

  -- The advice for a scored member at or above the exit threshold.
  recommend-keep :
      (input : RecommendationInput W) (policy : RecommendationPolicy W) (c : W)
      → IsScored input policy c
      → policy.exit_threshold ≼ c
      → let member = record input { current_member = true } in
        (b : ShadowAdvice W) × (recommend member policy ≡ ok b) × (b.action ≡ some keep)
  unfolding recommend recommend_unexcluded recommend_cleared recommend_by_score
      advise_current_member
  recommend-keep input policy c s high_enough =
      let member = record input { current_member = true } in
      let advice = record (draft_advice member policy s.gates) {
        strategy_weights = s.weights;
        composite_score = some c;
      } in
      (
        conclude advice keep member_within_exit_line,
        ground (arith, text_eq_iff input.windows.policy_version policy.version),
        refl,
      )

  thresholds_apart :
      (laws : IsFloat64 W) (policy : RecommendationPolicy W) (c : W)
      → validate_recommendation_policy policy ≡ ok tt
      → valid_score c ≡ true
      → lt c policy.join_threshold ≡ false
      → policy.exit_threshold ≼ c
  unfolding validate_recommendation_policy valid_score
  thresholds_apart laws policy c valid score meets =
      let fin : f.finite policy.join_threshold ≡ true = ground arith in
      let fin' : f.finite policy.exit_threshold ≡ true = ground arith in
      let fin'' : f.finite c ≡ true = ground arith in
      let num = laws.finite_num _ fin in
      let num' = laws.finite_num _ fin' in
      let num'' = laws.finite_num _ fin'' in
      laws.le_trans _ policy.join_threshold _
        (ground (arith, laws.le_total policy.join_threshold policy.exit_threshold num num'))
        (le_of_not_lt laws c policy.join_threshold num'' num meets)

  -- Under the laws of float64, a score that lets a candidate join keeps a member: with the same
  -- evidence, scores and policy, Recommend advises the member to be kept.
  pub recommend-hysteresis :
      (laws : IsFloat64 W) (input : RecommendationInput W) (policy : RecommendationPolicy W)
      {a : ShadowAdvice W}
      → recommend input policy ≡ ok a
      → a.action ≡ some join
      → let member = record input { current_member = true } in
        (b : ShadowAdvice W) × (recommend member policy ≡ ok b) × (b.action ≡ some keep)
  recommend-hysteresis laws input policy h joins =
      let (action, chosen, why) = recommend-IsJustified input policy h in
      let (c, scored, _, meets, _) = joined input policy action (sym chosen ∙ joins) why in
      let valid = composite_score-valid laws input.windows.scores scored.weights scored.scored in
      recommend-keep input policy c scored
        (thresholds_apart laws policy c scored.policy_valid valid meets)

  -- A failed hard gate excludes the supplier whatever the windows, scores, version and policy
  -- thresholds are: if the failure limit is not zero, no state is unknown and some gate failed,
  -- the advice is to exclude, with high confidence, no score, and the failed gates in the business
  -- order as the reasons.
  pub recommend-excluded :
      (input : RecommendationInput W) (policy : RecommendationPolicy W)
      → (policy.hard_gates.consecutive_failure_limit == 0) ≡ false
      → any_of (λ g. is_malformed (standing input.hard_gates policy.hard_gates g)) gate_order
        ≡ false
      → any_of (λ g. is_failed (standing input.hard_gates policy.hard_gates g)) gate_order ≡ true
      → (advice : ShadowAdvice W) × (recommend input policy ≡ ok advice)
        × (advice.action ≡ some exclude)
        × (advice.confidence ≡ high)
        × (advice.composite_score ≡ none)
        × (advice.hard_reasons
            ≡ select (λ g. is_failed (standing input.hard_gates policy.hard_gates g)) gate_order)
  unfolding recommend excluded_advice draft_advice
  recommend-excluded input policy limit known failed =
      let table = evaluate_hard_gates-eq-table input.hard_gates policy.hard_gates in
      let gates : HardGateResult = record {
        excluded = true;
        reasons =
            select (λ g. is_failed (standing input.hard_gates policy.hard_gates g)) gate_order;
        pending =
            select (λ g. is_waiting (standing input.hard_gates policy.hard_gates g)) gate_order;
      } in
      let e : evaluate_hard_gates input.hard_gates policy.hard_gates ≡ ok gates =
        table ∙ rw (limit, known, failed) refl in
      (excluded_advice input policy gates, rw e refl, refl, refl, refl, refl)
