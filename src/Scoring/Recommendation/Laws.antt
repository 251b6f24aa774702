-- ===== src/Scoring/Recommendation/Laws.antt =====
-- What Recommend of internal/domain/scoring/recommendation.go advises, and when.
use many_router.Base.{
  ◌≡◌, refl, ◌≤◌, Bool, true, false, not, ◌||◌, some, [], text_eq, text_eq_iff, ok, guard,
  guard-eq-ok, arith, leb, is_empty, if◌then◌else◌, leb→le, ok-injective, >>=-eq-ok, Bool-cases,
  inl, inr,
}
use many_router.Float.{Float64, ◌≼◌}
use many_router.Scoring.Types.{
  invalid_recommendation, AdviceAction, join, keep, exit, watch, exclude, AutoWeights,
  fixed_auto_weights, composite_score,
}
use many_router.Scoring.Gates.{HardGateResult, evaluate_hard_gates}
use many_router.Scoring.Recommendation.{
  RecommendationPolicy, RecommendationInput, ShadowAdvice, validate_recommendation_policy,
  advise_current_member, advise_candidate, draft_advice, recommend_by_score, recommend_cleared,
  recommend_unexcluded, pending_advice, excluded_advice, recommend, conclude, evidence_not_ready,
}

module _ {W : Type 0} ⦃f : Float64 W⦄ where
  open f use {lt, le}

  -- What an advice that rests on a score has been through: gates that neither failed nor wait, a
  -- valid policy, ready windows, and the score itself.
  pub record IsScored (input : RecommendationInput W) (policy : RecommendationPolicy W) (c : W)
      : Type 0 where
    pub gates : HardGateResult
    pub evaluated : evaluate_hard_gates input.hard_gates policy.hard_gates ≡ ok gates
    pub none_failed : gates.excluded ≡ false
    pub none_waiting : gates.pending ≡ []
    pub policy_valid : validate_recommendation_policy policy ≡ ok tt
    pub available : input.windows.available ≡ true
    pub ready : input.windows.decision_ready ≡ true
    pub same_version : input.windows.policy_version ≡ policy.version
    pub weights : AutoWeights W
    pub weighted : fixed_auto_weights policy.version input.auto_kind ≡ ok weights
    pub scored : composite_score input.windows.scores weights ≡ ok c

  -- What justifies each action.
  abbrev pub Justifies : RecommendationInput W → RecommendationPolicy W → AdviceAction → Type 0
  Justifies input policy join =
      (c : W) × IsScored input policy c
      × (input.current_member ≡ false)
      × (lt c policy.join_threshold ≡ false)
      × (policy.required_consecutive_windows ≤ input.consecutive_join_windows)
  Justifies input policy keep =
      (c : W) × IsScored input policy c
      × (input.current_member ≡ true)
      × (policy.exit_threshold ≼ c)
  Justifies input policy exit =
      (c : W) × IsScored input policy c
      × (input.current_member ≡ true)
      × (le policy.exit_threshold c ≡ false)
      × (policy.required_consecutive_windows ≤ input.consecutive_exit_windows)
  Justifies input policy exclude =
      (g : HardGateResult) × (evaluate_hard_gates input.hard_gates policy.hard_gates ≡ ok g)
      × (g.excluded ≡ true)
  Justifies input policy watch = Unit

  abbrev pub IsJustified : RecommendationInput W → RecommendationPolicy W → ShadowAdvice W → Type 0
  IsJustified input policy advice =
      (action : AdviceAction) × (advice.action ≡ some action) × Justifies input policy action

  current_member-IsJustified :
      (advice : ShadowAdvice W) (input : RecommendationInput W) (policy : RecommendationPolicy W)
      (c : W)
      → IsScored input policy c
      → input.current_member ≡ true
      → IsJustified input policy (advise_current_member advice input policy c)
  unfolding advise_current_member
  current_member-IsJustified advice input policy c scored member =
      elim (Bool-cases (le policy.exit_threshold c)) [
        | inl stays ↦ rw stays (keep, refl, (c, scored, member, stays))
        | inr falls ↦
            let windows = leb policy.required_consecutive_windows input.consecutive_exit_windows in
            elim (Bool-cases windows) [
              | inl long ↦
                  rw (falls, long) (exit, refl, (c, scored, member, falls, leb→le _ _ long))
              | inr short ↦ rw (falls, short) (watch, refl, tt)
            ]
      ]

  candidate-IsJustified :
      (advice : ShadowAdvice W) (input : RecommendationInput W) (policy : RecommendationPolicy W)
      (c : W)
      → IsScored input policy c
      → input.current_member ≡ false
      → IsJustified input policy (advise_candidate advice input policy c)
  unfolding advise_candidate
  candidate-IsJustified advice input policy c scored member =
      elim (Bool-cases (lt c policy.join_threshold)) [
        | inl low ↦ rw low (watch, refl, tt)
        | inr meets ↦
            let windows = leb policy.required_consecutive_windows input.consecutive_join_windows in
            elim (Bool-cases windows) [
              | inl long ↦
                  rw (meets, long) (join, refl, (c, scored, member, meets, leb→le _ _ long))
              | inr short ↦ rw (meets, short) (watch, refl, tt)
            ]
      ]

  by_score-IsJustified :
      (input : RecommendationInput W) (policy : RecommendationPolicy W) (weights : AutoWeights W)
      (advice : ShadowAdvice W) {result : ShadowAdvice W}
      → ((c : W) → composite_score input.windows.scores weights ≡ ok c → IsScored input policy c)
      → recommend_by_score input policy weights advice ≡ ok result
      → IsJustified input policy result
  unfolding recommend_by_score
  by_score-IsJustified input policy weights advice known h =
      let (c, scored, last) = >>=-eq-ok (composite_score input.windows.scores weights) _ h in
      let start = record advice { composite_score = some c } in
      rw (← ok-injective last) (split start c (known c scored) input.current_member refl)
    where
      split :
          (start : ShadowAdvice W) (c : W)
          → IsScored input policy c
          → (member : Bool) → input.current_member ≡ member
          → IsJustified input policy (
              if member
              then advise_current_member start input policy c
              else advise_candidate start input policy c)
      split start c scored true e = current_member-IsJustified start input policy c scored e
      split start c scored false e = candidate-IsJustified start input policy c scored e

  cleared-IsJustified :
      (input : RecommendationInput W) (policy : RecommendationPolicy W) (g : HardGateResult)
      (weights : AutoWeights W) (advice : ShadowAdvice W) {result : ShadowAdvice W}
      → evaluate_hard_gates input.hard_gates policy.hard_gates ≡ ok g
      → g.excluded ≡ false
      → is_empty g.pending ≡ true
      → text_eq input.windows.policy_version policy.version ≡ true
      → fixed_auto_weights policy.version input.auto_kind ≡ ok weights
      → recommend_cleared input policy weights advice ≡ ok result
      → IsJustified input policy result
  unfolding recommend_cleared
  cleared-IsJustified input policy g weights advice {result} evaluated kept settled version weighted
        h =
      let (u, valid, rest) = >>=-eq-ok (validate_recommendation_policy policy) _ h in
      split input.windows.available input.windows.decision_ready refl refl valid rest
    where
      split :
          (available ready : Bool)
          → input.windows.available ≡ available
          → input.windows.decision_ready ≡ ready
          → validate_recommendation_policy policy ≡ ok tt
          → (if not available || not ready
              then ok (conclude advice watch evidence_not_ready)
              else recommend_by_score input policy weights advice)
            ≡ ok result
          → IsJustified input policy result
      split false ready a r valid h = rw (← ok-injective h) (watch, refl, tt)
      split true false a r valid h = rw (← ok-injective h) (watch, refl, tt)
      split true true a r valid h =
          by_score-IsJustified input policy weights advice
            (λ c scored. record {
              gates = g;
              evaluated = evaluated;
              none_failed = kept;
              none_waiting = ground arith;
              policy_valid = valid;
              available = a;
              ready = r;
              same_version = (text_eq_iff _ _).0 version;
              weights = weights;
              weighted = weighted;
              scored = scored;
            })
            h

  unexcluded-IsJustified :
      (input : RecommendationInput W) (policy : RecommendationPolicy W) (g : HardGateResult)
      {result : ShadowAdvice W}
      → evaluate_hard_gates input.hard_gates policy.hard_gates ≡ ok g
      → g.excluded ≡ false
      → recommend_unexcluded input policy g ≡ ok result
      → IsJustified input policy result
  unfolding recommend_unexcluded
  unexcluded-IsJustified input policy g {result} evaluated kept h =
      let same = text_eq input.windows.policy_version policy.version in
      let (u, version, rest) = >>=-eq-ok (guard same invalid_recommendation) _ h in
      let (weights, weighted, rest') =
        >>=-eq-ok (fixed_auto_weights policy.version input.auto_kind) _ rest in
      split (guard-eq-ok same _ version) weights weighted (is_empty g.pending) refl rest'
    where
      split :
          text_eq input.windows.policy_version policy.version ≡ true
          → (weights : AutoWeights W)
          → fixed_auto_weights policy.version input.auto_kind ≡ ok weights
          → (settled : Bool) → is_empty g.pending ≡ settled
          → (let advice = record (draft_advice input policy g) { strategy_weights = weights } in
              if not settled
              then ok (pending_advice advice)
              else recommend_cleared input policy weights advice)
            ≡ ok result
          → IsJustified input policy result
      split version weights weighted false e h =
          rw (← ok-injective h) (unfold pending_advice in (watch, refl, tt))
      split version weights weighted true e h =
          cleared-IsJustified input policy g weights _ evaluated kept e version weighted h

  -- Every advice that Recommend returns has an action, and the action is justified: joining and
  -- keeping or leaving want gates that neither failed nor wait, a valid policy, windows of the
  -- policy's version that are available and ready, and a composite score; joining is for a
  -- candidate whose score is not below the join threshold over enough windows, keeping for a member
  -- at or above the exit threshold, leaving for a member that is not so over enough windows, and
  -- exclusion for a failed hard gate. Nothing is said of the reason to watch.
  pub recommend-IsJustified :
      (input : RecommendationInput W) (policy : RecommendationPolicy W) {advice : ShadowAdvice W}
      → recommend input policy ≡ ok advice
      → IsJustified input policy advice
  unfolding recommend
  recommend-IsJustified input policy {advice} h =
      let (g, evaluated, rest) =
        >>=-eq-ok (evaluate_hard_gates input.hard_gates policy.hard_gates) _ h in
      split g evaluated g.excluded refl rest
    where
      split :
          (g : HardGateResult)
          → evaluate_hard_gates input.hard_gates policy.hard_gates ≡ ok g
          → (failed : Bool) → g.excluded ≡ failed
          → (if failed
              then ok (excluded_advice input policy g)
              else recommend_unexcluded input policy g)
            ≡ ok advice
          → IsJustified input policy advice
      split g evaluated true e h =
          rw (← ok-injective h) (unfold excluded_advice in (exclude, refl, (g, evaluated, e)))
      split g evaluated false e h = unexcluded-IsJustified input policy g evaluated e h
