-- ===== src/Scoring/Types/Bounds.antt =====
-- Scores stay between 0 and 100 (clampScore and CompositeScore of internal/domain/scoring/types.go).
use many_router.Base.{◌≡◌, true, List, [], ◌∷◌, ok, arith, All, >>=-eq-ok}
use many_router.Float.{Float64, IsFloat64, ◌≼◌, le_of_not_lt}
use many_router.Scoring.Types.{
  DimensionScores, AutoWeights, valid_score, clamp_score, validate_dimension_scores,
  validate_weights_from, validate_weights, composite_score,
}

module _ {W : Type 0} ⦃f : Float64 W⦄ (laws : IsFloat64 W) where
  open f use {lit, add, mul, lt, le, finite}
  open laws use {
    finite_num, num_of_le, le_trans, le_total, finite_between, lit_finite, lit_mono, add_nonneg,
    mul_nonneg,
  }

  -- The zero and the hundred of the code are numbers, in that order.
  zero_finite : finite (lit 0 0) ≡ true
  zero_finite = lit_finite 0 0 (omega arith)

  hundred_finite : finite (lit 100 0) ≡ true
  hundred_finite = lit_finite 100 0 (omega arith)

  zero-le-hundred : lit 0 0 ≼ lit 100 0
  zero-le-hundred = lit_mono 0 0 100 0 (omega arith)

  -- What validScore tests, taken apart.
  pub valid_score_parts :
      (x : W) → valid_score x ≡ true → (finite x ≡ true) × (lit 0 0 ≼ x) × (x ≼ lit 100 0)
  unfolding valid_score
  valid_score_parts x h = ground arith

  pub valid_score_of_bounds : (x : W) → lit 0 0 ≼ x → x ≼ lit 100 0 → valid_score x ≡ true
  unfolding valid_score
  valid_score_of_bounds x h k =
      ground (arith, finite_between (lit 0 0) x (lit 100 0) zero_finite hundred_finite h k)

  pub zero_valid : valid_score (lit 0 0) ≡ true
  zero_valid = valid_score_of_bounds (lit 0 0) (finite_num _ zero_finite) zero-le-hundred

  pub hundred_valid : valid_score (lit 100 0) ≡ true
  hundred_valid = valid_score_of_bounds (lit 100 0) zero-le-hundred (finite_num _ hundred_finite)

  -- A value that is not NaN is clamped to a valid score.
  pub clamp_score-valid : (x : W) → x ≼ x → valid_score (clamp_score x) ≡ true
  unfolding clamp_score
  clamp_score-valid x num = ground (
    arith,
    zero_valid,
    hundred_valid,
    le_of_not_lt laws x (lit 0 0) num (finite_num _ zero_finite),
    le_of_not_lt laws (lit 100 0) x (finite_num _ hundred_finite) num,
    valid_score_of_bounds x,
  )

  abbrev pub IsWeight : W → Type 0
  IsWeight w = (finite w ≡ true) × (lit 0 0 ≼ w)

  -- Weights that validateWeights accepts are finite and not negative.
  pub validate_weights_from-ok :
      (total : W) (weights : List W) {u : Unit {0}}
      → validate_weights_from total weights ≡ ok u
      → All IsWeight weights
  unfolding validate_weights_from
  validate_weights_from-ok total [] h = tt
  validate_weights_from-ok total (w ∷ weights) h = ground (
    arith,
    finite_num w,
    finite_num _ zero_finite,
    le_total w (lit 0 0),
    validate_weights_from-ok (add total w) weights,
  )

  pub validate_dimension_scores-ok :
      (s : DimensionScores W) {u : Unit {0}}
      → validate_dimension_scores s ≡ ok u
      → (valid_score s.price ≡ true)
        × (valid_score s.latency ≡ true)
        × (valid_score s.sla ≡ true)
        × (valid_score s.quality ≡ true)
  unfolding validate_dimension_scores valid_score
  validate_dimension_scores-ok s h = ground arith

  -- The product of a valid score and a weight is a number from 0 on.
  pub weighted_nonneg : (x w : W) → valid_score x ≡ true → IsWeight w → lit 0 0 ≼ mul x w
  weighted_nonneg x w h k =
      let (fin, pos, _) = valid_score_parts x h in mul_nonneg x w fin k.0 pos k.1

  abbrev pub weigh : DimensionScores W → AutoWeights W → W
  weigh s w =
      add (add (add (mul s.price w.price) (mul s.latency w.latency)) (mul s.sla w.sla))
        (mul s.quality w.quality)

  abbrev pub weight_list : AutoWeights W → List W
  weight_list w = w.price ∷ w.latency ∷ w.sla ∷ w.quality ∷ []

  -- What a composite score that is returned was computed from.
  pub composite_score_inv :
      (s : DimensionScores W) (w : AutoWeights W) {c : W}
      → composite_score s w ≡ ok c
      → (validate_dimension_scores s ≡ ok tt)
        × All IsWeight (weight_list w)
        × (c ≡ clamp_score (weigh s w))
  unfolding composite_score
  composite_score_inv s w h =
      let (u, scores, rest) = >>=-eq-ok (validate_dimension_scores s) _ h in
      let (v, weights, last) = >>=-eq-ok (validate_weights (weight_list w)) _ rest in
      (
        scores,
        unfold validate_weights in validate_weights_from-ok (lit 0 0) (weight_list w) weights,
        cc last,
      )

  pub weigh_nonneg :
      (s : DimensionScores W) (w : AutoWeights W)
      → validate_dimension_scores s ≡ ok tt
      → All IsWeight (weight_list w)
      → lit 0 0 ≼ weigh s w
  weigh_nonneg s w h k =
      let (p, l, a, q) = validate_dimension_scores-ok s h in
      let (wp, (wl, (wa, (wq, _)))) = k in
      add_nonneg _ _
        (add_nonneg _ _ (add_nonneg _ _ (weighted_nonneg _ _ p wp) (weighted_nonneg _ _ l wl))
          (weighted_nonneg _ _ a wa))
        (weighted_nonneg _ _ q wq)

  -- A composite score that the code returns is a number from 0 to 100.
  pub composite_score-valid :
      (s : DimensionScores W) (w : AutoWeights W) {c : W}
      → composite_score s w ≡ ok c
      → valid_score c ≡ true
  composite_score-valid s w h =
      let (scores, weights, e) = composite_score_inv s w h in
      rw e (clamp_score-valid (weigh s w) (num_of_le _ _ (weigh_nonneg s w scores weights)).1)
