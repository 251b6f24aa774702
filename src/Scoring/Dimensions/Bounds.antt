-- ===== src/Scoring/Dimensions/Bounds.antt =====
-- Range and anchor points of the normalized metrics and of the dimension scores
-- (normalizeMetric and scoreDimension of internal/domain/scoring/dimensions.go).
use many_router.Base.{
  ◌≡◌, refl, true, false, List, [], ◌∷◌, ◌++◌, map, ok, ok-injective, arith, All, >>=-eq-ok, ◌∙◌,
  sym, ap,
}
use mathlib.Core.List.{append_assoc, append-nil}
use many_router.Float.{Float64, IsFloat64, ◌≼◌}
use many_router.Scoring.Types.{Dimension, clamp_score, valid_score, validate_weights}
use many_router.Scoring.Types.Bounds.{
  clamp_score-valid, IsWeight, weighted_nonneg, validate_weights_from-ok,
}
use many_router.Scoring.Dimensions.{
  MetricRule, ComponentScore, DimensionScore, MetricInput, normalize_metric, score_components,
  score_dimension, component,
}

module _ {W : Type 0} ⦃f : Float64 W⦄ where
  open f use {lit, add, sub, mul, div, lt, le, eq, finite}

  -- A normalized metric that is returned: the metric and the rule passed the tests, and it is the
  -- clamped share of the way from the worst value to the best.
  normalize_metric_inv :
      (value : W) (rule : MetricRule W) {n : W}
      → normalize_metric value rule ≡ ok n
      → (finite value ≡ true)
        × (finite rule.best ≡ true)
        × (finite rule.worst ≡ true)
        × (eq rule.best rule.worst ≡ false)
        × (n
            ≡ clamp_score (
                mul
                  (lit 100 0)
                  (sub (lit 1 0) (div (sub value rule.best) (sub rule.worst rule.best)))))
  unfolding normalize_metric
  normalize_metric_inv value rule h = ground arith

  -- What the weighted components add up to.
  abbrev pub component_total : W → List (ComponentScore W) → W
  component_total score [] = score
  component_total score (c ∷ cs) = component_total (add score (mul c.normalized c.weight)) cs

  component_total-append :
      (score : W) (xs ys : List (ComponentScore W))
      → component_total score (xs ++ ys) ≡ component_total (component_total score xs) ys
  component_total-append score [] ys = refl
  component_total-append score (x ∷ xs) ys =
      component_total-append (add score (mul x.normalized x.weight)) xs ys

  score_components_lem :
      (score : W) (done : List (ComponentScore W)) (metrics : List (MetricInput W))
      {r : W × List (ComponentScore W)}
      → score_components score done metrics ≡ ok r
      → (cs : List (ComponentScore W)) × (r.1 ≡ done ++ cs)
        × (r.0 ≡ component_total score cs)
        × (map (λ c. c.metric) cs ≡ map (λ m. m.name) metrics)
        × (map (λ c. c.raw_value) cs ≡ map (λ m. m.value) metrics)
        × (map (λ c. c.weight) cs ≡ map (λ m. m.rule.weight) metrics)
  unfolding score_components
  score_components_lem score done [] h =
      let e = ok-injective h in
      ([], ap (λ t. t.1) (sym e) ∙ sym (append-nil done), ap (λ t. t.0) (sym e), refl, refl, refl)
  score_components_lem score done (m ∷ metrics) h =
      let (n, normal, rest) = >>=-eq-ok (normalize_metric m.value m.rule) _ h in
      let (cs, all, total, names, values, weights) =
        score_components_lem (add score (mul n m.rule.weight)) (done ++ (component m n ∷ []))
          metrics rest in
      (
        component m n ∷ cs,
        all ∙ append_assoc done (component m n ∷ []) cs,
        total,
        ap (λ t. m.name ∷ t) names,
        ap (λ t. m.value ∷ t) values,
        ap (λ t. m.rule.weight ∷ t) weights,
      )

  -- A dimension score explains itself: its components carry the names, values and weights of the
  -- metrics in their order, and the score is the clamped sum of their weighted normalized values.
  pub score_dimension-explained :
      (dimension : Dimension) (metrics : List (MetricInput W)) {r : DimensionScore W}
      → score_dimension dimension metrics ≡ ok r
      → (r.dimension ≡ dimension)
        × (r.score ≡ clamp_score (component_total (lit 0 0) r.components))
        × (map (λ c. c.metric) r.components ≡ map (λ m. m.name) metrics)
        × (map (λ c. c.raw_value) r.components ≡ map (λ m. m.value) metrics)
        × (map (λ c. c.weight) r.components ≡ map (λ m. m.rule.weight) metrics)
  unfolding score_dimension
  score_dimension-explained dimension metrics h =
      let (u, _, rest) = >>=-eq-ok (validate_weights (map (λ m. m.rule.weight) metrics)) _ h in
      let (scored, looped, last) = >>=-eq-ok (score_components (lit 0 0) [] metrics) _ rest in
      let (cs, all, total, names, values, weights) =
        score_components_lem (lit 0 0) [] metrics looped in
      rw (← ok-injective last, all, total) (refl, refl, names, values, weights)

-- The metric and its rule are far enough from the ends of float64 that no difference overflows.
pub record IsRegular {W : Type 0} ⦃f : Float64 W⦄ (m : MetricInput W) : Type 0 where
  pub offset : f.finite (f.sub m.value m.rule.best) ≡ true
  pub span : f.finite (f.sub m.rule.worst m.rule.best) ≡ true

module _ {W : Type 0} ⦃f : Float64 W⦄ (laws : IsFloat64 W) where
  open f use {lit, add, sub, mul, div, lt, le, eq, finite}
  open laws use {
    finite_num, num_of_le, lt-eq-not-le, lit_finite, lit_mono, lit_lt, sub-ne_zero, div_num,
    sub_num, mul_num, sub_self, div_self, zero_div, sub_zero, mul_one, mul_zero, add_nonneg,
  }

  one_finite : finite (lit 1 0) ≡ true
  one_finite = lit_finite 1 0 (omega arith)

  hundred_finite : finite (lit 100 0) ≡ true
  hundred_finite = lit_finite 100 0 (omega arith)

  hundred_pos : lt (lit 0 0) (lit 100 0) ≡ true
  hundred_pos = lit_lt 0 100 (omega arith) (omega arith)

  -- A normalized metric whose differences do not overflow is a score from 0 to 100.
  pub normalize_metric-valid :
      (m : MetricInput W) {n : W}
      → IsRegular m
      → normalize_metric m.value m.rule ≡ ok n
      → valid_score n ≡ true
  normalize_metric-valid m regular h =
      let (_, best, worst, apart, e) = normalize_metric_inv m.value m.rule h in
      let span = sub-ne_zero m.rule.worst m.rule.best worst best apart in
      rw e (
        clamp_score-valid laws _ (
          mul_num _ _ hundred_finite hundred_pos
            (sub_num _ _ one_finite (div_num _ _ regular.offset regular.span span))))

  -- The ends of the scale are not changed by clamping.
  clamp-hundred : clamp_score (lit 100 0) ≡ lit 100 0
  unfolding clamp_score
  clamp-hundred =
      let num = finite_num _ hundred_finite in
      ground (
        arith,
        num,
        lt-eq-not-le (lit 100 0) (lit 0 0) num (finite_num _ (lit_finite 0 0 (omega arith))),
        lt-eq-not-le (lit 100 0) (lit 100 0) num num,
        lit_mono 0 0 100 0 (omega arith),
      )

  clamp-zero : clamp_score (lit 0 0) ≡ lit 0 0
  unfolding clamp_score
  clamp-zero =
      let num = finite_num _ (lit_finite 0 0 (omega arith)) in
      ground (
        arith,
        num,
        lt-eq-not-le (lit 0 0) (lit 0 0) num num,
        lt-eq-not-le (lit 100 0) (lit 0 0) (finite_num _ hundred_finite) num,
        lit_mono 0 0 100 0 (omega arith),
      )

  -- The best raw value is worth 100 and the worst is worth 0, if their difference does not
  -- overflow.
  pub normalize_metric-anchors :
      (rule : MetricRule W) {b w : W}
      → finite (sub rule.worst rule.best) ≡ true
      → normalize_metric rule.best rule ≡ ok b
      → normalize_metric rule.worst rule ≡ ok w
      → (b ≡ lit 100 0) × (w ≡ lit 0 0)
  normalize_metric-anchors rule fin h k =
      let (_, best, worst, apart, e) = normalize_metric_inv rule.best rule h in
      let (_, _, _, _, e') = normalize_metric_inv rule.worst rule k in
      let span = sub-ne_zero rule.worst rule.best worst best apart in
      let one =
        sub_zero (lit 1 0) _ one_finite (lit_lt 0 1 (omega arith) (omega arith))
          (zero_div _ fin span) in
      (
        rw (e, sub_self rule.best best, one, mul_one _ hundred_finite) clamp-hundred,
        rw (e', div_self _ fin span, sub_self _ one_finite, mul_zero _ hundred_finite hundred_pos)
            clamp-zero,
      )

  -- Every component of a score is a valid score times the weight of its metric.
  component_total_nonneg :
      (score : W) (done : List (ComponentScore W)) (metrics : List (MetricInput W))
      {r : W × List (ComponentScore W)}
      → lit 0 0 ≼ score
      → All IsRegular metrics
      → All (IsWeight laws) (map (λ m. m.rule.weight) metrics)
      → score_components score done metrics ≡ ok r
      → lit 0 0 ≼ r.0
  unfolding score_components
  component_total_nonneg score done [] h _ _ k = rw (← ok-injective k) h
  component_total_nonneg score done (m ∷ metrics) h (regular, rest) (weight, weights) k =
      let (n, normal, looped) = >>=-eq-ok (normalize_metric m.value m.rule) _ k in
      component_total_nonneg (add score (mul n m.rule.weight)) (done ++ (component m n ∷ []))
        metrics
        (add_nonneg _ _ h
          (weighted_nonneg laws n m.rule.weight (normalize_metric-valid m regular normal) weight))
        rest weights looped

  -- A dimension score of metrics whose differences do not overflow is a score from 0 to 100.
  pub score_dimension-valid :
      (dimension : Dimension) (metrics : List (MetricInput W)) {r : DimensionScore W}
      → All IsRegular metrics
      → score_dimension dimension metrics ≡ ok r
      → valid_score r.score ≡ true
  unfolding score_dimension validate_weights
  score_dimension-valid dimension metrics regular h =
      let weights = map (λ m. m.rule.weight) metrics in
      let (u, checked, rest) = >>=-eq-ok (validate_weights weights) _ h in
      let (scored, looped, last) = >>=-eq-ok (score_components (lit 0 0) [] metrics) _ rest in
      let nonneg =
        component_total_nonneg (lit 0 0) [] metrics (finite_num _ (lit_finite 0 0 (omega arith)))
          regular (validate_weights_from-ok laws (lit 0 0) weights checked) looped in
      rw (← ok-injective last) (clamp_score-valid laws scored.0 (num_of_le _ _ nonneg).1)
