-- ===== src/Scoring/Dimensions.antt =====
-- internal/domain/scoring/dimensions.go: the scores of the four dimensions from raw metrics. The
-- decimal numbers of the price metrics are those of a third-party package, behind an interface.
pub mod Bounds
use many_router.Base.{
  ℕ, Bool, true, false, not, ◌&&◌, ◌||◌, List, [], ◌∷◌, ◌++◌, map, Text, codes, Result, ok, err,
  ◌>>=◌, ◌>>◌, guard, reject, any_of, if◌then◌else◌,
}
use many_router.Float.{Float64}
use many_router.Scoring.Types.{
  ScoringError, invalid_metric, invalid_rules, Dimension, price, latency, sla, quality, clamp_score,
  validate_weights,
}
use many_router.Scoring.Gates.{Authenticity, consistent, suspicious, inconsistent}

-- What the code uses of decimal.Decimal: `ratio a b` is a.Div(b).InexactFloat64().
pub record Decimal (D : Type 0) (W : Type 0) : Type 0 where
  pub is_negative : D → Bool
  pub is_zero : D → Bool
  pub less_than : D → D → Bool
  pub ratio : D → D → W

pub record MetricRule (W : Type 0) : Type 0 where
  pub best : W
  pub worst : W
  pub weight : W

pub record ComponentScore (W : Type 0) : Type 0 where
  pub metric : Text
  pub raw_value : W
  pub normalized : W
  pub weight : W

pub record DimensionScore (W : Type 0) : Type 0 where
  pub dimension : Dimension
  pub score : W
  pub components : List (ComponentScore W)

pub record PriceMetrics (D W : Type 0) : Type 0 where
  pub current_cost : D
  pub lowest_candidate_cost : D
  pub changes_per_day : ℕ  -- uint64
  pub change_magnitude_ratio : W

pub record PriceRules (W : Type 0) : Type 0 where
  pub relative_cost : MetricRule W
  pub changes_per_day : MetricRule W
  pub change_magnitude : MetricRule W

pub record LatencyMetrics (W : Type 0) : Type 0 where
  pub ttft_p50_millis : W
  pub ttft_p95_millis : W
  pub duration_p50_millis : W
  pub duration_p95_millis : W
  pub variability_ratio : W

pub record LatencyRules (W : Type 0) : Type 0 where
  pub ttft_p50 : MetricRule W
  pub ttft_p95 : MetricRule W
  pub duration_p50 : MetricRule W
  pub duration_p95 : MetricRule W
  pub variability : MetricRule W

pub record SlaMetrics (W : Type 0) : Type 0 where
  pub attempt_success_rate : W
  pub rate_limit_rate : W
  pub consecutive_failures : ℕ  -- uint64
  pub stream_completion_rate : W
  pub recovery_millis : W
  pub capacity_stability : W

pub record SlaRules (W : Type 0) : Type 0 where
  pub attempt_success : MetricRule W
  pub rate_limit : MetricRule W
  pub consecutive_fails : MetricRule W
  pub stream_completion : MetricRule W
  pub recovery : MetricRule W
  pub capacity : MetricRule W

pub record AuthenticityValues (W : Type 0) : Type 0 where
  pub consistent : W
  pub suspicious : W
  pub inconsistent : W

pub record QualityMetrics (W : Type 0) : Type 0 where
  pub authenticity : Authenticity
  pub capability_rate : W
  pub stability_rate : W
  pub evidence_confidence : W

pub record QualityRules (W : Type 0) : Type 0 where
  pub authenticity : MetricRule W
  pub authenticity_values : AuthenticityValues W
  pub capability : MetricRule W
  pub stability : MetricRule W
  pub evidence : MetricRule W

pub record MetricInput (W : Type 0) : Type 0 where
  pub name : Text
  pub value : W
  pub rule : MetricRule W

abbrev pub metric : {W : Type 0} → Text → W → MetricRule W → MetricInput W
metric name value rule = record { name = name; value = value; rule = rule }

module _ {W : Type 0} ⦃f : Float64 W⦄ where
  open f use {lit, of_nat, add, sub, mul, div, lt, le, eq, finite}

  unfoldable pub valid_ratio : W → Bool
  valid_ratio value = finite value && le (lit 0 0) value && le value (lit 1 0)

  unfoldable pub normalize_metric : W → MetricRule W → Result ScoringError W
  normalize_metric value rule = do
    guard (finite value) invalid_metric
    reject (not (finite rule.best) || not (finite rule.worst) || eq rule.best rule.worst)
        invalid_rules
    let progress = div (sub value rule.best) (sub rule.worst rule.best)
    ok (clamp_score (mul (lit 100 0) (sub (lit 1 0) progress)))

  abbrev pub component : MetricInput W → W → ComponentScore W
  component m normalized = record {
    metric = m.name;
    raw_value = m.value;
    normalized = normalized;
    weight = m.rule.weight;
  }

  -- The loop of scoreDimension, with the score and the components so far.
  unfoldable pub score_components :
      W
      → List (ComponentScore W)
      → List (MetricInput W)
      → Result ScoringError (W × List (ComponentScore W))
  score_components score components [] = ok (score, components)
  score_components score components (m ∷ metrics) = do
    normalized ← normalize_metric m.value m.rule
    score_components (add score (mul normalized m.rule.weight))
        (components ++ (component m normalized ∷ [])) metrics

  unfoldable pub score_dimension :
      Dimension → List (MetricInput W) → Result ScoringError (DimensionScore W)
  score_dimension dimension metrics = do
    validate_weights (map (λ m. m.rule.weight) metrics)
    scored ← score_components (lit 0 0) [] metrics
    ok (record { dimension = dimension; score = clamp_score scored.0; components = scored.1 })

  unfoldable pub invalid_amount : W → Bool
  invalid_amount value = not (finite value) || lt value (lit 0 0)

  module _ {D : Type 0} (decimal : Decimal D W) where
    open decimal use {is_negative, is_zero, less_than, ratio}

    unfoldable pub relative_cost : PriceMetrics D W → PriceRules W → W
    relative_cost metrics rules =
        if not (is_zero metrics.lowest_candidate_cost)
        then ratio metrics.current_cost metrics.lowest_candidate_cost
        else if is_zero metrics.current_cost
        then rules.relative_cost.best
        else rules.relative_cost.worst

    unfoldable pub score_price :
        PriceMetrics D W → PriceRules W → Result ScoringError (DimensionScore W)
    score_price metrics rules = do
      reject
          (is_negative metrics.current_cost
            || is_negative metrics.lowest_candidate_cost
            || not (is_zero metrics.current_cost)
              && less_than metrics.current_cost metrics.lowest_candidate_cost)
          invalid_metric
      reject (invalid_amount metrics.change_magnitude_ratio) invalid_metric
      score_dimension price (
          metric (codes "relative_cost") (relative_cost metrics rules) rules.relative_cost
          ∷ metric (codes "changes_per_day") (of_nat metrics.changes_per_day) rules.changes_per_day
          ∷ metric (codes "change_magnitude_ratio") metrics.change_magnitude_ratio
              rules.change_magnitude
          ∷ [])

  unfoldable pub score_latency :
      LatencyMetrics W → LatencyRules W → Result ScoringError (DimensionScore W)
  score_latency metrics rules = do
    reject
        (any_of invalid_amount (
          metrics.ttft_p50_millis ∷ metrics.ttft_p95_millis ∷ metrics.duration_p50_millis
          ∷ metrics.duration_p95_millis ∷ metrics.variability_ratio ∷ []))
        invalid_metric
    score_dimension latency (
        metric (codes "ttft_p50_ms") metrics.ttft_p50_millis rules.ttft_p50
        ∷ metric (codes "ttft_p95_ms") metrics.ttft_p95_millis rules.ttft_p95
        ∷ metric (codes "duration_p50_ms") metrics.duration_p50_millis rules.duration_p50
        ∷ metric (codes "duration_p95_ms") metrics.duration_p95_millis rules.duration_p95
        ∷ metric (codes "variability_ratio") metrics.variability_ratio rules.variability
        ∷ [])

  unfoldable pub score_sla : SlaMetrics W → SlaRules W → Result ScoringError (DimensionScore W)
  score_sla metrics rules = do
    reject
        (any_of (λ ratio. not (valid_ratio ratio))
          (metrics.attempt_success_rate ∷ metrics.rate_limit_rate ∷ metrics.stream_completion_rate
            ∷ metrics.capacity_stability ∷ []))
        invalid_metric
    reject (invalid_amount metrics.recovery_millis) invalid_metric
    score_dimension sla (
        metric (codes "attempt_success_rate") metrics.attempt_success_rate rules.attempt_success
        ∷ metric (codes "rate_limit_rate") metrics.rate_limit_rate rules.rate_limit
        ∷ metric (codes "consecutive_failures") (of_nat metrics.consecutive_failures)
            rules.consecutive_fails
        ∷ metric (codes "stream_completion_rate") metrics.stream_completion_rate
            rules.stream_completion
        ∷ metric (codes "recovery_ms") metrics.recovery_millis rules.recovery
        ∷ metric (codes "capacity_stability") metrics.capacity_stability rules.capacity
        ∷ [])

  -- The switch of normalizedAuthenticity.
  unfoldable pub authenticity_value : Authenticity → AuthenticityValues W → Result ScoringError W
  authenticity_value consistent values = ok values.consistent
  authenticity_value suspicious values = ok values.suspicious
  authenticity_value inconsistent values = ok values.inconsistent
  authenticity_value _ values = err invalid_metric

  unfoldable pub normalized_authenticity :
      Authenticity → AuthenticityValues W → Result ScoringError W
  normalized_authenticity authenticity values = do
    reject
        (any_of (λ value. not (valid_ratio value))
          (values.consistent ∷ values.suspicious ∷ values.inconsistent ∷ []))
        invalid_rules
    authenticity_value authenticity values

  unfoldable pub score_quality :
      QualityMetrics W → QualityRules W → Result ScoringError (DimensionScore W)
  score_quality metrics rules = do
    authenticity ← normalized_authenticity metrics.authenticity rules.authenticity_values
    reject
        (any_of (λ ratio. not (valid_ratio ratio))
          (metrics.capability_rate ∷ metrics.stability_rate ∷ metrics.evidence_confidence ∷ []))
        invalid_metric
    score_dimension quality (
        metric (codes "authenticity") authenticity rules.authenticity
        ∷ metric (codes "capability_rate") metrics.capability_rate rules.capability
        ∷ metric (codes "stability_rate") metrics.stability_rate rules.stability
        ∷ metric (codes "evidence_confidence") metrics.evidence_confidence rules.evidence
        ∷ [])
