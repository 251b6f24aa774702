-- ===== src/Scoring/Types.antt =====
-- internal/domain/scoring/types.go: the values that the scoring rules share. A Go string type with
-- named constants is a data type with `other` for every further string.
pub mod Bounds
pub mod Monotone
use many_router.Base.{
  ℕ, Bool, true, false, not, ◌&&◌, ◌||◌, List, [], ◌∷◌, Text, codes, text_eq, Result, ok, err, ◌>>◌,
  guard, reject, if◌then◌else◌,
}
use many_router.Base.Int.{ℤ, pos, ◌-ℤ◌, leb_ℤ}
use many_router.Float.{Float64}

pub data ScoringError : Type 0 where
  invalid_histogram no_samples invalid_metric invalid_rules : ScoringError
  invalid_evidence invalid_window unknown_auto_kind invalid_recommendation : ScoringError

abbrev pub policy_version_m2_shadow_v1 : Text
policy_version_m2_shadow_v1 = codes "m2-shadow-v1"

abbrev pub default_minimum_samples : ℕ
default_minimum_samples = 50

abbrev pub default_consecutive_failure_limit : ℕ
default_consecutive_failure_limit = 3

pub data Dimension : Type 0 where
  price latency sla quality : Dimension

pub data Confidence : Type 0 where
  insufficient low medium high : Confidence
  other_confidence : Text → Confidence

-- The rank, and whether the confidence is one of the four constants.
unfoldable pub confidence_rank : Confidence → ℕ × Bool
confidence_rank insufficient = (0, true)
confidence_rank low = (1, true)
confidence_rank medium = (2, true)
confidence_rank high = (3, true)
confidence_rank (other_confidence s) = (0, false)

abbrev is_int : ℤ → ℕ → Bool
is_int r n = leb_ℤ r (pos n) && leb_ℤ (pos n) r

unfoldable pub confidence_from_rank : ℤ → Confidence
confidence_from_rank rank =
    if leb_ℤ (pos 3) rank
    then high
    else if is_int rank 2
    then medium
    else if is_int rank 1
    then low
    else insufficient

unfoldable pub lower_confidence : Confidence → ℕ → Confidence
unfolding confidence_rank confidence_from_rank ◌-ℤ◌
lower_confidence confidence steps =
    let (rank, known) = confidence_rank confidence in
    if not known then insufficient else confidence_from_rank (pos rank -ℤ pos steps)

pub data Window : Type 0 where
  window_15_minutes window_1_hour window_24_hours : Window
  other_window : Text → Window

unfoldable pub window_eq : Window → Window → Bool
window_eq window_15_minutes window_15_minutes = true
window_eq window_1_hour window_1_hour = true
window_eq window_24_hours window_24_hours = true
window_eq (other_window s) (other_window t) = text_eq s t
window_eq _ _ = false

pub data AutoKind : Type 0 where
  lowest_price low_latency high_sla high_quality balanced : AutoKind
  other_kind : Text → AutoKind

pub data AdviceAction : Type 0 where
  join keep exit watch exclude : AdviceAction

pub record DimensionScores (W : Type 0) : Type 0 where
  pub price : W
  pub latency : W
  pub sla : W
  pub quality : W

pub record WindowWeight (W : Type 0) : Type 0 where
  pub window : Window
  pub weight : W

pub record AutoWeights (W : Type 0) : Type 0 where
  pub price : W
  pub latency : W
  pub sla : W
  pub quality : W

module _ {W : Type 0} ⦃f : Float64 W⦄ where
  open f use {lit, add, sub, mul, abs, lt, le, finite}

  unfoldable pub valid_score : W → Bool
  valid_score score = finite score && le (lit 0 0) score && le score (lit 100 0)

  unfoldable pub clamp_score : W → W
  clamp_score value =
      if lt value (lit 0 0) then lit 0 0 else if lt (lit 100 0) value then lit 100 0 else value

  unfoldable pub validate_dimension_scores : DimensionScores W → Result ScoringError (Unit {0})
  unfolding valid_score
  validate_dimension_scores scores =
      reject
        (not (valid_score scores.price)
          || not (valid_score scores.latency)
          || not (valid_score scores.sla)
          || not (valid_score scores.quality))
        invalid_metric

  -- The loop of validateWeights, with the total so far.
  unfoldable pub validate_weights_from : W → List W → Result ScoringError (Unit {0})
  validate_weights_from total [] = reject (lt (lit 1 9) (abs (sub total (lit 1 0)))) invalid_rules
  validate_weights_from total (weight ∷ weights) = do
    reject (not (finite weight) || le weight (lit 0 0) || lt (lit 1 0) weight) invalid_rules
    validate_weights_from (add total weight) weights

  unfoldable pub validate_weights : List W → Result ScoringError (Unit {0})
  unfolding validate_weights_from
  validate_weights weights = validate_weights_from (lit 0 0) weights

  unfoldable pub default_window_weights : List (WindowWeight W)
  default_window_weights =
      record { window = window_15_minutes; weight = lit 50 2 }
      ∷ record { window = window_1_hour; weight = lit 30 2 }
      ∷ record { window = window_24_hours; weight = lit 20 2 }
      ∷ []

  abbrev auto_weights : W → W → W → W → AutoWeights W
  auto_weights p l s q = record { price = p; latency = l; sla = s; quality = q }

  unfoldable pub weights_of_kind : AutoKind → Result ScoringError (AutoWeights W)
  weights_of_kind lowest_price = ok (auto_weights (lit 55 2) (lit 15 2) (lit 15 2) (lit 15 2))
  weights_of_kind low_latency = ok (auto_weights (lit 15 2) (lit 55 2) (lit 20 2) (lit 10 2))
  weights_of_kind high_sla = ok (auto_weights (lit 10 2) (lit 20 2) (lit 60 2) (lit 10 2))
  weights_of_kind high_quality = ok (auto_weights (lit 10 2) (lit 15 2) (lit 15 2) (lit 60 2))
  weights_of_kind balanced = ok (auto_weights (lit 25 2) (lit 25 2) (lit 30 2) (lit 20 2))
  weights_of_kind (other_kind s) = err unknown_auto_kind

  unfoldable pub fixed_auto_weights : Text → AutoKind → Result ScoringError (AutoWeights W)
  unfolding weights_of_kind
  fixed_auto_weights policy_version kind = do
    guard (text_eq policy_version policy_version_m2_shadow_v1) invalid_rules
    weights_of_kind kind

  unfoldable pub composite_score : DimensionScores W → AutoWeights W → Result ScoringError W
  composite_score scores weights = do
    validate_dimension_scores scores
    validate_weights (weights.price ∷ weights.latency ∷ weights.sla ∷ weights.quality ∷ [])
    ok (
        clamp_score (
          add
            (add (add (mul scores.price weights.price) (mul scores.latency weights.latency))
              (mul scores.sla weights.sla))
            (mul scores.quality weights.quality)))
