-- ===== src/Evaluation/Fingerprint.antt =====
-- internal/domain/evaluation/fingerprint.go, and validatePolicy of assessment.go: the comparison of
-- two fingerprints, cell by cell.
pub mod Laws
use many_router.Base.{
  ℕ, suc, Bool, true, false, not, ◌&&◌, ◌||◌, List, [], ◌∷◌, ◌++◌, Text, Option, none, some,
  text_eq, ltb, is_empty, Result, ok, err, ◌>>=◌, ◌>>◌, reject, if◌then◌else◌, length,
}
use many_router.Base.Int.{pos, ltb_ℤ}
use many_router.Float.{Float64}
use many_router.Evaluation.Types.{
  CellId, required_cells, Distribution, valid_samples, Fingerprint, find_cell,
  FingerprintComparison, AuthenticityPolicy, Reason, no_reason, insufficient_samples,
  protocol_mismatch, EvaluationError, invalid_policy, invalid_fingerprint,
  protocol_single_token_jsdv1,
}
use many_router.Evaluation.Distance.{jensen_shannon}

module _ {W : Type 0} ⦃f : Float64 W⦄ where
  open f use {lit, of_nat, add, div, lt, le, finite}

  unfoldable pub valid_distance : W → Bool
  valid_distance distance = finite distance && le (lit 0 0) distance && le distance (lit 1 0)

  unfoldable pub validate_policy : AuthenticityPolicy W → Result EvaluationError (Unit {0})
  validate_policy policy = do
    reject
        (is_empty policy.version
          || ltb policy.minimum_samples_per_cell 1
          || ltb_ℤ policy.mismatch_confirmation_delay (pos 0))
        invalid_policy
    reject
        (not (valid_distance policy.match_maximum)
          || not (valid_distance policy.uncertain_maximum)
          || not (valid_distance policy.maximum_self_distance))
        invalid_policy
    reject (le policy.uncertain_maximum policy.match_maximum) invalid_policy

  unfoldable pub no_comparison : FingerprintComparison W
  no_comparison = record {
    comparable = false;
    reason = no_reason;
    mean_distance = lit 0 0;
    comparable_cells = 0;
    cell_distances = [];
  }

  -- Both distributions of a cell, where each has enough samples.
  unfoldable pub usable_cell :
      AuthenticityPolicy W
      → Option Distribution
      → Option Distribution
      → Option (Distribution × Distribution)
  usable_cell policy (some r) (some t) =
      if ltb (valid_samples r) policy.minimum_samples_per_cell
        || ltb (valid_samples t) policy.minimum_samples_per_cell
      then none
      else some (r, t)
  usable_cell policy _ _ = none

  module _ (log2 : W → W) (range : List Text → List Text) where
    -- `if err != nil { return FingerprintComparison{}, ErrInvalidFingerprint }`
    unfoldable pub cell_distance : Distribution × Distribution → Result EvaluationError W
    cell_distance pair = relabel (jensen_shannon log2 range pair.0 pair.1)
      where
        relabel : Result EvaluationError W → Result EvaluationError W
        relabel (ok distance) = ok distance
        relabel (err e) = err invalid_fingerprint

    abbrev pub add_cell : FingerprintComparison W → CellId → W → FingerprintComparison W
    add_cell comparison cell distance = record comparison {
      cell_distances = comparison.cell_distances ++ ((cell, distance) ∷ []);
      comparable_cells = suc comparison.comparable_cells;
    }

    -- The return where a cell has not enough samples, or the rest of the loop with the distance.
    unfoldable pub on_cell :
        Option (Distribution × Distribution)
        → FingerprintComparison W
        → (W → Result EvaluationError (FingerprintComparison W))
        → Result EvaluationError (FingerprintComparison W)
    on_cell none comparison rest = ok (record comparison { reason = insufficient_samples })
    on_cell (some pair) comparison rest = cell_distance pair >>= rest

    -- The loop over the cells, with the comparison and the total distance so far.
    unfoldable pub compare_cells :
        (reference target : Fingerprint W)
        → AuthenticityPolicy W
        → FingerprintComparison W
        → W
        → List CellId
        → Result EvaluationError (FingerprintComparison W)
    compare_cells reference target policy comparison total [] = ok (record comparison {
      comparable = true;
      mean_distance = div total (of_nat (length required_cells));
    })
    compare_cells reference target policy comparison total (cell ∷ cells) =
        on_cell (usable_cell policy (find_cell cell reference.cells) (find_cell cell target.cells))
          comparison
          (λ distance.
            compare_cells reference target policy (add_cell comparison cell distance)
              (add total distance) cells)

    unfoldable pub compare_fingerprints :
        (reference target : Fingerprint W)
        → AuthenticityPolicy W
        → Result EvaluationError (FingerprintComparison W)
    compare_fingerprints reference target policy = do
      validate_policy policy
      reject (is_empty reference.protocol_version || is_empty target.protocol_version)
          invalid_fingerprint
      if not (text_eq reference.protocol_version target.protocol_version)
          then ok (record no_comparison { reason = protocol_mismatch })
          else reject (not (text_eq reference.protocol_version protocol_single_token_jsdv1))
              invalid_fingerprint
            >> compare_cells reference target policy no_comparison (lit 0 0) required_cells
