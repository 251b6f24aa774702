-- ===== src/Scoring/Gates.antt =====
-- internal/domain/scoring/gates.go: the hard gates that exclude a supplier whatever its scores.
pub mod Laws
use many_router.Base.{
  ℕ, Bool, false, not, List, [], ◌∷◌, ◌++◌, Text, Result, ok, err, ◌>>=◌, ◌>>◌, reject, ◌==◌, leb,
  is_empty, if◌then◌else◌,
}
use many_router.Scoring.Types.{
  ScoringError, invalid_rules, invalid_metric, default_consecutive_failure_limit,
}

-- `unset` is the empty string.
pub data CheckState : Type 0 where
  unset pending pass fail : CheckState
  other_state : Text → CheckState

-- dimensions.go: the verdict on a supplier's model, with `no_verdict` for the empty string.
pub data Authenticity : Type 0 where
  no_verdict pending consistent suspicious inconsistent : Authenticity
  other_verdict : Text → Authenticity

pub data GateReason : Type 0 where
  authenticity_mismatch credential_invalid balance_unavailable : GateReason
  consecutive_failures major_risk : GateReason

pub record HardGateInput : Type 0 where
  pub authenticity : Authenticity
  pub credential_valid : CheckState
  pub balance_available : CheckState
  pub major_risk_absent : CheckState
  pub attributed_consecutive_failures : ℕ  -- uint64

pub record HardGatePolicy : Type 0 where
  pub consecutive_failure_limit : ℕ  -- uint64

unfoldable pub default_hard_gate_policy : HardGatePolicy
default_hard_gate_policy = record { consecutive_failure_limit = default_consecutive_failure_limit }

pub record HardGateResult : Type 0 where
  pub excluded : Bool
  pub reasons : List GateReason
  pub pending : List GateReason

abbrev add_reason : HardGateResult → GateReason → HardGateResult
add_reason result reason = record result { reasons = result.reasons ++ (reason ∷ []) }

abbrev add_pending : HardGateResult → GateReason → HardGateResult
add_pending result reason = record result { pending = result.pending ++ (reason ∷ []) }

unfoldable pub collect_check :
    CheckState → GateReason → HardGateResult → Result ScoringError HardGateResult
collect_check unset reason result = ok (add_pending result reason)
collect_check pending reason result = ok (add_pending result reason)
collect_check pass reason result = ok result
collect_check fail reason result = ok (add_reason result reason)
collect_check (other_state s) reason result = err invalid_metric

-- The first switch of EvaluateHardGates.
unfoldable pub collect_authenticity :
    Authenticity → HardGateResult → Result ScoringError HardGateResult
collect_authenticity no_verdict result = ok (add_pending result authenticity_mismatch)
collect_authenticity pending result = ok (add_pending result authenticity_mismatch)
collect_authenticity consistent result = ok result
collect_authenticity suspicious result = ok result
collect_authenticity inconsistent result = ok (add_reason result authenticity_mismatch)
collect_authenticity (other_verdict s) result = err invalid_metric

unfoldable pub collect_failures : ℕ → HardGatePolicy → HardGateResult → HardGateResult
collect_failures failures policy result =
    if leb policy.consecutive_failure_limit failures
    then add_reason result consecutive_failures
    else result

unfoldable pub evaluate_hard_gates :
    HardGateInput → HardGatePolicy → Result ScoringError HardGateResult
unfolding collect_check collect_authenticity collect_failures
evaluate_hard_gates input policy = do
  reject (policy.consecutive_failure_limit == 0) invalid_rules
  first ←
      collect_authenticity input.authenticity
        (record { excluded = false; reasons = []; pending = [] })
  second ← collect_check input.credential_valid credential_invalid first
  third ← collect_check input.balance_available balance_unavailable second
  let fourth = collect_failures input.attributed_consecutive_failures policy third
  result ← collect_check input.major_risk_absent major_risk fourth
  ok (record result { excluded = not (is_empty result.reasons) })
