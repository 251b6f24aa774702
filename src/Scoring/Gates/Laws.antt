-- ===== src/Scoring/Gates/Laws.antt =====
-- What evaluateHardGates of internal/domain/scoring/gates.go decides, against a table of gates.
use many_router.Base.{
  ◌≡◌, Bool, true, false, List, [], ◌∷◌, Result, ok, err, arith, ◌==◌, leb, any_of, select,
  if◌then◌else◌,
}
use many_router.Scoring.Types.{ScoringError, invalid_rules, invalid_metric}
use many_router.Scoring.Gates.{
  CheckState, other_state, Authenticity, no_verdict, consistent, suspicious, inconsistent,
  other_verdict, GateReason, authenticity_mismatch, credential_invalid, balance_unavailable,
  consecutive_failures, major_risk, HardGateInput, HardGatePolicy, HardGateResult,
  evaluate_hard_gates,
}

-- What one gate says of a supplier.
pub data Standing : Type 0 where
  failed waiting cleared malformed : Standing

abbrev pub is_failed : Standing → Bool
is_failed failed = true
is_failed _ = false

abbrev pub is_waiting : Standing → Bool
is_waiting waiting = true
is_waiting _ = false

abbrev pub is_malformed : Standing → Bool
is_malformed malformed = true
is_malformed _ = false

abbrev pub check_standing : CheckState → Standing
check_standing CheckState.unset = waiting
check_standing CheckState.pending = waiting
check_standing CheckState.pass = cleared
check_standing CheckState.fail = failed
check_standing (other_state s) = malformed

abbrev pub verdict_standing : Authenticity → Standing
verdict_standing no_verdict = waiting
verdict_standing Authenticity.pending = waiting
verdict_standing consistent = cleared
verdict_standing suspicious = cleared
verdict_standing inconsistent = failed
verdict_standing (other_verdict s) = malformed

abbrev pub standing : HardGateInput → HardGatePolicy → GateReason → Standing
standing input policy authenticity_mismatch = verdict_standing input.authenticity
standing input policy credential_invalid = check_standing input.credential_valid
standing input policy balance_unavailable = check_standing input.balance_available
standing input policy consecutive_failures =
    if leb policy.consecutive_failure_limit input.attributed_consecutive_failures
    then failed
    else cleared
standing input policy major_risk = check_standing input.major_risk_absent

-- The stable business order of the reasons.
abbrev pub gate_order : List GateReason
gate_order =
    authenticity_mismatch ∷ credential_invalid ∷ balance_unavailable ∷ consecutive_failures
    ∷ major_risk ∷ []

abbrev pub gates_table : HardGateInput → HardGatePolicy → Result ScoringError HardGateResult
gates_table input policy =
    if policy.consecutive_failure_limit == 0
    then err invalid_rules
    else if any_of (λ g. is_malformed (standing input policy g)) gate_order
    then err invalid_metric
    else ok (record {
      excluded = any_of (λ g. is_failed (standing input policy g)) gate_order;
      reasons = select (λ g. is_failed (standing input policy g)) gate_order;
      pending = select (λ g. is_waiting (standing input policy g)) gate_order;
    })

-- For every input and policy the evaluation of the hard gates is the table: a zero failure limit is
-- invalid rules, an unknown state is an invalid metric, and otherwise the reasons are the failed
-- gates and the pending ones the waiting gates, each in the business order, with the supplier
-- excluded exactly when some gate failed.
pub evaluate_hard_gates-eq-table :
    (input : HardGateInput) (policy : HardGatePolicy)
    → evaluate_hard_gates input policy ≡ gates_table input policy
unfolding evaluate_hard_gates
evaluate_hard_gates-eq-table input policy = ground arith
