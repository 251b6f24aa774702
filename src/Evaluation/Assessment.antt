-- ===== src/Evaluation/Assessment.antt =====
-- internal/domain/evaluation/assessment.go: the verdict on a model.
pub mod Confirmation
pub mod Laws
use many_router.Base.{
  Bool, true, false, not, ◌&&◌, ◌||◌, List, Text, Option, none, some, text_eq, trim_space, ◌==◌,
  ltb, leb, is_empty, Result, ok, err, ◌>>=◌, ◌>>◌, reject, if◌then◌else◌, time_sub,
}
use many_router.Base.Int.{pos, ltb_ℤ, leb_ℤ}
use many_router.Float.{Float64}
use many_router.Evaluation.Types.{
  ModelSubject, ModelReference, MismatchEvidence, AuthenticityPolicy, AssessmentInput,
  AuthenticityAssessment, FingerprintComparison, can_establish_authenticity, Verdict, insufficient,
  consistent, suspicious, inconsistent, Confidence, no_confidence, low, medium, high, Reason,
  no_reason, no_trusted_reference, reference_expired, self_check_missing, self_unstable,
  distance_match, distance_uncertain, distance_mismatch_unconfirmed, distance_mismatch_confirmed,
  EvaluationError, invalid_assessment_input, invalid_fingerprint,
}
use many_router.Evaluation.Fingerprint.{
  valid_distance, validate_policy, compare_fingerprints, no_comparison,
}

unfoldable pub valid_subject : ModelSubject → Bool
valid_subject subject = not (subject.supplier_id == 0) && not (is_empty (trim_space subject.model))

unfoldable pub same_subject : ModelSubject → ModelSubject → Bool
same_subject s t = s.supplier_id == t.supplier_id && text_eq s.model t.model

module _ {W : Type 0} ⦃f : Float64 W⦄ where
  open f use {lt, le}

  unfoldable pub classify_distance : W → Bool → AuthenticityPolicy W → Verdict × Confidence × Reason
  classify_distance distance confirmed policy =
      if le distance policy.match_maximum
      then (consistent, medium, distance_match)
      else if le distance policy.uncertain_maximum
      then (suspicious, low, distance_uncertain)
      else if confirmed
      then (inconsistent, high, distance_mismatch_confirmed)
      else (suspicious, low, distance_mismatch_unconfirmed)

  -- confirmedIndependentMismatch for evidence that is there.
  unfoldable pub confirms :
      MismatchEvidence W → AssessmentInput W → ModelReference W → AuthenticityPolicy W → Bool
  confirms prior input reference policy =
      if not (valid_distance prior.distance) || not (valid_distance prior.self_distance)
      then false
      else if le prior.distance policy.uncertain_maximum
          || lt policy.maximum_self_distance prior.self_distance
      then false
      else if not (text_eq prior.reference_id reference.id)
          || not (
              leb_ℤ prior.reference_revision reference.revision
              && leb_ℤ reference.revision prior.reference_revision)
          || not (text_eq prior.protocol_version input.target.protocol_version)
      then false
      else if not (same_subject prior.subject input.subject)
      then false
      else if is_empty prior.target_run_id
          || is_empty input.target.run_id
          || text_eq prior.target_run_id input.target.run_id
          || prior.target_seed == input.target.seed
      then false
      else not (prior.observed_at == 0)
        && leb_ℤ policy.mismatch_confirmation_delay
            (time_sub input.target.collected_at prior.observed_at)

  unfoldable pub confirmed_independent_mismatch :
      AssessmentInput W → ModelReference W → AuthenticityPolicy W → Bool
  confirmed_independent_mismatch input reference policy = elim input.prior_mismatch [
    | none ↦ false
    | some prior ↦ confirms prior input reference policy
  ]

  -- The assessment before a reason is found.
  unfoldable pub unassessed : AssessmentInput W → AuthenticityPolicy W → AuthenticityAssessment W
  unassessed input policy = record {
    policy_version = policy.version;
    verdict = insufficient;
    confidence = no_confidence;
    reason = no_reason;
    assessed_at = input.assessed_at;
    comparison = no_comparison;
  }

  unfoldable pub invalid_input : AssessmentInput W → Bool
  invalid_input input =
      not (valid_subject input.subject)
      || input.assessed_at == 0
      || input.target.collected_at == 0
      || ltb input.assessed_at input.target.collected_at

  unfoldable pub invalid_reference : AssessmentInput W → ModelReference W → Bool
  invalid_reference input reference =
      is_empty reference.id
      || ltb_ℤ reference.revision (pos 1)
      || not (valid_subject reference.source)
      || same_subject reference.source input.subject
      || reference.expires_at == 0
      || reference.fingerprint.collected_at == 0
      || ltb input.assessed_at reference.fingerprint.collected_at

  -- The assessment from a comparison of the fingerprints.
  unfoldable pub judge :
      AssessmentInput W
      → ModelReference W
      → AuthenticityPolicy W
      → FingerprintComparison W
      → Result EvaluationError (AuthenticityAssessment W)
  judge input reference policy comparison =
      let assessment = record (unassessed input policy) { comparison = comparison } in
      let own = input.target.stability in
      let other = reference.fingerprint.stability in
      if not comparison.comparable
      then ok (record assessment { reason = comparison.reason })
      else if not own.measured || not other.measured
      then ok (record assessment { reason = self_check_missing })
      else if not (valid_distance own.distance) || not (valid_distance other.distance)
      then err invalid_fingerprint
      else if lt policy.maximum_self_distance own.distance
          || lt policy.maximum_self_distance other.distance
      then ok (record assessment { reason = self_unstable })
      else let (verdict, confidence, reason) =
          classify_distance comparison.mean_distance
            (confirmed_independent_mismatch input reference policy) policy in
        ok (record assessment { verdict = verdict; confidence = confidence; reason = reason })

  module _ (log2 : W → W) (range : List Text → List Text) where
    -- The assessment against a reference that can establish authenticity.
    unfoldable pub assess_against :
        AssessmentInput W
        → AuthenticityPolicy W
        → ModelReference W
        → Result EvaluationError (AuthenticityAssessment W)
    assess_against input policy reference = do
      reject (invalid_reference input reference) invalid_assessment_input
      if leb reference.expires_at input.assessed_at
          then ok (record (unassessed input policy) { reason = reference_expired })
          else compare_fingerprints log2 range reference.fingerprint input.target policy
            >>= judge input reference policy

    unfoldable pub assess_reference :
        AssessmentInput W
        → AuthenticityPolicy W
        → Option (ModelReference W)
        → Result EvaluationError (AuthenticityAssessment W)
    assess_reference input policy none =
        ok (record (unassessed input policy) { reason = no_trusted_reference })
    assess_reference input policy (some reference) =
        if not (can_establish_authenticity reference)
        then ok (record (unassessed input policy) { reason = no_trusted_reference })
        else assess_against input policy reference

    unfoldable pub assess_authenticity :
        AssessmentInput W → AuthenticityPolicy W → Result EvaluationError (AuthenticityAssessment W)
    assess_authenticity input policy = do
      validate_policy policy
      reject (invalid_input input) invalid_assessment_input
      assess_reference input policy input.reference
