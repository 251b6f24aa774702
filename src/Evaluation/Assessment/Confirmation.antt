-- ===== src/Evaluation/Assessment/Confirmation.antt =====
-- When a mismatch of AssessAuthenticity is confirmed (classifyDistance and
-- confirmedIndependentMismatch of internal/domain/evaluation/assessment.go).
use many_router.Base.{
  Bool, true, false, not, ◌&&◌, Option, none, some, text_eq, text_eq_iff, ok, ◌≡◌, ◌≢◌, refl, arith,
  time_sub, ◌⊎◌,
}
use many_router.Base.Int.{leb_ℤ}
use many_router.Float.{Float64}
use many_router.Evaluation.Types.{
  ModelReference, MismatchEvidence, AuthenticityPolicy, AssessmentInput, AuthenticityAssessment,
  FingerprintComparison, Verdict, insufficient, consistent, suspicious, inconsistent, Confidence,
  no_confidence, low, medium, high,
}
use many_router.Evaluation.Fingerprint.{valid_distance}
use many_router.Evaluation.Assessment.{
  same_subject, classify_distance, confirms, confirmed_independent_mismatch, unassessed, judge,
}

-- The confidence that goes with a verdict.
abbrev pub confidence_of : Verdict → Confidence
confidence_of insufficient = no_confidence
confidence_of consistent = medium
confidence_of suspicious = low
confidence_of inconsistent = high

module _ {W : Type 0} ⦃f : Float64 W⦄ where
  open f use {lt, le}

  -- A distance that was measured, is valid and is not above the limit.
  abbrev pub is_stable : AuthenticityPolicy W → Bool → W → Bool
  is_stable policy measured distance =
      measured && valid_distance distance && not (lt policy.maximum_self_distance distance)

  pub judge_inv :
      (input : AssessmentInput W) (reference : ModelReference W) (policy : AuthenticityPolicy W)
      (c : FingerprintComparison W) {a : AuthenticityAssessment W}
      → judge input reference policy c ≡ ok a
      → (a.comparison ≡ c)
        × (((a.verdict ≡ insufficient) × (a.confidence ≡ no_confidence))
            ⊎ ((c.comparable ≡ true)
                × (is_stable policy input.target.stability.measured input.target.stability.distance
                    ≡ true)
                × (is_stable policy reference.fingerprint.stability.measured
                      reference.fingerprint.stability.distance
                    ≡ true)
                × ((a.verdict, a.confidence, a.reason)
                    ≡ classify_distance c.mean_distance
                        (confirmed_independent_mismatch input reference policy)
                        policy)))
  unfolding judge unassessed
  judge_inv input reference policy c h = ground arith

  pub classify_distance-confidence :
      (d : W) (confirmed : Bool) (policy : AuthenticityPolicy W)
      → (classify_distance d confirmed policy).1
        ≡ confidence_of (classify_distance d confirmed policy).0
  unfolding classify_distance
  classify_distance-confidence d confirmed policy = ground arith

  pub classify_distance-inconsistent :
      (d : W) (confirmed : Bool) (policy : AuthenticityPolicy W)
      → (classify_distance d confirmed policy).0 ≡ inconsistent
      → (confirmed ≡ true)
        × (le d policy.uncertain_maximum ≡ false)
        × (le d policy.match_maximum ≡ false)
  unfolding classify_distance
  classify_distance-inconsistent d confirmed policy h = ground arith

  -- The evidence of an earlier mismatch that agrees with the input in what it is about, and is
  -- independent of it: another run, another seed, and the delay of the policy before it.
  pub record IsIndependent (input : AssessmentInput W) (reference : ModelReference W)
      (policy : AuthenticityPolicy W) (prior : MismatchEvidence W) : Type 0 where
    pub given : input.prior_mismatch ≡ some prior
    pub mismatch : le prior.distance policy.uncertain_maximum ≡ false
    pub stable : is_stable policy true prior.self_distance ≡ true
    pub of_subject : same_subject prior.subject input.subject ≡ true
    pub of_reference : prior.reference_id ≡ reference.id
    pub of_protocol : prior.protocol_version ≡ input.target.protocol_version
    pub other_run : text_eq prior.target_run_id input.target.run_id ≡ false
    pub other_seed : prior.target_seed ≢ input.target.seed
    pub later :
        leb_ℤ policy.mismatch_confirmation_delay
          (time_sub input.target.collected_at prior.observed_at)
        ≡ true

  confirms-IsIndependent :
      (prior : MismatchEvidence W) (input : AssessmentInput W) (reference : ModelReference W)
      (policy : AuthenticityPolicy W)
      → input.prior_mismatch ≡ some prior
      → confirms prior input reference policy ≡ true
      → IsIndependent input reference policy prior
  unfolding confirms
  confirms-IsIndependent prior input reference policy e h = record {
    given = e;
    mismatch = ground arith;
    stable = ground arith;
    of_subject = ground arith;
    of_reference = ground (arith, text_eq_iff prior.reference_id reference.id);
    of_protocol = ground (arith, text_eq_iff prior.protocol_version input.target.protocol_version);
    other_run = ground arith;
    other_seed = ground arith;
    later = ground arith;
  }

  pub confirmed-IsIndependent :
      (input : AssessmentInput W) (reference : ModelReference W) (policy : AuthenticityPolicy W)
      → confirmed_independent_mismatch input reference policy ≡ true
      → (prior : MismatchEvidence W) × IsIndependent input reference policy prior
  unfolding confirmed_independent_mismatch
  confirmed-IsIndependent input reference policy h = by_prior input.prior_mismatch refl h
    where
      by_prior :
          (o : Option (MismatchEvidence W))
          → input.prior_mismatch ≡ o
          → elim o [ none ↦ false | some prior ↦ confirms prior input reference policy ] ≡ true
          → (prior : MismatchEvidence W) × IsIndependent input reference policy prior
      by_prior none e k = cc
      by_prior (some prior) e k = (prior, confirms-IsIndependent prior input reference policy e k)
