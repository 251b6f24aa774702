-- ===== src/Evaluation/Assessment/Laws.antt =====
-- What stands behind a verdict of AssessAuthenticity
-- (internal/domain/evaluation/assessment.go).
use many_router.Base.{
  Bool, true, false, not, Text, Option, none, some, leb, ok, ◌>>=◌, reject, ◌≡◌, ◌≢◌, refl, arith,
  >>=-eq-ok, reject-eq-ok, sym, ap, ◌∙◌, if◌then◌else◌, List, ◌⊎◌, inl, inr,
}
use many_router.Float.{Float64}
use many_router.Evaluation.Types.{
  ModelReference, MismatchEvidence, AuthenticityPolicy, AssessmentInput, AuthenticityAssessment,
  can_establish_authenticity, insufficient, inconsistent, no_confidence, invalid_assessment_input,
  reference_expired, no_trusted_reference,
}
use many_router.Evaluation.Fingerprint.{validate_policy, compare_fingerprints}
use many_router.Evaluation.Assessment.{
  classify_distance, confirmed_independent_mismatch, unassessed, invalid_input, invalid_reference,
  judge, assess_against, assess_reference, assess_authenticity,
}
use many_router.Evaluation.Assessment.Confirmation.{
  confidence_of, is_stable, judge_inv, classify_distance-confidence, classify_distance-inconsistent,
  IsIndependent, confirmed-IsIndependent,
}

module _ {W : Type 0} ⦃f : Float64 W⦄ where
  open f use {lt, le}

  module _ (log2 : W → W) (range : List Text → List Text) where
    -- A verdict that is not `insufficient`, with what was tested before it was given.
    pub record IsGrounded (input : AssessmentInput W) (policy : AuthenticityPolicy W)
        (a : AuthenticityAssessment W) (reference : ModelReference W) : Type 0 where
      pub given : input.reference ≡ some reference
      pub trusted : can_establish_authenticity reference ≡ true
      pub sound : invalid_reference input reference ≡ false
      pub current : leb reference.expires_at input.assessed_at ≡ false
      pub compared :
          compare_fingerprints log2 range reference.fingerprint input.target policy
          ≡ ok a.comparison
      pub comparable : a.comparison.comparable ≡ true
      pub target_stable :
          is_stable policy input.target.stability.measured input.target.stability.distance ≡ true
      pub reference_stable :
          is_stable policy reference.fingerprint.stability.measured
            reference.fingerprint.stability.distance
          ≡ true
      pub classified :
          (a.verdict, a.confidence, a.reason)
          ≡ classify_distance a.comparison.mean_distance
              (confirmed_independent_mismatch input reference policy)
              policy

    abbrev IsUngrounded : AuthenticityAssessment W → Type 0
    IsUngrounded a = (a.verdict ≡ insufficient) × (a.confidence ≡ no_confidence)

    assess_against_inv :
        (input : AssessmentInput W) (policy : AuthenticityPolicy W) (reference : ModelReference W)
        {a : AuthenticityAssessment W}
        → input.reference ≡ some reference
        → can_establish_authenticity reference ≡ true
        → assess_against log2 range input policy reference ≡ ok a
        → IsUngrounded a ⊎ IsGrounded input policy a reference
    unfolding assess_against unassessed
    assess_against_inv input policy reference {a = a} given trusted h =
        let (_, sound, rest) =
          >>=-eq-ok (reject (invalid_reference input reference) invalid_assessment_input) _ h in
        by_expiry (leb reference.expires_at input.assessed_at) refl
          (reject-eq-ok (invalid_reference input reference) _ sound) rest
      where
        by_expiry :
            (b : Bool)
            → leb reference.expires_at input.assessed_at ≡ b
            → invalid_reference input reference ≡ false
            → (if b
                then ok (record (unassessed input policy) { reason = reference_expired })
                else compare_fingerprints log2 range reference.fingerprint input.target policy
                  >>= judge input reference policy)
              ≡ ok a
            → IsUngrounded a ⊎ IsGrounded input policy a reference
        by_expiry true e sound k = inl (ground arith)
        by_expiry false e sound k =
            let (c, compared, judged) =
              >>=-eq-ok (compare_fingerprints log2 range reference.fingerprint input.target policy)
                _ k in
            let (same, found) = judge_inv input reference policy c judged in
            elim found [
              | inl none_found ↦ inl none_found
              | inr (comparable, own, other, classified) ↦ inr (record {
                given = given;
                trusted = trusted;
                sound = sound;
                current = e;
                compared = compared ∙ ap ok (sym same);
                comparable = ap (λ t. t.comparable) same ∙ comparable;
                target_stable = own;
                reference_stable = other;
                classified = rw same classified;
              })
            ]

    by_trust :
        (input : AssessmentInput W) (policy : AuthenticityPolicy W) (reference : ModelReference W)
        {a : AuthenticityAssessment W}
        → input.reference ≡ some reference
        → (b : Bool) → can_establish_authenticity reference ≡ b
        → (if not b
            then ok (record (unassessed input policy) { reason = no_trusted_reference })
            else assess_against log2 range input policy reference)
          ≡ ok a
        → IsUngrounded a ⊎ ((reference : ModelReference W) × IsGrounded input policy a reference)
    unfolding unassessed
    by_trust input policy reference e true t k =
        elim (assess_against_inv input policy reference e t k) [
          | inl u ↦ inl u
          | inr g ↦ inr (reference, g)
        ]
    by_trust input policy reference e false t k = inl (ground arith)

    -- An assessment that is returned either finds nothing, or rests on a trusted reference that is
    -- the input's.
    assess_authenticity_inv :
        (input : AssessmentInput W) (policy : AuthenticityPolicy W) {a : AuthenticityAssessment W}
        → assess_authenticity log2 range input policy ≡ ok a
        → IsUngrounded a ⊎ ((reference : ModelReference W) × IsGrounded input policy a reference)
    unfolding assess_authenticity assess_reference unassessed
    assess_authenticity_inv input policy {a = a} h =
        let (_, _, rest) = >>=-eq-ok (validate_policy policy) _ h in
        let (_, _, last) =
          >>=-eq-ok (reject (invalid_input input) invalid_assessment_input) _ rest in
        by_reference input.reference refl last
      where
        by_reference :
            (o : Option (ModelReference W))
            → input.reference ≡ o
            → assess_reference log2 range input policy o ≡ ok a
            → IsUngrounded a
              ⊎ ((reference : ModelReference W) × IsGrounded input policy a reference)
        by_reference none e k = inl (ground arith)
        by_reference (some reference) e k =
            by_trust input policy reference e (can_establish_authenticity reference) refl k

    -- A verdict other than `insufficient` is grounded: the input has a reference that may establish
    -- authenticity, is well-formed, is of another subject and has not expired; the fingerprints are
    -- comparable; both were measured to be stable; and the verdict is the class of the mean distance.
    pub assess_authenticity-IsGrounded :
        (input : AssessmentInput W) (policy : AuthenticityPolicy W) {a : AuthenticityAssessment W}
        → assess_authenticity log2 range input policy ≡ ok a
        → a.verdict ≢ insufficient
        → (reference : ModelReference W) × IsGrounded input policy a reference
    assess_authenticity-IsGrounded input policy h k =
        elim (assess_authenticity_inv input policy h) [ inl (u, _) ↦ elim (k u) [ ] | inr g ↦ g ]

    -- A model is called inconsistent only where its mean distance is beyond the uncertain range and
    -- the input brings independent evidence of an earlier mismatch with the same reference.
    pub assess_authenticity-inconsistent :
        (input : AssessmentInput W) (policy : AuthenticityPolicy W) {a : AuthenticityAssessment W}
        → assess_authenticity log2 range input policy ≡ ok a
        → a.verdict ≡ inconsistent
        → (reference : ModelReference W) × (prior : MismatchEvidence W) × (input.reference
            ≡ some reference)
          × (le a.comparison.mean_distance policy.uncertain_maximum ≡ false)
          × IsIndependent input reference policy prior
    assess_authenticity-inconsistent input policy h k =
        let (reference, g) = assess_authenticity-IsGrounded input policy h (λ e. cc) in
        let (confirmed, far, _) =
          classify_distance-inconsistent _ _ policy (ap (λ t. t.0) (sym g.classified) ∙ k) in
        let (prior, independent) = confirmed-IsIndependent input reference policy confirmed in
        (reference, prior, g.given, far, independent)

    -- The confidence of an assessment is the one that goes with its verdict.
    pub assess_authenticity-confidence :
        (input : AssessmentInput W) (policy : AuthenticityPolicy W) {a : AuthenticityAssessment W}
        → assess_authenticity log2 range input policy ≡ ok a
        → a.confidence ≡ confidence_of a.verdict
    assess_authenticity-confidence input policy {a = a} h =
        elim (assess_authenticity_inv input policy h) [
          | inl (u, v) ↦ v ∙ ap confidence_of (sym u)
          | inr (reference, g) ↦
              ap (λ t. t.1) g.classified
              ∙ classify_distance-confidence _ _ policy
              ∙ ap (λ t. confidence_of t.0) (sym g.classified)
        ]
