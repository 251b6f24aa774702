-- ===== src/Evaluation/Examples.antt =====
-- A confirmed mismatch, on fixed-point numbers: runs of the evaluation, and its theorems at them.
use many_router.Base.{
  ℕ, true, false, List, [], ◌∷◌, map, Text, codes, some, ok, ◌>>=◌, ap, ◌≡◌, refl, All, length,
  text_eq, trim_space, drop_spaces, is_space, contains_text, time_sub,
}
use many_router.Base.Int.{pos, ◌-ℤ◌, ◌+ℤ◌}
use many_router.Float.Fixed.{Fixed, fixed_float, Fixed-IsFloat64, mul_fixed, div_fixed, lit_fixed}
use many_router.Evaluation.Types.{
  Distribution, Fingerprint, ModelSubject, ModelReference, official, MismatchEvidence,
  AssessmentInput, AuthenticityAssessment, FingerprintComparison, default_authenticity_policy,
  protocol_single_token_jsdv1, required_cells, inconsistent, high, no_reason,
  distance_mismatch_confirmed, valid_samples, sum_counts, find_cell, can_establish_authenticity,
}
use many_router.Evaluation.Distance.{
  jensen_shannon, check_divergence, distribution_total, sum_total, sum_divergence, divergence_term,
  count_of,
}
use many_router.Evaluation.Fingerprint.{
  valid_distance, validate_policy, no_comparison, usable_cell, cell_distance, on_cell,
  compare_cells, compare_fingerprints,
}
use many_router.Evaluation.Fingerprint.Laws.{
  HasSamples, distance_total, compare_fingerprints-comparable, jensen_shannon-valid,
}
use many_router.Evaluation.Assessment.{
  valid_subject, same_subject, classify_distance, confirms, confirmed_independent_mismatch,
  unassessed, invalid_input, invalid_reference, judge, assess_against, assess_reference,
  assess_authenticity,
}
use many_router.Evaluation.Assessment.Confirmation.{IsIndependent, confidence_of}
use many_router.Evaluation.Assessment.Laws.{
  IsGrounded, assess_authenticity-IsGrounded, assess_authenticity-inconsistent,
  assess_authenticity-confidence,
}

-- The line through the logarithms of 1 and 2, where the runs below ask for it.
abbrev line : Fixed → Fixed
line x = fixed_float.sub x (fixed_float.lit 1 0)

abbrev in_order : List Text → List Text
in_order keys = keys

abbrev only : Text → Distribution
only answer = record { counts = (answer, 10) ∷ []; invalid_samples = 0 }

unfoldable fingerprint_of : Text → ℕ → ℕ → Text → Fingerprint Fixed
unfolding required_cells
fingerprint_of run seed at answer = record {
  run_id = run;
  seed = seed;
  protocol_version = protocol_single_token_jsdv1;
  collected_at = at;
  cells = map (λ c. (c, only answer)) required_cells;
  stability = record { measured = true; distance = fixed_float.lit 0 0 };
}

abbrev subject : ModelSubject
subject = record { supplier_id = 1; model = codes "gpt" }

abbrev trusted_reference : ModelReference Fixed
trusted_reference = record {
  id = codes "ref";
  revision = pos 1;
  trust = official;
  source = record { supplier_id = 2; model = codes "gpt" };
  expires_at = 9_000_000_000_000;
  fingerprint = fingerprint_of (codes "r0") 1 1 (codes "7");
}

abbrev earlier : MismatchEvidence Fixed
earlier = record {
  subject = subject;
  target_run_id = codes "r1";
  target_seed = 2;
  observed_at = 1_000_000_000_000;
  reference_id = codes "ref";
  reference_revision = pos 1;
  protocol_version = protocol_single_token_jsdv1;
  distance = fixed_float.lit 9 1;
  self_distance = fixed_float.lit 0 0;
}

abbrev mismatch_input : AssessmentInput Fixed
mismatch_input = record {
  subject = subject;
  target = fingerprint_of (codes "r2") 3 3_000_000_000_000 (codes "8");
  reference = some trusted_reference;
  prior_mismatch = some earlier;
  assessed_at = 3_000_000_000_000;
}

abbrev far_apart : FingerprintComparison Fixed
far_apart = record {
  comparable = true;
  reason = no_reason;
  mean_distance = fixed_float.lit 1 0;
  comparable_cells = 8;
  cell_distances = map (λ c. (c, fixed_float.lit 1 0)) required_cells;
}

abbrev mismatch : AuthenticityAssessment Fixed
mismatch = record {
  policy_version = codes "authenticity_v1";
  verdict = inconsistent;
  confidence = high;
  reason = distance_mismatch_confirmed;
  assessed_at = 3_000_000_000_000;
  comparison = far_apart;
}

distance_of_different :
    jensen_shannon line in_order (only (codes "7")) (only (codes "8")) ≡ ok (fixed_float.lit 1 0)
unfolding jensen_shannon check_divergence distribution_total sum_total sum_divergence
    divergence_term count_of text_eq contains_text mul_fixed div_fixed lit_fixed ◌-ℤ◌ ◌+ℤ◌
distance_of_different = refl

jensen_shannon-valid_example : valid_distance (fixed_float.lit 1 0) ≡ true
jensen_shannon-valid_example =
    jensen_shannon-valid Fixed-IsFloat64 line in_order (only (codes "7")) (only (codes "8"))
      distance_of_different

compared :
    compare_fingerprints line in_order trusted_reference.fingerprint mismatch_input.target
      default_authenticity_policy
    ≡ ok far_apart
unfolding compare_fingerprints compare_cells on_cell cell_distance usable_cell no_comparison
    validate_policy valid_distance valid_samples sum_counts find_cell required_cells fingerprint_of
    default_authenticity_policy jensen_shannon check_divergence distribution_total sum_total
    sum_divergence divergence_term count_of text_eq contains_text mul_fixed div_fixed lit_fixed ◌-ℤ◌
    ◌+ℤ◌
compared = refl

assessed :
    assess_authenticity line in_order mismatch_input default_authenticity_policy ≡ ok mismatch
unfolding assess_authenticity assess_reference assess_against judge unassessed invalid_reference
    invalid_input confirmed_independent_mismatch confirms classify_distance same_subject
    valid_subject can_establish_authenticity validate_policy valid_distance fingerprint_of
    default_authenticity_policy text_eq trim_space drop_spaces is_space lit_fixed time_sub
assessed =
    ap (λ r. r >>= judge mismatch_input trusted_reference default_authenticity_policy) compared

compare_fingerprints-comparable_example :
    (validate_policy (default_authenticity_policy {W = Fixed}) ≡ ok tt)
    × (protocol_single_token_jsdv1 ≡ protocol_single_token_jsdv1)
    × (protocol_single_token_jsdv1 ≡ protocol_single_token_jsdv1)
    × (map (λ d. d.0) far_apart.cell_distances ≡ required_cells)
    × (far_apart.mean_distance
        ≡ fixed_float.div
            (distance_total (fixed_float.lit 0 0) far_apart.cell_distances)
            (fixed_float.of_nat (length required_cells)))
    × (8 ≡ length required_cells)
    × All
        (HasSamples trusted_reference.fingerprint mismatch_input.target default_authenticity_policy)
        required_cells
unfolding fingerprint_of
compare_fingerprints-comparable_example =
    compare_fingerprints-comparable line in_order trusted_reference.fingerprint
      mismatch_input.target default_authenticity_policy compared refl

assess_authenticity-IsGrounded_example :
    (reference : ModelReference Fixed) × IsGrounded line in_order mismatch_input
      default_authenticity_policy mismatch reference
assess_authenticity-IsGrounded_example =
    assess_authenticity-IsGrounded line in_order mismatch_input default_authenticity_policy assessed
      (λ e. cc)

assess_authenticity-inconsistent_example :
    (reference : ModelReference Fixed) × (prior : MismatchEvidence Fixed)
    × (mismatch_input.reference ≡ some reference)
    × (fixed_float.le far_apart.mean_distance
          (default_authenticity_policy {W = Fixed}).uncertain_maximum
        ≡ false)
    × IsIndependent mismatch_input reference default_authenticity_policy prior
assess_authenticity-inconsistent_example =
    assess_authenticity-inconsistent line in_order mismatch_input default_authenticity_policy
      assessed refl

assess_authenticity-confidence_example : mismatch.confidence ≡ confidence_of inconsistent
assess_authenticity-confidence_example =
    assess_authenticity-confidence line in_order mismatch_input default_authenticity_policy assessed
