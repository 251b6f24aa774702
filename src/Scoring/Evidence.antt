-- ===== src/Scoring/Evidence.antt =====
-- internal/domain/scoring/evidence.go: how far the evidence of one window can be trusted.
pub mod Laws
pub mod Errors
use many_router.Base.{
  ℕ, Bool, true, false, not, ◌&&◌, ◌||◌, List, [], ◌∷◌, ◌++◌, Text, codes, trim_space,
  contains_text, Result, ok, err, ◌>>=◌, ◌>>◌, reject, ◌==◌, ltb, leb, is_empty, if◌then◌else◌,
}
use many_router.Base.Int.{pos}
use many_router.Scoring.Types.{
  ScoringError, invalid_evidence, default_minimum_samples, Confidence, insufficient, low, high,
  confidence_rank, confidence_from_rank,
}

pub data EvidenceReason : Type 0 where
  insufficient_samples collection_gap attribution_pending : EvidenceReason
  confidence_factor_missing confidence_factor_insufficient low_confidence : EvidenceReason

-- requiredConfidenceFactors: the constants of ConfidenceFactorName, in their order.
unfoldable pub required_confidence_factors : List Text
required_confidence_factors =
    codes "freshness"
    ∷ codes "collection_coverage"
    ∷ codes "timing_coverage"
    ∷ codes "attribution"
    ∷ codes "supplier_mapping"
    ∷ codes "real_traffic"
    ∷ codes "active_probe"
    ∷ codes "authenticity"
    ∷ []

pub record ConfidenceFactor : Type 0 where
  pub name : Text
  pub level : Confidence

pub record EvidenceInput : Type 0 where
  pub sample_count : ℕ  -- uint64
  pub minimum_samples : ℕ  -- uint64
  pub factors : List ConfidenceFactor
  pub collection_gaps : List Text
  pub attribution_pending : Bool

pub record EvidenceIssue : Type 0 where
  pub reason : EvidenceReason
  pub detail : Text

pub record EvidenceAssessment : Type 0 where
  pub confidence : Confidence
  pub usable_for_scoring : Bool
  pub decision_ready : Bool
  pub sample_count : ℕ
  pub minimum_samples : ℕ
  pub issues : List EvidenceIssue

abbrev pub issue : EvidenceReason → Text → EvidenceIssue
issue reason detail = record { reason = reason; detail = detail }

unfoldable pub known_confidence_factor : Text → Bool
known_confidence_factor name = contains_text name required_confidence_factors

-- The loop over the collection gaps, with the issues so far.
unfoldable pub scan_gaps : List Text → List EvidenceIssue → Result ScoringError (List EvidenceIssue)
scan_gaps [] issues = ok issues
scan_gaps (raw ∷ gaps) issues = do
  let gap = trim_space raw
  reject (is_empty gap) invalid_evidence
  scan_gaps gaps (issues ++ (issue collection_gap gap ∷ []))

-- The variables of the loop over the confidence factors.
pub record FactorScan : Type 0 where
  pub seen : List Text
  pub lowest_rank : ℕ
  pub blocked : Bool
  pub issues : List EvidenceIssue

abbrev is_insufficient : Confidence → Bool
is_insufficient insufficient = true
is_insufficient _ = false

abbrev is_low : Confidence → Bool
is_low low = true
is_low _ = false

-- The test of one round of the loop.
unfoldable pub refuses_factor : ConfidenceFactor → FactorScan → Bool
refuses_factor factor s =
    not (known_confidence_factor (trim_space factor.name))
    || not (confidence_rank factor.level).1
    || contains_text (trim_space factor.name) s.seen

-- The variables after a round that goes on.
unfoldable pub record_factor : ConfidenceFactor → FactorScan → FactorScan
record_factor factor s =
    let name = trim_space factor.name in
    let rank = (confidence_rank factor.level).0 in
    record {
      seen = name ∷ s.seen;
      lowest_rank = if ltb rank s.lowest_rank then rank else s.lowest_rank;
      blocked = s.blocked || is_insufficient factor.level;
      issues =
          if is_insufficient factor.level
          then s.issues ++ (issue confidence_factor_insufficient name ∷ [])
          else s.issues;
    }

unfoldable pub scan_factor : ConfidenceFactor → FactorScan → Result ScoringError FactorScan
scan_factor factor s = do
  reject (refuses_factor factor s) invalid_evidence
  ok (record_factor factor s)

unfoldable pub scan_factors : List ConfidenceFactor → FactorScan → Result ScoringError FactorScan
scan_factors [] s = ok s
scan_factors (factor ∷ factors) s = scan_factor factor s >>= scan_factors factors

-- The loop over the required factors that no factor named.
unfoldable pub scan_required : List Text → FactorScan → FactorScan
scan_required [] s = s
scan_required (required ∷ rest) s = scan_required rest (
    if contains_text required s.seen then s else record s {
      blocked = true;
      issues = s.issues ++ (issue confidence_factor_missing required ∷ []);
    })

unfoldable pub effective_minimum : EvidenceInput → ℕ
effective_minimum input =
    if input.minimum_samples == 0 then default_minimum_samples else input.minimum_samples

-- The end of AssessEvidence, from the loops' variables.
unfoldable pub conclude_evidence : EvidenceInput → FactorScan → EvidenceAssessment
conclude_evidence input s =
    let confidence = confidence_from_rank (pos s.lowest_rank) in
    let issues =
      if is_low confidence then s.issues ++ (issue low_confidence [] ∷ []) else s.issues in
    record {
      confidence = if s.blocked then insufficient else confidence;
      usable_for_scoring = not s.blocked;
      decision_ready = not s.blocked && leb 2 (confidence_rank confidence).0;
      sample_count = input.sample_count;
      minimum_samples = effective_minimum input;
      issues = issues;
    }

-- The issues and the block that stand before the loop over the gaps.
unfoldable pub samples_issues : EvidenceInput → List EvidenceIssue
unfolding effective_minimum
samples_issues input =
    if ltb input.sample_count (effective_minimum input)
    then issue insufficient_samples [] ∷ []
    else []

unfoldable pub pending_issues : EvidenceInput → List EvidenceIssue → List EvidenceIssue
pending_issues input issues =
    if input.attribution_pending then issues ++ (issue attribution_pending [] ∷ []) else issues

-- The variables before the loop over the factors.
unfoldable pub start_scan : EvidenceInput → List EvidenceIssue → FactorScan
start_scan input issues = record {
  seen = [];
  lowest_rank = 3;
  blocked =
      ltb input.sample_count (effective_minimum input)
      || not (is_empty input.collection_gaps)
      || input.attribution_pending;
  issues = pending_issues input issues;
}

unfoldable pub assess_evidence : EvidenceInput → Result ScoringError EvidenceAssessment
assess_evidence input = do
  gaps ← scan_gaps input.collection_gaps (samples_issues input)
  scanned ← scan_factors input.factors (start_scan input gaps)
  ok (conclude_evidence input (scan_required required_confidence_factors scanned))
