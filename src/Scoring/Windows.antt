-- ===== src/Scoring/Windows.antt =====
-- internal/domain/scoring/windows.go: the combination of the scores of the 15 minute, 1 hour and
-- 24 hour windows. The map by window is an association list, and the result a record.
pub mod Laws
pub mod Readiness
use many_router.Base.{
  ℕ, ◌+◌, Bool, true, false, not, ◌&&◌, ◌||◌, Option, some, none, List, [], ◌∷◌, ◌++◌, map, Text,
  Result, ok, err, ◌>>=◌, ◌>>◌, reject, ltb, leb, is_empty, if◌then◌else◌,
}
use many_router.Base.Int.{pos}
use many_router.Float.{Float64}
use many_router.Scoring.Types.{
  ScoringError, invalid_window, Window, window_15_minutes, window_1_hour, window_24_hours,
  other_window, window_eq, WindowWeight, DimensionScores, Confidence, insufficient, confidence_rank,
  confidence_from_rank, lower_confidence, clamp_score, validate_dimension_scores,
  default_window_weights, policy_version_m2_shadow_v1,
}
use many_router.Scoring.Evidence.{
  EvidenceReason, EvidenceInput, EvidenceIssue, EvidenceAssessment, assess_evidence,
}

pub data WindowIssueReason : Type 0 where
  window_missing window_incomplete : WindowIssueReason

pub record WindowScoreInput (W : Type 0) : Type 0 where
  pub window : Window
  pub complete : Bool
  pub scores : DimensionScores W
  pub evidence : EvidenceInput

-- A reason that Go leaves empty is `none`.
pub record WindowIssue : Type 0 where
  pub window : Window
  pub window_reason : Option WindowIssueReason
  pub evidence_reason : Option EvidenceReason
  pub detail : Text

pub record CombinedWindowScore (W : Type 0) : Type 0 where
  pub policy_version : Text
  pub available : Bool
  pub scores : DimensionScores W
  pub effective_weights : List (WindowWeight W)
  pub confidence : Confidence
  pub decision_ready : Bool
  pub issues : List WindowIssue

unfoldable pub known_window : Window → Bool
known_window (other_window s) = false
known_window _ = true

abbrev pub window_issue : Window → WindowIssueReason → WindowIssue
window_issue window reason = record {
  window = window;
  window_reason = some reason;
  evidence_reason = none;
  detail = [];
}

abbrev pub evidence_issue : Window → EvidenceIssue → WindowIssue
evidence_issue window issue = record {
  window = window;
  window_reason = none;
  evidence_reason = some issue.reason;
  detail = issue.detail;
}

-- usableWindow
pub record UsableWindow (W : Type 0) : Type 0 where
  pub input : WindowScoreInput W
  pub weight : W

-- The variables of the loop over the configured windows.
pub record CombineState (W : Type 0) : Type 0 where
  pub usable : List (UsableWindow W)
  pub missing_count : ℕ
  pub decision_blocked : Bool
  pub lowest_rank : ℕ
  pub issues : List WindowIssue

module _ {W : Type 0} where
  unfoldable pub lookup_window : Window → List (WindowScoreInput W) → Option (WindowScoreInput W)
  lookup_window window [] = none
  lookup_window window (input ∷ inputs) =
      if window_eq input.window window then some input else lookup_window window inputs

  abbrev is_present : Option (WindowScoreInput W) → Bool
  is_present none = false
  is_present (some input) = true

  -- The loop that fills byWindow.
  unfoldable pub index_windows :
      List (WindowScoreInput W)
      → List (WindowScoreInput W)
      → Result ScoringError (List (WindowScoreInput W))
  index_windows [] by_window = ok by_window
  index_windows (input ∷ inputs) by_window = do
    reject (is_present (lookup_window input.window by_window) || not (known_window input.window))
        invalid_window
    index_windows inputs (input ∷ by_window)

  -- A configured window that no input has.
  unfoldable pub skip_missing : Window → CombineState W → CombineState W
  skip_missing window s = record s {
    missing_count = s.missing_count + 1;
    decision_blocked = true;
    issues = s.issues ++ (window_issue window window_missing ∷ []);
  }

  -- A window whose input is not complete or whose evidence is not usable.
  unfoldable pub skip_unusable :
      WindowScoreInput W → EvidenceAssessment → CombineState W → CombineState W
  skip_unusable input assessment s =
      let issues = s.issues ++ map (evidence_issue input.window) assessment.issues in
      record s {
        missing_count = s.missing_count + 1;
        decision_blocked = true;
        issues =
            if input.complete
            then issues
            else issues ++ (window_issue input.window window_incomplete ∷ []);
      }

  unfoldable pub keep_usable :
      WindowWeight W → WindowScoreInput W → EvidenceAssessment → CombineState W → CombineState W
  keep_usable configured input assessment s =
      let rank = (confidence_rank assessment.confidence).0 in
      record {
        usable = s.usable ++ (record { input = input; weight = configured.weight } ∷ []);
        missing_count = s.missing_count;
        decision_blocked = s.decision_blocked || not assessment.decision_ready;
        lowest_rank = if ltb rank s.lowest_rank then rank else s.lowest_rank;
        issues = s.issues ++ map (evidence_issue input.window) assessment.issues;
      }

module _ {W : Type 0} ⦃f : Float64 W⦄ where
  open f use {lit, add, mul, div}

  -- A configured window that has an input.
  unfoldable pub combine_present :
      WindowWeight W → WindowScoreInput W → CombineState W → Result ScoringError (CombineState W)
  combine_present configured input s = do
    assessment ← assess_evidence input.evidence
    if input.complete && assessment.usable_for_scoring
        then (validate_dimension_scores input.scores
            >> ok (keep_usable configured input assessment s))
        else ok (skip_unusable input assessment s)

  -- One round of the loop.
  unfoldable pub combine_step :
      List (WindowScoreInput W)
      → WindowWeight W
      → CombineState W
      → Result ScoringError (CombineState W)
  combine_step by_window configured s = elim (lookup_window configured.window by_window) [
    | none ↦ ok (skip_missing configured.window s)
    | some input ↦ combine_present configured input s
  ]

  unfoldable pub combine_loop :
      List (WindowScoreInput W)
      → List (WindowWeight W)
      → CombineState W
      → Result ScoringError (CombineState W)
  combine_loop by_window [] s = ok s
  combine_loop by_window (configured ∷ rest) s =
      combine_step by_window configured s >>= combine_loop by_window rest

  -- The loop that adds up the weights.
  unfoldable pub weight_total : W → List (UsableWindow W) → W
  weight_total total [] = total
  weight_total total (window ∷ windows) = weight_total (add total window.weight) windows

  -- The loop that adds up the weighted scores.
  unfoldable pub weigh_windows : W → List (UsableWindow W) → DimensionScores W → DimensionScores W
  weigh_windows total [] scores = scores
  weigh_windows total (window ∷ windows) scores =
      let weight = div window.weight total in
      weigh_windows total windows (record {
        price = add scores.price (mul window.input.scores.price weight);
        latency = add scores.latency (mul window.input.scores.latency weight);
        sla = add scores.sla (mul window.input.scores.sla weight);
        quality = add scores.quality (mul window.input.scores.quality weight);
      })

  unfoldable pub clamp_scores : DimensionScores W → DimensionScores W
  clamp_scores scores = record {
    price = clamp_score scores.price;
    latency = clamp_score scores.latency;
    sla = clamp_score scores.sla;
    quality = clamp_score scores.quality;
  }

  abbrev pub zero_scores : DimensionScores W
  zero_scores = record { price = lit 0 0; latency = lit 0 0; sla = lit 0 0; quality = lit 0 0 }

  -- The result when no window is usable.
  unfoldable pub unavailable : CombineState W → CombinedWindowScore W
  unavailable s = record {
    policy_version = policy_version_m2_shadow_v1;
    available = false;
    scores = zero_scores;
    effective_weights = [];
    confidence = insufficient;
    decision_ready = false;
    issues = s.issues;
  }

  unfoldable pub weighted : CombineState W → CombinedWindowScore W
  weighted s =
      let total = weight_total (lit 0 0) s.usable in
      let confidence =
        lower_confidence (confidence_from_rank (pos s.lowest_rank)) s.missing_count in
      record {
        policy_version = policy_version_m2_shadow_v1;
        available = true;
        scores = clamp_scores (weigh_windows total s.usable zero_scores);
        effective_weights =
            map (λ u. record { window = u.input.window; weight = div u.weight total }) s.usable;
        confidence = confidence;
        decision_ready = not s.decision_blocked && leb 2 (confidence_rank confidence).0;
        issues = s.issues;
      }

  abbrev pub start_combine : CombineState W
  start_combine = record {
    usable = [];
    missing_count = 0;
    decision_blocked = false;
    lowest_rank = 3;
    issues = [];
  }

  unfoldable pub combine_window_scores :
      List (WindowScoreInput W) → Result ScoringError (CombinedWindowScore W)
  combine_window_scores inputs = do
    by_window ← index_windows inputs []
    s ← combine_loop by_window default_window_weights start_combine
    ok (if is_empty s.usable then unavailable s else weighted s)
