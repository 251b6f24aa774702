-- ===== src/Scoring/Evidence/Laws.antt =====
-- What AssessEvidence of internal/domain/scoring/evidence.go concludes from one window's evidence.
use Prim.Native.Nat.{min}
use many_router.Base.{
  ℕ, ◌≡◌, refl, ◌∙◌, Bool, true, not, ◌&&◌, ◌||◌, List, [], ◌∷◌, ◌++◌, Text, trim_space,
  contains_text, ok, arith, leb, is_empty, any_of, if◌then◌else◌, >>=-eq-ok, Bool-cases, inl, inr,
  ◌≤◌,
}
use many_router.Base.Int.{pos}
use many_router.Scoring.Types.{insufficient, confidence_rank, confidence_from_rank}
use many_router.Scoring.Evidence.{
  required_confidence_factors, ConfidenceFactor, EvidenceInput, EvidenceIssue, EvidenceAssessment,
  FactorScan, record_factor, scan_gaps, scan_factor, scan_factors, scan_required, effective_minimum,
  conclude_evidence, samples_issues, start_scan, assess_evidence, is_insufficient, issue,
  confidence_factor_missing,
}

-- The lowest rank among the factors, 3 where there is none.
abbrev pub lowest_rank : List ConfidenceFactor → ℕ
lowest_rank [] = 3
lowest_rank (factor ∷ factors) = min (confidence_rank factor.level).0 (lowest_rank factors)

lowest_rank_le : (factors : List ConfidenceFactor) → lowest_rank factors ≤ 3
lowest_rank_le [] = omega arith
lowest_rank_le (factor ∷ factors) = omega (arith, lowest_rank_le factors)

abbrev pub factor_names : List ConfidenceFactor → List Text
factor_names [] = []
factor_names (factor ∷ factors) = trim_space factor.name ∷ factor_names factors

abbrev pub has_insufficient : List ConfidenceFactor → Bool
has_insufficient = any_of λ factor. is_insufficient factor.level

abbrev pub lacks : List Text → List Text → Bool
lacks required names = any_of (λ name. not (contains_text name names)) required

-- The evidence blocks nothing: enough samples, no gap, nothing to attribute, every required factor
-- named, and none of them insufficient.
abbrev pub is_unblocked : EvidenceInput → Bool
is_unblocked input =
    leb (effective_minimum input) input.sample_count
    && is_empty input.collection_gaps
    && not input.attribution_pending
    && not (has_insufficient input.factors)
    && not (lacks required_confidence_factors (factor_names input.factors))

scan_factor_lem :
    (factor : ConfidenceFactor) (s : FactorScan) {t : FactorScan}
    → scan_factor factor s ≡ ok t
    → (t.lowest_rank ≡ min (confidence_rank factor.level).0 s.lowest_rank)
      × (t.blocked ≡ (s.blocked || is_insufficient factor.level))
      × (t.seen ≡ trim_space factor.name ∷ s.seen)
unfolding scan_factor record_factor
scan_factor_lem factor s h = ground arith

scan_factors_lem :
    (factors : List ConfidenceFactor) (s : FactorScan) {t : FactorScan}
    → s.lowest_rank ≤ 3
    → scan_factors factors s ≡ ok t
    → (t.lowest_rank ≡ min (lowest_rank factors) s.lowest_rank)
      × (t.blocked ≡ (s.blocked || has_insufficient factors))
      × ((name : Text)
          → contains_text name t.seen
            ≡ (contains_text name (factor_names factors) || contains_text name s.seen))
unfolding scan_factors contains_text
scan_factors_lem [] s c h = (ground arith, ground arith, λ name. ground arith)
scan_factors_lem (factor ∷ factors) s c h =
    let (u, first, rest) = >>=-eq-ok (scan_factor factor s) (scan_factors factors) h in
    let (low, stop, saw) = scan_factor_lem factor s first in
    let (low', stop', saw') = scan_factors_lem factors u (omega arith) rest in
    (omega arith, ground arith, λ name. ground (arith, saw' name))

scan_required_lem :
    (required : List Text) (s : FactorScan)
    → let t = scan_required required s in
      (t.lowest_rank ≡ s.lowest_rank)
      × (t.blocked ≡ (s.blocked || lacks required s.seen))
      × (t.seen ≡ s.seen)
unfolding scan_required
scan_required_lem [] s = ground arith
scan_required_lem (name ∷ required) s =
    let missing = record s {
      blocked = true;
      issues = s.issues ++ (issue confidence_factor_missing name ∷ []);
    } in
    elim (Bool-cases (contains_text name s.seen)) [
      | inl found ↦ rw (found, scan_required) (scan_required_lem required s)
      | inr lost ↦ rw (lost, scan_required) (ground (arith, scan_required_lem required missing))
    ]

-- What a successful assessment was computed from.
assess_evidence_inv :
    (input : EvidenceInput) {a : EvidenceAssessment}
    → assess_evidence input ≡ ok a
    → (gaps : List EvidenceIssue) × (s : FactorScan) × (scan_factors input.factors
          (start_scan input gaps)
        ≡ ok s)
      × (a ≡ conclude_evidence input (scan_required required_confidence_factors s))
unfolding assess_evidence
assess_evidence_inv input h =
    let (gaps, _, rest) = >>=-eq-ok (scan_gaps input.collection_gaps (samples_issues input)) _ h in
    let (s, scanned, last) =
      >>=-eq-ok (scan_factors input.factors (start_scan input gaps)) _ rest in
    (gaps, s, scanned, cc last)

module _ (input : EvidenceInput) (gaps : List EvidenceIssue) (s : FactorScan)
    (scanned : scan_factors input.factors (start_scan input gaps) ≡ ok s) where
  lacks_seen :
      (required : List Text) → lacks required s.seen ≡ lacks required (factor_names input.factors)
  unfolding start_scan contains_text
  lacks_seen [] = refl
  lacks_seen (name ∷ required) = ground (
    arith,
    (scan_factors_lem input.factors (start_scan input gaps) (omega arith) scanned).2 name,
    lacks_seen required,
  )

  final_scan :
      let t = scan_required required_confidence_factors s in
      (t.lowest_rank ≡ lowest_rank input.factors) × (t.blocked ≡ not (is_unblocked input))
  unfolding start_scan
  final_scan = ground (
    arith,
    scan_factors_lem input.factors (start_scan input gaps) (omega arith) scanned,
    scan_required_lem required_confidence_factors s,
    lacks_seen required_confidence_factors,
    lowest_rank_le input.factors,
  )

rank-from_rank : (r : ℕ) → r ≤ 3 → (confidence_rank (confidence_from_rank (pos r))).0 ≡ r
unfolding confidence_rank confidence_from_rank
rank-from_rank r h = ground arith

conclude_lem :
    (input : EvidenceInput) (t : FactorScan)
    → t.lowest_rank ≡ lowest_rank input.factors
    → t.blocked ≡ not (is_unblocked input)
    → let a = conclude_evidence input t in
      (a.usable_for_scoring ≡ is_unblocked input)
      × (a.confidence ≡ (
          if is_unblocked input
          then confidence_from_rank (pos (lowest_rank input.factors))
          else insufficient))
      × (a.decision_ready ≡ (is_unblocked input && leb 2 (lowest_rank input.factors)))
unfolding conclude_evidence
conclude_lem input t low stop =
    let ranked = rank-from_rank (lowest_rank input.factors) (lowest_rank_le input.factors) in
    elim (Bool-cases (is_unblocked input)) [
      | inl e ↦ rw (stop, low, ranked, e) (refl, refl, refl)
      | inr e ↦ rw (stop, e) (refl, refl, refl)
    ]

-- When the assessment succeeds, the evidence is usable for scoring exactly if there are enough
-- samples, no collection gap, no pending attribution, every required factor is named and none is
-- insufficient; its confidence is then the lowest among the factors and is insufficient otherwise;
-- and it is ready for a decision exactly if it is usable and no factor is below medium.
pub assess_evidence-conclusion :
    (input : EvidenceInput) {a : EvidenceAssessment}
    → assess_evidence input ≡ ok a
    → (a.usable_for_scoring ≡ is_unblocked input)
      × (a.confidence ≡ (
          if is_unblocked input
          then confidence_from_rank (pos (lowest_rank input.factors))
          else insufficient))
      × (a.decision_ready ≡ (is_unblocked input && leb 2 (lowest_rank input.factors)))
assess_evidence-conclusion input h =
    let (gaps, s, scanned, e) = assess_evidence_inv input h in
    let (low, stop) = final_scan input gaps s scanned in
    rw e (conclude_lem input (scan_required required_confidence_factors s) low stop)

-- Evidence that is ready for a decision is usable, and its confidence is at least medium.
pub decision_ready_lem :
    (input : EvidenceInput) {a : EvidenceAssessment}
    → assess_evidence input ≡ ok a
    → a.decision_ready ≡ true
    → (a.usable_for_scoring ≡ true) × (2 ≤ (confidence_rank a.confidence).0)
decision_ready_lem input h ready =
    let (usable, level, steady) = assess_evidence-conclusion input h in
    elim (Bool-cases (is_unblocked input)) [
      | inl e ↦
          let ranked = rank-from_rank (lowest_rank input.factors) (lowest_rank_le input.factors) in
          (usable ∙ e, rw (level, e, ranked) (ground arith))
      | inr e ↦ absurd (ground arith)
    ]
