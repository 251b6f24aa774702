-- ===== src/Scoring/Evidence/Errors.antt =====
-- When AssessEvidence of internal/domain/scoring/evidence.go refuses its input.
use many_router.Base.{
  ◌⊎◌, ◌≡◌, refl, Bool, true, false, not, ◌||◌, List, [], ◌∷◌, ◌++◌, Text, trim_space, text_eq_iff,
  contains_text, ok, err, arith, is_empty, any_of, Bool-cases, inl, inr,
}
use many_router.Scoring.Types.{invalid_evidence, confidence_rank}
use many_router.Scoring.Evidence.{
  ConfidenceFactor, EvidenceInput, EvidenceIssue, EvidenceAssessment, FactorScan,
  known_confidence_factor, collection_gap, issue, refuses_factor, record_factor, scan_gaps,
  scan_factor, scan_factors, scan_required, required_confidence_factors, conclude_evidence,
  samples_issues, start_scan, assess_evidence,
}
use many_router.Scoring.Evidence.Laws.{factor_names}

-- A gap is blank, a factor or its level is unknown, or two factors have one name.
abbrev pub has_blank : List Text → Bool
has_blank = any_of λ gap. is_empty (trim_space gap)

abbrev pub has_unknown : List ConfidenceFactor → Bool
has_unknown = any_of λ factor.
    not (known_confidence_factor (trim_space factor.name)) || not (confidence_rank factor.level).1

abbrev pub has_duplicate : List Text → Bool
has_duplicate [] = false
has_duplicate (name ∷ names) = contains_text name names || has_duplicate names

abbrev shares : List Text → List Text → Bool
shares names seen = any_of (λ name. contains_text name seen) names

shares-cons :
    (names : List Text) (name : Text) (seen : List Text)
    → shares names (name ∷ seen) ≡ (contains_text name names || shares names seen)
unfolding contains_text
shares-cons [] name seen = refl
shares-cons (n ∷ names) name seen =
    ground (arith, shares-cons names name seen, text_eq_iff n name, text_eq_iff name n)

scan_gaps_total :
    (gaps : List Text) (issues : List EvidenceIssue)
    → (has_blank gaps ≡ true → scan_gaps gaps issues ≡ err invalid_evidence)
      × (has_blank gaps ≡ false → (all : List EvidenceIssue) × (scan_gaps gaps issues ≡ ok all))
unfolding scan_gaps
scan_gaps_total [] issues = (λ h. cc, λ h. (issues, refl))
scan_gaps_total (raw ∷ gaps) issues =
    let ih = scan_gaps_total gaps (issues ++ (issue collection_gap (trim_space raw) ∷ [])) in
    elim (Bool-cases (is_empty (trim_space raw))) [
      | inl e ↦ rw e (λ h. refl, λ h. cc)
      | inr e ↦ rw e ih
    ]

abbrev is_refused : List ConfidenceFactor → List Text → Bool
is_refused factors seen =
    has_unknown factors
    || has_duplicate (factor_names factors)
    || shares (factor_names factors) seen

-- One round, told apart by whether the rest can still succeed.
is_refused-cons :
    (factor : ConfidenceFactor) (factors : List ConfidenceFactor) (s : FactorScan)
    → is_refused (factor ∷ factors) s.seen
      ≡ (refuses_factor factor s || is_refused factors (record_factor factor s).seen)
unfolding refuses_factor record_factor
is_refused-cons factor factors s =
    rw (shares-cons (factor_names factors) (trim_space factor.name) s.seen) (ground arith)

scan_factors_refused :
    (factors : List ConfidenceFactor) (s : FactorScan)
    → is_refused factors s.seen ≡ true
    → scan_factors factors s ≡ err invalid_evidence
unfolding scan_factors scan_factor
scan_factors_refused [] s h = cc
scan_factors_refused (factor ∷ factors) s h =
    ground (
      arith,
      is_refused-cons factor factors s,
      scan_factors_refused factors (record_factor factor s),
    )

scan_factors_accepted :
    (factors : List ConfidenceFactor) (s : FactorScan)
    → is_refused factors s.seen ≡ false
    → (t : FactorScan) × (scan_factors factors s ≡ ok t)
unfolding scan_factors scan_factor
scan_factors_accepted [] s h = (s, refl)
scan_factors_accepted (factor ∷ factors) s h =
    let split = is_refused-cons factor factors s in
    let (t, e) = scan_factors_accepted factors (record_factor factor s) (ground arith) in
    let fresh : refuses_factor factor s ≡ false = ground arith in (t, rw fresh e)

abbrev pub is_malformed : EvidenceInput → Bool
is_malformed input =
    has_blank input.collection_gaps
    || has_unknown input.factors
    || has_duplicate (factor_names input.factors)

shares-nil : (names : List Text) → shares names [] ≡ false
unfolding contains_text
shares-nil [] = refl
shares-nil (name ∷ names) = shares-nil names

assess_by_form :
    (input : EvidenceInput)
    → (is_malformed input ≡ true → assess_evidence input ≡ err invalid_evidence)
      × (is_malformed input ≡ false → (a : EvidenceAssessment) × (assess_evidence input ≡ ok a))
unfolding assess_evidence start_scan
assess_by_form input =
    let (bad_gap, good_gap) = scan_gaps_total input.collection_gaps (samples_issues input) in
    let apart = shares-nil (factor_names input.factors) in
    elim (Bool-cases (has_blank input.collection_gaps)) [
      | inl e ↦ rw (bad_gap e) (λ h. refl, λ h. absurd (ground arith))
      | inr e ↦
          let (gaps, scanned) = good_gap e in
          let start = start_scan input gaps in
          rw scanned (
            λ h. rw (scan_factors_refused input.factors start (ground arith)) refl,
            λ h.
                let (s, run) = scan_factors_accepted input.factors start (ground arith) in
                (conclude_evidence input (scan_required required_confidence_factors s), rw run),
          )
    ]

-- The assessment fails, always as invalid evidence, exactly when a gap is blank, a factor is not
-- one of the required ones or has an unknown level, or two factors have one name.
pub assess_evidence-total :
    (input : EvidenceInput)
    → ((is_malformed input ≡ true) × (assess_evidence input ≡ err invalid_evidence))
      ⊎ ((is_malformed input ≡ false) × ((a : EvidenceAssessment) × (assess_evidence input ≡ ok a)))
assess_evidence-total input =
    let (bad, good) = assess_by_form input in
    elim (Bool-cases (is_malformed input)) [ inl e ↦ inl (e, bad e) | inr e ↦ inr (e, good e) ]
