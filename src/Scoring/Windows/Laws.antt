-- ===== src/Scoring/Windows/Laws.antt =====
-- What the map of windows and the loop of CombineWindowScores compute
-- (internal/domain/scoring/windows.go).
use many_router.Base.{
  ◌≡◌, ◌↔◌, ℕ, ◌≤◌, ◌+◌, Bool, true, false, not, ◌&&◌, ◌||◌, Option, some, none, List, [], ◌∷◌,
  text_eq_iff, Result, ok, err, arith, is_empty, any_of, >>=-eq-ok, Option-cases, inl, inr, ap,
}
use many_router.Scoring.Types.{
  ScoringError, Window, other_window, window_eq, WindowWeight, validate_dimension_scores,
}
use many_router.Float.{Float64}
use many_router.Scoring.Evidence.{EvidenceAssessment, assess_evidence}
use many_router.Scoring.Evidence.Laws.{decision_ready_lem}
use many_router.Scoring.Windows.{
  WindowScoreInput, CombineState, combine_present, combine_step, combine_loop, keep_usable,
  skip_missing, skip_unusable, lookup_window, index_windows,
}

pub window_eq_iff : (v w : Window) → (window_eq v w ≡ true) ↔ (v ≡ w)
unfolding window_eq
window_eq_iff (other_window s) (other_window t) =
    (λ h. ap other_window ((text_eq_iff s t).0 h), λ h. (text_eq_iff s t).1 (cc h))
window_eq_iff _ _ = (λ h. ground arith, λ h. ground arith)

-- What one input says: usable or ready only if it is complete and its evidence is.
abbrev pub evidence_usable : Result ScoringError EvidenceAssessment → Bool
evidence_usable (ok a) = a.usable_for_scoring
evidence_usable (err e) = false

abbrev pub evidence_ready : Result ScoringError EvidenceAssessment → Bool
evidence_ready (ok a) = a.decision_ready
evidence_ready (err e) = false

abbrev pub count_one : Bool → ℕ
count_one true = 0
count_one false = 1

module _ {W : Type 0} where
  abbrev or_else :
      Option (WindowScoreInput W) → Option (WindowScoreInput W) → Option (WindowScoreInput W)
  or_else none other = other
  or_else (some input) other = some input

  pub lookup-index_windows :
      (inputs by_window m : List (WindowScoreInput W)) (w : Window)
      → index_windows inputs by_window ≡ ok m
      → lookup_window w m ≡ or_else (lookup_window w by_window) (lookup_window w inputs)
  unfolding index_windows lookup_window
  lookup-index_windows [] by_window m w h = elim (Option-cases (lookup_window w by_window)) [
    | inl e ↦ ground arith
    | inr e ↦ ground arith
  ]
  lookup-index_windows (input ∷ inputs) by_window m w h =
      ground
        (arith, window_eq_iff input.window w, lookup-index_windows inputs (input ∷ by_window) m w)

  abbrev pub is_usable : Option (WindowScoreInput W) → Bool
  is_usable none = false
  is_usable (some i) = i.complete && evidence_usable (assess_evidence i.evidence)

  abbrev pub is_ready : Option (WindowScoreInput W) → Bool
  is_ready none = false
  is_ready (some i) = i.complete && evidence_ready (assess_evidence i.evidence)

  -- Some configured window has no usable input, or none that is ready.
  abbrev pub count_unusable : List (WindowScoreInput W) → List (WindowWeight W) → ℕ
  count_unusable m [] = 0
  count_unusable m (c ∷ cs) = count_one (is_usable (lookup_window c.window m)) + count_unusable m cs

  abbrev pub some_usable : List (WindowScoreInput W) → List (WindowWeight W) → Bool
  some_usable m = any_of λ c. is_usable (lookup_window c.window m)

  abbrev pub some_unready : List (WindowScoreInput W) → List (WindowWeight W) → Bool
  some_unready m = any_of λ c. not (is_ready (lookup_window c.window m))

module _ {W : Type 0} ⦃f : Float64 W⦄ where
  -- What one round does to the variables that decide readiness.
  record IsRound (o : Option (WindowScoreInput W)) (s t : CombineState W) : Type 0 where
    missing : t.missing_count ≡ s.missing_count + count_one (is_usable o)
    blocked : t.decision_blocked ≡ (s.decision_blocked || not (is_ready o))
    empty : is_empty t.usable ≡ (is_empty s.usable && not (is_usable o))
    rank : 2 ≤ s.lowest_rank → is_ready o ≡ true → 2 ≤ t.lowest_rank

  combine_present-IsRound :
      (c : WindowWeight W) (i : WindowScoreInput W) (s t : CombineState W)
      → combine_present c i s ≡ ok t
      → IsRound (some i) s t
  unfolding combine_present keep_usable skip_unusable validate_dimension_scores
  combine_present-IsRound c i s t h =
      let (a, assessed, rest) = >>=-eq-ok (assess_evidence i.evidence) _ h in
      ground (arith, assessed, rest, decision_ready_lem i.evidence assessed)

  combine_step-IsRound :
      (m : List (WindowScoreInput W)) (c : WindowWeight W) (s t : CombineState W)
      → combine_step m c s ≡ ok t
      → IsRound (lookup_window c.window m) s t
  unfolding combine_step skip_missing
  combine_step-IsRound m c s t h = elim (Option-cases (lookup_window c.window m)) [
    | inl e ↦ rw e (let h' = rw (e, combine_step) at h in ground arith)
    | inr (i, e) ↦ rw e (combine_present-IsRound c i s t (rw (e, combine_step) at h))
  ]

  pub record IsLoop (m : List (WindowScoreInput W)) (cs : List (WindowWeight W))
      (s t : CombineState W) : Type 0 where
    pub missing : t.missing_count ≡ s.missing_count + count_unusable m cs
    pub blocked : t.decision_blocked ≡ (s.decision_blocked || some_unready m cs)
    pub empty : is_empty t.usable ≡ (is_empty s.usable && not (some_usable m cs))
    pub rank : 2 ≤ s.lowest_rank → some_unready m cs ≡ false → 2 ≤ t.lowest_rank

  pub combine_loop-IsLoop :
      (m : List (WindowScoreInput W)) (cs : List (WindowWeight W)) (s t : CombineState W)
      → combine_loop m cs s ≡ ok t
      → IsLoop m cs s t
  unfolding combine_loop
  combine_loop-IsLoop m [] s t h = ground arith
  combine_loop-IsLoop m (c ∷ cs) s t h =
      let (u, first, rest) = >>=-eq-ok (combine_step m c s) (combine_loop m cs) h in
      ground (arith, combine_step-IsRound m c s u first, combine_loop-IsLoop m cs u t rest)
