-- ===== src/Scoring/Windows/Readiness.antt =====
-- When CombineWindowScores of internal/domain/scoring/windows.go has a score and when it is ready
-- for a decision, stated on the inputs themselves.
use many_router.Base.{
  ◌≡◌, refl, ℕ, ◌≤◌, true, false, not, Option, some, none, List, [], ◌∷◌, ok, arith, leb, >>=-eq-ok,
  inl, inr, Result-cases,
}
use many_router.Base.Int.{pos}
use many_router.Float.{Float64}
use many_router.Scoring.Types.{
  WindowWeight, window_15_minutes, confidence_rank, confidence_from_rank, lower_confidence,
  default_window_weights,
}
use many_router.Scoring.Evidence.{assess_evidence}
use many_router.Scoring.Evidence.Laws.{decision_ready_lem}
use many_router.Scoring.Windows.{
  WindowScoreInput, CombinedWindowScore, lookup_window, index_windows, combine_loop, start_combine,
  unavailable, weighted, combine_window_scores,
}
use many_router.Scoring.Windows.Laws.{
  lookup-index_windows, is_usable, is_ready, count_unusable, some_usable, some_unready,
  combine_loop-IsLoop,
}

lower_by_none :
    (r : ℕ)
    → 2 ≤ r
    → leb 2 (confidence_rank (lower_confidence (confidence_from_rank (pos r)) 0)).0 ≡ true
unfolding confidence_rank lower_confidence confidence_from_rank
lower_by_none r h = ground arith

module _ {W : Type 0} where
  is_usable_of_ready : (o : Option (WindowScoreInput W)) → is_ready o ≡ true → is_usable o ≡ true
  is_usable_of_ready none h = h
  is_usable_of_ready (some i) h = elim (Result-cases (assess_evidence i.evidence)) [
    | inl (a, e) ↦ ground (arith, e, decision_ready_lem i.evidence e)
    | inr (e, p) ↦ ground (arith, p)
  ]

  count_unusable_zero :
      (m : List (WindowScoreInput W)) (cs : List (WindowWeight W))
      → some_unready m cs ≡ false
      → count_unusable m cs ≡ 0
  count_unusable_zero m [] h = refl
  count_unusable_zero m (c ∷ cs) h =
      ground (arith, is_usable_of_ready (lookup_window c.window m), count_unusable_zero m cs)

  module _ (inputs m : List (WindowScoreInput W)) (indexed : index_windows inputs [] ≡ ok m) where
    some_usable-indexed : (cs : List (WindowWeight W)) → some_usable m cs ≡ some_usable inputs cs
    unfolding lookup_window
    some_usable-indexed [] = refl
    some_usable-indexed (c ∷ cs) =
        ground (arith, some_usable-indexed cs, lookup-index_windows inputs [] m c.window indexed)

    some_unready-indexed : (cs : List (WindowWeight W)) → some_unready m cs ≡ some_unready inputs cs
    unfolding lookup_window
    some_unready-indexed [] = refl
    some_unready-indexed (c ∷ cs) =
        ground (arith, some_unready-indexed cs, lookup-index_windows inputs [] m c.window indexed)

module _ {W : Type 0} ⦃f : Float64 W⦄ where
  unready_of_unusable :
      (m : List (WindowScoreInput W))
      → some_usable m default_window_weights ≡ false
      → some_unready m default_window_weights ≡ true
  unfolding default_window_weights
  unready_of_unusable m h = ground (arith, is_usable_of_ready (lookup_window window_15_minutes m))

  -- When the combination succeeds, a score is available exactly if some configured window has an
  -- input that is complete with usable evidence, and it is ready for a decision exactly if all
  -- three windows have an input that is complete with evidence ready for a decision.
  pub combine_window_scores-readiness :
      (inputs : List (WindowScoreInput W)) {r : CombinedWindowScore W}
      → combine_window_scores inputs ≡ ok r
      → (r.available ≡ some_usable inputs default_window_weights)
        × (r.decision_ready ≡ not (some_unready inputs default_window_weights))
  unfolding combine_window_scores unavailable weighted
  combine_window_scores-readiness inputs h =
      let (m, indexed, rest) = >>=-eq-ok (index_windows inputs []) _ h in
      let (t, looped, last) =
        >>=-eq-ok (combine_loop m default_window_weights start_combine) _ rest in
      ground (
        arith,
        last,
        some_usable-indexed inputs m indexed default_window_weights,
        some_unready-indexed inputs m indexed default_window_weights,
        combine_loop-IsLoop m default_window_weights start_combine t looped,
        count_unusable_zero m default_window_weights,
        lower_by_none t.lowest_rank,
        unready_of_unusable m,
      )
