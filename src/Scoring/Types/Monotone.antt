-- ===== src/Scoring/Types/Monotone.antt =====
-- A better score in any dimension never lowers the composite score
-- (CompositeScore of internal/domain/scoring/types.go).
use many_router.Base.{◌≡◌, true, ok, arith}
use many_router.Float.{Float64, IsFloat64, ◌≼◌}
use many_router.Scoring.Types.{
  DimensionScores, AutoWeights, valid_score, clamp_score, composite_score,
}
use many_router.Scoring.Types.Bounds.{
  valid_score_parts, zero_valid, hundred_valid, validate_dimension_scores-ok, weighted_nonneg,
  IsWeight, weigh, composite_score_inv,
}

-- No dimension of the first scores is above that of the second.
pub record IsBelow {W : Type 0} ⦃f : Float64 W⦄ (s t : DimensionScores W) : Type 0 where
  pub price : s.price ≼ t.price
  pub latency : s.latency ≼ t.latency
  pub sla : s.sla ≼ t.sla
  pub quality : s.quality ≼ t.quality

module _ {W : Type 0} ⦃f : Float64 W⦄ (laws : IsFloat64 W) where
  open f use {lit, add, mul, lt, le, finite}
  open laws use {num_of_le, le_trans, lt-eq-not-le, le_total, add_mono, mul_mono, add_nonneg}

  clamp_score-mono : (x y : W) → x ≼ y → clamp_score x ≼ clamp_score y
  unfolding clamp_score
  clamp_score-mono x y h =
      let (nx, ny) = num_of_le x y h in
      let (_, zero_low, zero_high) = valid_score_parts laws _ (zero_valid laws) in
      let (_, hundred_low, hundred_high) = valid_score_parts laws _ (hundred_valid laws) in
      ground (
        arith,
        lt-eq-not-le x (lit 0 0) nx zero_low,
        lt-eq-not-le y (lit 0 0) ny zero_low,
        lt-eq-not-le (lit 100 0) x hundred_high nx,
        lt-eq-not-le (lit 100 0) y hundred_high ny,
        le_total x (lit 0 0) nx zero_low,
        le_total y (lit 0 0) ny zero_low,
        le_total (lit 100 0) x hundred_high nx,
        le_total (lit 100 0) y hundred_high ny,
        le_trans x y (lit 0 0) h,
        le_trans (lit 100 0) x y,
        le_trans (lit 100 0) y (lit 0 0),
      )

  weighted_mono :
      (x y w : W)
      → valid_score x ≡ true
      → valid_score y ≡ true
      → IsWeight laws w
      → x ≼ y
      → mul x w ≼ mul y w
  weighted_mono x y w vx vy k h =
      mul_mono x y w (valid_score_parts laws y vy).0 k.0 (valid_score_parts laws x vx).1 k.1 h

  -- With the same weights, scores that are nowhere lower give a composite score that is not lower.
  pub composite_score-mono :
      (s t : DimensionScores W) (w : AutoWeights W) {c d : W}
      → IsBelow s t
      → composite_score s w ≡ ok c
      → composite_score t w ≡ ok d
      → c ≼ d
  composite_score-mono s t w b h k =
      let (vs, weights, e) = composite_score_inv laws s w h in
      let (vt, _, e') = composite_score_inv laws t w k in
      let (p, l, a, q) = validate_dimension_scores-ok laws s vs in
      let (p', l', a', q') = validate_dimension_scores-ok laws t vt in
      let (wp, (wl, (wa, (wq, _)))) = weights in
      let np = weighted_nonneg laws _ _ p wp in
      let nl = weighted_nonneg laws _ _ l wl in
      let na = weighted_nonneg laws _ _ a wa in
      let nq = weighted_nonneg laws _ _ q wq in
      rw (e, e')
        (clamp_score-mono (weigh laws s w) (weigh laws t w) (
          add_mono _ _ _ _ (add_nonneg _ _ (add_nonneg _ _ np nl) na) nq
            (add_mono _ _ _ _ (add_nonneg _ _ np nl) na
              (add_mono _ _ _ _ np nl (weighted_mono _ _ _ p p' wp b.price)
                (weighted_mono _ _ _ l l' wl b.latency))
              (weighted_mono _ _ _ a a' wa b.sla))
            (weighted_mono _ _ _ q q' wq b.quality)))
