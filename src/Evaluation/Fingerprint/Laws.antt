-- ===== src/Evaluation/Fingerprint/Laws.antt =====
-- What a comparison of fingerprints has looked at (CompareFingerprints of
-- internal/domain/evaluation/fingerprint.go, JensenShannon of distance.go).
use many_router.Base.{
  ◌+◌, ◌≤◌, true, false, not, ◌||◌, List, [], ◌∷◌, ◌++◌, map, Text, Option, none, some, text_eq,
  text_eq_iff, is_empty, Result, ok, ◌>>◌, reject, ◌≡◌, refl, All, arith, length, >>=-eq-ok,
  ok-injective, sym, ap, ◌∙◌, if◌then◌else◌,
}
use mathlib.Core.List.{append_assoc, append-nil}
use many_router.Float.{Float64, IsFloat64, le_of_not_lt}
use many_router.Evaluation.Types.{
  CellId, required_cells, Distribution, valid_samples, Fingerprint, find_cell,
  FingerprintComparison, AuthenticityPolicy, protocol_mismatch, EvaluationError,
  invalid_fingerprint, protocol_single_token_jsdv1,
}
use many_router.Evaluation.Distance.{jensen_shannon, check_divergence, distribution_total}
use many_router.Evaluation.Fingerprint.{
  valid_distance, validate_policy, no_comparison, usable_cell, cell_distance, on_cell, add_cell,
  compare_cells, compare_fingerprints,
}

module _ {W : Type 0} ⦃f : Float64 W⦄ where
  open f use {lit, of_nat, add, div, lt, le, finite}

  -- The two fingerprints have the cell, with enough samples in each.
  pub record HasSamples (reference target : Fingerprint W) (policy : AuthenticityPolicy W)
      (cell : CellId) : Type 0 where
    pub of_reference : Distribution
    pub of_target : Distribution
    pub in_reference : find_cell cell reference.cells ≡ some of_reference
    pub in_target : find_cell cell target.cells ≡ some of_target
    pub reference_enough : policy.minimum_samples_per_cell ≤ valid_samples of_reference
    pub target_enough : policy.minimum_samples_per_cell ≤ valid_samples of_target

  usable_cell-HasSamples :
      (reference target : Fingerprint W) (policy : AuthenticityPolicy W) (cell : CellId)
      (r t : Option Distribution)
      → find_cell cell reference.cells ≡ r
      → find_cell cell target.cells ≡ t
      → (pair : Distribution × Distribution) → usable_cell policy r t ≡ some pair
      → HasSamples reference target policy cell
  unfolding usable_cell
  usable_cell-HasSamples reference target policy cell (some r) (some t) hr ht pair h = record {
    of_reference = r;
    of_target = t;
    in_reference = hr;
    in_target = ht;
    reference_enough = ground arith;
    target_enough = ground arith;
  }
  usable_cell-HasSamples reference target policy cell none t hr ht pair h = cc
  usable_cell-HasSamples reference target policy cell (some r) none hr ht pair h = cc

  -- The total of the distances, in the order of the cells.
  abbrev pub distance_total : W → List (CellId × W) → W
  distance_total total [] = total
  distance_total total (c ∷ cs) = distance_total (add total c.1) cs

  module _ (log2 : W → W) (range : List Text → List Text) where
    on_cell-comparable :
        (o : Option (Distribution × Distribution)) (c : FingerprintComparison W)
        (rest : W → Result EvaluationError (FingerprintComparison W)) {r : FingerprintComparison W}
        → c.comparable ≡ false
        → r.comparable ≡ true
        → on_cell log2 range o c rest ≡ ok r
        → (pair : Distribution × Distribution) × (o ≡ some pair) × (d : W) × (rest d ≡ ok r)
    unfolding on_cell
    on_cell-comparable none c rest h k e = ground arith
    on_cell-comparable (some pair) c rest h k e =
        let (d, _, looped) = >>=-eq-ok (cell_distance log2 range pair) rest e in
        (pair, refl, d, looped)

    -- A comparison that ran through all the cells.
    compare_cells_lem :
        (reference target : Fingerprint W) (policy : AuthenticityPolicy W)
        (c : FingerprintComparison W) (total : W) (cells : List CellId)
        {r : FingerprintComparison W}
        → c.comparable ≡ false
        → r.comparable ≡ true
        → compare_cells log2 range reference target policy c total cells ≡ ok r
        → (ds : List (CellId × W)) × (r.cell_distances ≡ c.cell_distances ++ ds)
          × (map (λ d. d.0) ds ≡ cells)
          × (r.mean_distance ≡ div (distance_total total ds) (of_nat (length required_cells)))
          × (r.comparable_cells ≡ c.comparable_cells + length cells)
          × All (HasSamples reference target policy) cells
    unfolding compare_cells
    compare_cells_lem reference target policy c total [] h k e =
        rw (← ok-injective e) ([], sym (append-nil c.cell_distances), refl, refl, omega arith, tt)
    compare_cells_lem reference target policy c total (cell ∷ cells) {r = r} h k e =
        let r_cell = find_cell cell reference.cells in
        let t_cell = find_cell cell target.cells in
        let (pair, usable, d, rest) =
          on_cell-comparable (usable_cell policy r_cell t_cell) c _ {r = r} h k e in
        let (ds, all, names, mean, count, enough) =
          compare_cells_lem reference target policy (add_cell log2 range c cell d) (add total d)
            cells {r = r} h k rest in
        (
          (cell, d) ∷ ds,
          all ∙ append_assoc c.cell_distances ((cell, d) ∷ []) ds,
          ap (λ t. cell ∷ t) names,
          mean,
          omega (arith, count),
          (
            usable_cell-HasSamples reference target policy cell r_cell t_cell refl refl pair usable,
            enough,
          ),
        )

    -- The protocols of a comparable comparison are one, and known.
    both_known :
        (reference target : Fingerprint W) (loop : Result EvaluationError (FingerprintComparison W))
        {r : FingerprintComparison W}
        → r.comparable ≡ true
        → (if not (text_eq reference.protocol_version target.protocol_version)
            then ok (record no_comparison { reason = protocol_mismatch })
            else reject
                (not (text_eq reference.protocol_version protocol_single_token_jsdv1))
                invalid_fingerprint
              >> loop)
          ≡ ok r
        → (text_eq reference.protocol_version target.protocol_version ≡ true)
          × (text_eq reference.protocol_version protocol_single_token_jsdv1 ≡ true)
          × (loop ≡ ok r)
    unfolding no_comparison
    both_known reference target loop {r = r} k h = ground arith

    -- A comparison that is returned as comparable: the policy is valid, both fingerprints are of the
    -- one protocol, each has enough samples in each of the eight cells, every cell has its distance,
    -- in the order of the protocol, and the mean is their total over eight.
    pub compare_fingerprints-comparable :
        (reference target : Fingerprint W) (policy : AuthenticityPolicy W)
        {r : FingerprintComparison W}
        → compare_fingerprints log2 range reference target policy ≡ ok r
        → r.comparable ≡ true
        → (validate_policy policy ≡ ok tt)
          × (reference.protocol_version ≡ protocol_single_token_jsdv1)
          × (target.protocol_version ≡ protocol_single_token_jsdv1)
          × (map (λ d. d.0) r.cell_distances ≡ required_cells)
          × (r.mean_distance
              ≡ div (distance_total (lit 0 0) r.cell_distances) (of_nat (length required_cells)))
          × (r.comparable_cells ≡ length required_cells)
          × All (HasSamples reference target policy) required_cells
    unfolding compare_fingerprints no_comparison required_cells
    compare_fingerprints-comparable reference target policy {r = r} h k =
        let (_, policed, rest) = >>=-eq-ok (validate_policy policy) _ h in
        let (_, _, last) =
          >>=-eq-ok
            (reject (is_empty reference.protocol_version || is_empty target.protocol_version)
              invalid_fingerprint)
            _ rest in
        let (same, known, looped) = both_known reference target _ {r = r} k last in
        let (ds, all, names, mean, count, enough) =
          compare_cells_lem reference target policy no_comparison (lit 0 0) required_cells {r = r}
            refl k looped in
        let p = (text_eq_iff reference.protocol_version protocol_single_token_jsdv1).0 known in
        (
          policed,
          p,
          sym ((text_eq_iff reference.protocol_version target.protocol_version).0 same) ∙ p,
          ap (map λ d. d.0) all ∙ names,
          mean
              ∙ ap (λ l. div (distance_total (lit 0 0) l) (of_nat (length required_cells)))
                  (sym all),
          count,
          enough,
        )

module _ {W : Type 0} ⦃f : Float64 W⦄ (laws : IsFloat64 W) where
  open f use {lit, lt, le, finite}
  open laws use {finite_num, lit_finite, lit_mono}

  -- What check_divergence lets through.
  check_divergence-valid : (x : W) {d : W} → check_divergence x ≡ ok d → valid_distance d ≡ true
  unfolding check_divergence valid_distance
  check_divergence-valid x h =
      let zero_fin = lit_finite 0 0 (omega arith) in
      let one_fin = lit_finite 1 0 (omega arith) in
      ground (
        arith,
        zero_fin,
        one_fin,
        finite_num _ zero_fin,
        finite_num _ one_fin,
        finite_num x,
        lit_mono 0 0 1 0 (omega arith),
        le_of_not_lt laws x (lit 0 0),
        le_of_not_lt laws (lit 1 0) x,
      )

  -- A distance that the code returns is a number from 0 to 1, whatever math.Log2 gives and in
  -- whatever order the maps are visited.
  pub jensen_shannon-valid :
      (log2 : W → W) (range : List Text → List Text) (left right : Distribution) {d : W}
      → jensen_shannon log2 range left right ≡ ok d
      → valid_distance d ≡ true
  unfolding jensen_shannon
  jensen_shannon-valid log2 range left right h =
      let (l, _, rest) = >>=-eq-ok (distribution_total range left) _ h in
      let (r, _, last) = >>=-eq-ok (distribution_total range right) _ rest in
      check_divergence-valid _ last
