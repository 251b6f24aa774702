-- ===== src/Evaluation/Distance.antt =====
-- internal/domain/evaluation/distance.go: the Jensen-Shannon distance of two distributions. `range`
-- is the order in which Go visits the keys of a map, which the language leaves open, and `log2` is
-- math.Log2.
use many_router.Base.{
  ℕ, not, ◌&&◌, ◌||◌, List, [], ◌∷◌, ◌++◌, map, select, Text, text_eq, contains_text, is_empty,
  Result, ok, err, ◌>>=◌, ◌>>◌, reject, if◌then◌else◌,
}
use many_router.Float.{Float64}
use many_router.Evaluation.Types.{Distribution, EvaluationError, invalid_distribution}

-- `counts[key]`, which is 0 for a key that is not there.
unfoldable pub count_of : Text → List (Text × ℕ) → ℕ
count_of key [] = 0
count_of key (c ∷ cs) = let rest = count_of key cs in if text_eq c.0 key then c.1 else rest

abbrev pub answers : Distribution → List Text
answers d = map (λ c. c.0) d.counts

-- The keys of the two maps.
abbrev pub all_answers : Distribution → Distribution → List Text
all_answers left right =
    answers left ++ select (λ a. not (contains_text a (answers left))) (answers right)

module _ {W : Type 0} ⦃f : Float64 W⦄ where
  open f use {lit, of_nat, add, sub, mul, div, lt, le, finite}

  -- The loop of distributionTotal over the answers.
  unfoldable pub sum_total : Distribution → W → List Text → Result EvaluationError W
  sum_total d total [] = ok total
  sum_total d total (answer ∷ answers) = do
    reject (is_empty answer) invalid_distribution
    sum_total d (add total (of_nat (count_of answer d.counts))) answers

  -- The tests on the sum: rounding errors past the ends are cut off.
  unfoldable pub check_divergence : W → Result EvaluationError W
  check_divergence divergence =
      if lt divergence (lit 0 0) && lt (sub (lit 0 0) (lit 1 12)) divergence
      then ok (lit 0 0)
      else if lt (lit 1 0) divergence && lt divergence (lit 1_000_000_000_001 12)
      then ok (lit 1 0)
      else if not (finite divergence) || lt divergence (lit 0 0) || lt (lit 1 0) divergence
      then err invalid_distribution
      else ok divergence

  module _ (log2 : W → W) where
    -- 0.5 * p * math.Log2(p/middle), where p is positive.
    unfoldable pub divergence_term : W → W → W → W
    divergence_term divergence probability middle =
        if lt (lit 0 0) probability
        then add divergence (mul (mul (lit 5 1) probability) (log2 (div probability middle)))
        else divergence

    unfoldable pub sum_divergence : Distribution → Distribution → W → W → W → List Text → W
    sum_divergence left right left_total right_total divergence [] = divergence
    sum_divergence left right left_total right_total divergence (key ∷ keys) =
        let left_probability = div (of_nat (count_of key left.counts)) left_total in
        let right_probability = div (of_nat (count_of key right.counts)) right_total in
        let middle = div (add left_probability right_probability) (lit 2 0) in
        sum_divergence left right left_total right_total
          (divergence_term (divergence_term divergence left_probability middle) right_probability
            middle)
          keys

  module _ (range : List Text → List Text) where
    unfoldable pub distribution_total : Distribution → Result EvaluationError W
    distribution_total d = do
      total ← sum_total d (lit 0 0) (range (answers d))
      reject (le total (lit 0 0) || (lt (lit 0 0) total && not (finite total))) invalid_distribution
      ok total

  module _ (log2 : W → W) (range : List Text → List Text) where
    unfoldable pub jensen_shannon : Distribution → Distribution → Result EvaluationError W
    jensen_shannon left right = do
      left_total ← distribution_total range left
      right_total ← distribution_total range right
      check_divergence (
          sum_divergence log2 left right left_total right_total (lit 0 0)
            (range (all_answers left right)))
