-- ===== src/Evaluation/Types.antt =====
-- internal/domain/evaluation/types.go: fingerprints, references, policies and assessments. A map is
-- an association list without a key twice; a Go string type with constants is a data type.
use many_router.Base.{
  ℕ, ◌+◌, ◌%◌, ◌^◌, Bool, true, false, List, [], ◌∷◌, Text, codes, Option, none, some, ◌==◌, Uuid,
  Time,
}
use many_router.Base.Int.{ℤ, pos}
use many_router.Float.{Float64}

abbrev pub protocol_single_token_jsdv1 : Text
protocol_single_token_jsdv1 = codes "single_token_jsd_v1"

abbrev pub authenticity_policy_v1 : Text
authenticity_policy_v1 = codes "authenticity_v1"

pub data CellId : Type 0 where
  number_100_en number_100_zh number_10_en number_10_zh : CellId
  color_en color_zh coin_en coin_zh : CellId

-- protocolV1Cells, which RequiredCells copies.
unfoldable pub required_cells : List CellId
required_cells =
    number_100_en ∷ number_100_zh ∷ number_10_en ∷ number_10_zh ∷ color_en ∷ color_zh ∷ coin_en
    ∷ coin_zh ∷ []

abbrev pub cell_index : CellId → ℕ
cell_index number_100_en = 0
cell_index number_100_zh = 1
cell_index number_10_en = 2
cell_index number_10_zh = 3
cell_index color_en = 4
cell_index color_zh = 5
cell_index coin_en = 6
cell_index coin_zh = 7

pub record Distribution : Type 0 where
  pub counts : List (Text × ℕ)  -- map[string]uint64
  pub invalid_samples : ℕ

-- The sum of uint64 counts, which wraps around.
unfoldable pub sum_counts : ℕ → List (Text × ℕ) → ℕ
sum_counts total [] = total
sum_counts total (c ∷ cs) = sum_counts ((total + c.1) % 2 ^ 64) cs

unfoldable pub valid_samples : Distribution → ℕ
valid_samples d = sum_counts 0 d.counts

pub record Stability (W : Type 0) : Type 0 where
  pub measured : Bool
  pub distance : W

pub record Fingerprint (W : Type 0) : Type 0 where
  pub run_id : Text
  pub seed : ℕ
  pub protocol_version : Text
  pub collected_at : Time
  pub cells : List (CellId × Distribution)
  pub stability : Stability W

-- `fingerprint.Cells[cell]`
unfoldable pub find_cell : CellId → List (CellId × Distribution) → Option Distribution
find_cell cell [] = none
find_cell cell (c ∷ cs) =
    let rest = find_cell cell cs in
    elim (cell_index c.0 == cell_index cell) [ true ↦ some c.1 | false ↦ rest ]

pub record ModelSubject : Type 0 where
  pub supplier_id : Uuid
  pub model : Text

pub data ReferenceTrust : Type 0 where
  official operator_trusted community : ReferenceTrust
  other_trust : Text → ReferenceTrust

pub record ModelReference (W : Type 0) : Type 0 where
  pub id : Text
  pub revision : ℤ  -- int64
  pub trust : ReferenceTrust
  pub source : ModelSubject
  pub expires_at : Time
  pub fingerprint : Fingerprint W

-- r.CanEstablishAuthenticity()
unfoldable pub can_establish_authenticity : {W : Type 0} → ModelReference W → Bool
can_establish_authenticity r = by_trust r.trust
  where
    by_trust : ReferenceTrust → Bool
    by_trust official = true
    by_trust operator_trusted = true
    by_trust _ = false

pub data Verdict : Type 0 where
  insufficient consistent suspicious inconsistent : Verdict

pub data Confidence : Type 0 where
  no_confidence low medium high : Confidence

-- `no_reason` is the empty string, the value before the code sets one.
pub data Reason : Type 0 where
  no_reason no_trusted_reference reference_expired protocol_mismatch self_check_missing : Reason
  self_unstable insufficient_samples distance_match distance_uncertain : Reason
  distance_mismatch_unconfirmed distance_mismatch_confirmed : Reason

pub record FingerprintComparison (W : Type 0) : Type 0 where
  pub comparable : Bool
  pub reason : Reason
  pub mean_distance : W
  pub comparable_cells : ℕ
  pub cell_distances : List (CellId × W)

pub record MismatchEvidence (W : Type 0) : Type 0 where
  pub subject : ModelSubject
  pub target_run_id : Text
  pub target_seed : ℕ
  pub observed_at : Time
  pub reference_id : Text
  pub reference_revision : ℤ
  pub protocol_version : Text
  pub distance : W
  pub self_distance : W

pub record AuthenticityPolicy (W : Type 0) : Type 0 where
  pub version : Text
  pub minimum_samples_per_cell : ℕ
  pub match_maximum : W
  pub uncertain_maximum : W
  pub maximum_self_distance : W
  pub mismatch_confirmation_delay : ℤ  -- time.Duration, in nanoseconds

unfoldable pub default_authenticity_policy : {W : Type 0} ⦃f : Float64 W⦄ → AuthenticityPolicy W
default_authenticity_policy ⦃f⦄ = record {
  version = authenticity_policy_v1;
  minimum_samples_per_cell = 10;
  match_maximum = f.lit 25 2;
  uncertain_maximum = f.lit 35 2;
  maximum_self_distance = f.lit 35 2;
  mismatch_confirmation_delay = pos 1_800_000_000_000;
}

pub record AssessmentInput (W : Type 0) : Type 0 where
  pub subject : ModelSubject
  pub target : Fingerprint W
  pub reference : Option (ModelReference W)
  pub prior_mismatch : Option (MismatchEvidence W)
  pub assessed_at : Time

pub record AuthenticityAssessment (W : Type 0) : Type 0 where
  pub policy_version : Text
  pub verdict : Verdict
  pub confidence : Confidence
  pub reason : Reason
  pub assessed_at : Time
  pub comparison : FingerprintComparison W

pub data EvaluationError : Type 0 where
  invalid_policy invalid_assessment_input invalid_fingerprint invalid_distribution : EvaluationError
