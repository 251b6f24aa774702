-- ===== src/Routing/Types.antt =====
-- The data of internal/domain/routing: relation.go, plan.go, snapshot.go and site_snapshot.go.
use many_router.Base.{
  ℕ, Bool, List, [], ◌∷◌, ◌++◌, map, Text, Option, Uuid, Time, sort_by, text_lt, text_eq,
  if◌then◌else◌, ◌==◌,
}
use many_router.Base.Int.{ℤ}

pub data DesiredStatus : Type 0 where
  observing enabled disabled : DesiredStatus
  other_desired : Text → DesiredStatus

pub data SyncStatus : Type 0 where
  pending syncing active failed manual_locked : SyncStatus
  other_sync : Text → SyncStatus

pub record Relation (D : Type 0) : Type 0 where
  pub id : Uuid
  pub site_id : Uuid
  pub supplier_id : Uuid
  pub group_key : Text
  pub group_display_name : Text
  pub sale_ratio : D
  pub visible : Bool
  pub desired_status : DesiredStatus
  pub sync_status : SyncStatus
  pub version : ℤ  -- int64
  pub current_plan_id : Uuid
  pub current_plan_version : ℤ  -- int64
  pub last_confirmed_at : Option Time
  pub created_at : Time
  pub updated_at : Time

pub record ManagedChannel : Type 0 where
  pub id : Uuid
  pub relation_id : Uuid
  pub managed_tag : Text
  pub external_channel_id : Option ℤ  -- *int64
  pub last_confirmed_plan_version : Option ℤ  -- *int64
  pub last_confirmed_credential_id : Uuid
  pub last_confirmed_credential_version : ℤ  -- int32
  pub last_confirmed_enabled : Option Bool
  pub created_at : Time
  pub updated_at : Time

abbrev pub snapshot_schema_version : ℕ
snapshot_schema_version = 1

abbrev pub site_snapshot_schema_version : ℕ
site_snapshot_schema_version = 2

pub record ModelRoute : Type 0 where
  pub model : Text
  pub upstream_model : Text

pub record DesiredGroup : Type 0 where
  pub key : Text
  pub display_name : Text
  pub sale_ratio : Text
  pub visible : Bool

pub record DesiredChannel : Type 0 where
  pub id : Uuid
  pub managed_tag : Text
  pub name : Text
  pub protocol : Text
  pub base_url : Text
  pub credential_id : Uuid
  pub credential_version : ℤ  -- int32
  pub models : List ModelRoute
  pub group_key : Text
  pub extra_group_keys : List Text
  pub priority : ℤ  -- int64
  pub weight : ℤ  -- int
  pub desired_status : DesiredStatus

pub record StrategyReference : Type 0 where
  pub id : Uuid
  pub version : ℤ  -- int64

-- Every field of a Snapshot but its resources, which are snapshots again.
pub record SnapshotFields : Type 0 where
  pub schema_version : ℕ  -- int; a negative one is treated as any other that is neither 1 nor 2
  pub site_id : Uuid
  pub relation_id : Uuid
  pub supplier_id : Uuid
  pub group : DesiredGroup
  pub channel : DesiredChannel
  pub auto_groups : List DesiredGroup
  pub resume_relation_ids : List Uuid
  pub billing_basis_hash : Text
  pub price_version_ids : List Uuid
  pub strategy_versions : List StrategyReference

mutual
  pub data Snapshot : Type 0 where
    snapshot : SnapshotFields → Resources → Snapshot

  pub data Resources : Type 0 where
    no_resources : Resources
    resource : Snapshot → Resources → Resources

abbrev pub fields : Snapshot → SnapshotFields
fields (snapshot f r) = f

abbrev pub to_list : Resources → List Snapshot
to_list no_resources = []
to_list (resource s r) = s ∷ to_list r

-- snapshot.Resources
abbrev pub resources : Snapshot → List Snapshot
resources (snapshot f r) = to_list r

pub data PlanStatus : Type 0 where
  pending applying confirmed failed uncertain superseded : PlanStatus
  other_plan : Text → PlanStatus

pub record Plan : Type 0 where
  pub id : Uuid
  pub site_id : Uuid
  pub relation_id : Uuid
  pub version : ℤ  -- int64
  pub previous_plan_id : Option Uuid
  pub reason : Text
  pub snapshot : Snapshot
  pub snapshot_json : List ℕ
  pub content_hash : Text
  pub status : PlanStatus
  pub created_at : Time
  pub confirmed_at : Option Time

-- slices.Compact: of equal neighbours the first.
unfoldable pub compact : List Text → List Text
compact [] = []
compact (s ∷ []) = s ∷ []
compact (s ∷ t ∷ ss) = let rest = compact (t ∷ ss) in if text_eq s t then rest else s ∷ rest

-- channel.GroupKeys()
unfoldable pub group_keys : DesiredChannel → List Text
group_keys channel = compact (sort_by text_lt (channel.group_key ∷ channel.extra_group_keys))

-- snapshot.ResourceSnapshots()
unfoldable pub resource_snapshots : Snapshot → List Snapshot
resource_snapshots s =
    if (fields s).schema_version == site_snapshot_schema_version then resources s else s ∷ []

-- snapshot.Groups()
unfoldable pub groups : Snapshot → List DesiredGroup
groups s = map (λ r. (fields r).group) (resource_snapshots s) ++ (fields s).auto_groups
