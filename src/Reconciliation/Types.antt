-- ===== src/Reconciliation/Types.antt =====
-- The data of internal/application/reconciliation: gateway.go and operation.go. The message and the
-- cause of a Failure are not kept.
use Prim.Native.String.{String}
use many_router.Base.{
  ℕ, Bool, true, false, List, [], ◌∷◌, Text, Map, Option, Uuid, Time, if◌then◌else◌, ◌&&◌,
}
use many_router.Base.Int.{ℤ, leb_ℤ}
use many_router.Site.{Site}
use many_router.Routing.Types.{Snapshot, Plan, ManagedChannel, DesiredChannel, DesiredGroup}
use many_router.Credential

pub data FailureKind : Type 0 where
  configuration authentication compatibility retryable uncertain ownership manual_lock : FailureKind
  other_failure : Text → FailureKind

pub record Failure : Type 0 where
  pub kind : FailureKind
  pub code : String

abbrev pub failure : FailureKind → String → Failure
failure kind code = record { kind = kind; code = code }

-- An error: a *Failure that errors.As finds in it, or another one.
pub data Error : Type 0 where
  failed : Failure → Error
  other_error : String → Error

pub data ChannelStatus : Type 0 where
  enabled manually_disabled auto_disabled unknown : ChannelStatus
  other_status : Text → ChannelStatus

pub record ActualChannel : Type 0 where
  pub id : ℤ  -- int64
  pub managed_tag : Text
  pub name : Text
  pub protocol : Text
  pub base_url : Text
  pub models : List Text
  pub model_mapping : Map Text
  pub groups : List Text
  pub priority : ℤ  -- int64
  pub weight : ℤ  -- int
  pub status : ChannelStatus
  pub credential_version : ℤ  -- int32

pub record ActualState : Type 0 where
  pub version : Text
  pub group_ratios : Map Text
  pub user_usable_groups : Map Text
  pub channels : List ActualChannel

pub record StatusCodeRange : Type 0 where
  pub start : ℤ
  pub finish : ℤ

pub record RetryPolicy : Type 0 where
  pub retry_times : ℤ
  pub status_codes : List StatusCodeRange

-- policy.AllowsStatus(code)
unfoldable pub allows_status : List StatusCodeRange → ℤ → Bool
allows_status [] code = false
allows_status (candidate ∷ ranges) code =
    let rest = allows_status ranges code in
    if leb_ℤ candidate.start code && leb_ℤ code candidate.finish then true else rest

pub data OperationStatus : Type 0 where
  pending running uncertain succeeded retryable_failed manual_required superseded : OperationStatus
  other_operation : Text → OperationStatus

-- Of an Operation, what the service reads.
pub record Operation : Type 0 where
  pub id : Uuid
  pub site_id : Uuid
  pub relation_id : Uuid
  pub route_plan_id : Uuid
  pub status : OperationStatus
  pub attempt : ℤ

pub record ResourceBundle : Type 0 where
  pub snapshot : Snapshot
  pub managed_channel : ManagedChannel
  pub supplier_credential : Credential.Record
  pub credential_available : Bool

pub record Bundle : Type 0 where
  pub operation : Operation
  pub site : Site
  pub plan : Plan
  pub managed_channel : ManagedChannel
  pub admin_credential : Credential.Record
  pub supplier_credential : Credential.Record
  pub current_plan_id : Uuid
  pub resources : List ResourceBundle

pub record ResourceConfirmation : Type 0 where
  pub resource : ResourceBundle
  pub external_channel_id : Option ℤ
  pub credential_applied : Bool

pub data StepStatus : Type 0 where
  succeeded failed uncertain : StepStatus

-- Of a StepRecord, all but the values before and after and the message.
pub record StepRecord : Type 0 where
  pub operation_id : Uuid
  pub key : Text
  pub status : StepStatus
  pub error_code : String
  pub started_at : Time
  pub finished_at : Time

pub record FailureRecord : Type 0 where
  pub operation_id : Uuid
  pub site_id : Uuid
  pub relation_id : Uuid
  pub route_plan_id : Uuid
  pub kind : FailureKind
  pub step : Text
  pub code : String
  pub next_attempt_at : Option Time
  pub occurred_at : Time

pub record ManagedSyncFeatures : Type 0 where
  pub atomic_apply : Bool
  pub managed_channels : Bool
  pub multiple_groups : Bool
  pub group_ratios : Bool
  pub entry_visibility : Bool
  pub persistent_idempotency : Bool
  pub final_state_digest : Bool
  pub log_read : Bool

pub record ManagedSyncLimits : Type 0 where
  pub max_channels : ℤ
  pub max_groups : ℤ
  pub max_models : ℤ
  pub max_group_key_bytes : ℤ
  pub max_request_bytes : ℤ

-- Of a ManagedSyncCapabilities, all but the retry policy. The billing basis is its number of entries.
pub record ManagedSyncCapabilities : Type 0 where
  pub contract_version : Text
  pub new_api_version : Text
  pub database_type : Text
  pub features : ManagedSyncFeatures
  pub limits : ManagedSyncLimits
  pub billing_basis_entries : ℕ
  pub billing_basis_hash : Text

pub record ManagedSyncState : Type 0 where
  pub state_hash : Text
  pub billing_basis_hash : Text
  pub actual : ActualState
  pub conflicts : List Text

pub record ManagedSyncChannel : Type 0 where
  pub desired : DesiredChannel
  pub api_key : List ℕ
  pub resume : Bool

pub record ManagedSyncRequest : Type 0 where
  pub operation_id : Uuid
  pub route_plan_version : ℤ
  pub expected_state_hash : Text
  pub channels : List ManagedSyncChannel
  pub groups : List DesiredGroup
