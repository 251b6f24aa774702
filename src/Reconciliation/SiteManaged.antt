-- ===== src/Reconciliation/SiteManaged.antt =====
-- tryRunManagedSite and runManagedSite of internal/application/reconciliation/site_managed_sync.go: the
-- synchronization of a site in one call of New API; and runSite of site_service.go.
pub mod Completion
pub mod Quiet
pub mod Batch
use many_router.Base.{
  ℕ, Bool, true, false, not, ◌&&◌, ◌||◌, List, [], ◌∷◌, ◌==◌, length, is_empty, member, Text, codes,
  text_eq, Option, none, some, Uuid, Time, Result, ok, err, if◌then◌else◌,
}
use many_router.Base.Int.{eq_ℤ}
use many_router.Packages.{DecimalPackage}
use many_router.Routing.Types.{fields, resources, groups}
use many_router.Reconciliation.Types.{
  compatibility, ownership, FailureKind.configuration, Failure, failure, Error, Error.failed,
  other_error, ActualChannel, ActualState, Bundle, ResourceBundle, ManagedSyncChannel,
  ManagedSyncRequest, ManagedSyncCapabilities, ManagedSyncState,
}
use many_router.Reconciliation.Actions.{
  start_operation, decrypt, read_managed_sync_capabilities, managed_sync_approved,
  read_managed_state, apply_managed_state, confirm_resource, confirm_site_prices,
  complete_site_operation, Environment, Action, pure, return_with, return_if, call, or_return,
  ◌>>=◌, ◌>>◌, now, perform,
}
use many_router.Reconciliation.Attempts
use many_router.Reconciliation.Steps.{
  finish_failure, or_fail, or_fail_with, as_error, record_or_return,
}
use many_router.Reconciliation.Diff.{locate_managed_channel}
use many_router.Reconciliation.SiteVerify.{
  verify_site_state, is_desired, validate_managed_sync_capabilities, managed_sync_legacy_fallback,
}
use many_router.Reconciliation.Resource.{resource_step, unavailable, desired_of, id_of}
use many_router.Reconciliation.Single.{make_gateway, attempted}
use many_router.Reconciliation.SiteRun.{or_fail_resource, basis_of, run_legacy_site}

-- `if !test { return s.finishFailure(...) }`
unfoldable pub require_or_fail : Environment → Bundle → Text → Bool → Failure → Action (Unit {0})
require_or_fail env bundle step true f = pure tt
require_or_fail env bundle step false f = finish_failure env bundle step (failed f)

abbrev pub with_version : ManagedSyncState → Text → ManagedSyncState
with_version s version = record s { actual = record s.actual { version = version } }

-- The last channel with the tag.
unfoldable pub with_tag : Text → List ActualChannel → Option ActualChannel
with_tag tag [] = none
with_tag tag (c ∷ channels) = or_this (with_tag tag channels)
  where
    or_this : Option ActualChannel → Option ActualChannel
    or_this (some found) = some found
    or_this none = if text_eq c.managed_tag tag then some c else none

-- A channel with another credential version, or none, was there before.
abbrev pub has_old_credential : ResourceBundle → Option ActualChannel → Bool
has_old_credential r none = true
has_old_credential r (some c) = not (eq_ℤ c.credential_version (desired_of r).credential_version)

abbrev pub request_of : Bundle → ManagedSyncState → List ManagedSyncChannel → ManagedSyncRequest
request_of bundle before channels = record {
  operation_id = bundle.operation.id;
  route_plan_version = bundle.plan.version;
  expected_state_hash = before.state_hash;
  channels = channels;
  groups = groups bundle.plan.snapshot;
}

module _ {D : Type 0} (decimal : DecimalPackage D) (uuid_string : Uuid → Text) where
  unfoldable pub resource_secret : Environment → Bundle → ResourceBundle → Bool → Action (List ℕ)
  resource_secret env bundle r false = pure []
  resource_secret env bundle r true =
      or_fail_resource uuid_string env bundle r "managed_sync_credential"
        (Attempts.ask_or unavailable (decrypt r.supplier_credential) env.decrypt)

  -- The channels of the request.
  unfoldable pub request_channels :
      Environment → Bundle → List ResourceBundle → Action (List ManagedSyncChannel)
  request_channels env bundle [] = pure []
  request_channels env bundle (r ∷ rs) = do
    or_fail_resource uuid_string env bundle r "managed_sync_credential" (
        Attempts.require (not (is_desired (desired_of r).desired_status) || r.credential_available)
          unavailable)
    secret ← resource_secret env bundle r r.credential_available
    rest ← request_channels env bundle rs
    pure (
        record {
          desired = desired_of r;
          api_key = secret;
          resume =
              member (fields r.snapshot).relation_id
                (fields bundle.plan.snapshot).resume_relation_ids;
        }
        ∷ rest)

  -- ConfirmResource for each resource.
  unfoldable pub confirm_all :
      Environment
      → Bundle
      → (before after : ActualState) → Time
      → List ResourceBundle
      → Action (Unit {0})
  confirm_all env bundle before state at_time [] = pure tt
  confirm_all env bundle before state at_time (r ∷ rs) = do
    channel ← or_fail_resource uuid_string env bundle r "managed_sync_confirm" (
        Attempts.check (
          locate_managed_channel (desired_of r) r.managed_channel.external_channel_id
            state.channels))
    perform env (
          confirm_resource
            (record {
              resource = r;
              external_channel_id = id_of channel;
              credential_applied =
                  r.credential_available
                  && has_old_credential r (with_tag (desired_of r).managed_tag before.channels);
            })
            at_time)
        >>= or_return
    record_or_return env bundle (resource_step uuid_string r "managed_batch_confirmed") at_time
    confirm_all env bundle before state at_time rs

  -- The checks of the state that ApplyManagedState gives.
  unfoldable pub check_applied :
      Environment → Bundle → (before result : ManagedSyncState) → Action (Unit {0})
  check_applied env bundle before result = do
    require_or_fail env bundle (codes "managed_sync_verify") (is_empty result.conflicts)
        (failure ownership "managed_resource_conflict")
    require_or_fail env bundle (codes "managed_sync_verify_basis")
        (text_eq result.billing_basis_hash (basis_of bundle))
        (failure configuration "billing_basis_changed")
    or_fail env bundle (codes "managed_sync_verify")
        (as_error (verify_site_state decimal bundle bundle.resources before.actual result.actual))

  -- The confirmations, and CompleteSiteOperation.
  unfoldable pub confirm_managed :
      Environment → Bundle → (before result : ManagedSyncState) → Action (Unit {0})
  confirm_managed env bundle before result = do
    at_time ← now env
    confirm_all env bundle before.actual result.actual at_time bundle.resources
    perform env (confirm_site_prices at_time) >>= or_return
    record_or_return env bundle (codes "managed_batch_applied") at_time
    perform env (complete_site_operation at_time) >>= or_return

  unfoldable pub run_managed_site :
      Environment → ManagedSyncCapabilities → Bundle → Action (Unit {0})
  run_managed_site env capabilities bundle = do
    read ←
        call read_managed_state env.read_managed_state
        >>= or_fail env bundle (codes "managed_sync_read")
    let before = with_version read capabilities.new_api_version
    require_or_fail env bundle (codes "managed_sync_ownership") (is_empty before.conflicts)
        (failure ownership "managed_resource_conflict")
    require_or_fail env bundle (codes "managed_sync_billing_basis")
        (text_eq before.billing_basis_hash (basis_of bundle))
        (failure configuration "billing_basis_changed")
    channels ← request_channels env bundle bundle.resources
    applied ←
        call (apply_managed_state (request_of bundle before channels)) env.apply_managed_state
        >>= or_fail env bundle (codes "managed_sync_apply")
    let result = with_version applied capabilities.new_api_version
    check_applied env bundle before result
    confirm_managed env bundle before result

  -- The approval of this build of New API, where the store keeps approvals.
  unfoldable pub check_approval : Environment → Bundle → Bool → Action (Unit {0})
  check_approval env bundle false = pure tt
  check_approval env bundle true = do
    approved ←
        call managed_sync_approved env.managed_sync_approved
        >>= or_fail env bundle (codes "managed_sync_approval")
    require_or_fail env bundle (codes "managed_sync_approval") approved
        (failure compatibility "managed_sync_unapproved")

  unfoldable pub legacy_or_fail : Environment → Bundle → Error → Bool → Action (Unit {0})
  legacy_or_fail env bundle e true = run_legacy_site decimal uuid_string env bundle
  legacy_or_fail env bundle e false =
      finish_failure env bundle (codes "managed_sync_capabilities") e

  unfoldable pub with_capabilities :
      Environment → Bundle → Result Error ManagedSyncCapabilities → Action (Unit {0})
  with_capabilities env bundle (err e) =
      legacy_or_fail env bundle e (managed_sync_legacy_fallback e)
  with_capabilities env bundle (ok capabilities) = do
    or_fail env bundle (codes "managed_sync_capabilities")
        (as_error (validate_managed_sync_capabilities capabilities bundle.plan.snapshot))
    check_approval env bundle env.has_approvals
    run_managed_site env capabilities bundle

  -- tryRunManagedSite, and the rest of runSite where it leaves the site to it.
  unfoldable pub try_run_managed_site : Environment → Bundle → Bool → Action (Unit {0})
  try_run_managed_site env bundle false = run_legacy_site decimal uuid_string env bundle
  try_run_managed_site env bundle true =
      call read_managed_sync_capabilities env.read_managed_sync_capabilities
      >>= with_capabilities env bundle

  unfoldable pub check_store : Environment → Action (Unit {0})
  check_store env =
      return_if (not env.has_site_store)
        (other_error "site synchronization persistence is unavailable" ∷ [])

  -- runSite
  unfoldable pub run_site : Environment → Bundle → Action (Unit {0})
  run_site env bundle = do
    check_store env
    require_or_fail env bundle (codes "load_resources")
        (length bundle.resources == length (resources bundle.plan.snapshot))
        (failure configuration "site_resources_missing")
    started_at ← now env
    perform env (start_operation (codes "probe") started_at) >>= or_return
    secret ←
        call (decrypt bundle.admin_credential) env.decrypt
        >>= or_fail_with env (attempted bundle) (codes "decrypt_admin") unavailable
    make_gateway env bundle secret >>= or_fail env (attempted bundle) (codes "create_gateway")
    try_run_managed_site env (attempted bundle) env.is_managed_gateway
