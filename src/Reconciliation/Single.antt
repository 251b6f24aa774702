-- ===== src/Reconciliation/Single.antt =====
-- Run of internal/application/reconciliation/service.go on the plan of a single resource, from
-- StartOperation on, cut into the parts of its body. The secrets are not cleared.
pub mod Kept
pub mod Known
pub mod Completion
pub mod Settled
use Prim.Native.String.{String}
use many_router.Base.{
  ℕ, Bool, true, false, not, ◌&&◌, ◌||◌, List, [], ◌∷◌, ◌==◌, Text, codes, Map, Option, none, some,
  is_some, Uuid, Time, Result, ok, err, if◌then◌else◌,
}
use many_router.Base.Int.{ℤ, pos, eq_ℤ, ◌+ℤ◌}
use many_router.Packages.{DecimalPackage}
use many_router.Site.{Site}
use many_router.Routing.Types.{Snapshot, SnapshotFields, fields, DesiredChannel, ModelRoute}
use many_router.Reconciliation.Types.{
  authentication, FailureKind.configuration, FailureKind.uncertain, manual_lock, Failure, failure,
  Error, Error.failed, other_error, ChannelStatus, manually_disabled, ActualChannel, ActualState,
  Bundle, Operation,
}
use many_router.Reconciliation.Actions.{
  Call, start_operation, decrypt, new_gateway, probe, read_actual_state, set_group_ratios,
  set_user_usable_groups, create_channel, update_channel, test_channel, set_channel_enabled,
  bind_channel, complete_operation, Environment, Action, pure, return_with, call, or_return, after,
  ◌>>=◌, ◌>>◌, now, perform,
}
use many_router.Reconciliation.Steps.{
  finish_failure, or_fail, or_fail_with, as_error, record_or_return,
}
use many_router.Reconciliation.Diff.{
  locate_managed_channel, merge_group_ratios, merge_user_usable_groups,
  channel_configuration_matches, is_enabled, verify, verify_unmanaged_group_ratios,
  verify_unmanaged_user_groups,
}

abbrev pub plan_of : Bundle → SnapshotFields
plan_of bundle = fields bundle.plan.snapshot

-- bundle.Operation.Attempt++
abbrev pub attempted : Bundle → Bundle
attempted bundle = record bundle {
  operation = record bundle.operation { attempt = bundle.operation.attempt +ℤ pos 1 };
}

-- The administrator that newGateway takes: the first user where none is given.
abbrev pub admin_user : Site → ℤ
admin_user site = if eq_ℤ site.admin_user_id (pos 0) then pos 1 else site.admin_user_id

unfoldable pub make_gateway : Environment → Bundle → List ℕ → Action (Result Error (Unit {0}))
make_gateway env bundle secret =
    if env.has_site_gateways
    then perform env
        (new_gateway bundle.site.new_api_base_url secret (some (admin_user bundle.site)))
    else perform env (new_gateway bundle.site.new_api_base_url secret none)

unfoldable pub read_state : Environment → Bundle → Text → Action ActualState
read_state env bundle step =
    call read_actual_state env.read_actual_state >>= or_fail env bundle step

-- Whether the channel was disabled by hand after a plan was confirmed.
unfoldable pub is_locked : Bundle → Option ActualChannel → Bool
is_locked bundle none = false
is_locked bundle (some c) = by_status c.status
  where
    by_status : ChannelStatus → Bool
    by_status manually_disabled = is_some bundle.managed_channel.last_confirmed_plan_version
    by_status _ = false

-- What is known before the first write.
pub record Survey : Type 0 where
  pub secret : List ℕ
  pub actual : ActualState
  pub located : Option ActualChannel

-- From the credentials to the test for a manual lock.
unfoldable pub survey : Environment → Bundle → Time → Action Survey
survey env bundle started_at = do
  admin_secret ←
      call (decrypt bundle.admin_credential) env.decrypt
      >>= or_fail_with env bundle (codes "decrypt_credentials")
          (failure authentication "credential_unavailable")
  secret ←
      call (decrypt bundle.supplier_credential) env.decrypt
      >>= or_fail_with env bundle (codes "decrypt_credentials")
          (failure authentication "credential_unavailable")
  make_gateway env bundle admin_secret
      >>= or_fail_with env bundle (codes "create_gateway")
          (failure configuration "gateway_configuration")
  version ← call probe env.probe >>= or_fail env bundle (codes "probe")
  record_or_return env bundle (codes "probe") started_at
  actual ← read_state env bundle (codes "read_actual")
  read_at ← now env
  record_or_return env bundle (codes "read_actual") read_at
  located ← or_fail env bundle (codes "locate_channel") (
      as_error (
        locate_managed_channel (plan_of bundle).channel bundle.managed_channel.external_channel_id
          actual.channels))
  if is_locked bundle located
      then finish_failure env bundle (codes "manual_lock")
          (failed (failure manual_lock "channel_manually_disabled"))
      else pure (record { secret = secret; actual = actual; located = located })

-- A write with its record, where there is something to write.
unfoldable pub write_if : Environment → Bundle → Text → Bool → Call → Action (Unit {0})
write_if env bundle step false c = pure tt
write_if env bundle step true c = do
  started_at ← now env
  perform env c >>= or_fail env bundle step
  record_or_return env bundle step started_at

-- The channel is created or updated, where it is missing or differs from the plan.
unfoldable pub write_channel :
    Environment → Bundle → List ℕ → Option ActualChannel → Action (Unit {0})
write_channel env bundle secret none =
    write_if env bundle (codes "create_channel") true
      (create_channel (plan_of bundle).channel secret)
write_channel env bundle secret (some c) =
    write_if env bundle (codes "update_channel")
      (not (channel_configuration_matches (plan_of bundle).channel c))
      (update_channel c.id (plan_of bundle).channel secret)

-- A write of the channel is needed, and so a second look at it.
unfoldable pub needs_write : Bundle → Option ActualChannel → Bool
needs_write bundle none = true
needs_write bundle (some c) = not (channel_configuration_matches (plan_of bundle).channel c)

-- The channel after the write.
unfoldable pub look_again :
    Environment → Bundle → Bool → Option ActualChannel → Action (Option ActualChannel)
look_again env bundle false located = pure located
look_again env bundle true located = do
  actual ← read_state env bundle (codes "read_after_channel_write")
  or_fail env bundle (codes "locate_channel_after_write") (
      as_error (
        locate_managed_channel (plan_of bundle).channel bundle.managed_channel.external_channel_id
          actual.channels))

unfoldable pub or_unconfirmed : Environment → Bundle → Option ActualChannel → Action ActualChannel
or_unconfirmed env bundle (some c) = pure c
or_unconfirmed env bundle none =
    finish_failure env bundle (codes "locate_channel_after_write")
      (failed (failure uncertain "channel_create_unconfirmed"))

abbrev pub is_bound : Option ℤ → ℤ → Bool
is_bound none id = false
is_bound (some bound) id = eq_ℤ bound id

-- BindChannel, where the binding is another one.
unfoldable pub bind_if : Environment → Bundle → Bool → ActualChannel → Action (Unit {0})
bind_if env bundle false c = pure tt
bind_if env bundle true c = do
  at_time ← now env
  perform env (bind_channel bundle.managed_channel.id c.id at_time) >>= or_return

-- Models[0].Model
unfoldable pub first_model : List ModelRoute → Action Text
first_model [] = return_with (other_error "index out of range" ∷ [])
first_model (m ∷ models) = pure m.model

abbrev pub is_update : Bundle → Option ActualChannel → Bool
is_update bundle none = false
is_update bundle (some c) = needs_write bundle (some c)

-- The test of the channel, and its activation.
unfoldable pub activate :
    Environment → Bundle → List ℕ → (updated : Bool) → ActualChannel → Action (Unit {0})
activate env bundle secret updated c = do
  test_model ← first_model (plan_of bundle).channel.models
  write_if env bundle (codes "test_channel") true (test_channel c.id test_model secret)
  write_if env bundle (codes "prepare_channel_activation")
      (not (is_some bundle.managed_channel.last_confirmed_plan_version)
        && not (is_enabled c.status)
        && not updated)
      (update_channel c.id (plan_of bundle).channel secret)
  write_if env bundle (codes "enable_channel") (not (is_enabled c.status))
      (set_channel_enabled c.id true)

module _ {D : Type 0} (decimal : DecimalPackage D) where
  -- The writes of the two maps of groups.
  unfoldable pub write_groups : Environment → Bundle → ActualState → Action (Unit {0})
  write_groups env bundle actual = do
    let group = (plan_of bundle).group
    merged ←
        or_fail env bundle (codes "merge_group_ratio")
          (as_error (merge_group_ratios decimal actual.group_ratios group.key group.sale_ratio))
    write_if env bundle (codes "set_group_ratio") merged.1 (set_group_ratios merged.0)
    let usable = merge_user_usable_groups actual.user_usable_groups group
    write_if env bundle (codes "set_group_visibility") usable.1 (set_user_usable_groups usable.0)

  -- The last read, its checks, and CompleteOperation. `before` is the state that was read first.
  unfoldable pub finish : Environment → Bundle → ActualState → ActualChannel → Action (Unit {0})
  finish env bundle before c = do
    let key = (plan_of bundle).group.key
    final ← read_state env bundle (codes "final_read")
    or_fail env bundle (codes "verify_unmanaged_groups") (
        as_error (verify_unmanaged_group_ratios decimal before.group_ratios final.group_ratios key))
    or_fail env bundle (codes "verify_unmanaged_user_groups") (
        as_error
          (verify_unmanaged_user_groups before.user_usable_groups final.user_usable_groups key))
    verified ←
        or_fail env bundle (codes "verify")
          (as_error (verify decimal bundle.plan.snapshot final (some c.id)))
    verify_started ← now env
    record_or_return env bundle (codes "verify") verify_started
    completed_at ← now env
    perform env (complete_operation verified.id completed_at) >>= or_return

  -- The writes between the survey and the last read.
  unfoldable pub apply : Environment → Bundle → Survey → Action ActualChannel
  apply env bundle known = do
    write_groups env bundle known.actual
    write_channel env bundle known.secret known.located
    found ← look_again env bundle (needs_write bundle known.located) known.located
    c ← or_unconfirmed env bundle found
    bind_if env bundle (not (is_bound bundle.managed_channel.external_channel_id c.id)) c
    activate env bundle known.secret (is_update bundle known.located) c
    pure c

  unfoldable pub run_single : Environment → Bundle → Action (Unit {0})
  run_single env bundle = do
    started_at ← now env
    perform env (start_operation (codes "probe") started_at) >>= or_return
    known ← survey env (attempted bundle) started_at
    c ← apply env (attempted bundle) known
    finish env (attempted bundle) known.actual c
