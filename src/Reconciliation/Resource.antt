-- ===== src/Reconciliation/Resource.antt =====
-- internal/application/reconciliation/site_resource.go: the steps on one resource of a site. The
-- resource, which the code changes in place, is given back.
pub mod Kept
pub mod Same
use Prim.Native.String.{String}
use many_router.Base.{
  ℕ, Bool, true, false, not, ◌&&◌, ◌||◌, List, [], ◌∷◌, ◌++◌, ◌==◌, Text, codes, member, Option,
  none, some, is_some, Uuid, Time, ok, err, if◌then◌else◌,
}
use many_router.Base.Int.{ℤ, eq_ℤ}
use many_router.Routing.Types.{fields, DesiredChannel, ModelRoute}
use many_router.Reconciliation.Types.{
  authentication, compatibility, FailureKind.uncertain, manual_lock, Failure, failure, other_error,
  ActualChannel, ActualState, Bundle, ResourceBundle, StepStatus,
}
use many_router.Reconciliation.Actions.{
  Call, decrypt, read_actual_state, create_channel, update_channel, test_channel,
  set_channel_enabled, bind_channel, record_step, confirm_resource, Environment,
}
use many_router.Reconciliation.Attempts.{
  Attempt, pure, fail_with, ask, ask_or, check, ◌>>=◌, ◌>>◌, require, time,
}
use many_router.Reconciliation.Diff.{
  locate_managed_channel, channel_configuration_matches, is_enabled,
}
use many_router.Reconciliation.SiteVerify.{is_desired, is_manually_disabled}

abbrev pub desired_of : ResourceBundle → DesiredChannel
desired_of resource = (fields resource.snapshot).channel

-- The resource with another external channel.
abbrev pub with_binding : ResourceBundle → Option ℤ → ResourceBundle
with_binding resource binding = record resource {
  managed_channel = record resource.managed_channel { external_channel_id = binding };
}

abbrev pub unavailable : Failure
unavailable = failure authentication "credential_unavailable"

abbrev pub id_of : Option ActualChannel → Option ℤ
id_of none = none
id_of (some c) = some c.id

unfoldable pub resource_step : (Uuid → Text) → ResourceBundle → String → Text
resource_step uuid_string resource action =
    uuid_string (fields resource.snapshot).relation_id ++ codes ":" ++ codes action

-- s.recordSuccess
unfoldable pub record_step_success : Environment → Bundle → Text → Time → Attempt (Unit {0})
record_step_success env bundle key started_at = do
  finished_at ← time env
  ask
      (record_step (record {
        operation_id = bundle.operation.id;
        key = key;
        status = StepStatus.succeeded;
        error_code = "";
        started_at = started_at;
        finished_at = finished_at;
      }))
      env.perform

unfoldable pub locate_now : Environment → DesiredChannel → Option ℤ → Attempt (Option ActualChannel)
locate_now env desired binding = do
  state ← ask read_actual_state env.read_actual_state
  check (locate_managed_channel desired binding state.channels)

-- A call, where it is needed.
unfoldable pub ask_if : Environment → Bool → Call → Attempt (Unit {0})
ask_if env false c = pure tt
ask_if env true c = ask c env.perform

abbrev pub is_shut : Option ActualChannel → Bool
is_shut none = false
is_shut (some c) = is_manually_disabled c.status

-- The shutdown of a channel that is there, and its confirmation by a second look.
unfoldable pub shut_down : Environment → DesiredChannel → Option ActualChannel → Attempt (Unit {0})
shut_down env desired none = pure tt
shut_down env desired (some c) = do
  ask_if env (not (is_manually_disabled c.status)) (set_channel_enabled c.id false)
  verified ← locate_now env desired (some c.id)
  require (is_shut verified) (failure uncertain "disable_unconfirmed")

module _ (uuid_string : Uuid → Text) where
  unfoldable pub disable_resource :
      Environment → Bundle → ResourceBundle → ActualState → Attempt ResourceBundle
  disable_resource env bundle resource actual = do
    channel ← check (
        locate_managed_channel (desired_of resource) resource.managed_channel.external_channel_id
          actual.channels)
    shut_down env (desired_of resource) channel
    let updated = with_binding resource (id_of channel)
    confirmed_at ← time env
    ask
        (confirm_resource
          (record {
            resource = updated;
            external_channel_id = id_of channel;
            credential_applied = false;
          })
          confirmed_at)
        env.perform
    recorded_at ← time env
    record_step_success env bundle (resource_step uuid_string updated "disabled") recorded_at
    pure updated

-- The plan wants the channel to be enabled.
abbrev pub targets_enabled : ResourceBundle → Bool
targets_enabled resource = is_desired (desired_of resource).desired_status

abbrev pub was_enabled : Option Bool → Bool
was_enabled none = true
was_enabled (some enabled) = enabled

-- Someone disabled the channel by hand since a plan was confirmed with it enabled.
unfoldable pub is_resource_locked : Bundle → ResourceBundle → Option ActualChannel → Bool
is_resource_locked bundle resource channel =
    targets_enabled resource
    && is_shut channel
    && is_some resource.managed_channel.last_confirmed_plan_version
    && was_enabled resource.managed_channel.last_confirmed_enabled
    && not (
        member (fields resource.snapshot).relation_id
          (fields bundle.plan.snapshot).resume_relation_ids)

unfoldable pub credential_changed : ResourceBundle → Bool
credential_changed resource =
    not
      (resource.managed_channel.last_confirmed_credential_id == (desired_of resource).credential_id)
    || not (
        eq_ℤ resource.managed_channel.last_confirmed_credential_version
          (desired_of resource).credential_version)

abbrev pub differs : DesiredChannel → Option ActualChannel → Bool
differs desired none = true
differs desired (some c) = not (channel_configuration_matches desired c)

abbrev pub write_call : DesiredChannel → List ℕ → Option ActualChannel → Call
write_call desired secret none = create_channel desired secret
write_call desired secret (some c) = update_channel c.id desired secret

abbrev pub or_missing : Failure → Option ActualChannel → Attempt ActualChannel
or_missing f none = fail_with f
or_missing f (some c) = pure c

-- The channel of the resource, written where that is needed.
unfoldable pub write_resource :
    Environment → ResourceBundle → Bool → Option ActualChannel → Attempt ActualChannel
write_resource env resource false channel =
    or_missing (failure compatibility "channel_missing") channel
write_resource env resource true channel = do
  require resource.credential_available unavailable
  secret ← ask_or unavailable (decrypt resource.supplier_credential) env.decrypt
  ask (write_call (desired_of resource) secret channel) env.perform
  found ← locate_now env (desired_of resource) resource.managed_channel.external_channel_id
  or_missing (failure uncertain "channel_create_unconfirmed") found

abbrev pub is_bound_to : Option ℤ → ℤ → Bool
is_bound_to none id = false
is_bound_to (some bound) id = eq_ℤ bound id

unfoldable pub bind_resource :
    Environment → ResourceBundle → Bool → ActualChannel → Attempt ResourceBundle
bind_resource env resource true c = pure resource
bind_resource env resource false c = do
  at_time ← time env
  ask (bind_channel resource.managed_channel.id c.id at_time) env.perform
  pure (with_binding resource (some c.id))

-- desired.Models[0].Model
abbrev pub first_name : List ModelRoute → Attempt Text
first_name [] h = (err (other_error "index out of range"), h)
first_name (m ∷ models) h = (ok m.model, h)

unfoldable pub prepare_resource :
    Environment → ResourceBundle → Bool → ActualChannel → Attempt (Unit {0})
prepare_resource env resource false c = pure tt
prepare_resource env resource true c = do
  secret ← ask (decrypt resource.supplier_credential) env.decrypt
  ask (update_channel c.id (desired_of resource) secret) env.perform

unfoldable pub test_resource :
    Environment → ResourceBundle → Bool → ActualChannel → Attempt (Unit {0})
test_resource env resource false c = pure tt
test_resource env resource true c = do
  secret ← ask_or unavailable (decrypt resource.supplier_credential) env.decrypt
  model ← first_name (desired_of resource).models
  ask (test_channel c.id model secret) env.perform
  prepare_resource env resource
      (not (is_some resource.managed_channel.last_confirmed_plan_version)
        && not (is_enabled c.status))
      c

-- The status that the channel must have in the end, and the configuration of the plan.
unfoldable pub is_as_planned : ResourceBundle → Option ActualChannel → Bool
is_as_planned resource none = false
is_as_planned resource (some c) =
    (if targets_enabled resource then is_enabled c.status else is_manually_disabled c.status)
    && channel_configuration_matches (desired_of resource) c

module _ (uuid_string : Uuid → Text) where
  -- The last look, ConfirmResource and the record of the step.
  unfoldable pub confirm : Environment → Bundle → ResourceBundle → Bool → Attempt ResourceBundle
  confirm env bundle resource written = do
    verified ← locate_now env (desired_of resource) resource.managed_channel.external_channel_id
    require (is_as_planned resource verified) (failure compatibility "channel_drift")
    confirmed_at ← time env
    ask
        (confirm_resource
          (record {
            resource = resource;
            external_channel_id = id_of verified;
            credential_applied = written;
          })
          confirmed_at)
        env.perform
    recorded_at ← time env
    record_step_success env bundle (resource_step uuid_string resource "confirmed") recorded_at
    pure resource

  unfoldable pub apply_resource : Environment → Bundle → ResourceBundle → Attempt ResourceBundle
  apply_resource env bundle resource = do
    actual ← ask read_actual_state env.read_actual_state
    require (not (targets_enabled resource) || resource.credential_available) unavailable
    channel ← check (
        locate_managed_channel (desired_of resource) resource.managed_channel.external_channel_id
          actual.channels)
    require (not (is_resource_locked bundle resource channel))
        (failure manual_lock "channel_manually_disabled")
    let writes = differs (desired_of resource) channel || credential_changed resource
    c ← write_resource env resource writes channel
    bound ←
        bind_resource env resource (is_bound_to resource.managed_channel.external_channel_id c.id) c
    test_resource env bound
        (writes
          || not (is_enabled c.status)
          || not (is_some bound.managed_channel.last_confirmed_plan_version))
        c
    ask_if env (targets_enabled resource && not (is_enabled c.status))
        (set_channel_enabled c.id true)
    confirm env bundle bound writes
