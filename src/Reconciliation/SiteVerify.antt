-- ===== src/Reconciliation/SiteVerify.antt =====
-- internal/application/reconciliation/site_verify.go, and validateManagedSyncCapabilities and
-- managedSyncLegacyFallback of site_managed_sync.go.
use many_router.Base.{
  ℕ, ◌+◌, Bool, true, false, not, ◌&&◌, ◌||◌, List, [], ◌∷◌, map, length, Text, codes, text_eq,
  byte_len, leb, ◌==◌, is_empty, Map, lookup, erase, Option, none, some, Result, ok, ◌>>=◌, ◌>>◌,
  guard, if◌then◌else◌,
}
use many_router.Base.Int.{pos, ltb_ℤ, leb_ℤ}
use many_router.Packages.{DecimalPackage}
use many_router.Routing.Types.{
  Snapshot, fields, resources, DesiredGroup, DesiredChannel, DesiredStatus, DesiredStatus.disabled,
  DesiredStatus.enabled, groups, group_keys,
}
use many_router.Reconciliation.Types.{
  FailureKind, authentication, compatibility, Failure, failure, Error, Error.failed, other_error,
  ChannelStatus, manually_disabled, ActualChannel, ActualState, ResourceBundle, Bundle,
  ManagedSyncFeatures, ManagedSyncLimits, ManagedSyncCapabilities,
}
use many_router.Reconciliation.Diff.{
  text_at, same_ratio, check_visibility, locate_managed_channel, channel_configuration_matches,
  is_enabled, verify_unmanaged_group_ratios, verify_unmanaged_user_groups,
}

-- The maps without the groups of the plan.
unfoldable pub without_groups : List DesiredGroup → Map Text → Map Text
without_groups [] m = m
without_groups (group ∷ rest) m = without_groups rest (erase group.key m)

abbrev pub is_disabled : DesiredStatus → Bool
is_disabled disabled = true
is_disabled _ = false

abbrev pub is_desired : DesiredStatus → Bool
is_desired enabled = true
is_desired _ = false

abbrev pub is_manually_disabled : ChannelStatus → Bool
is_manually_disabled manually_disabled = true
is_manually_disabled _ = false

-- A channel that must be off: there is none, or it is disabled by hand.
unfoldable pub is_off : Option ActualChannel → Bool
is_off none = true
is_off (some c) = is_manually_disabled c.status

-- A channel that must be on: it is there, enabled, and as the plan wants it.
unfoldable pub is_on : DesiredChannel → Option ActualChannel → Bool
is_on desired none = false
is_on desired (some c) = is_enabled c.status && channel_configuration_matches desired c

-- The loop over the resources in verifySiteState.
unfoldable pub verify_resources : List ResourceBundle → ActualState → Result Failure (Unit {0})
verify_resources [] after = ok tt
verify_resources (resource ∷ rest) after = do
  let desired = (fields resource.snapshot).channel
  channel ←
      locate_managed_channel desired resource.managed_channel.external_channel_id after.channels
  if is_disabled desired.desired_status
      then guard (is_off channel) (failure compatibility "channel_not_disabled")
      else guard (is_on desired channel) (failure compatibility "channel_drift")
  verify_resources rest after

module _ {D : Type 0} (decimal : DecimalPackage D) where
  unfoldable pub verify_site_groups :
      List DesiredGroup → ActualState → (visibility : Bool) → Result Failure (Unit {0})
  verify_site_groups [] actual visibility = ok tt
  verify_site_groups (group ∷ rest) actual visibility = do
    guard (same_ratio decimal group.sale_ratio (text_at group.key actual.group_ratios))
        (failure compatibility "group_ratio_drift")
    if visibility
        then check_visibility group (lookup group.key actual.user_usable_groups)
        else ok tt
    verify_site_groups rest actual visibility

  unfoldable pub verify_site_state :
      Bundle → List ResourceBundle → (before after : ActualState) → Result Failure (Unit {0})
  verify_site_state bundle resources before after = do
    let planned = groups bundle.plan.snapshot
    verify_site_groups planned after true
    verify_unmanaged_group_ratios decimal (without_groups planned before.group_ratios)
        after.group_ratios []
    verify_unmanaged_user_groups (without_groups planned before.user_usable_groups)
        after.user_usable_groups []
    verify_resources resources after

abbrev pub is_complete : ManagedSyncFeatures → Bool
is_complete f =
    f.atomic_apply && f.managed_channels && f.multiple_groups && f.group_ratios
    && f.entry_visibility && f.persistent_idempotency && f.final_state_digest && f.log_read

abbrev pub maximum : ℕ → ℕ → ℕ
maximum a b = if leb a b then b else a

unfoldable pub longest : List Text → ℕ
longest [] = 0
longest (key ∷ keys) = let rest = longest keys in maximum (byte_len key) rest

unfoldable pub model_count : List Snapshot → ℕ
model_count [] = 0
model_count (r ∷ rs) = length (fields r).channel.models + model_count rs

unfoldable pub longest_group : List Snapshot → ℕ
longest_group [] = 0
longest_group (r ∷ rs) =
    let rest = longest_group rs in maximum (longest (group_keys (fields r).channel)) rest

abbrev pub suffices : ManagedSyncLimits → Snapshot → Bool
suffices limits s =
    leb_ℤ (pos (length (resources s))) limits.max_channels
    && leb_ℤ (pos (length (groups s))) limits.max_groups
    && leb_ℤ (pos (model_count (resources s))) limits.max_models
    && leb_ℤ (pos (maximum (longest_group (resources s)) (longest (map (λ g. g.key) (groups s)))))
        limits.max_group_key_bytes
    && ltb_ℤ (pos 0) limits.max_request_bytes

unfoldable pub validate_managed_sync_capabilities :
    ManagedSyncCapabilities → Snapshot → Result Failure (Unit {0})
validate_managed_sync_capabilities c s = do
  guard
      (text_eq c.contract_version (codes "m4-managed-sync-v1")
        && not (is_empty c.new_api_version)
        && is_complete c.features)
      (failure compatibility "managed_sync_incompatible")
  guard
      (text_eq c.database_type (codes "sqlite")
        || text_eq c.database_type (codes "mysql")
        || text_eq c.database_type (codes "postgres"))
      (failure compatibility "managed_sync_database")
  guard (suffices c.limits s) (failure compatibility "managed_sync_limits")
  guard ((byte_len c.billing_basis_hash == 64) && not (c.billing_basis_entries == 0))
      (failure compatibility "managed_sync_billing_basis")

abbrev pub is_authentication : FailureKind → Bool
is_authentication authentication = true
is_authentication _ = false

unfoldable pub managed_sync_legacy_fallback : Error → Bool
managed_sync_legacy_fallback (other_error s) = false
managed_sync_legacy_fallback (failed f) =
    is_authentication f.kind
    || text_eq (codes f.code) (codes "gateway_http_404")
    || text_eq (codes f.code) (codes "gateway_http_503")
