-- ===== src/Reconciliation/SiteRun.antt =====
-- runSite of internal/application/reconciliation/site_service.go: the synchronization of all resources
-- of a site, one call of New API at a time.
pub mod Kept
pub mod Same
pub mod Completion
use Prim.Native.String.{String}
use many_router.Base.{
  Bool, true, false, not, ◌&&◌, ◌||◌, List, [], ◌∷◌, Text, codes, text_eq, is_some, Uuid, Result,
  ok, err, if◌then◌else◌,
}
use many_router.Base.Int.{pos, eq_ℤ}
use many_router.Packages.{DecimalPackage}
use many_router.Routing.Types.{fields, groups}
use many_router.Reconciliation.Types.{
  compatibility, FailureKind.configuration, failure, Error, ActualState, Bundle, ResourceBundle,
}
use many_router.Reconciliation.Actions.{
  Call, read_billing_basis, set_group_ratios, set_user_usable_groups, confirm_site_prices,
  complete_site_operation, History, Environment, Return, Action, pure, or_return, ◌>>=◌, ◌>>◌, now,
  perform,
}
use many_router.Reconciliation.Attempts.{Attempt}
use many_router.Reconciliation.Attempts
use many_router.Reconciliation.Steps.{finish_failure, or_fail, as_error}
use many_router.Reconciliation.Diff.{locate_managed_channel}
use many_router.Reconciliation.SiteGroups.{merge_site_ratios, merge_site_user_groups}
use many_router.Reconciliation.SiteVerify.{verify_site_groups, verify_site_state, is_disabled}
use many_router.Reconciliation.Resource.{
  resource_step, disable_resource, apply_resource, desired_of, credential_changed,
}
use many_router.Reconciliation.Single.{read_state}

-- An attempt, where an error ends in finishFailure.
abbrev pub settle {ℓ} :
    {A : Type ℓ}
    → Environment
    → Bundle
    → Text
    → Result Error A × History
    → Result Return A × History
settle env bundle step (ok a, h) = (ok a, h)
settle env bundle step (err e, h) = finish_failure env bundle step e h

unfoldable pub or_fail_attempt {ℓ} :
    {A : Type ℓ} → Environment → Bundle → Text → Attempt A → Action A
or_fail_attempt env bundle step m h = settle env bundle step (m h)

-- The bundle as finishResourceFailure changes it.
abbrev pub of_resource : Bundle → ResourceBundle → Bundle
of_resource bundle resource = record bundle {
  operation = record bundle.operation { relation_id = (fields resource.snapshot).relation_id };
}

abbrev pub compare_basis : (expected actual : Text) → Attempt (Unit {0})
compare_basis expected actual =
    Attempts.require (text_eq actual expected) (failure configuration "billing_basis_changed")

unfoldable pub verify_billing_basis : Environment → Text → Attempt (Unit {0})
verify_billing_basis env expected h =
    if env.has_billing_basis
    then Attempts.after (compare_basis expected)
        (env.read_billing_basis (read_billing_basis ∷ h), read_billing_basis ∷ h)
    else Attempts.fail_with (failure compatibility "billing_basis_unavailable") h

abbrev pub basis_of : Bundle → Text
basis_of bundle = (fields bundle.plan.snapshot).billing_basis_hash

-- A write without a record, where there is something to write.
unfoldable pub write_if_changed : Environment → Bundle → Text → Bool → Call → Action (Unit {0})
write_if_changed env bundle step false c = pure tt
write_if_changed env bundle step true c = perform env c >>= or_fail env bundle step

-- A disabled resource is left alone, unless its credential must be exchanged.
unfoldable pub is_skipped : ResourceBundle → Bool
is_skipped resource =
    is_disabled (desired_of resource).desired_status
    && (not (is_some resource.managed_channel.external_channel_id)
        || not (credential_changed resource)
        || eq_ℤ resource.managed_channel.last_confirmed_credential_version (pos 0)
          && eq_ℤ (desired_of resource).credential_version (pos 1))

module _ (uuid_string : Uuid → Text) where
  unfoldable pub or_fail_resource {ℓ} :
      {A : Type ℓ} → Environment → Bundle → ResourceBundle → String → Attempt A → Action A
  or_fail_resource env bundle resource action =
      or_fail_attempt env (of_resource bundle resource) (resource_step uuid_string resource action)

  unfoldable pub check_ownership :
      Environment → Bundle → ActualState → List ResourceBundle → Action (Unit {0})
  check_ownership env bundle actual [] = pure tt
  check_ownership env bundle actual (r ∷ rs) = do
    channel ← or_fail_resource env bundle r "ownership" (
        Attempts.check (
          locate_managed_channel (desired_of r) r.managed_channel.external_channel_id
            actual.channels))
    check_ownership env bundle actual rs

  unfoldable pub disable_one :
      Environment → Bundle → ActualState → Bool → ResourceBundle → Action ResourceBundle
  disable_one env bundle actual false r = pure r
  disable_one env bundle actual true r =
      or_fail_resource env bundle r "disable" (disable_resource uuid_string env bundle r actual)

  unfoldable pub disable_all :
      Environment → Bundle → ActualState → List ResourceBundle → Action (List ResourceBundle)
  disable_all env bundle actual [] = pure []
  disable_all env bundle actual (r ∷ rs) = do
    first ← disable_one env bundle actual (is_disabled (desired_of r).desired_status) r
    rest ← disable_all env bundle actual rs
    pure (first ∷ rest)

  unfoldable pub apply_one : Environment → Bundle → Bool → ResourceBundle → Action ResourceBundle
  apply_one env bundle true r = pure r
  apply_one env bundle false r =
      or_fail_resource env bundle r "apply" (apply_resource uuid_string env bundle r)

  unfoldable pub apply_all :
      Environment → Bundle → List ResourceBundle → Action (List ResourceBundle)
  apply_all env bundle [] = pure []
  apply_all env bundle (r ∷ rs) = do
    first ← apply_one env bundle (is_skipped r) r
    rest ← apply_all env bundle rs
    pure (first ∷ rest)

module _ {D : Type 0} (decimal : DecimalPackage D) (uuid_string : Uuid → Text) where
  -- The prices of the groups: the merge, the write, the second look and ConfirmSitePrices.
  unfoldable pub write_prices : Environment → Bundle → Action (Unit {0})
  write_prices env bundle = do
    let planned = groups bundle.plan.snapshot
    or_fail_attempt env bundle (codes "verify_billing_basis")
        (verify_billing_basis env (basis_of bundle))
    actual ← read_state env bundle (codes "read_before_groups")
    merged ←
        or_fail env bundle (codes "plan_group_prices")
          (as_error (merge_site_ratios decimal planned actual.group_ratios))
    write_if_changed env bundle (codes "set_group_prices") merged.1 (set_group_ratios merged.0)
    priced ← read_state env bundle (codes "read_group_prices")
    or_fail env bundle (codes "verify_group_prices")
        (as_error (verify_site_groups decimal planned priced false))
    or_fail_attempt env bundle (codes "verify_group_price_basis")
        (verify_billing_basis env (basis_of bundle))
    at_time ← now env
    perform env (confirm_site_prices at_time) >>= or_return

  -- The groups that users may select.
  unfoldable pub write_visibility : Environment → Bundle → Action (Unit {0})
  write_visibility env bundle = do
    actual ← read_state env bundle (codes "read_before_visibility")
    let merged = merge_site_user_groups (groups bundle.plan.snapshot) actual.user_usable_groups
    write_if_changed env bundle (codes "set_group_visibility") merged.1
        (set_user_usable_groups merged.0)

  -- The last look at the site, and CompleteSiteOperation.
  unfoldable pub finish_site :
      Environment → Bundle → ActualState → List ResourceBundle → Action (Unit {0})
  finish_site env bundle baseline applied = do
    final ← read_state env bundle (codes "final_read")
    or_fail env bundle (codes "verify_site")
        (as_error (verify_site_state decimal bundle applied baseline final))
    or_fail_attempt env bundle (codes "verify_final_billing_basis")
        (verify_billing_basis env (basis_of bundle))
    at_time ← now env
    perform env (complete_site_operation at_time) >>= or_return

  -- runSite where New API has no managed synchronization.
  unfoldable pub run_legacy_site : Environment → Bundle → Action (Unit {0})
  run_legacy_site env bundle = do
    baseline ← read_state env bundle (codes "read_actual")
    check_ownership uuid_string env bundle baseline bundle.resources
    disabled ← disable_all uuid_string env bundle baseline bundle.resources
    write_prices env bundle
    applied ← apply_all uuid_string env bundle disabled
    write_visibility env bundle
    finish_site env bundle baseline applied
