-- ===== src/Reconciliation/SiteExamples.antt =====
-- The synchronization of a site with one resource and one Auto group, on which the theorem about
-- runSite (internal/application/reconciliation) is applied.
use many_router.Base.{
  Bool, true, false, [], ◌∷◌, ◌++◌, codes, lookup, insert, erase, ok, ◌≡◌, refl, ◌⊎◌, if◌then◌else◌,
  text_eq, texts_eq, text_lt, sort_by, insert_by,
}
use many_router.Packages.Unary.{unary, letter}
use many_router.Reconciliation.Actions.{set_group_ratios, History, Environment, call, ◌>>=◌}
use many_router.Reconciliation.Attempts.{ask, ask_or, time}
use many_router.Reconciliation.Steps.{record_success, or_fail, record_or_return, or_fail_with}
use many_router.Reconciliation.Single.{make_gateway, read_state}
use many_router.Reconciliation.SiteManaged.{
  require_or_fail, try_run_managed_site, check_store, run_site,
}
use many_router.Reconciliation.SiteRun.{
  or_fail_attempt, verify_billing_basis, write_if_changed, is_skipped, or_fail_resource,
  check_ownership, disable_one, disable_all, apply_one, apply_all, write_prices, write_visibility,
  finish_site, run_legacy_site,
}
use many_router.Reconciliation.Resource.{
  resource_step, record_step_success, locate_now, ask_if, shut_down, disable_resource,
  is_resource_locked, credential_changed, write_resource, bind_resource, prepare_resource,
  test_resource, is_as_planned, confirm, apply_resource,
}
use many_router.Reconciliation.SiteGroups.{merge_site_user_groups, merge_site_ratios}
use many_router.Reconciliation.SiteVerify.{
  without_groups, is_off, is_on, verify_resources, verify_site_groups, verify_site_state,
}
use many_router.Reconciliation.Diff.{
  text_at, tagged, with_id, bound, choose, locate_managed_channel, merge_user_usable_groups,
  expected_mapping, agree, maps_equal, channel_configuration_matches, check_visibility,
  verify_unmanaged_user_groups, normal_ratio, normal_ratios, positive_ratio, merge_group_ratios,
  same_ratio, verify, verify_unmanaged_group_ratios,
}
use many_router.Routing.Types.{compact, group_keys, resource_snapshots, groups}
use many_router.Reconciliation.Attempts
use many_router.Routing.Examples.{site_snapshot, single, channel, sixteen}
use many_router.Reconciliation.Types.{ActualState, Bundle}
use many_router.Reconciliation.Trace.{site_completed}
use many_router.Reconciliation.Single.{attempted}
use many_router.Reconciliation.SiteManaged.Completion.{IsSiteCompletion, run_site-SiteFinished}
use many_router.Reconciliation.Examples.{key, fresh, created, is_created, secret, bundle, world}

abbrev site_bundle : Bundle
site_bundle = record bundle {
  plan = record bundle.plan { snapshot = site_snapshot };
  resources =
      record {
        snapshot = single;
        managed_channel = channel;
        supplier_credential = secret;
        credential_available = true;
      }
      ∷ [];
}

-- After the prices are written, and after the whole run.
abbrev priced : ActualState
priced = record fresh {
  group_ratios = (codes "vip", codes "+1") ∷ (key, codes "+11") ∷ (codes "mrab", codes "+111") ∷ [];
}

abbrev opened : ActualState
opened = record priced {
  user_usable_groups =
      (codes "vip", codes "VIP") ∷ (key, codes "Group") ∷ (codes "mrab", codes "Balanced") ∷ [];
  channels = created ∷ [];
}

abbrev is_priced : History → Bool
is_priced [] = false
is_priced (set_group_ratios m ∷ h) = true
is_priced (_ ∷ h) = is_priced h

abbrev site_world : Environment
site_world = record world {
  read_actual_state =
      λ h. ok (if is_created h then opened else if is_priced h then priced else fresh);
  has_billing_basis = true;
  read_billing_basis = λ h. ok (sixteen ++ sixteen ++ sixteen ++ sixteen);
}

run_site-SiteFinished_example :
    (site_completed (run_site unary letter site_world site_bundle []).1 ≡ 0)
    ⊎ (IsSiteCompletion unary letter site_world
          (attempted site_bundle)
          []
          (run_site unary letter site_world site_bundle []).1
        × (site_completed (run_site unary letter site_world site_bundle []).1 ≡ 1))
run_site-SiteFinished_example = run_site-SiteFinished unary letter site_world site_bundle []

-- The run goes through, and completes the operation.
completed_site_run : site_completed (run_site unary letter site_world site_bundle []).1 ≡ 1
unfolding text_eq texts_eq text_lt sort_by insert_by lookup insert erase call ◌>>=◌ ask ask_or time
    record_success or_fail record_or_return or_fail_with make_gateway read_state require_or_fail
    try_run_managed_site check_store run_site or_fail_attempt verify_billing_basis write_if_changed
    is_skipped or_fail_resource check_ownership disable_one disable_all apply_one apply_all
    write_prices write_visibility finish_site run_legacy_site resource_step record_step_success
    locate_now ask_if shut_down disable_resource is_resource_locked credential_changed
    write_resource bind_resource prepare_resource test_resource is_as_planned confirm apply_resource
    merge_site_user_groups merge_site_ratios without_groups is_off is_on verify_resources
    verify_site_groups verify_site_state text_at tagged with_id bound choose locate_managed_channel
    merge_user_usable_groups expected_mapping agree maps_equal channel_configuration_matches
    check_visibility verify_unmanaged_user_groups normal_ratio normal_ratios positive_ratio
    merge_group_ratios same_ratio verify verify_unmanaged_group_ratios compact group_keys
    resource_snapshots groups Attempts.◌>>=◌
completed_site_run = refl
