-- ===== src/Reconciliation/Examples.antt =====
-- A synchronization of one resource, on which the theorems about internal/application/reconciliation
-- are applied: New API has another group, and no channel before one is created.
use many_router.Base.{
  ℕ, ◌≤◌, ◌+◌, ◌*◌, Bool, true, false, [], ◌∷◌, ◌++◌, Text, codes, lookup, insert, erase, none,
  some, ok, err, ◌≡◌, refl, ◌⊎◌, ◌↔◌, if◌then◌else◌, text_eq, texts_eq, text_lt, sort_by, insert_by,
  contains_text, length,
}
use many_router.Base.Int.{pos}
use many_router.Packages.Unary.{unary, unary-IsDecimal, letter}
use many_router.Credential
use many_router.Routing.Types.{fields, PlanStatus, DesiredGroup, group_keys, compact}
use many_router.Routing.Examples.{example_site, channel, single}
use many_router.Reconciliation.Types.{
  ActualChannel, ActualState, ChannelStatus, Bundle, OperationStatus, other_error,
}
use many_router.Reconciliation.Actions.{create_channel, History, Environment, call, ◌>>=◌}
use many_router.Reconciliation.Steps.{
  classify_failure, retry_delay, record_success, finish_failure, or_fail, record_or_return,
  or_fail_with, retry_delay_mono,
}
use many_router.Reconciliation.Diff.{
  text_at, tagged, with_id, bound, choose, locate_managed_channel, merge_user_usable_groups,
  expected_mapping, agree, maps_equal, channel_configuration_matches, check_visibility,
  verify_unmanaged_user_groups, normal_ratio, normal_ratios, positive_ratio, merge_group_ratios,
  same_ratio, verify, verify_unmanaged_group_ratios,
}
use many_router.Reconciliation.Diff.Groups.{
  normal_at, merge_group_ratios-lookup, merge_user_usable_groups-lookup,
}
use many_router.Reconciliation.Diff.Unmanaged.{IsKeptAt, verify_unmanaged_group_ratios-IsKeptAt}
use many_router.Reconciliation.Diff.Applied.{verify-applied}
use many_router.Reconciliation.Diff.Located.{IsSynchronized, verify-IsSynchronized}
use many_router.Reconciliation.Diff.Mapping.{maps_equal_iff}
use many_router.Reconciliation.Single.Known.{IsKnown}
use many_router.Reconciliation.Single.Completion.{
  IsCompletion, run_single-Finished, run_single-writes,
}
use many_router.Reconciliation.Single.Settled.{IsReliable, run_single-settled}
use many_router.Reconciliation.Single.{
  run_single, make_gateway, read_state, is_locked, Survey, survey, write_if, write_channel,
  needs_write, look_again, or_unconfirmed, bind_if, first_model, activate, write_groups, finish,
  apply, attempted,
}
use many_router.Reconciliation.Trace.{completed, settled, writes, Extends}

abbrev pub key : Text
key = codes "mr_s_" ++ letter 11

-- Before the first write.
abbrev pub fresh : ActualState
fresh = record {
  version = codes "v1";
  group_ratios = (codes "vip", codes "+1") ∷ [];
  user_usable_groups = (codes "vip", codes "VIP") ∷ [];
  channels = [];
}

abbrev pub created : ActualChannel
created = record {
  id = pos 77;
  managed_tag = codes "manyrouter:" ++ letter 11;
  name = codes "Upstream [ManyRouter]";
  protocol = codes "openai_compatible";
  base_url = codes "api.example";
  models = codes "gpt-b" ∷ codes "gpt-a" ∷ [];
  model_mapping = (codes "gpt-a", codes "gpt-a-2") ∷ [];
  groups = key ∷ [];
  priority = pos 0;
  weight = pos 100;
  status = ChannelStatus.enabled;
  credential_version = pos 1;
}

-- After the writes.
abbrev written : ActualState
written = record {
  version = codes "v1";
  group_ratios = (codes "vip", codes "+1") ∷ (key, codes "+11") ∷ [];
  user_usable_groups = (codes "vip", codes "VIP") ∷ (key, codes "Group") ∷ [];
  channels = created ∷ [];
}

abbrev pub is_created : History → Bool
is_created [] = false
is_created (create_channel d secret ∷ h) = true
is_created (_ ∷ h) = is_created h

abbrev pub secret : Credential.Record
secret = record {
  id = 9;
  purpose = Credential.supplier_api_key;
  ciphertext = [];
  nonce = [];
  key_version = pos 1;
}

abbrev pub bundle : Bundle
bundle = record {
  operation = record {
    id = 41;
    site_id = 3;
    relation_id = 11;
    route_plan_id = 42;
    status = OperationStatus.pending;
    attempt = pos 0;
  };
  site = example_site;
  plan = record {
    id = 42;
    site_id = 3;
    relation_id = 11;
    version = pos 1;
    previous_plan_id = none;
    reason = codes "created";
    snapshot = single;
    snapshot_json = [];
    content_hash = [];
    status = PlanStatus.pending;
    created_at = 5;
    confirmed_at = none;
  };
  managed_channel = channel;
  admin_credential = secret;
  supplier_credential = secret;
  current_plan_id = 42;
  resources = [];
}

-- New API shows the writes once the channel was created; everything succeeds.
abbrev pub world : Environment
world = record {
  now = λ h. length h;
  new_id = λ h. 41;
  create_operation = λ h. ok bundle.operation;
  load_bundle = λ h. ok bundle;
  acquire_site_lock = λ h. ok true;
  decrypt = λ h. ok (codes "key");
  probe = λ h. ok (codes "v1");
  read_actual_state = λ h. ok (if is_created h then written else fresh);
  read_billing_basis = λ h. ok [];
  perform = λ h. ok tt;
  has_dispatcher = true;
  has_site_store = true;
  has_site_gateways = true;
  has_billing_basis = false;
  is_managed_gateway = false;
  has_approvals = false;
  read_managed_sync_capabilities = λ h. err (other_error "none");
  managed_sync_approved = λ h. ok true;
  read_managed_state = λ h. err (other_error "none");
  apply_managed_state = λ h. err (other_error "none");
}

-- The run goes through, and completes the operation for the channel.
completed_run : completed (run_single unary world bundle []).1 ≡ pos 77 ∷ []
unfolding call ◌>>=◌ classify_failure record_success finish_failure or_fail record_or_return
    or_fail_with make_gateway read_state is_locked survey write_if write_channel needs_write
    look_again or_unconfirmed bind_if first_model activate write_groups finish apply run_single
    text_at tagged with_id bound choose locate_managed_channel merge_user_usable_groups
    expected_mapping agree maps_equal channel_configuration_matches check_visibility
    verify_unmanaged_user_groups normal_ratio normal_ratios positive_ratio merge_group_ratios
    same_ratio verify verify_unmanaged_group_ratios text_eq texts_eq text_lt sort_by insert_by
    lookup insert erase group_keys compact
completed_run = refl

run_single-Finished_example :
    (completed (run_single unary world bundle []).1 ≡ [])
    ⊎ ((done : IsCompletion unary world (attempted bundle) [] (run_single unary world bundle []).1)
        × (completed (run_single unary world bundle []).1 ≡ done.end.channel.id ∷ []))
run_single-Finished_example = run_single-Finished unary world bundle []

run_single-writes_example :
    (writes (run_single unary world bundle []).1 ≡ [])
    ⊎ ((known : Survey) × (surveyed : History) × IsKnown world (attempted bundle) [] known surveyed
        × Extends surveyed (run_single unary world bundle []).1)
run_single-writes_example = run_single-writes unary world bundle []

world-IsReliable : IsReliable world
world-IsReliable = record {
  starts = λ step t h. refl;
  records = λ s h. refl;
  binds = λ id c t h. refl;
  completes = λ c t h. refl;
}

run_single-settled_example : settled (run_single unary world bundle []).1 ≡ 1
run_single-settled_example = run_single-settled unary world world-IsReliable bundle [] refl

merged_ratios :
    merge_group_ratios unary fresh.group_ratios key (codes "+11") ≡ ok (written.group_ratios, true)
unfolding merge_group_ratios normal_ratios normal_ratio positive_ratio text_at insert lookup text_eq
merged_ratios = refl

merge_group_ratios-lookup_example :
    (ratio : ℕ) × (positive_ratio unary (codes "+11") ≡ some ratio)
    × ((k : Text)
        → lookup k written.group_ratios ≡ (
            if text_eq k key
            then some (unary.to_string ratio)
            else normal_at unary (lookup k fresh.group_ratios)))
    × ((true ≡ true)
        ⊎ (normal_at unary (lookup key fresh.group_ratios) ≡ some (unary.to_string ratio)))
merge_group_ratios-lookup_example =
    merge_group_ratios-lookup unary unary-IsDecimal fresh.group_ratios key (codes "+11")
      merged_ratios

abbrev plan_group : DesiredGroup
plan_group = (fields single).group

merge_user_usable_groups-lookup_example :
    lookup (codes "vip") (merge_user_usable_groups fresh.user_usable_groups plan_group).0 ≡ (
      if text_eq (codes "vip") key
      then some (codes "Group")
      else lookup (codes "vip") fresh.user_usable_groups)
merge_user_usable_groups-lookup_example =
    merge_user_usable_groups-lookup fresh.user_usable_groups plan_group (codes "vip")

kept_ratios :
    verify_unmanaged_group_ratios unary fresh.group_ratios written.group_ratios key ≡ ok tt
unfolding verify_unmanaged_group_ratios same_ratio text_eq lookup
kept_ratios = refl

verify_unmanaged_group_ratios-IsKeptAt_example :
    IsKeptAt (same_ratio unary) fresh.group_ratios written.group_ratios (codes "vip")
verify_unmanaged_group_ratios-IsKeptAt_example =
    verify_unmanaged_group_ratios-IsKeptAt unary fresh.group_ratios written.group_ratios key
      (codes "vip") kept_ratios (unfold text_eq in refl)

written_verified : verify unary single written (some (pos 77)) ≡ ok created
unfolding verify locate_managed_channel tagged bound with_id choose channel_configuration_matches
    maps_equal agree text_at expected_mapping check_visibility same_ratio text_eq texts_eq text_lt
    sort_by insert_by lookup insert group_keys compact
written_verified = refl

verify-IsSynchronized_example : IsSynchronized unary single written created
verify-IsSynchronized_example =
    verify-IsSynchronized unary single written (some (pos 77)) written_verified

verify-applied_example :
    (verify_unmanaged_group_ratios unary fresh.group_ratios written.group_ratios key ≡ ok tt)
    × (verify_unmanaged_user_groups fresh.user_usable_groups written.user_usable_groups key ≡ ok tt)
    × (verify unary single written (some (pos 77)) ≡ ok created)
verify-applied_example =
    verify-applied unary unary-IsDecimal single fresh written (some (pos 77)) created
      (unfold contains_text in refl) (unfold contains_text in refl) merged_ratios
      (unfold merge_user_usable_groups insert text_eq in refl)
      (unfold locate_managed_channel tagged bound with_id choose text_eq in refl)
      (unfold channel_configuration_matches maps_equal agree text_at expected_mapping text_eq
          texts_eq text_lt sort_by insert_by lookup insert group_keys compact in
        refl)
      refl

maps_equal_iff_example :
    (maps_equal ((codes "a", codes "b") ∷ []) created.model_mapping ≡ true)
    ↔ ((k : Text) → lookup k ((codes "a", codes "b") ∷ []) ≡ lookup k created.model_mapping)
maps_equal_iff_example =
    maps_equal_iff ((codes "a", codes "b") ∷ []) created.model_mapping (refl, tt)
      (unfold contains_text in refl) (unfold contains_text in refl)

retry_delay_mono_example :
    (30 * 1000000000 ≤ retry_delay (pos 3))
    × (retry_delay (pos 3) ≤ 960 * 1000000000)
    × (retry_delay (pos 3) ≤ retry_delay (pos (3 + 1)))
retry_delay_mono_example = retry_delay_mono 3
