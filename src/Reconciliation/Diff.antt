-- ===== src/Reconciliation/Diff.antt =====
-- internal/application/reconciliation/diff.go: the comparison of a plan with the state of New API.
-- A loop over a map goes through its entries in their order.
pub mod Applied
pub mod Groups
pub mod Located
pub mod Mapping
pub mod Unmanaged
use Prim.Native.String.{String}
use many_router.Base.{
  ℕ, Bool, true, false, not, ◌&&◌, ◌||◌, List, [], ◌∷◌, map, select, length, is_empty, Text,
  text_eq, texts_eq, text_lt, sort_by, ltb, ◌==◌, Map, lookup, insert, erase, is_some, Option, none,
  some, Result, ok, err, ◌>>=◌, ◌>>◌, guard, reject, or_reject, if◌then◌else◌,
}
use many_router.Base.Int.{ℤ, eq_ℤ}
use many_router.Packages.{DecimalPackage}
use many_router.Routing.Types.{
  Snapshot, DesiredChannel, DesiredGroup, ModelRoute, fields, group_keys,
}
use many_router.Reconciliation.Types.{
  FailureKind, configuration, compatibility, ownership, Failure, failure, ActualChannel,
  ActualState, ChannelStatus, ChannelStatus.enabled,
}

-- m[key], where a missing key gives the empty string.
unfoldable pub text_at : Text → Map Text → Text
text_at key m = or_empty (lookup key m)
  where
    or_empty : Option Text → Text
    or_empty none = []
    or_empty (some s) = s

-- The channels with the tag, in their order.
unfoldable pub tagged : Text → List ActualChannel → List ActualChannel
tagged tag channels = select (λ c. text_eq c.managed_tag tag) channels

-- The last channel with the identifier.
unfoldable pub with_id : ℤ → List ActualChannel → Option ActualChannel
with_id id [] = none
with_id id (c ∷ channels) = or_this (with_id id channels)
  where
    or_this : Option ActualChannel → Option ActualChannel
    or_this (some found) = some found
    or_this none = if eq_ℤ c.id id then some c else none

unfoldable pub bound : Option ℤ → List ActualChannel → Option ActualChannel
bound none channels = none
bound (some id) channels = with_id id channels

-- What is returned once no two channels have the tag.
unfoldable pub choose :
    Text → Option ActualChannel → List ActualChannel → Result Failure (Option ActualChannel)
choose tag (some c) matching = do
  guard (text_eq c.managed_tag tag) (failure ownership "binding_mismatch")
  ok (some c)
choose tag none (c ∷ []) = ok (some c)
choose tag none _ = ok none

unfoldable pub locate_managed_channel :
    DesiredChannel → Option ℤ → List ActualChannel → Result Failure (Option ActualChannel)
locate_managed_channel expected binding channels = do
  let matching = tagged expected.managed_tag channels
  reject (ltb 1 (length matching)) (failure ownership "managed_resource_conflict")
  choose expected.managed_tag (bound binding channels) matching

unfoldable pub merge_user_usable_groups : Map Text → DesiredGroup → Map Text × Bool
merge_user_usable_groups current group =
    if group.visible
    then (
      insert group.key group.display_name current,
      not (text_eq (text_at group.key current) group.display_name),
    )
    else (erase group.key current, is_some (lookup group.key current))

-- The model mapping that a plan wants: an entry for each model with another upstream name. The
-- last model of a name decides.
unfoldable pub expected_mapping : Map Text → List ModelRoute → Map Text
expected_mapping mapping [] = mapping
expected_mapping mapping (m ∷ models) =
    expected_mapping
      (if text_eq m.model m.upstream_model
        then mapping
        else insert m.model m.upstream_model mapping)
      models

-- The loop of mapsEqual over the left map.
unfoldable pub agree : Map Text → Map Text → Bool
agree [] right = true
agree (entry ∷ left) right = text_eq (text_at entry.0 right) entry.1 && agree left right

unfoldable pub maps_equal : Map Text → Map Text → Bool
maps_equal left right = (length left == length right) && agree left right

unfoldable pub channel_configuration_matches : DesiredChannel → ActualChannel → Bool
channel_configuration_matches expected actual =
    text_eq expected.managed_tag actual.managed_tag
    && text_eq expected.name actual.name
    && text_eq expected.protocol actual.protocol
    && text_eq expected.base_url actual.base_url
    && eq_ℤ expected.priority actual.priority
    && eq_ℤ expected.weight actual.weight
    && texts_eq (sort_by text_lt (map (λ m. m.model) expected.models))
        (sort_by text_lt actual.models)
    && maps_equal (expected_mapping [] expected.models) actual.model_mapping
    && texts_eq (group_keys expected) (sort_by text_lt actual.groups)

abbrev pub is_enabled : ChannelStatus → Bool
is_enabled enabled = true
is_enabled _ = false

-- The test of the user groups in Verify.
unfoldable pub check_visibility : DesiredGroup → Option Text → Result Failure (Unit {0})
check_visibility group none = reject group.visible (failure compatibility "group_visibility_drift")
check_visibility group (some description) =
    guard (group.visible && text_eq description group.display_name)
      (failure compatibility "group_visibility_drift")

-- The loop of VerifyUnmanagedUserGroups.
unfoldable pub verify_unmanaged_user_groups :
    (before after : Map Text) → Text → Result Failure (Unit {0})
verify_unmanaged_user_groups [] after managed_group = ok tt
verify_unmanaged_user_groups (entry ∷ before) after managed_group =
    let rest = verify_unmanaged_user_groups before after managed_group in
    if text_eq entry.0 managed_group
    then rest
    else or_reject (lookup entry.0 after) (failure ownership "unmanaged_user_group_removed")
      >>= λ description.
          guard (text_eq description entry.1) (failure ownership "unmanaged_user_group_changed")
          >> rest

module _ {D : Type 0} (decimal : DecimalPackage D) where
  open decimal use {from_string, to_string, is_positive, is_negative, equal}

  -- The text that decimal.NewFromString and String make of a ratio that is not negative.
  unfoldable pub normal_ratio : Text → Option Text
  normal_ratio raw = of_decimal (from_string raw)
    where
      of_decimal : Option D → Option Text
      of_decimal none = none
      of_decimal (some ratio) = if is_negative ratio then none else some (to_string ratio)

  -- The loop of MergeGroupRatios over the current ratios.
  unfoldable pub normal_ratios : Map Text → Result Failure (Map Text)
  normal_ratios [] = ok []
  normal_ratios (entry ∷ current) = do
    ratio ← or_reject (normal_ratio entry.1) (failure compatibility "invalid_group_ratio")
    rest ← normal_ratios current
    ok ((entry.0, ratio) ∷ rest)

  unfoldable pub positive_ratio : Text → Option D
  positive_ratio raw = of_decimal (from_string raw)
    where
      of_decimal : Option D → Option D
      of_decimal none = none
      of_decimal (some ratio) = if is_positive ratio then some ratio else none

  unfoldable pub merge_group_ratios :
      Map Text → (group_key expected_ratio : Text) → Result Failure (Map Text × Bool)
  merge_group_ratios current group_key expected_ratio = do
    expected ←
        or_reject (positive_ratio expected_ratio) (failure configuration "invalid_sale_ratio")
    merged ← normal_ratios current
    let normalized = to_string expected
    ok (insert group_key normalized merged, not (text_eq (text_at group_key merged) normalized))

  -- Both texts are decimals, of the same value.
  unfoldable pub same_ratio : (want got : Text) → Bool
  same_ratio want got = both (from_string want) (from_string got)
    where
      both : Option D → Option D → Bool
      both (some w) (some g) = equal w g
      both _ _ = false

  unfoldable pub verify : Snapshot → ActualState → Option ℤ → Result Failure ActualChannel
  verify expected actual binding = do
    let f = fields expected
    located ← locate_managed_channel f.channel binding actual.channels
    channel ← or_reject located (failure compatibility "channel_missing")
    guard (channel_configuration_matches f.channel channel) (failure compatibility "channel_drift")
    ratio ←
        or_reject (lookup f.group.key actual.group_ratios)
          (failure compatibility "group_ratio_missing")
    guard (same_ratio f.group.sale_ratio ratio) (failure compatibility "group_ratio_drift")
    guard (is_enabled channel.status) (failure compatibility "channel_not_enabled")
    check_visibility f.group (lookup f.group.key actual.user_usable_groups)
    ok channel

  -- The loop of VerifyUnmanagedGroupRatios.
  unfoldable pub verify_unmanaged_group_ratios :
      (before after : Map Text) → Text → Result Failure (Unit {0})
  verify_unmanaged_group_ratios [] after managed_group = ok tt
  verify_unmanaged_group_ratios (entry ∷ before) after managed_group =
      let rest = verify_unmanaged_group_ratios before after managed_group in
      if text_eq entry.0 managed_group
      then rest
      else or_reject (lookup entry.0 after) (failure ownership "unmanaged_group_removed")
        >>= λ raw_after.
            guard (same_ratio entry.1 raw_after) (failure ownership "unmanaged_group_changed")
            >> rest
