-- ===== src/Routing/Validation.antt =====
-- ValidateSnapshot of internal/domain/routing/snapshot.go and validateSiteSnapshot of
-- site_snapshot.go. The method String of google/uuid is `uuid_string`.
pub mod Site
use Prim.Native.String.{String}
use many_router.Base.{
  ℕ, Bool, true, false, not, ◌&&◌, ◌||◌, List, [], ◌∷◌, ◌++◌, Text, codes, text_eq, text_lt,
  trim_space, contains_text, contains_any, member, has_prefix, any_of, leb, ltb, ◌==◌, is_empty,
  length, Option, none, some, Result, ok, err, ◌>>=◌, ◌>>◌, guard, reject, or_reject, if◌then◌else◌,
  Uuid,
}
use many_router.Base.Int.{ℤ, pos, negsuc, ltb_ℤ, leb_ℤ}
use many_router.Packages.{DecimalPackage, UrlPackage}
use many_router.Values.{normalize_http_base_url}
use many_router.Supplier.{line_breaks}
use many_router.Routing.Types.{
  Snapshot, snapshot, SnapshotFields, fields, resources, ModelRoute, DesiredGroup, DesiredChannel,
  DesiredStatus, enabled, disabled, StrategyReference, snapshot_schema_version,
  site_snapshot_schema_version,
}
use many_router.Routing.Relation.{group_key_of, managed_tag_of, max_ratio}

-- `previous != "" && name <= previous`
abbrev pub follows : Text → Text → Bool
follows previous name = is_empty previous || text_lt previous name

abbrev pub invalid_route : ModelRoute → Bool
invalid_route model =
    is_empty (trim_space model.model)
    || is_empty (trim_space model.upstream_model)
    || contains_any (model.model ++ model.upstream_model) line_breaks

-- The loop over the models.
unfoldable pub check_models : Text → List ModelRoute → Result String (Unit {0})
check_models previous [] = ok tt
check_models previous (model ∷ models) = do
  reject (invalid_route model) "snapshot contains an invalid model"
  guard (follows previous model.model) "snapshot models must be unique and sorted"
  check_models model.model models

-- The loop over the extra groups.
unfoldable pub check_extra_groups : Text → Text → List Text → Result String (Unit {0})
check_extra_groups group_key previous [] = ok tt
check_extra_groups group_key previous (group ∷ groups) = do
  reject
      (is_empty group
        || not (text_lt previous group)
        || text_eq group group_key
        || contains_any group line_breaks)
      "extra groups must be valid, unique and sorted"
  check_extra_groups group_key group groups

abbrev pub is_final_status : DesiredStatus → Bool
is_final_status enabled = true
is_final_status disabled = true
is_final_status _ = false

-- Some field is filled that only a site snapshot may have.
unfoldable pub has_site_fields : Snapshot → Bool
has_site_fields s =
    let f = fields s in
    not (is_empty (resources s))
    || not (is_empty f.auto_groups)
    || not (is_empty f.resume_relation_ids)
    || not (is_empty f.billing_basis_hash)
    || not (is_empty f.price_version_ids)
    || not (is_empty f.strategy_versions)

module _ {D : Type 0} (decimal : DecimalPackage D) (net : UrlPackage)
    (uuid_string : Uuid → Text) where
  open decimal use {from_string, is_positive, greater_than, exponent}

  unfoldable pub is_base_url : Text → Bool
  is_base_url url = by_result (normalize_http_base_url net url)
    where
      by_result : Result String Text → Bool
      by_result (ok normalized) = text_eq normalized url
      by_result (err e) = false

  unfoldable pub is_sale_ratio : Option D → Bool
  is_sale_ratio none = false
  is_sale_ratio (some ratio) =
      is_positive ratio
      && not (ltb_ℤ (exponent ratio) (negsuc 5))
      && not (greater_than ratio (max_ratio uuid_string decimal))

  -- ValidateSnapshot on a snapshot of schema version 1.
  unfoldable pub validate_single : Snapshot → Result String (Unit {0})
  validate_single s = do
    let f = fields s
    let channel = f.channel
    reject (f.site_id == 0 || f.relation_id == 0 || f.supplier_id == 0)
        "snapshot site, relation, and supplier IDs are required"
    reject (has_site_fields s) "single-resource snapshots cannot contain site-level fields"
    guard
        (text_eq f.group.key (group_key_of uuid_string f.relation_id)
          && text_eq channel.group_key f.group.key)
        "snapshot managed group identity is invalid"
    reject
        (channel.id == 0
          || not (text_eq channel.managed_tag (managed_tag_of uuid_string f.relation_id)))
        "snapshot managed channel identity is invalid"
    reject (channel.credential_id == 0 || leb_ℤ channel.credential_version (pos 0))
        "snapshot channel credential is invalid"
    guard (text_eq channel.protocol (codes "openai_compatible"))
        "snapshot channel protocol is unsupported"
    guard (is_base_url channel.base_url) "snapshot channel base URL is invalid"
    guard (is_sale_ratio (from_string f.group.sale_ratio)) "snapshot sale ratio is invalid"
    reject (is_empty channel.models) "snapshot requires at least one model"
    check_models [] channel.models
    reject (ltb_ℤ channel.weight (pos 0)) "snapshot channel weight is invalid"
    check_extra_groups channel.group_key [] channel.extra_group_keys
    guard (is_final_status channel.desired_status) "snapshot desired channel status is invalid"
