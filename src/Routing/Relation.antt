-- ===== src/Routing/Relation.antt =====
-- NewRelation and NewManagedChannel of internal/domain/routing/relation.go. `uuid_string` is the
-- String method of google/uuid.
use Prim.Native.String.{String}
use many_router.Base.{
  Bool, not, ◌||◌, ◌++◌, Text, codes, ◌==◌, select, none, Result, ok, ◌>>=◌, ◌>>◌, guard, reject,
  Uuid, Time,
}
use many_router.Base.Int.{pos, negsuc, ltb_ℤ}
use many_router.Packages.{DecimalPackage}
use many_router.Values.{normalize_name}
use many_router.Routing.Types.{Relation, ManagedChannel, observing, SyncStatus}

abbrev pub prefix : Text
prefix = codes "mr_s_"

-- strings.ReplaceAll(s, "-", "")
unfoldable pub without_dashes : Text → Text
without_dashes s = select (λ c. not (c == b'-')) s

module _ (uuid_string : Uuid → Text) where
  -- GroupKey(relationID)
  unfoldable pub group_key_of : Uuid → Text
  group_key_of relation_id = prefix ++ without_dashes (uuid_string relation_id)

  -- ManagedTag(relationID)
  unfoldable pub managed_tag_of : Uuid → Text
  managed_tag_of relation_id = codes "manyrouter:" ++ uuid_string relation_id

  unfoldable pub new_managed_channel : Uuid → Uuid → Time → Result String ManagedChannel
  new_managed_channel id relation_id now = do
    reject (id == 0 || relation_id == 0) "channel and relation IDs are required"
    ok (record {
      id = id;
      relation_id = relation_id;
      managed_tag = managed_tag_of relation_id;
      external_channel_id = none;
      last_confirmed_plan_version = none;
      last_confirmed_credential_id = 0;
      last_confirmed_credential_version = pos 0;
      last_confirmed_enabled = none;
      created_at = now;
      updated_at = now;
    })

  module _ {D : Type 0} (decimal : DecimalPackage D) where
    open decimal use {is_positive, greater_than, exponent, literal}

    unfoldable pub max_ratio : D
    max_ratio = literal (codes "999999.999999")

    unfoldable pub new_relation :
        (id site_id supplier_id : Uuid) → Text → D → Bool → Time → Result String (Relation D)
    new_relation id site_id supplier_id display_name sale_ratio visible now = do
      reject (id == 0 || site_id == 0 || supplier_id == 0)
          "relation, site, and supplier IDs are required"
      name ← normalize_name display_name 120
      guard (is_positive sale_ratio) "sale ratio must be greater than zero"
      reject (greater_than sale_ratio max_ratio) "sale ratio exceeds the supported range"
      reject (ltb_ℤ (exponent sale_ratio) (negsuc 5)) "sale ratio supports at most 6 decimal places"
      ok (record {
        id = id;
        site_id = site_id;
        supplier_id = supplier_id;
        group_key = group_key_of id;
        group_display_name = name;
        sale_ratio = sale_ratio;
        visible = visible;
        desired_status = observing;
        sync_status = SyncStatus.pending;
        version = pos 1;
        current_plan_id = 0;
        current_plan_version = pos 0;
        last_confirmed_at = none;
        created_at = now;
        updated_at = now;
      })
