-- ===== src/Routing/Snapshot.antt =====
-- BuildSnapshot, EncodeSnapshot and DecodeSnapshot of internal/domain/routing/snapshot.go.
pub mod Build
pub mod Flow
use Prim.Native.String.{String}
use many_router.Base.{
  ℕ, Bool, true, false, not, ◌&&◌, ◌||◌, List, [], ◌∷◌, ◌++◌, map, select, Text, codes, text_lt,
  sort_by, ◌==◌, is_empty, Option, none, some, Result, ok, err, ◌>>=◌, ◌>>◌, guard, reject,
  or_reject, Uuid,
}
use many_router.Base.Int.{ℤ, pos}
use many_router.Packages.{DecimalPackage, UrlPackage}
use many_router.Site.{Site, can_sync}
use many_router.Supplier.{Supplier, Model, Protocol, open_ai_compatible, other_protocol, can_deploy}
use many_router.Routing.Types.{
  Relation, ManagedChannel, Snapshot, snapshot, no_resources, ModelRoute, enabled,
  snapshot_schema_version,
}
use many_router.Routing.Validation.Site.{validate_snapshot}

-- string(protocol)
unfoldable pub protocol_text : Protocol → Text
protocol_text open_ai_compatible = codes "openai_compatible"
protocol_text (other_protocol s) = s

abbrev pub route_less : ModelRoute → ModelRoute → Bool
route_less m n = text_lt m.model n.model

module _ {D : Type 0} where
  abbrev pub route_of : Model D → ModelRoute
  route_of m = record { model = m.name; upstream_model = m.upstream_name }

  -- The enabled models, in the order of their names.
  unfoldable pub enabled_routes : List (Model D) → List ModelRoute
  enabled_routes models = sort_by route_less (map route_of (select (λ m. m.enabled) models))

  unfoldable pub assemble :
      DecimalPackage D
      → Site
      → Supplier D
      → Relation D
      → ManagedChannel
      → List ModelRoute
      → Snapshot
  assemble decimal site supplier relation channel models =
      snapshot
        (record {
          schema_version = snapshot_schema_version;
          site_id = site.id;
          relation_id = relation.id;
          supplier_id = supplier.id;
          group = record {
            key = relation.group_key;
            display_name = relation.group_display_name;
            sale_ratio = decimal.to_string relation.sale_ratio;
            visible = relation.visible;
          };
          channel = record {
            id = channel.id;
            managed_tag = channel.managed_tag;
            name = supplier.name ++ codes " [ManyRouter]";
            protocol = protocol_text supplier.protocol;
            base_url = supplier.upstream_base_url;
            credential_id = supplier.credential_id;
            credential_version = supplier.credential_version;
            models = models;
            group_key = relation.group_key;
            extra_group_keys = [];
            priority = pos 0;
            weight = pos 100;
            desired_status = enabled;
          };
          auto_groups = [];
          resume_relation_ids = [];
          billing_basis_hash = [];
          price_version_ids = [];
          strategy_versions = [];
        })
        no_resources

  unfoldable pub build_snapshot :
      DecimalPackage D → Site → Supplier D → Relation D → ManagedChannel → Result String Snapshot
  build_snapshot decimal site supplier relation channel = do
    can_sync site
    can_deploy supplier
    guard (relation.site_id == site.id && relation.supplier_id == supplier.id)
        "relation does not belong to the supplied site and supplier"
    guard (channel.relation_id == relation.id) "managed channel does not belong to the relation"
    let models = enabled_routes supplier.models
    reject (is_empty models) "snapshot requires at least one enabled model"
    ok (assemble decimal site supplier relation channel models)

-- encoding/json and crypto/sha256 with encoding/hex, as the code uses them.
pub record SnapshotJson : Type 0 where
  pub marshal : Snapshot → Result String (List ℕ)
  -- Decode with DisallowUnknownFields.
  pub unmarshal : List ℕ → Result String Snapshot
  -- hex.EncodeToString(sha256.Sum256(payload))
  pub digest : List ℕ → Text

module _ {D : Type 0} (decimal : DecimalPackage D) (net : UrlPackage) (uuid_string : Uuid → Text)
    (json : SnapshotJson) where
  unfoldable pub encode_snapshot : Snapshot → Result String (List ℕ × Text)
  encode_snapshot s = do
    validate_snapshot decimal net uuid_string s
    payload ← json.marshal s
    ok (payload, json.digest payload)

  unfoldable pub decode_snapshot : List ℕ → Result String Snapshot
  decode_snapshot payload = do
    s ← json.unmarshal payload
    validate_snapshot decimal net uuid_string s
    ok s
