-- ===== src/Routing/Examples.antt =====
-- Snapshots of a small site, on which the theorems about internal/domain/routing are applied.
use many_router.Base.{
  ℕ, All, IsAscending, map, true, List, [], ◌∷◌, ◌++◌, Text, codes, none, ok, ◌≡◌, refl, text_eq,
  text_lt, trim_space, drop_spaces, is_space, byte_len, utf8_len, contains_text, contains_any,
  member, sort_by, insert_by, has_prefix, trim_right, drop_char, has_suffix, drop_last, drop, take,
}
use many_router.Base.Int.{pos}
use many_router.Packages.Unary.{unary, unary-IsDecimal, hosts, letter}
use many_router.Values.{
  normalize_code, normalize_name, is_code, is_code_rest, is_code_char, normalize_http_base_url,
  strip_version, normalize_open_ai_compatible_base_url,
}
use many_router.Site
use many_router.Site.{Site, can_sync}
use many_router.Supplier
use many_router.Supplier.{
  Supplier, ModelInput, new, normalize_models, collect_models, normalize_model,
  normalize_model_name, normalize_currency, check_prices, max_price, to_upper, can_deploy,
}
use many_router.Supplier.Models.{IsModel, normalize_models-IsModel}
use many_router.Routing.Types.{
  Relation, ManagedChannel, Snapshot, snapshot, no_resources, resource, fields, ModelRoute,
  observing, SyncStatus, DesiredStatus,
}
use many_router.Routing.Relation.{
  new_relation, new_managed_channel, group_key_of, managed_tag_of, max_ratio, without_dashes,
}
use many_router.Routing.Validation.{
  is_base_url, validate_single, has_site_fields, is_sale_ratio, check_models, check_extra_groups,
}
use many_router.Routing.Snapshot.{build_snapshot, assemble, enabled_routes, protocol_text}
use many_router.Routing.Validation.Site.{
  validate_snapshot, validate_site_snapshot, check_auto_groups, check_resources, check_resource,
  check_known_groups, check_unique, check_strategies, is_representative, is_basis_hash,
  valid_auto_group_key, is_auto_ratio,
}
use many_router.Routing.Validation.Site.Sound.{
  IsSiteSnapshot, validate_site_snapshot-IsSiteSnapshot,
}
use many_router.Routing.Snapshot.Flow.{build_snapshot_of_new-IsValid}

abbrev model_inputs : List (ModelInput ℕ)
model_inputs =
    record {
      name = codes " gpt-b ";
      upstream_name = codes "gpt-b";
      input_price = 2;
      output_price = 3;
      currency = codes "usd";
    }
    ∷ record {
      name = codes "gpt-a";
      upstream_name = codes "gpt-a-2";
      input_price = 1;
      output_price = 1;
      currency = codes "USD";
    }
    ∷ []

abbrev model_a : Supplier.Model ℕ
model_a = record {
  name = codes "gpt-a";
  upstream_name = codes "gpt-a-2";
  input_price = 1;
  output_price = 1;
  currency = codes "USD";
  enabled = true;
  created_at = 5;
  updated_at = 5;
}

abbrev model_b : Supplier.Model ℕ
model_b = record {
  name = codes "gpt-b";
  upstream_name = codes "gpt-b";
  input_price = 2;
  output_price = 3;
  currency = codes "USD";
  enabled = true;
  created_at = 5;
  updated_at = 5;
}

abbrev upstream : Supplier ℕ
upstream = record {
  id = 7;
  code = codes "up-1";
  name = codes "Upstream";
  protocol = Supplier.open_ai_compatible;
  upstream_base_url = codes "api.example";
  credential_id = 9;
  credential_version = pos 1;
  status = Supplier.Status.enabled;
  version = pos 1;
  models = model_a ∷ model_b ∷ [];
  created_at = 5;
  updated_at = 5;
}

upstream_made :
    new unary hosts 7 (codes "up-1") (codes "Upstream") (codes "api.example") 9 model_inputs 5
    ≡ ok upstream
unfolding new normalize_models collect_models normalize_model normalize_model_name
    normalize_currency check_prices max_price to_upper normalize_code normalize_name is_code
    is_code_rest is_code_char normalize_http_base_url strip_version
    normalize_open_ai_compatible_base_url trim_space drop_spaces is_space byte_len utf8_len
    contains_text contains_any member sort_by insert_by text_eq text_lt trim_right drop_char
    has_suffix drop_last drop take has_prefix
upstream_made = refl

abbrev pub example_site : Site
example_site = record {
  id = 3;
  code = codes "site";
  name = codes "Site";
  new_api_base_url = codes "new.example";
  admin_credential_id = 4;
  admin_user_id = pos 1;
  status = Site.Status.enabled;
  compatibility_status = Site.unknown;
  version = pos 1;
  created_at = 5;
  updated_at = 5;
}

abbrev pub relation : Relation ℕ
relation = record {
  id = 11;
  site_id = 3;
  supplier_id = 7;
  group_key = codes "mr_s_" ++ letter 11;
  group_display_name = codes "Group";
  sale_ratio = 2;
  visible = true;
  desired_status = observing;
  sync_status = SyncStatus.pending;
  version = pos 1;
  current_plan_id = 0;
  current_plan_version = pos 0;
  last_confirmed_at = none;
  created_at = 5;
  updated_at = 5;
}

abbrev pub channel : ManagedChannel
channel = record {
  id = 12;
  relation_id = 11;
  managed_tag = codes "manyrouter:" ++ letter 11;
  external_channel_id = none;
  last_confirmed_plan_version = none;
  last_confirmed_credential_id = 0;
  last_confirmed_credential_version = pos 0;
  last_confirmed_enabled = none;
  created_at = 5;
  updated_at = 5;
}

relation_made : new_relation letter unary 11 3 7 (codes "Group ") 2 true 5 ≡ ok relation
unfolding new_relation normalize_name trim_space drop_spaces is_space max_ratio group_key_of
    without_dashes
relation_made = refl

channel_made : new_managed_channel letter 12 11 5 ≡ ok channel
unfolding new_managed_channel managed_tag_of
channel_made = refl

abbrev routes : List ModelRoute
routes =
    record { model = codes "gpt-a"; upstream_model = codes "gpt-a-2" }
    ∷ record { model = codes "gpt-b"; upstream_model = codes "gpt-b" }
    ∷ []

abbrev pub single : Snapshot
single =
    snapshot
      (record {
        schema_version = 1;
        site_id = 3;
        relation_id = 11;
        supplier_id = 7;
        group = record {
          key = codes "mr_s_" ++ letter 11;
          display_name = codes "Group";
          sale_ratio = codes "+11";
          visible = true;
        };
        channel = record {
          id = 12;
          managed_tag = codes "manyrouter:" ++ letter 11;
          name = codes "Upstream [ManyRouter]";
          protocol = codes "openai_compatible";
          base_url = codes "api.example";
          credential_id = 9;
          credential_version = pos 1;
          models = routes;
          group_key = codes "mr_s_" ++ letter 11;
          extra_group_keys = [];
          priority = pos 0;
          weight = pos 100;
          desired_status = DesiredStatus.enabled;
        };
        auto_groups = [];
        resume_relation_ids = [];
        billing_basis_hash = [];
        price_version_ids = [];
        strategy_versions = [];
      })
      no_resources

single_built : build_snapshot unary example_site upstream relation channel ≡ ok single
unfolding build_snapshot assemble enabled_routes protocol_text can_sync can_deploy sort_by insert_by
    text_lt
single_built = refl

build_snapshot_of_new-IsValid_example : validate_snapshot unary hosts letter single ≡ ok tt
build_snapshot_of_new-IsValid_example =
    build_snapshot_of_new-IsValid unary hosts letter unary-IsDecimal example_site {s = single} 7
      (codes "up-1") (codes "Upstream") (codes "api.example") 9 model_inputs 11 (codes "Group ") 2
      true 12 5 5 5 upstream_made normal_url relation_made channel_made single_built
  where
    normal_url : is_base_url unary hosts letter (codes "api.example") ≡ true
    normal_url =
        unfold is_base_url normalize_http_base_url trim_space drop_spaces is_space byte_len utf8_len
          text_eq trim_right in
        refl

abbrev pub sixteen : Text
sixteen = codes "0123456789abcdef"

abbrev pub site_snapshot : Snapshot
site_snapshot =
    snapshot
      (record (fields single) {
        schema_version = 2;
        auto_groups =
            record {
              key = codes "mrab";
              display_name = codes "Balanced";
              sale_ratio = codes "+111";
              visible = true;
            }
            ∷ [];
        resume_relation_ids = 11 ∷ [];
        billing_basis_hash = sixteen ++ sixteen ++ sixteen ++ sixteen;
        price_version_ids = 21 ∷ 22 ∷ [];
        strategy_versions = record { id = 31; version = pos 1 } ∷ [];
      })
      (resource single no_resources)

site_snapshot_valid : validate_site_snapshot unary hosts letter site_snapshot ≡ ok tt
unfolding validate_site_snapshot check_auto_groups check_resources check_resource check_known_groups
    check_unique check_strategies is_representative is_basis_hash valid_auto_group_key is_auto_ratio
    contains_text contains_any member text_eq text_lt byte_len utf8_len has_prefix validate_single
    has_site_fields group_key_of managed_tag_of without_dashes is_base_url normalize_http_base_url
    trim_space drop_spaces is_space trim_right is_sale_ratio max_ratio check_models
    check_extra_groups
site_snapshot_valid = refl

validate_site_snapshot-IsSiteSnapshot_example : IsSiteSnapshot unary hosts letter site_snapshot
validate_site_snapshot-IsSiteSnapshot_example =
    validate_site_snapshot-IsSiteSnapshot unary hosts letter site_snapshot site_snapshot_valid

models_made : normalize_models unary model_inputs 5 ≡ ok (model_a ∷ model_b ∷ [])
unfolding normalize_models collect_models normalize_model normalize_model_name normalize_currency
    check_prices max_price to_upper trim_space drop_spaces is_space byte_len utf8_len contains_text
    contains_any member sort_by insert_by text_eq text_lt
models_made = refl

normalize_models-IsModel_example :
    All IsModel (model_a ∷ model_b ∷ []) × IsAscending (map (λ m. m.name) (model_a ∷ model_b ∷ []))
normalize_models-IsModel_example = normalize_models-IsModel unary model_inputs 5 models_made
