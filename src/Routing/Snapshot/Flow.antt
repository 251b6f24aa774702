-- ===== src/Routing/Snapshot/Flow.antt =====
-- From the constructors of the domain to a route plan: supplier.New (internal/domain/supplier),
-- NewRelation and NewManagedChannel (internal/domain/routing/relation.go), BuildSnapshot and
-- EncodeSnapshot (snapshot.go).
use many_router.Base.{
  ℕ, Bool, true, false, ◌||◌, ◌++◌, List, [], ◌∷◌, map, Text, contains_any, IsAscending,
  ascending-is_distinct, All, ok, reject, guard, reject-eq-ok, guard-eq-ok, >>=-eq-ok, ok-injective,
  ◌≡◌, refl, sym, arith, Time, Uuid, ◌==◌,
}
use many_router.Base.Int.{negsuc, ltb_ℤ}
use many_router.Packages.{DecimalPackage, IsDecimal, UrlPackage}
use many_router.Values.{normalize_code, normalize_name, normalize_open_ai_compatible_base_url}
use many_router.Site.{Site}
use many_router.Supplier.{Supplier, Model, ModelInput, normalize_models, new, line_breaks}
use many_router.Supplier.Models.{IsModel, normalize_models-IsModel}
use many_router.Routing.Types.{Relation, ManagedChannel, Snapshot}
use many_router.Routing.Relation.{max_ratio, new_relation, new_managed_channel}
use many_router.Routing.Validation.{invalid_route, is_base_url}
use many_router.Routing.Snapshot.{build_snapshot, route_of}
use many_router.Routing.Validation.Site.{validate_snapshot}
use many_router.Routing.Snapshot.Build.{
  HasModels, IsDeployable, IsRelation, IsManaged, build_snapshot-IsValid,
}

contains_any-++ :
    (s t : Text) (cut : List ℕ)
    → contains_any (s ++ t) cut ≡ (contains_any s cut || contains_any t cut)
unfolding contains_any
contains_any-++ [] t cut = refl
contains_any-++ (c ∷ s) t cut = ground (arith, contains_any-++ s t cut)

module _ {D : Type 0} where
  valid_route : (m : Model D) → IsModel m → invalid_route (route_of m) ≡ false
  valid_route m h =
      rw
        (
          h.name.trimmed,
          h.name.nonempty,
          h.upstream_name.trimmed,
          h.upstream_name.nonempty,
          contains_any-++ m.name m.upstream_name line_breaks,
          h.name.one_line,
          h.upstream_name.one_line,
        )
        refl

  valid_routes :
      (models : List (Model D))
      → All IsModel models
      → All (λ m. invalid_route (route_of m) ≡ false) models
  valid_routes [] h = tt
  valid_routes (m ∷ models) (h, hs) = (valid_route m h, valid_routes models hs)

  models-HasModels :
      (models : List (Model D))
      → All IsModel models
      → IsAscending (map (λ m. m.name) models)
      → HasModels models
  models-HasModels models good ascending = record {
    routes = valid_routes models good;
    distinct = ascending-is_distinct _ ascending;
  }

module _ {D : Type 0} (decimal : DecimalPackage D) (net : UrlPackage)
    (uuid_string : Uuid → Text) where
  open decimal use {is_positive, greater_than, exponent}

  new_supplier-IsDeployable :
      (id : Uuid) (code name base_url : Text) (credential_id : Uuid) (inputs : List (ModelInput D))
      (now : Time) {s : Supplier D}
      → new decimal net id code name base_url credential_id inputs now ≡ ok s
      → is_base_url decimal net uuid_string s.upstream_base_url ≡ true
      → IsDeployable (is_base_url decimal net uuid_string) s
  unfolding new
  new_supplier-IsDeployable id code name base_url credential_id inputs now {s} h url =
      let (_, some_id, h1) = >>=-eq-ok (reject (id == 0) "supplier ID is required") _ h in
      let (_, some_credential, h2) =
        >>=-eq-ok (reject (credential_id == 0) "supplier credential ID is required") _ h1 in
      let (_, _, h3) = >>=-eq-ok (normalize_code code) _ h2 in
      let (_, _, h4) = >>=-eq-ok (normalize_name name 120) _ h3 in
      let (_, _, h5) = >>=-eq-ok (normalize_open_ai_compatible_base_url net base_url) _ h4 in
      let (models, hm, h6) = >>=-eq-ok (normalize_models decimal inputs now) _ h5 in
      let same = ok-injective h6 in
      let (good, ascending) = normalize_models-IsModel decimal inputs now hm in
      record {
        id_known = rw (sym same) (reject-eq-ok _ _ some_id);
        protocol_known = rw (sym same) refl;
        url_normal = url;
        credential_known = rw (sym same) (reject-eq-ok _ _ some_credential);
        credential_positive = rw (sym same) refl;
        models = rw (sym same) (models-HasModels models good ascending);
      }

  new_relation-IsRelation :
      (id site_id supplier_id : Uuid) (display_name : Text) (ratio : D) (visible : Bool)
      (now : Time) {r : Relation D}
      → new_relation uuid_string decimal id site_id supplier_id display_name ratio visible now
        ≡ ok r
      → IsRelation decimal net uuid_string r
  unfolding new_relation
  new_relation-IsRelation id site_id supplier_id display_name ratio visible now {r} h =
      let (_, ids, h1) =
        >>=-eq-ok
          (reject (missing id site_id supplier_id) "relation, site, and supplier IDs are required")
          _ h in
      let (_, _, h2) = >>=-eq-ok (normalize_name display_name 120) _ h1 in
      let (_, positive, h3) =
        >>=-eq-ok (guard (is_positive ratio) "sale ratio must be greater than zero") _ h2 in
      let (_, in_range, h4) =
        >>=-eq-ok
          (reject (greater_than ratio (max_ratio uuid_string decimal))
            "sale ratio exceeds the supported range")
          _ h3 in
      let (_, places, h5) =
        >>=-eq-ok
          (reject (ltb_ℤ (exponent ratio) (negsuc 5))
            "sale ratio supports at most 6 decimal places")
          _ h4 in
      let same = ok-injective h5 in
      let known = reject-eq-ok _ _ ids in
      record {
        id_known = rw (sym same) (ground (arith, known));
        site_known = rw (sym same) (ground (arith, known));
        key = rw (sym same) refl;
        ratio_positive = rw (sym same) (guard-eq-ok _ _ positive);
        ratio_places = rw (sym same) (ground (arith, reject-eq-ok _ _ places));
        ratio_range = rw (sym same) (reject-eq-ok _ _ in_range);
      }
    where
      missing : Uuid → Uuid → Uuid → Bool
      missing id site_id supplier_id = id == 0 || site_id == 0 || supplier_id == 0

  new_managed_channel-IsManaged :
      (id relation_id : Uuid) (now : Time) {c : ManagedChannel}
      → new_managed_channel uuid_string id relation_id now ≡ ok c
      → IsManaged decimal net uuid_string c
  unfolding new_managed_channel
  new_managed_channel-IsManaged id relation_id now h =
      let (_, ids, h1) =
        >>=-eq-ok (reject (id == 0 || relation_id == 0) "channel and relation IDs are required") _
          h in
      let same = ok-injective h1 in
      record {
        id_known = rw (sym same) (ground (arith, reject-eq-ok _ _ ids));
        tag = rw (sym same) refl;
      }

  -- A supplier, a relation and a managed channel that their constructors make, each at a time of
  -- its own, give a valid snapshot where BuildSnapshot gives one, if the supplier's base URL is in
  -- normal form and the texts of decimals are read back.
  pub build_snapshot_of_new-IsValid :
      IsDecimal decimal
      → (site : Site) {supplier : Supplier D} {relation : Relation D} {channel : ManagedChannel}
        {s : Snapshot} (supplier_id : Uuid) (code name base_url : Text) (credential_id : Uuid)
        (inputs : List (ModelInput D)) (relation_id : Uuid) (display_name : Text) (ratio : D)
        (visible : Bool) (channel_id : Uuid) (supplied_at related_at bound_at : Time)
      → new decimal net supplier_id code name base_url credential_id inputs supplied_at
        ≡ ok supplier
      → is_base_url decimal net uuid_string supplier.upstream_base_url ≡ true
      → new_relation uuid_string decimal relation_id site.id supplier_id display_name ratio visible
          related_at
        ≡ ok relation
      → new_managed_channel uuid_string channel_id relation_id bound_at ≡ ok channel
      → build_snapshot decimal site supplier relation channel ≡ ok s
      → validate_snapshot decimal net uuid_string s ≡ ok tt
  build_snapshot_of_new-IsValid laws site {supplier} {relation} {channel} supplier_id code name
        base_url credential_id inputs relation_id display_name ratio visible channel_id supplied_at
        related_at bound_at made normal related managed built =
      build_snapshot-IsValid decimal net uuid_string laws site supplier relation channel
        (new_supplier-IsDeployable supplier_id code name base_url credential_id inputs supplied_at
          made normal)
        (new_relation-IsRelation relation_id site.id supplier_id display_name ratio visible
          related_at related)
        (new_managed_channel-IsManaged channel_id relation_id bound_at managed) built
