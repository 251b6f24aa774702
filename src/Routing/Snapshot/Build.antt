-- ===== src/Routing/Snapshot/Build.antt =====
-- The snapshots that BuildSnapshot makes pass ValidateSnapshot
-- (internal/domain/routing/snapshot.go).
use many_router.Base.{
  Bool, true, false, ◌&&◌, List, [], ◌∷◌, map, select, Text, text_eq, text_lt, text_eq_refl,
  contains_text, ◌==◌, ==_iff, is_empty, is_distinct, IsAscending, sort-IsAscending, map-sort_by,
  All, All-sort_by, All-select, All-map, ok, guard, reject, guard-eq-ok, reject-eq-ok, >>=-eq-ok,
  ok-injective, ◌≡◌, refl, sym, ap, ◌∙◌, arith, Uuid,
}
use many_router.Base.Int.{pos, negsuc, leb_ℤ}
use many_router.Packages.{DecimalPackage, IsDecimal, UrlPackage}
use many_router.Site.{Site, can_sync}
use many_router.Supplier.{Supplier, Model, open_ai_compatible, can_deploy}
use many_router.Routing.Types.{Relation, ManagedChannel, Snapshot, ModelRoute}
use many_router.Routing.Relation.{group_key_of, managed_tag_of, max_ratio}
use many_router.Routing.Validation.{
  check_models, check_extra_groups, invalid_route, follows, validate_single, is_base_url,
  is_sale_ratio, has_site_fields,
}
use many_router.Routing.Validation.Site.{validate_snapshot}
use many_router.Routing.Snapshot.{
  build_snapshot, assemble, enabled_routes, route_of, route_less, protocol_text,
}

-- The models of a supplier that may be deployed: names that may stand in a snapshot, none twice.
pub record HasModels {D : Type 0} (models : List (Model D)) : Type 0 where
  pub routes : All (λ m. invalid_route (route_of m) ≡ false) models
  pub distinct : is_distinct (map (λ m. m.name) models) ≡ true

module _ {D : Type 0} where
  contains-select :
      (n : Text) (models : List (Model D))
      → contains_text n (map (λ m. m.name) models) ≡ false
      → contains_text n (map (λ m. m.name) (select (λ m. m.enabled) models)) ≡ false
  unfolding contains_text
  contains-select n [] h = refl
  contains-select n (m ∷ models) h = ground (arith, contains-select n models)

  distinct-select :
      (models : List (Model D))
      → is_distinct (map (λ m. m.name) models) ≡ true
      → is_distinct (map (λ m. m.name) (select (λ m. m.enabled) models)) ≡ true
  distinct-select [] h = refl
  distinct-select (m ∷ models) h =
      ground (arith, distinct-select models, contains-select m.name models)

  names_of_routes :
      (models : List (Model D))
      → map (λ r. r.model) (map route_of models) ≡ map (λ m. m.name) models
  names_of_routes [] = refl
  names_of_routes (m ∷ models) = ap (λ l. m.name ∷ l) (names_of_routes models)

  enabled_routes-IsAscending :
      (models : List (Model D))
      → HasModels models
      → IsAscending (map (λ r. r.model) (enabled_routes models))
  unfolding enabled_routes
  enabled_routes-IsAscending models h =
      let chosen = select (λ m. m.enabled) models in
      let names = map-sort_by (λ r. r.model) (map route_of chosen) in
      rw (names, names_of_routes chosen) (sort-IsAscending _ (distinct-select models h.distinct))

  enabled_routes-valid :
      (models : List (Model D))
      → HasModels models
      → All (λ r. invalid_route r ≡ false) (enabled_routes models)
  unfolding enabled_routes
  enabled_routes-valid models h =
      All-sort_by route_less (λ r. invalid_route r ≡ false) _
        (All-map route_of (λ r. invalid_route r ≡ false) _
          (All-select (λ m. m.enabled) _ models h.routes))

-- Valid routes in ascending order pass the loop over the models.
check_models_ascending :
    (previous : Text) (routes : List ModelRoute)
    → All (λ r. invalid_route r ≡ false) routes
    → IsAscending (map (λ r. r.model) routes)
    → All (λ n. follows previous n ≡ true) (map (λ r. r.model) routes)
    → check_models previous routes ≡ ok tt
unfolding check_models
check_models_ascending previous [] _ _ _ = refl
check_models_ascending previous (r ∷ routes) (v, vs) (a, as') (f, fs) =
    rw (v, f) (check_models_ascending r.model routes vs as' (below r.model _ a))
  where
    below :
        (n : Text) (ns : List Text)
        → All (λ t. text_lt n t ≡ true) ns
        → All (λ t. follows n t ≡ true) ns
    below n [] h = tt
    below n (t ∷ ns) (h, hs) = (ground arith, below n ns hs)

all_follow : (ns : List Text) → All (λ n. follows [] n ≡ true) ns
all_follow [] = tt
all_follow (n ∷ ns) = (refl, all_follow ns)

-- A supplier of which every model may stand in a snapshot.
pub record IsDeployable {D : Type 0} (net_ok : Text → Bool) (s : Supplier D) : Type 0 where
  pub id_known : (s.id == 0) ≡ false
  pub protocol_known : s.protocol ≡ open_ai_compatible
  pub url_normal : net_ok s.upstream_base_url ≡ true
  pub credential_known : (s.credential_id == 0) ≡ false
  pub credential_positive : leb_ℤ s.credential_version (pos 0) ≡ false
  pub models : HasModels s.models

module _ {D : Type 0} (decimal : DecimalPackage D) (net : UrlPackage)
    (uuid_string : Uuid → Text) where
  open decimal use {is_positive, greater_than, exponent}

  -- A relation as NewRelation makes it.
  pub record IsRelation (r : Relation D) : Type 0 where
    pub id_known : (r.id == 0) ≡ false
    pub site_known : (r.site_id == 0) ≡ false
    pub key : r.group_key ≡ group_key_of uuid_string r.id
    pub ratio_positive : is_positive r.sale_ratio ≡ true
    pub ratio_places : leb_ℤ (negsuc 5) (exponent r.sale_ratio) ≡ true
    pub ratio_range : greater_than r.sale_ratio (max_ratio uuid_string decimal) ≡ false

  pub record IsManaged (c : ManagedChannel) : Type 0 where
    pub id_known : (c.id == 0) ≡ false
    pub tag : c.managed_tag ≡ managed_tag_of uuid_string c.relation_id

  is_sale_ratio-to_string :
      IsDecimal decimal
      → (r : Relation D) → IsRelation r
      → is_sale_ratio decimal net uuid_string (decimal.from_string (decimal.to_string r.sale_ratio))
        ≡ true
  unfolding is_sale_ratio
  is_sale_ratio-to_string laws r h =
      let (e, read, _, positive, _, greater, places) = laws.from_string-to_string r.sale_ratio in
      rw read (
        ground (
          arith,
          positive,
          greater (max_ratio uuid_string decimal),
          places h.ratio_places,
          h.ratio_positive,
          h.ratio_range,
        ))

  -- What BuildSnapshot puts together from parts that belong together is valid.
  assemble-IsValid :
      IsDecimal decimal
      → (site : Site) (supplier : Supplier D) (relation : Relation D) (channel : ManagedChannel)
      → IsDeployable (is_base_url decimal net uuid_string) supplier
      → IsRelation relation
      → IsManaged channel
      → relation.site_id ≡ site.id
      → channel.relation_id ≡ relation.id
      → is_empty (enabled_routes supplier.models) ≡ false
      → validate_snapshot decimal net uuid_string
          (assemble decimal site supplier relation channel (enabled_routes supplier.models))
        ≡ ok tt
  unfolding assemble validate_snapshot validate_single has_site_fields protocol_text
      check_extra_groups text_eq
  assemble-IsValid laws site supplier relation channel hs hr hc same_site same_relation some_route =
      rw
        (
          sym same_site,
          hr.site_known,
          hr.id_known,
          hs.id_known,
          hr.key,
          text_eq_refl (group_key_of uuid_string relation.id),
          hc.id_known,
          hc.tag,
          same_relation,
          text_eq_refl (managed_tag_of uuid_string relation.id),
          hs.credential_known,
          hs.credential_positive,
          hs.protocol_known,
          hs.url_normal,
          is_sale_ratio-to_string laws relation hr,
          some_route,
          routes_valid,
        )
        refl
    where
      routes_valid : check_models [] (enabled_routes supplier.models) ≡ ok tt
      routes_valid =
          check_models_ascending [] (enabled_routes supplier.models)
            (enabled_routes-valid supplier.models hs.models)
            (enabled_routes-IsAscending supplier.models hs.models) (all_follow _)

  abbrev belongs : Site → Supplier D → Relation D → Bool
  belongs site supplier relation =
      relation.site_id == site.id && relation.supplier_id == supplier.id

  -- What BuildSnapshot builds from a deployable supplier, a relation and a channel as their
  -- constructors make them is valid, if the texts of decimals are read back.
  pub build_snapshot-IsValid :
      IsDecimal decimal
      → (site : Site) (supplier : Supplier D) (relation : Relation D) (channel : ManagedChannel)
        {s : Snapshot}
      → IsDeployable (is_base_url decimal net uuid_string) supplier
      → IsRelation relation
      → IsManaged channel
      → build_snapshot decimal site supplier relation channel ≡ ok s
      → validate_snapshot decimal net uuid_string s ≡ ok tt
  unfolding build_snapshot
  build_snapshot-IsValid laws site supplier relation channel hs hr hc h =
      let (_, _, h1) = >>=-eq-ok (can_sync site) _ h in
      let (_, _, h2) = >>=-eq-ok (can_deploy supplier) _ h1 in
      let (_, same, h3) =
        >>=-eq-ok
          (guard (belongs site supplier relation)
            "relation does not belong to the supplied site and supplier")
          _ h2 in
      let (_, managed, h4) =
        >>=-eq-ok
          (guard (channel.relation_id == relation.id)
            "managed channel does not belong to the relation")
          _ h3 in
      let (_, some_route, h5) =
        >>=-eq-ok
          (reject (is_empty (enabled_routes supplier.models))
            "snapshot requires at least one enabled model")
          _ h4 in
      ap (validate_snapshot decimal net uuid_string) (sym (ok-injective h5))
      ∙ assemble-IsValid laws site supplier relation channel hs hr hc
          (ground (
            arith,
            guard-eq-ok (belongs site supplier relation)
                "relation does not belong to the supplied site and supplier" same,
            ==_iff relation.site_id site.id,
          ))
          (ground (
            arith,
            guard-eq-ok (channel.relation_id == relation.id)
                "managed channel does not belong to the relation" managed,
            ==_iff channel.relation_id relation.id,
          ))
          (reject-eq-ok _ _ some_route)
