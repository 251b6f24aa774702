-- ===== src/Routing/Validation/Site/Sound.antt =====
-- What a site snapshot that validateSiteSnapshot accepts is like
-- (internal/domain/routing/site_snapshot.go).
use Prim.Native.String.{String}
use many_router.Base.{
  Bool, true, false, not, ◌&&◌, ◌||◌, List, [], ◌∷◌, map, Text, text_lt, contains_text, member,
  is_distinct, All, IsUnique, avoid_members, avoid_texts, is_empty, ok, reject, guard, reject-eq-ok,
  guard-eq-ok, >>=-eq-ok, ok-injective, ◌≡◌, refl, sym, ap, ◌∙◌, arith, Uuid, ◌==◌, ==_iff,
}
use many_router.Packages.{DecimalPackage, UrlPackage}
use many_router.Routing.Types.{Snapshot, fields, resources, DesiredGroup, snapshot_schema_version}
use many_router.Routing.Validation.{validate_single}
use many_router.Routing.Validation.Site.{
  check_unique, check_known_groups, check_auto_groups, check_resource, check_resources,
  validate_site_snapshot, is_representative, is_basis_hash, invalid_auto_group, Seen, see,
  nothing_seen,
}

check_known_groups-All :
    (known groups : List Text)
    → check_known_groups known groups ≡ ok tt
    → All (λ g. contains_text g known ≡ true) groups
unfolding check_known_groups
check_known_groups-All known [] h = tt
check_known_groups-All known (g ∷ groups) h =
    let (_, here, rest) =
      >>=-eq-ok
        (guard (contains_text g known) "channel references an Auto group outside the site snapshot")
        _ h in
    (guard-eq-ok _ _ here, check_known_groups-All known groups rest)

check_unique-IsUnique :
    (allowed : Uuid → Bool) (message : String) (seen ids : List Uuid)
    → check_unique allowed message seen ids ≡ ok tt
    → All (λ id. allowed id ≡ true) ids × IsUnique ids × All (λ id. member id seen ≡ false) ids
unfolding check_unique
check_unique-IsUnique allowed message seen [] h = (tt, tt, tt)
check_unique-IsUnique allowed message seen (id ∷ ids) h =
    let (_, here, rest) = >>=-eq-ok (reject (not (allowed id) || member id seen) message) _ h in
    let good = reject-eq-ok (not (allowed id) || member id seen) message here in
    let (allowed_rest, unique, others) =
      check_unique-IsUnique allowed message (id ∷ seen) ids rest in
    let (avoid, new_id) = avoid_members id seen ids others in
    ((ground arith, allowed_rest), (new_id, unique), (ground arith, avoid))

module _ {D : Type 0} (decimal : DecimalPackage D) (net : UrlPackage)
    (uuid_string : Uuid → Text) where
  abbrev keys_of : List DesiredGroup → List Text
  keys_of groups = map (λ g. g.key) groups

  check_auto_groups-lem :
      (known : List Text) (groups : List DesiredGroup) {out : List Text}
      → check_auto_groups decimal net uuid_string known groups ≡ ok out
      → (is_distinct (keys_of groups) ≡ true)
        × All (λ n. contains_text n known ≡ false) (keys_of groups)
        × ((n : Text)
            → contains_text n out ≡ (contains_text n (keys_of groups) || contains_text n known))
  unfolding check_auto_groups contains_text
  check_auto_groups-lem known [] h = (refl, tt, λ n. ap (contains_text n) (sym (ok-injective h)))
  check_auto_groups-lem known (g ∷ groups) h =
      let (_, here, rest) =
        >>=-eq-ok
          (reject (invalid_auto_group decimal net uuid_string known g)
            "site snapshot contains an invalid Auto group")
          _ h in
      let good = reject-eq-ok (invalid_auto_group decimal net uuid_string known g) _ here in
      let (distinct, others, same) = check_auto_groups-lem (g.key ∷ known) groups rest in
      let (avoid, new_key) = avoid_texts g.key known (keys_of groups) others in
      (rw (new_key, distinct) refl, (ground (arith, good), avoid), λ n. ground (arith, same n))

  -- A resource of a site snapshot, given the keys of its Auto groups.
  pub record IsResource (site_id : Uuid) (known : List Text) (r : Snapshot) : Type 0 where
    pub single : validate_single decimal net uuid_string r ≡ ok tt
    pub schema : (fields r).schema_version ≡ snapshot_schema_version
    pub site : (fields r).site_id ≡ site_id
    pub groups : All (λ g. contains_text g known ≡ true) (fields r).channel.extra_group_keys

  abbrev pub relations_of : List Snapshot → List Uuid
  relations_of rs = map (λ r. (fields r).relation_id) rs

  abbrev pub channels_of : List Snapshot → List Uuid
  channels_of rs = map (λ r. (fields r).channel.id) rs

  check_resource-IsResource :
      (site_id : Uuid) (known : List Text) (seen : Seen) (r : Snapshot)
      → check_resource decimal net uuid_string site_id known seen r ≡ ok tt
      → IsResource site_id known r
        × (member (fields r).relation_id seen.relations ≡ false)
        × (member (fields r).channel.id seen.channels ≡ false)
  unfolding check_resource
  check_resource-IsResource site_id known seen r h =
      let (_, own, h1) =
        >>=-eq-ok
          (guard (of_site site_id r)
            "site resources must be single-resource snapshots belonging to the site")
          _ h in
      let (_, single, h2) = >>=-eq-ok (validate_single decimal net uuid_string r) _ h1 in
      let (_, fresh, h3) =
        >>=-eq-ok
          (reject (repeats seen r)
            "site resources must have unique identities and be sorted by relation")
          _ h2 in
      let belongs = guard-eq-ok (of_site site_id r) _ own in
      let new_ids = reject-eq-ok (repeats seen r) _ fresh in
      (
        record {
          single = single;
          schema =
              ground (arith, belongs, ==_iff (fields r).schema_version snapshot_schema_version);
          site = ground (arith, belongs, ==_iff (fields r).site_id site_id);
          groups = check_known_groups-All known (fields r).channel.extra_group_keys h3;
        },
        ground (arith, new_ids),
        ground (arith, new_ids),
      )
    where
      of_site : Uuid → Snapshot → Bool
      of_site site_id r =
          (fields r).schema_version == snapshot_schema_version && (fields r).site_id == site_id

      repeats : Seen → Snapshot → Bool
      repeats seen r =
          member (fields r).relation_id seen.relations
          || member (fields r).channel.id seen.channels
          || not (text_lt seen.previous (uuid_string (fields r).relation_id))

  check_resources-lem :
      (site_id : Uuid) (known : List Text) (seen : Seen) (rs : List Snapshot) {out : Seen}
      → check_resources decimal net uuid_string site_id known seen rs ≡ ok out
      → All (IsResource site_id known) rs
        × (IsUnique (relations_of rs)
            × All (λ id. member id seen.relations ≡ false) (relations_of rs))
        × (IsUnique (channels_of rs) × All (λ id. member id seen.channels ≡ false) (channels_of rs))
        × ((id : Uuid)
            → member id out.relations ≡ (member id (relations_of rs) || member id seen.relations))
  unfolding check_resources member
  check_resources-lem site_id known seen [] h =
      (tt, (tt, tt), (tt, tt), λ id. ap (λ o. member id o.relations) (sym (ok-injective h)))
  check_resources-lem site_id known seen (r ∷ rs) h =
      let (_, here, rest) =
        >>=-eq-ok (check_resource decimal net uuid_string site_id known seen r) _ h in
      let (good, new_relation, new_channel) = check_resource-IsResource site_id known seen r here in
      let (goods, (unique, others), (unique_channels, other_channels), same) =
        check_resources-lem site_id known (see uuid_string seen r) rs rest in
      let (avoid, fresh) =
        avoid_members (fields r).relation_id seen.relations (relations_of rs) others in
      let (avoid_channel, fresh_channel) =
        avoid_members (fields r).channel.id seen.channels (channels_of rs) other_channels in
      (
        (good, goods),
        ((fresh, unique), (new_relation, avoid)),
        ((fresh_channel, unique_channels), (new_channel, avoid_channel)),
        λ id. ground (arith, same id),
      )

  -- What a site snapshot must be like.
  pub record IsSiteSnapshot (s : Snapshot) : Type 0 where
    pub auto_keys : is_distinct (keys_of (fields s).auto_groups) ≡ true
    pub resources_valid :
        All (IsResource (fields s).site_id (keys_of (fields s).auto_groups)) (resources s)
    pub relations_unique : IsUnique (relations_of (resources s))
    pub channels_unique : IsUnique (channels_of (resources s))
    pub resumed :
        All (λ id. member id (relations_of (resources s)) ≡ true) (fields s).resume_relation_ids
    pub resumed_unique : IsUnique (fields s).resume_relation_ids
    pub prices_known : All (λ id. not (id == 0) ≡ true) (fields s).price_version_ids
    pub prices_unique : IsUnique (fields s).price_version_ids
    pub represented : is_representative (fields s) (resources s) ≡ true

  All-known :
      (known keys groups : List Text)
      → ((n : Text) → contains_text n known ≡ contains_text n keys)
      → All (λ g. contains_text g known ≡ true) groups
      → All (λ g. contains_text g keys ≡ true) groups
  All-known known keys [] same h = tt
  All-known known keys (g ∷ groups) same (h, hs) =
      (sym (same g) ∙ h, All-known known keys groups same hs)

  resources_known :
      (site_id : Uuid) (known keys : List Text) (rs : List Snapshot)
      → ((n : Text) → contains_text n known ≡ contains_text n keys)
      → All (IsResource site_id known) rs
      → All (IsResource site_id keys) rs
  resources_known site_id known keys [] same h = tt
  resources_known site_id known keys (r ∷ rs) same (h, hs) = (
    record {
      single = h.single;
      schema = h.schema;
      site = h.site;
      groups = All-known known keys (fields r).channel.extra_group_keys same h.groups;
    },
    resources_known site_id known keys rs same hs,
  )

  All-member :
      (found bs ids : List Uuid)
      → ((id : Uuid) → member id found ≡ (member id bs || false))
      → All (λ id. member id found ≡ true) ids
      → All (λ id. member id bs ≡ true) ids
  All-member found bs [] same h = tt
  All-member found bs (id ∷ ids) same (h, hs) =
      (ground (arith, same id), All-member found bs ids same hs)

  -- A site snapshot that is accepted has Auto groups with keys of their own, resources that are valid
  -- snapshots of its site, each with a relation and a channel of its own and with extra groups among
  -- the Auto groups, resume instructions for some of these relations, and no price version twice.
  pub validate_site_snapshot-IsSiteSnapshot :
      (s : Snapshot) → validate_site_snapshot decimal net uuid_string s ≡ ok tt → IsSiteSnapshot s
  unfolding validate_site_snapshot contains_text member
  validate_site_snapshot-IsSiteSnapshot s h =
      let f = fields s in
      let (_, _, h1) =
        >>=-eq-ok
          (reject (f.site_id == 0 || is_empty (resources s))
            "site snapshot requires a site and resources")
          _ h in
      let (_, _, h2) =
        >>=-eq-ok
          (guard (is_basis_hash f.billing_basis_hash) "site snapshot requires a billing basis hash")
          _ h1 in
      let (known, hk, h3) =
        >>=-eq-ok (check_auto_groups decimal net uuid_string [] f.auto_groups) _ h2 in
      let (seen, hr, h4) =
        >>=-eq-ok
          (check_resources decimal net uuid_string f.site_id known nothing_seen (resources s)) _
          h3 in
      let (_, represented, h5) =
        >>=-eq-ok
          (guard (is_representative f (resources s))
            "site snapshot representative must match its first resource")
          _ h4 in
      let (_, hresume, h6) =
        >>=-eq-ok
          (check_unique (λ id. member id seen.relations)
            "resume instruction must identify a unique site relation" [] f.resume_relation_ids)
          _ h5 in
      let (_, hprices, _) =
        >>=-eq-ok
          (check_unique (λ id. not (id == 0)) "price versions must have unique nonempty identities"
            [] f.price_version_ids)
          _ h6 in
      let (distinct, _, same) = check_auto_groups-lem [] f.auto_groups hk in
      let (valid, (unique, _), (channels, _), ids) =
        check_resources-lem f.site_id known nothing_seen (resources s) hr in
      let (resumed, resumed_unique, _) =
        check_unique-IsUnique _ _ [] f.resume_relation_ids hresume in
      let (prices, prices_unique, _) = check_unique-IsUnique _ _ [] f.price_version_ids hprices in
      record {
        auto_keys = distinct;
        resources_valid =
            resources_known f.site_id known (keys_of f.auto_groups) (resources s)
              (λ n. ground (arith, same n)) valid;
        relations_unique = unique;
        channels_unique = channels;
        resumed =
            All-member seen.relations (relations_of (resources s)) f.resume_relation_ids ids
              resumed;
        resumed_unique = resumed_unique;
        prices_known = prices;
        prices_unique = prices_unique;
        represented = guard-eq-ok _ _ represented;
      }
