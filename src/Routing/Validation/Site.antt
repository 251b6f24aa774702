-- ===== src/Routing/Validation/Site.antt =====
-- validateSiteSnapshot of internal/domain/routing/site_snapshot.go, and the choice of the schema in
-- ValidateSnapshot of snapshot.go.
pub mod Sound
use Prim.Native.String.{String}
use many_router.Base.{
  ℕ, Bool, true, false, not, ◌&&◌, ◌||◌, List, [], ◌∷◌, ◌++◌, map, Text, codes, text_eq, text_lt,
  contains_text, contains_any, member, has_prefix, byte_len, any_of, leb, ltb, ◌==◌, is_empty,
  length, Option, none, some, Result, ok, err, ◌>>=◌, ◌>>◌, guard, reject, if◌then◌else◌, Uuid,
}
use many_router.Base.Int.{ℤ, pos, negsuc, ltb_ℤ, leb_ℤ}
use many_router.Packages.{DecimalPackage, UrlPackage}
use many_router.Supplier.{line_breaks}
use many_router.Routing.Types.{
  Snapshot, SnapshotFields, fields, resources, DesiredGroup, DesiredChannel, StrategyReference,
  snapshot_schema_version, site_snapshot_schema_version,
}
use many_router.Routing.Validation.{validate_single}

abbrev pub is_hex_digit : ℕ → Bool
is_hex_digit c = leb b'0' c && leb c b'9' || leb b'a' c && leb c b'f' || leb b'A' c && leb c b'F'

-- hex.DecodeString succeeds, and the text has 64 bytes.
unfoldable pub is_basis_hash : Text → Bool
is_basis_hash s = not (any_of (λ c. not (is_hex_digit c)) s) && byte_len s == 64

unfoldable pub valid_auto_group_key : Text → Bool
valid_auto_group_key key =
    text_eq key (codes "mrap")
    || text_eq key (codes "mral")
    || text_eq key (codes "mras")
    || text_eq key (codes "mraq")
    || text_eq key (codes "mrab")
    || has_prefix (codes "mr_a_") key

-- The loop over the extra groups of a channel.
unfoldable pub check_known_groups : List Text → List Text → Result String (Unit {0})
check_known_groups known [] = ok tt
check_known_groups known (group ∷ groups) = do
  guard (contains_text group known) "channel references an Auto group outside the site snapshot"
  check_known_groups known groups

-- The loops over the resume instructions and the price versions: no identifier twice, and each allowed.
unfoldable pub check_unique :
    (Uuid → Bool) → String → List Uuid → List Uuid → Result String (Unit {0})
check_unique allowed message seen [] = ok tt
check_unique allowed message seen (id ∷ ids) = do
  reject (not (allowed id) || member id seen) message
  check_unique allowed message (id ∷ seen) ids

-- The sets of the loop over the resources.
pub record Seen : Type 0 where
  pub relations : List Uuid
  pub channels : List Uuid
  pub previous : Text

abbrev pub nothing_seen : Seen
nothing_seen = record { relations = []; channels = []; previous = [] }

abbrev pub see : (Uuid → Text) → Seen → Snapshot → Seen
see uuid_string seen r = record {
  relations = (fields r).relation_id ∷ seen.relations;
  channels = (fields r).channel.id ∷ seen.channels;
  previous = uuid_string (fields r).relation_id;
}

-- The representative of a site snapshot is its first resource.
unfoldable pub is_representative : SnapshotFields → List Snapshot → Bool
is_representative f [] = false
is_representative f (r ∷ rs) =
    f.relation_id == (fields r).relation_id && f.supplier_id == (fields r).supplier_id

module _ (uuid_string : Uuid → Text) where
  unfoldable pub check_strategies : Text → List StrategyReference → Result String (Unit {0})
  check_strategies previous [] = ok tt
  check_strategies previous (reference ∷ references) = do
    reject
        (reference.id == 0
          || ltb_ℤ reference.version (pos 1)
          || not (text_lt previous (uuid_string reference.id)))
        "strategy versions must have nonempty unique identities, positive versions and be sorted"
    check_strategies (uuid_string reference.id) references

module _ {D : Type 0} (decimal : DecimalPackage D) (net : UrlPackage)
    (uuid_string : Uuid → Text) where
  open decimal use {from_string, is_positive, exponent}

  unfoldable pub is_auto_ratio : Option D → Bool
  is_auto_ratio none = false
  is_auto_ratio (some ratio) = is_positive ratio && not (ltb_ℤ (exponent ratio) (negsuc 5))

  abbrev pub invalid_auto_group : List Text → DesiredGroup → Bool
  invalid_auto_group known group =
      not (valid_auto_group_key group.key)
      || contains_any group.key line_breaks
      || is_empty group.display_name
      || contains_text group.key known
      || not (is_auto_ratio (from_string group.sale_ratio))

  -- The loop over the Auto groups, which gives their keys.
  unfoldable pub check_auto_groups : List Text → List DesiredGroup → Result String (List Text)
  check_auto_groups known [] = ok known
  check_auto_groups known (group ∷ groups) = do
    reject (invalid_auto_group known group) "site snapshot contains an invalid Auto group"
    check_auto_groups (group.key ∷ known) groups

  -- One turn of the loop over the resources: ValidateSnapshot on a snapshot of schema version 1.
  unfoldable pub check_resource : Uuid → List Text → Seen → Snapshot → Result String (Unit {0})
  check_resource site_id known seen r = do
    let f = fields r
    guard (f.schema_version == snapshot_schema_version && f.site_id == site_id)
        "site resources must be single-resource snapshots belonging to the site"
    validate_single decimal net uuid_string r
    reject
        (member f.relation_id seen.relations
          || member f.channel.id seen.channels
          || not (text_lt seen.previous (uuid_string f.relation_id)))
        "site resources must have unique identities and be sorted by relation"
    check_known_groups known f.channel.extra_group_keys

  unfoldable pub check_resources : Uuid → List Text → Seen → List Snapshot → Result String Seen
  check_resources site_id known seen [] = ok seen
  check_resources site_id known seen (r ∷ rs) = do
    check_resource site_id known seen r
    check_resources site_id known (see uuid_string seen r) rs

  unfoldable pub validate_site_snapshot : Snapshot → Result String (Unit {0})
  validate_site_snapshot s = do
    let f = fields s
    reject (f.site_id == 0 || is_empty (resources s)) "site snapshot requires a site and resources"
    guard (is_basis_hash f.billing_basis_hash) "site snapshot requires a billing basis hash"
    known ← check_auto_groups [] f.auto_groups
    seen ← check_resources f.site_id known nothing_seen (resources s)
    guard (is_representative f (resources s))
        "site snapshot representative must match its first resource"
    check_unique (λ id. member id seen.relations)
        "resume instruction must identify a unique site relation" [] f.resume_relation_ids
    check_unique (λ id. not (id == 0)) "price versions must have unique nonempty identities" []
        f.price_version_ids
    check_strategies uuid_string [] f.strategy_versions

  unfoldable pub validate_snapshot : Snapshot → Result String (Unit {0})
  validate_snapshot s =
      if (fields s).schema_version == site_snapshot_schema_version
      then validate_site_snapshot s
      else guard ((fields s).schema_version == snapshot_schema_version)
          "unsupported snapshot schema version"
        >> validate_single decimal net uuid_string s
