-- ===== src/Site.antt =====
-- internal/domain/site/site.go: a New API site. now.UTC() is the same instant.
use Prim.Native.String.{String}
use many_router.Base.{
  Bool, true, false, Text, ◌==◌, Result, ok, ◌>>=◌, ◌>>◌, guard, reject, Uuid, Time,
}
use many_router.Base.Int.{ℤ, pos}
use many_router.Packages.{UrlPackage}
use many_router.Values.{normalize_code, normalize_name, normalize_http_base_url}

pub data Status : Type 0 where
  enabled disabled : Status
  other_status : Text → Status

pub data CompatibilityStatus : Type 0 where
  unknown compatible incompatible : CompatibilityStatus
  other_compatibility : Text → CompatibilityStatus

pub record Site : Type 0 where
  pub id : Uuid
  pub code : Text
  pub name : Text
  pub new_api_base_url : Text
  pub admin_credential_id : Uuid
  pub admin_user_id : ℤ  -- int64
  pub status : Status
  pub compatibility_status : CompatibilityStatus
  pub version : ℤ  -- int64
  pub created_at : Time
  pub updated_at : Time

-- site.New
unfoldable pub new :
    UrlPackage → Uuid → (code name base_url : Text) → Uuid → Time → Result String Site
new net id code name base_url credential_id now = do
  reject (id == 0) "site ID is required"
  reject (credential_id == 0) "site credential ID is required"
  normalized_code ← normalize_code code
  normalized_name ← normalize_name name 120
  normalized_url ← normalize_http_base_url net base_url
  ok (record {
    id = id;
    code = normalized_code;
    name = normalized_name;
    new_api_base_url = normalized_url;
    admin_credential_id = credential_id;
    admin_user_id = pos 1;
    status = enabled;
    compatibility_status = unknown;
    version = pos 1;
    created_at = now;
    updated_at = now;
  })

abbrev pub is_enabled : Status → Bool
is_enabled enabled = true
is_enabled _ = false

abbrev pub is_incompatible : CompatibilityStatus → Bool
is_incompatible incompatible = true
is_incompatible _ = false

unfoldable pub can_sync : Site → Result String (Unit {0})
can_sync s = do
  guard (is_enabled s.status) "site is disabled"
  reject (is_incompatible s.compatibility_status) "site is incompatible"
  ok tt
