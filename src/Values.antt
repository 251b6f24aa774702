-- ===== src/Values.antt =====
-- internal/domain/value/validation.go: the normal forms of codes, names and base URLs. An error is
-- its message.
pub mod Laws
use Prim.Native.String.{String}
use many_router.Base.{
  ℕ, Bool, true, false, not, ◌&&◌, ◌||◌, List, [], ◌∷◌, Text, codes, text_eq, trim_space, byte_len,
  length, leb, ltb, ◌==◌, is_empty, Option, none, some, Result, ok, err, ◌>>=◌, ◌>>◌, guard, reject,
  if◌then◌else◌, trim_right, has_suffix, drop_last, or_reject,
}
use many_router.Packages.{Url, UrlPackage}

-- [a-z0-9]
unfoldable pub is_code_char : ℕ → Bool
is_code_char c = leb b'a' c && leb c b'z' || leb b'0' c && leb c b'9'

-- [a-z0-9-]{0,n}[a-z0-9]: the rest of a code, of at most n + 1 characters.
unfoldable pub is_code_rest : Text → Bool
is_code_rest [] = false
is_code_rest (c ∷ []) = is_code_char c
is_code_rest (c ∷ s) = (is_code_char c || c == b'-') && is_code_rest s

-- ^[a-z0-9](?:[a-z0-9-]{0,61}[a-z0-9])?$
unfoldable pub is_code : Text → Bool
is_code [] = false
is_code (c ∷ s) = is_code_char c && (is_empty s || is_code_rest s && leb (length s) 62)

unfoldable pub normalize_code : Text → Result String Text
normalize_code raw = do
  let code = trim_space raw
  reject (ltb (byte_len code) 2 || ltb 63 (byte_len code) || not (is_code code))
      "code must contain 2-63 lowercase letters, digits, or hyphens"
  ok code

unfoldable pub normalize_name : Text → ℕ → Result String Text
normalize_name raw max_length = do
  let name = trim_space raw
  reject (is_empty name) "name is required"
  reject (ltb max_length (length name)) "name must not exceed the maximal number of characters"
  ok name

module _ (net : UrlPackage) where
  unfoldable pub normalize_http_base_url : Text → Result String Text
  normalize_http_base_url raw = do
    let trimmed = trim_space raw
    reject (ltb 2048 (byte_len trimmed)) "base URL must not exceed 2048 bytes"
    parsed ← or_reject (net.parse trimmed) "base URL is invalid"
    reject
        (not (text_eq parsed.scheme (codes "http")) && not (text_eq parsed.scheme (codes "https")))
        "base URL must use http or https"
    reject (is_empty parsed.host) "base URL must include a host"
    reject parsed.has_user "base URL must not include user information"
    reject (not (is_empty parsed.raw_query) || not (is_empty parsed.fragment))
        "base URL must not include a query or fragment"
    ok (net.to_string (record parsed { path = trim_right b'/' parsed.path }))

  -- The path without a last segment v1.
  unfoldable pub strip_version : Url → Url
  strip_version parsed =
      if text_eq parsed.path (codes "/v1")
      then record parsed { path = []; raw_path = [] }
      else if has_suffix (codes "/v1") parsed.path
      then record parsed { path = drop_last 3 parsed.path; raw_path = [] }
      else parsed

  unfoldable pub normalize_open_ai_compatible_base_url : Text → Result String Text
  normalize_open_ai_compatible_base_url raw = do
    normalized ← normalize_http_base_url raw
    parsed ← or_reject (net.parse normalized) "base URL is invalid"
    ok (net.to_string (strip_version parsed))
