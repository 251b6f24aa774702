-- ===== src/Supplier.antt =====
-- internal/domain/supplier/supplier.go: a supplier and its models. Messages are given without the
-- names that fmt.Errorf puts into them.
pub mod Models
use Prim.Native.String.{String}
use many_router.Base.{
  ℕ, ◌-◌, Bool, true, false, not, ◌&&◌, ◌||◌, List, [], ◌∷◌, ◌++◌, map, Text, codes, text_lt,
  trim_space, contains_text, contains_any, byte_len, length, any_of, leb, ltb, ◌==◌, is_empty,
  sort_by, Result, ok, err, ◌>>=◌, ◌>>◌, guard, reject, if◌then◌else◌, Uuid, Time,
}
use many_router.Base.Int.{ℤ, pos, negsuc, ltb_ℤ}
use many_router.Packages.{DecimalPackage, UrlPackage}
use many_router.Values.{normalize_code, normalize_name, normalize_open_ai_compatible_base_url}

pub data Protocol : Type 0 where
  open_ai_compatible : Protocol
  other_protocol : Text → Protocol

pub data Status : Type 0 where
  draft enabled disabled : Status
  other_status : Text → Status

pub record Model (D : Type 0) : Type 0 where
  pub name : Text
  pub upstream_name : Text
  pub input_price : D
  pub output_price : D
  pub currency : Text
  pub enabled : Bool
  pub created_at : Time
  pub updated_at : Time

pub record Supplier (D : Type 0) : Type 0 where
  pub id : Uuid
  pub code : Text
  pub name : Text
  pub protocol : Protocol
  pub upstream_base_url : Text
  pub credential_id : Uuid
  pub credential_version : ℤ  -- int32
  pub status : Status
  pub version : ℤ  -- int64
  pub models : List (Model D)
  pub created_at : Time
  pub updated_at : Time

pub record ModelInput (D : Type 0) : Type 0 where
  pub name : Text
  pub upstream_name : Text
  pub input_price : D
  pub output_price : D
  pub currency : Text

-- The cut set ",\r\n".
abbrev pub line_breaks : Text
line_breaks = b',' ∷ 13 ∷ 10 ∷ []

unfoldable pub normalize_model_name : Text → Result String Text
normalize_model_name raw = do
  let name = trim_space raw
  reject (is_empty name) "name is required"
  reject (ltb 191 (byte_len name)) "name must not exceed 191 bytes"
  reject (contains_any name line_breaks) "name must not contain commas or line breaks"
  ok name

-- strings.ToUpper of one character, as far as the result can be from A to Z: of the letters beyond
-- ASCII, only the dotless i and the long s are put there. The others are kept.
unfoldable pub to_upper : ℕ → ℕ
to_upper c =
    if leb b'a' c && leb c b'z'
    then c - 32
    else if c == 0x131
    then b'I'
    else if c == 0x17f
    then b'S'
    else c

abbrev pub is_upper : ℕ → Bool
is_upper c = leb b'A' c && leb c b'Z'

-- The currency of a model, in capitals.
unfoldable pub normalize_currency : Text → Result String Text
normalize_currency raw = do
  let currency = map to_upper (trim_space raw)
  guard (byte_len currency == 3) "currency must contain three letters"
  reject (any_of (λ c. not (is_upper c)) currency) "currency must contain three letters"
  ok currency

abbrev pub is_open_ai : Protocol → Bool
is_open_ai open_ai_compatible = true
is_open_ai _ = false

abbrev pub is_enabled : Status → Bool
is_enabled enabled = true
is_enabled _ = false

module _ {D : Type 0} (decimal : DecimalPackage D) where
  open decimal use {is_negative, greater_than, exponent, literal}

  unfoldable pub max_price : D
  max_price = literal (codes "9999999999.9999999999")

  -- The tests on the two prices.
  unfoldable pub check_prices : ModelInput D → Result String (Unit {0})
  check_prices input = do
    reject (is_negative input.input_price || is_negative input.output_price)
        "prices must be non-negative"
    reject (greater_than input.input_price max_price || greater_than input.output_price max_price)
        "prices exceed the supported range"
    reject
        (ltb_ℤ (exponent input.input_price) (negsuc 9)
          || ltb_ℤ (exponent input.output_price) (negsuc 9))
        "prices support at most 10 decimal places"

  -- One turn of the loop of normalizeModels, given the names seen.
  unfoldable pub normalize_model : List Text → ModelInput D → Time → Result String (Model D)
  normalize_model seen input now = do
    name ← normalize_model_name input.name
    upstream ← normalize_model_name input.upstream_name
    reject (contains_text name seen) "duplicate model"
    check_prices input
    currency ← normalize_currency input.currency
    ok (record {
      name = name;
      upstream_name = upstream;
      input_price = input.input_price;
      output_price = input.output_price;
      currency = currency;
      enabled = true;
      created_at = now;
      updated_at = now;
    })

  unfoldable pub collect_models :
      List Text → List (ModelInput D) → Time → Result String (List (Model D))
  collect_models seen [] now = ok []
  collect_models seen (input ∷ inputs) now = do
    model ← normalize_model seen input now
    rest ← collect_models (model.name ∷ seen) inputs now
    ok (model ∷ rest)

  abbrev pub name_less : Model D → Model D → Bool
  name_less m n = text_lt m.name n.name

  unfoldable pub normalize_models : List (ModelInput D) → Time → Result String (List (Model D))
  normalize_models inputs now = do
    reject (is_empty inputs) "at least one supplier model is required"
    models ← collect_models [] inputs now
    ok (sort_by name_less models)

  -- supplier.New
  unfoldable pub new :
      UrlPackage
      → Uuid
      → (code name base_url : Text) → Uuid
      → List (ModelInput D)
      → Time
      → Result String (Supplier D)
  new net id code name base_url credential_id models now = do
    reject (id == 0) "supplier ID is required"
    reject (credential_id == 0) "supplier credential ID is required"
    normalized_code ← normalize_code code
    normalized_name ← normalize_name name 120
    normalized_url ← normalize_open_ai_compatible_base_url net base_url
    normalized_models ← normalize_models models now
    ok (record {
      id = id;
      code = normalized_code;
      name = normalized_name;
      protocol = open_ai_compatible;
      upstream_base_url = normalized_url;
      credential_id = credential_id;
      credential_version = pos 1;
      status = enabled;
      version = pos 1;
      models = normalized_models;
      created_at = now;
      updated_at = now;
    })

unfoldable pub can_deploy : {D : Type 0} → Supplier D → Result String (Unit {0})
can_deploy s = do
  guard (is_enabled s.status) "supplier is not enabled"
  guard (any_of (λ m. m.enabled) s.models) "supplier has no enabled models"
  ok tt
