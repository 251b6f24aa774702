-- ===== src/Packages.antt =====
-- The third-party packages that several parts of the code call, as interfaces, with the documented
-- facts that theorems assume.
pub mod Unary
use many_router.Base.{ℕ, Bool, true, false, not, Option, none, some, Text, [], ◌≡◌, ◌≢◌, Uuid}
use many_router.Base.Int.{ℤ, pos, negsuc, leb_ℤ, ltb_ℤ}

-- github.com/shopspring/decimal: NewFromString is `from_string`, and String `to_string`.
pub record DecimalPackage (D : Type 0) : Type 0 where
  pub from_string : Text → Option D
  pub to_string : D → Text
  pub is_positive : D → Bool
  pub is_negative : D → Bool
  pub exponent : D → ℤ
  pub greater_than : D → D → Bool
  pub equal : D → D → Bool
  -- RequireFromString of a literal of the code.
  pub literal : Text → D

-- The text of a decimal is read back as a decimal of the same value, which has no more than six
-- decimal places where the first has no more.
pub record IsDecimal {D : Type 0} (decimal : DecimalPackage D) : Type 0 where
  pub from_string-to_string :
      (d : D)
      → (e : D) × (decimal.from_string (decimal.to_string d) ≡ some e)
        × (decimal.equal e d ≡ true)
        × (decimal.is_positive e ≡ decimal.is_positive d)
        × (decimal.is_negative e ≡ decimal.is_negative d)
        × ((m : D) → decimal.greater_than e m ≡ decimal.greater_than d m)
        × (leb_ℤ (negsuc 5) (decimal.exponent d) ≡ true
            → leb_ℤ (negsuc 5) (decimal.exponent e) ≡ true)
  pub equal_refl : (d : D) → decimal.equal d d ≡ true
  pub equal_sym : (d e : D) → decimal.equal d e ≡ true → decimal.equal e d ≡ true
  pub to_string-ne_nil : (d : D) → decimal.to_string d ≢ []

-- net/url, as far as the code looks at a URL.
pub record Url : Type 0 where
  pub scheme : Text
  pub host : Text
  pub has_user : Bool
  pub raw_query : Text
  pub fragment : Text
  pub path : Text
  pub raw_path : Text

pub record UrlPackage : Type 0 where
  pub parse : Text → Option Url
  pub to_string : Url → Text
