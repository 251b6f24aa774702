-- ===== src/Packages/Unary.antt =====
-- Packages that meet the assumed facts: whole numbers in unary for decimals, and URLs that are their
-- host.
use many_router.Base.{
  ℕ, zero, suc, ◌-◌, false, [], ◌∷◌, length, none, some, Text, codes, ltb, ◌==◌, ==_iff,
  if◌then◌else◌, is_empty, ◌≡◌, refl, ap, Uuid, arith,
}
use many_router.Base.Int.{pos}
use many_router.Packages.{DecimalPackage, IsDecimal, UrlPackage}

abbrev pub strokes : ℕ → Text
strokes zero = []
strokes (suc n) = b'1' ∷ strokes n

-- +111 is three.
abbrev pub unary : DecimalPackage ℕ
unary = record {
  from_string = λ s. if is_empty s then none else some (length s - 1);
  to_string = λ n. b'+' ∷ strokes n;
  is_positive = λ n. ltb 0 n;
  is_negative = λ n. false;
  exponent = λ n. pos 0;
  greater_than = λ m n. ltb n m;
  equal = λ m n. m == n;
  literal = λ s. 1000;
}

length-strokes : (n : ℕ) → length (strokes n) ≡ n
length-strokes zero = refl
length-strokes (suc n) = ap suc (length-strokes n)

pub unary-IsDecimal : IsDecimal unary
unary-IsDecimal = record {
  from_string-to_string = λ d. (
    d,
    ap some (omega (arith, length-strokes d)),
    (==_iff d d).1 refl,
    refl,
    refl,
    λ m. refl,
    λ h. h,
  );
  equal_refl = λ d. (==_iff d d).1 refl;
  equal_sym = λ d e h. ground (arith, ==_iff d e, ==_iff e d);
  to_string-ne_nil = λ d h. cc;
}

-- A URL is its host.
abbrev pub hosts : UrlPackage
hosts = record {
  parse = λ s. some (record {
    scheme = codes "https";
    host = s;
    has_user = false;
    raw_query = [];
    fragment = [];
    path = [];
    raw_path = [];
  });
  to_string = λ u. u.host;
}

-- An identifier is written as one character.
abbrev pub letter : Uuid → Text
letter id = id ∷ []
