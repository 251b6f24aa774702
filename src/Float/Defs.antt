-- ===== src/Float/Defs.antt =====
-- The interface to float64 arithmetic, and the laws of rounded arithmetic that are used.
use many_router.Base.{ℕ, ◌*◌, ◌^◌, ◌≤◌, ◌<◌, ◌≡◌, ◌⊎◌, Bool, true, false, not, arith}

pub record Float64 (W : Type 0) : Type 0 where
  -- The decimal literal m / 10 ^ k.
  pub lit : ℕ → ℕ → W
  -- float64(n) of a uint64.
  pub of_nat : ℕ → W
  pub add : W → W → W
  pub sub : W → W → W
  pub mul : W → W → W
  pub div : W → W → W
  -- math.Abs
  pub abs : W → W
  pub lt : W → W → Bool
  pub le : W → W → Bool
  pub eq : W → W → Bool
  -- !math.IsNaN(x) && !math.IsInf(x, 0)
  pub finite : W → Bool

module _ {W : Type 0} ⦃f : Float64 W⦄ where
  infix 4 ◌≼◌
  abbrev pub ◌≼◌ : (x y : W) → Type 0
  x ≼ y = f.le x y ≡ true

-- The laws: an order that is total away from NaN, literals that are rounded monotonically, and
-- operations that are monotone after rounding.
pub record IsFloat64 (W : Type 0) ⦃f : Float64 W⦄ : Type 0 where
  pub finite_num : (x : W) → f.finite x ≡ true → x ≼ x
  pub num_of_lt : (x y : W) → f.lt x y ≡ true → (x ≼ x) × (y ≼ y)
  pub le_trans : (x y z : W) → x ≼ y → y ≼ z → x ≼ z
  pub finite_between :
      (a x b : W) → f.finite a ≡ true → f.finite b ≡ true → a ≼ x → x ≼ b → f.finite x ≡ true
  pub lit_finite : (m k : ℕ) → m < 2 ^ 53 → f.finite (f.lit m k) ≡ true
  pub num_of_le : (x y : W) → x ≼ y → (x ≼ x) × (y ≼ y)
  pub lit_mono : (m k n j : ℕ) → m * 10 ^ j ≤ n * 10 ^ k → f.lit m k ≼ f.lit n j
  pub add_nonneg : (x y : W) → f.lit 0 0 ≼ x → f.lit 0 0 ≼ y → f.lit 0 0 ≼ f.add x y
  pub lt-eq-not-le : (x y : W) → x ≼ x → y ≼ y → f.lt x y ≡ not (f.le y x)
  pub mul_nonneg :
      (x y : W)
      → f.finite x ≡ true
      → f.finite y ≡ true
      → f.lit 0 0 ≼ x
      → f.lit 0 0 ≼ y
      → f.lit 0 0 ≼ f.mul x y
  pub div_nonneg :
      (x y : W)
      → f.finite x ≡ true
      → f.lit 0 0 ≼ x
      → f.lt (f.lit 0 0) y ≡ true
      → f.lit 0 0 ≼ f.div x y
  pub le_total : (x y : W) → x ≼ x → y ≼ y → (x ≼ y) ⊎ (y ≼ x)
  pub le-add_right : (x y : W) → f.lit 0 0 ≼ x → f.lit 0 0 ≼ y → x ≼ f.add x y
  pub le-add_left : (x y : W) → f.lit 0 0 ≼ x → f.lit 0 0 ≼ y → y ≼ f.add x y
  pub div-le-one :
      (x y : W)
      → f.finite x ≡ true
      → f.lit 0 0 ≼ x
      → f.lt (f.lit 0 0) y ≡ true
      → x ≼ y
      → f.div x y ≼ f.lit 1 0
  -- A difference is zero only between equal numbers, and what an operation on numbers gives is a
  -- number where it is not one of the invalid operations.
  pub sub-ne_zero :
      (x y : W)
      → f.finite x ≡ true
      → f.finite y ≡ true
      → f.eq y x ≡ false
      → f.eq (f.sub x y) (f.lit 0 0) ≡ false
  pub div_num :
      (x y : W)
      → f.finite x ≡ true
      → f.finite y ≡ true
      → f.eq y (f.lit 0 0) ≡ false
      → f.div x y ≼ f.div x y
  pub sub_num : (x y : W) → f.finite x ≡ true → y ≼ y → f.sub x y ≼ f.sub x y
  pub mul_num :
      (x y : W) → f.finite x ≡ true → f.lt (f.lit 0 0) x ≡ true → y ≼ y → f.mul x y ≼ f.mul x y
  pub lit_lt : (m n : ℕ) → m < n → n < 2 ^ 53 → f.lt (f.lit m 0) (f.lit n 0) ≡ true
  -- Exact results.
  pub sub_self : (x : W) → f.finite x ≡ true → f.sub x x ≡ f.lit 0 0
  pub div_self : (x : W) → f.finite x ≡ true → f.eq x (f.lit 0 0) ≡ false → f.div x x ≡ f.lit 1 0
  pub zero_div :
      (y : W)
      → f.finite y ≡ true
      → f.eq y (f.lit 0 0) ≡ false
      → f.eq (f.div (f.lit 0 0) y) (f.lit 0 0) ≡ true
  pub sub_zero :
      (x y : W)
      → f.finite x ≡ true
      → f.lt (f.lit 0 0) x ≡ true
      → f.eq y (f.lit 0 0) ≡ true
      → f.sub x y ≡ x
  pub mul_one : (x : W) → f.finite x ≡ true → f.mul x (f.lit 1 0) ≡ x
  pub mul_zero :
      (x : W) → f.finite x ≡ true → f.lt (f.lit 0 0) x ≡ true → f.mul x (f.lit 0 0) ≡ f.lit 0 0
  -- Sums of nonnegative numbers, and products by a finite nonnegative factor.
  pub add_mono :
      (x y u v : W) → f.lit 0 0 ≼ x → f.lit 0 0 ≼ u → x ≼ y → u ≼ v → f.add x u ≼ f.add y v
  pub mul_mono :
      (x y c : W)
      → f.finite y ≡ true
      → f.finite c ≡ true
      → f.lit 0 0 ≼ x
      → f.lit 0 0 ≼ c
      → x ≼ y
      → f.mul x c ≼ f.mul y c

-- The order alone, for use by name where a proof compares several values.
module _ {W : Type 0} ⦃f : Float64 W⦄ (laws : IsFloat64 W) where
  open laws use {num_of_le, num_of_lt, le_trans, le_total, lt-eq-not-le}

  pub le_of_lt : (x y : W) → f.lt x y ≡ true → x ≼ y
  le_of_lt x y h =
      let (a, b) = num_of_lt x y h in ground (arith, lt-eq-not-le x y a b, le_total x y a b)

  pub le_of_not_lt : (x y : W) → x ≼ x → y ≼ y → f.lt x y ≡ false → y ≼ x
  le_of_not_lt x y a b h = ground (arith, lt-eq-not-le x y a b)

  pub lt_of_lt_of_le : (x y z : W) → f.lt x y ≡ true → y ≼ z → f.lt x z ≡ true
  lt_of_lt_of_le x y z h k =
      let (a, b) = num_of_lt x y h in
      let (_, c) = num_of_le y z k in
      ground (arith, lt-eq-not-le x y a b, lt-eq-not-le x z a c, le_trans y z x k)
