-- ===== src/Float/Fixed.antt =====
-- Decimal fixed-point numbers with twelve places, `none` for NaN: they meet the laws of
-- Float/Defs.antt, so that hypotheses of theorems can be instantiated and the code can run.
use native.Mathlib.Nat.{
  le-div_iff_mul-le, mul-le-mul, le_refl, div-mul-le_self, le_of_mul-le-mul_right, pow-suc,
  div-le_of_le-mul, mul-div_cancel_left, zero-div,
}
use many_router.Base.{
  ℕ, zero, suc, ◌*◌, ◌/◌, ◌^◌, ◌≤◌, ◌<◌, ◌≡◌, refl, ap, Bool, true, false, ◌&&◌, Option, none, some,
  arith,
}
use many_router.Base.Int.{ℤ, pos, negsuc, sub_ℕ, ◌+ℤ◌, ◌-ℤ◌, ltb_ℤ, leb_ℤ}
use many_router.Float.Defs.{Float64, IsFloat64, ◌≼◌}

abbrev pub Fixed : Type 0
Fixed = Option ℤ

-- The unit, 10 ^ 12.
abbrev unit : ℕ
unit = 1_000_000_000_000

abbrev on_parts : (ℤ → ℤ → ℤ) → Fixed → Fixed → Fixed
on_parts g (some a) (some b) = some (g a b)
on_parts g _ _ = none

abbrev compare_with : (ℤ → ℤ → Bool) → Fixed → Fixed → Bool
compare_with g (some a) (some b) = g a b
compare_with g _ _ = false

abbrev magnitude : ℤ → ℕ
magnitude (pos n) = n
magnitude (negsuc n) = suc n

-- The number of that size, with the sign of the product.
abbrev signed : ℤ → ℤ → ℕ → ℤ
signed (pos a) (pos b) n = pos n
signed (negsuc a) (negsuc b) n = pos n
signed _ _ n = sub_ℕ 0 n

unfoldable pub mul_fixed : ℤ → ℤ → ℤ
mul_fixed a b = signed a b (magnitude a * magnitude b / unit)

unfoldable pub div_fixed : Fixed → Fixed → Fixed
div_fixed (some a) (some (pos zero)) = none
div_fixed (some a) (some b) = some (signed a b (magnitude a * unit / magnitude b))
div_fixed _ _ = none

abbrev is_number : Fixed → Bool
is_number none = false
is_number (some a) = true

unfoldable pub abs_fixed : Fixed → Fixed
abs_fixed none = none
abs_fixed (some a) = some (pos (magnitude a))

unfoldable pub lit_fixed : ℕ → ℕ → ℕ
lit_fixed m k = m * unit / 10 ^ k

instance abbrev pub fixed_float : Float64 Fixed
fixed_float = record {
  lit = λ m k. some (pos (lit_fixed m k));
  of_nat = λ n. some (pos (n * unit));
  add = on_parts ◌+ℤ◌;
  sub = on_parts ◌-ℤ◌;
  mul = on_parts mul_fixed;
  div = div_fixed;
  abs = abs_fixed;
  lt = compare_with ltb_ℤ;
  le = compare_with leb_ℤ;
  eq = compare_with λ a b. leb_ℤ a b && leb_ℤ b a;
  finite = is_number;
}

pow-pos : (k : ℕ) → 0 < 10 ^ k
pow-pos zero = omega arith
pow-pos (suc k) = omega (arith, pow-pos k, pow-suc 10 k)

lit_fixed_mono : (m k n j : ℕ) → m * 10 ^ j ≤ n * 10 ^ k → lit_fixed m k ≤ lit_fixed n j
unfolding lit_fixed
lit_fixed_mono m k n j h =
    let q = m * unit / 10 ^ k in
    let below : q * 10 ^ k ≤ m * unit = div-mul-le_self (m * unit) (10 ^ k) in
    let crossed : q * 10 ^ j * 10 ^ k ≤ n * unit * 10 ^ k =
      omega (arith, mul-le-mul below (le_refl (10 ^ j)), mul-le-mul h (le_refl unit)) in
    (le-div_iff_mul-le (pow-pos j)).1 (le_of_mul-le-mul_right crossed (pow-pos k))

mul_div_mono : (a b c : ℕ) → a ≤ b → a * c / unit ≤ b * c / unit
mul_div_mono a b c h = omega (arith, mul-le-mul h (le_refl c))

mul_quotient : (a b : ℕ) → a ≤ b → a * unit / b ≤ unit
mul_quotient a b h = div-le_of_le-mul b (mul-le-mul h (le_refl unit))

mul_mono_fixed :
    (x y c : Fixed)
    → is_number y ≡ true
    → is_number c ≡ true
    → some (pos 0) ≼ x
    → some (pos 0) ≼ c
    → x ≼ y
    → fixed_float.mul x c ≼ fixed_float.mul y c
unfolding mul_fixed
mul_mono_fixed (some (pos a)) (some (pos b)) (some (pos c)) fy fc p q h =
    ground (arith, mul_div_mono a b c)
mul_mono_fixed _ _ _ fy fc p q h = ground arith

div_le_one_fixed :
    (x y : Fixed)
    → is_number x ≡ true
    → some (pos 0) ≼ x
    → fixed_float.lt (some (pos 0)) y ≡ true
    → x ≼ y
    → fixed_float.div x y ≼ some (pos unit)
unfolding div_fixed
div_le_one_fixed (some (pos a)) (some (pos (suc b))) fx p q h =
    ground (arith, mul_quotient a (suc b))
div_le_one_fixed _ _ fx p q h = ground arith

lit_zero : (m : ℕ) → lit_fixed m 0 ≡ m * unit
unfolding lit_fixed
lit_zero m = omega arith

div_self_fixed :
    (x : Fixed)
    → is_number x ≡ true
    → fixed_float.eq x (some (pos 0)) ≡ false
    → fixed_float.div x x ≡ some (pos unit)
unfolding div_fixed
div_self_fixed none h k = cc
div_self_fixed (some (pos zero)) h k = cc
div_self_fixed (some (pos (suc n))) h k =
    ap (λ q. some (pos q)) (mul-div_cancel_left unit (omega arith))
div_self_fixed (some (negsuc n)) h k =
    ap (λ q. some (pos q)) (mul-div_cancel_left unit (omega arith))

zero_div_fixed :
    (y : Fixed)
    → is_number y ≡ true
    → fixed_float.eq y (some (pos 0)) ≡ false
    → fixed_float.eq (fixed_float.div (some (pos 0)) y) (some (pos 0)) ≡ true
unfolding div_fixed
zero_div_fixed none h k = cc
zero_div_fixed (some (pos zero)) h k = cc
zero_div_fixed (some (pos (suc n))) h k = let e : 0 * unit / suc n ≡ 0 = simp zero-div in rw e refl
zero_div_fixed (some (negsuc n)) h k = let e : 0 * unit / suc n ≡ 0 = simp zero-div in rw e refl

mul_one_fixed : (x : Fixed) → is_number x ≡ true → fixed_float.mul x (some (pos unit)) ≡ x
unfolding mul_fixed
mul_one_fixed none h = cc
mul_one_fixed (some (pos n)) h = ground arith
mul_one_fixed (some (negsuc n)) h = ground arith

pub Fixed-IsFloat64 : IsFloat64 Fixed
unfolding mul_fixed div_fixed lit_fixed ◌+ℤ◌ ◌-ℤ◌
Fixed-IsFloat64 = record {
  finite_num = λ x h. ground arith;
  num_of_le = λ x y h. ground arith;
  num_of_lt = λ x y h. ground arith;
  le_trans = λ x y z h k. ground arith;
  le_total = λ x y a b. ground arith;
  lt-eq-not-le = λ x y a b. ground arith;
  finite_between = λ a x b fa fb h k. ground arith;
  lit_finite = λ m k h. refl;
  lit_mono = λ m k n j h. ground (arith, lit_fixed_mono m k n j h);
  add_nonneg = λ x y h k. ground arith;
  mul_nonneg = λ x y fx fy h k. ground arith;
  div_nonneg = λ x y fx h k. ground arith;
  le-add_right = λ x y h k. ground arith;
  le-add_left = λ x y h k. ground arith;
  div-le-one = div_le_one_fixed;
  sub-ne_zero = λ x y fx fy h. ground arith;
  div_num = λ x y fx fy h. ground arith;
  sub_num = λ x y fx h. ground arith;
  mul_num = λ x y fx h k. ground arith;
  lit_lt = λ m n h k. ground (arith, lit_zero m, lit_zero n);
  sub_self = λ x h. ground arith;
  div_self = div_self_fixed;
  zero_div = zero_div_fixed;
  sub_zero = λ x y fx h k. ground arith;
  mul_one = mul_one_fixed;
  mul_zero = λ x h k. ground arith;
  add_mono = λ x y u v a b h k. ground arith;
  mul_mono = mul_mono_fixed;
}
