-- ===== src/Decimal/Fixed.antt =====
-- Fixed-point numbers with eight decimal places: a concrete `Decimal` that meets the laws, on which
-- the tests run.
use native.Mathlib.Nat.{mul-le-mul, div-le_of_le-mul}
use trade_mind.Prelude.{ℕ, zero, suc, ◌*◌, ◌/◌, ◌≤◌, ◌≡◌, refl, ap, true, arith}
use trade_mind.Prelude.Int.{ℤ, pos, negsuc, sub_ℕ, ◌+ℤ◌, ◌-ℤ◌, leb_ℤ}
use trade_mind.Decimal.{Decimal}
use trade_mind.Decimal.Order.{IsOrdered}

abbrev pub Fixed : Type 0
Fixed = ℤ

abbrev scale : ℕ
scale = 100_000_000

abbrev pow10 : ℕ → ℕ
pow10 zero = 1
pow10 (suc n) = 10 * pow10 n

abbrev minus : ℕ → ℤ
minus n = sub_ℕ 0 n

abbrev fixed_mul : ℤ → ℤ → ℤ
fixed_mul (pos a) (pos b) = pos (a * b / scale)
fixed_mul (pos a) (negsuc b) = minus (a * suc b / scale)
fixed_mul (negsuc a) (pos b) = minus (suc a * b / scale)
fixed_mul (negsuc a) (negsuc b) = pos (suc a * suc b / scale)

abbrev fixed_quot : ℤ → ℤ → ℤ
fixed_quot (pos a) (pos b) = pos (a * scale / b)
fixed_quot (pos a) (negsuc b) = minus (a * scale / suc b)
fixed_quot (negsuc a) (pos b) = minus (suc a * scale / b)
fixed_quot (negsuc a) (negsuc b) = pos (suc a * scale / suc b)

instance abbrev pub fixed : Decimal Fixed
fixed = record {
  lit = λ c k. pos (c * scale / pow10 k);
  le = leb_ℤ;
  add = ◌+ℤ◌;
  sub = ◌-ℤ◌;
  neg = λ a. pos 0 -ℤ a;
  mul = fixed_mul;
  quot = fixed_quot;
}

div_mono : (a b : ℕ) → a ≤ b → a / scale ≤ b / scale
div_mono a b h = omega arith

mul_mono : (a b c e : ℕ) → a ≤ b → c ≤ e → a * c / scale ≤ b * e / scale
mul_mono a b c e h k = div_mono (a * c) (b * e) (mul-le-mul h k)

quot_le_scale : (a b : ℕ) → a ≤ b → a * scale / b ≤ scale
quot_le_scale a b h = div-le_of_le-mul b (grind arith)

-- The laws, one for each operation, on the signs that they concern.
fixed_sub-le : (a b : ℤ) → leb_ℤ (pos 0) b ≡ true → leb_ℤ (a -ℤ b) a ≡ true
unfolding ◌-ℤ◌
fixed_sub-le a b h = ground arith

fixed_mul_nonneg :
    (a b : ℤ)
    → leb_ℤ (pos 0) a ≡ true
    → leb_ℤ (pos 0) b ≡ true
    → leb_ℤ (pos 0) (fixed_mul a b) ≡ true
fixed_mul_nonneg (pos a) (pos b) h k = ground arith
fixed_mul_nonneg (pos a) (negsuc b) h k = ground arith
fixed_mul_nonneg (negsuc a) b h k = ground arith

fixed_mul_mono :
    (a b c e : ℤ)
    → leb_ℤ (pos 0) a ≡ true
    → leb_ℤ a b ≡ true
    → leb_ℤ (pos 0) c ≡ true
    → leb_ℤ c e ≡ true
    → leb_ℤ (fixed_mul a c) (fixed_mul b e) ≡ true
fixed_mul_mono (pos a) (pos b) (pos c) (pos e) h k l m = ground (arith, mul_mono a b c e)
fixed_mul_mono (negsuc a) b c e h k l m = ground arith
fixed_mul_mono (pos a) (negsuc b) c e h k l m = ground arith
fixed_mul_mono (pos a) (pos b) (negsuc c) e h k l m = ground arith
fixed_mul_mono (pos a) (pos b) (pos c) (negsuc e) h k l m = ground arith

fixed_mul-one : (a : ℤ) → leb_ℤ (pos 0) a ≡ true → fixed_mul a (pos scale) ≡ a
fixed_mul-one (pos a) h = ap pos (mul-div_left' a)
  where
    mul-div_left' : (n : ℕ) → n * scale / scale ≡ n
    mul-div_left' n = omega arith
fixed_mul-one (negsuc a) h = ground arith

fixed_one-mul : (a : ℤ) → leb_ℤ (pos 0) a ≡ true → fixed_mul (pos scale) a ≡ a
fixed_one-mul (pos a) h = ap pos (mul-div_right' a)
  where
    mul-div_right' : (n : ℕ) → scale * n / scale ≡ n
    mul-div_right' n = omega arith
fixed_one-mul (negsuc a) h = ground arith

fixed_quot_nonneg :
    (a b : ℤ)
    → leb_ℤ (pos 0) a ≡ true
    → leb_ℤ (pos 0) b ≡ true
    → leb_ℤ (pos 0) (fixed_quot a b) ≡ true
fixed_quot_nonneg (pos a) (pos b) h k = ground arith
fixed_quot_nonneg (pos a) (negsuc b) h k = ground arith
fixed_quot_nonneg (negsuc a) b h k = ground arith

fixed_quot-le-one :
    (a b : ℤ)
    → leb_ℤ (pos 0) a ≡ true
    → leb_ℤ a b ≡ true
    → leb_ℤ (fixed_quot a b) (pos scale) ≡ true
fixed_quot-le-one (pos a) (pos b) h k = ground (arith, quot_le_scale a b)
fixed_quot-le-one (pos a) (negsuc b) h k = ground arith
fixed_quot-le-one (negsuc a) b h k = ground arith

pub Fixed-IsOrdered : IsOrdered Fixed
unfolding ◌+ℤ◌ ◌-ℤ◌
Fixed-IsOrdered = record {
  le_refl = λ a. ground arith;
  le_trans = λ a b c h k. ground arith;
  le_total = λ a b. ground arith;
  zero-le-one = refl;
  add_mono = λ a b c e h k. ground arith;
  add-zero = λ a. ground arith;
  zero-add = λ a. ground arith;
  sub_nonneg = λ a b h. ground arith;
  add-sub-le-one = λ a h k. ground arith;
  sub-le_self = λ a b h k. fixed_sub-le a b h;
  mul_nonneg = fixed_mul_nonneg;
  mul_mono = fixed_mul_mono;
  mul-one = fixed_mul-one;
  one-mul = fixed_one-mul;
  of_int_mono = λ m n h. ground arith;
  of_int_pos = λ n. ground arith;
  neg_pos = λ a h. ground arith;
  quot_nonneg = fixed_quot_nonneg;
  quot-le-one = fixed_quot-le-one;
}
