-- ===== src/Core/Platform.antt =====
-- What the game state takes from outside the repository: the machine's `float` (IEEE 754 binary32)
-- and boost's CRC-32. Both are parameters; what is documented of the floats is `IsIeee`.
use haraka_engine.Base.{
  ℕ, ◌+◌, ◌*◌, ◌/◌, ◌%◌, ◌^◌, ◌≤◌, ◌≡◌, refl, Bool, true, false, Option, none, some, [], ◌∷◌, arith,
  ◌==◌, ==_refl, if◌then◌else◌,
}
use haraka_engine.Base.Order.{Bytes}
use haraka_engine.Base.Int.{ℤ, pos, negsuc, ◌+ℤ◌, ◌-ℤ◌, ◌*ℤ◌, abs, is_int32, ltb_ℤ}

pub record Platform (F : Type 0) : Type 0 where
  pub zero_f : F
  pub one : F
  pub add : F → F → F
  pub sub : F → F → F
  pub mul : F → F → F
  pub div : F → F → F
  pub less : F → F → Bool
  pub equal : F → F → Bool
  -- the conversions between `int` and `float`; `none` where the value fits no `int`
  pub of_int : ℤ → F
  pub to_int : F → Option ℤ
  -- the bit pattern
  pub bits : F → ℕ
  pub of_bits : ℕ → F
  -- `boost::crc_32_type` over the bytes that were processed
  pub crc32 : Bytes → ℕ

-- Only a NaN differs from itself. Every integer up to 2 ^ 24 is a float, and sums of such integers
-- that stay in that range are exact.
pub record IsIeee {F : Type 0} (p : Platform F) : Type 0 where
  pub mul_one : (x : F) → p.equal x x ≡ true → p.mul x p.one ≡ x
  pub add_exact :
      (a b : ℤ)
      → abs a ≤ 2 ^ 24
      → abs b ≤ 2 ^ 24
      → abs (a +ℤ b) ≤ 2 ^ 24
      → p.add (p.of_int a) (p.of_int b) ≡ p.of_int (a +ℤ b)
  pub of_int_number : (a : ℤ) → p.equal (p.of_int a) (p.of_int a) ≡ true
  pub to_int-of_int : (a : ℤ) → abs a ≤ 2 ^ 24 → p.to_int (p.of_int a) ≡ some a
  pub of_bits-bits : (x : F) → p.of_bits (p.bits x) ≡ x
  pub one_ge_zero : p.less p.one p.zero_f ≡ false
  pub one_le_one : p.less p.one p.one ≡ false
  pub one_equal_one : p.equal p.one p.one ≡ true

-- The parameters can be met: floats that are integers, and a sum for the checksum.
abbrev pub fold_bytes : Bytes → ℕ
fold_bytes [] = 0
fold_bytes (b ∷ bs) = b + 257 * fold_bytes bs

abbrev pub int_bits : ℤ → ℕ
int_bits (pos n) = 2 * n
int_bits (negsuc n) = 2 * n + 1

abbrev pub bits_int : ℕ → ℤ
bits_int w = if w % 2 == 0 then pos (w / 2) else negsuc (w / 2)

abbrev pub equal_ℤ : ℤ → ℤ → Bool
equal_ℤ a b = int_bits a == int_bits b

instance abbrev pub whole_floats : Platform ℤ
whole_floats = record {
  zero_f = pos 0;
  one = pos 1;
  add = ◌+ℤ◌;
  sub = ◌-ℤ◌;
  mul = ◌*ℤ◌;
  div = λ a b. a;
  less = ltb_ℤ;
  equal = equal_ℤ;
  of_int = λ a. a;
  to_int = λ a. if is_int32 a then some a else none;
  bits = int_bits;
  of_bits = bits_int;
  crc32 = fold_bytes;
}

mul_one_ℤ : (a : ℤ) → a *ℤ pos 1 ≡ a
unfolding ◌*ℤ◌
mul_one_ℤ (pos n) = ground arith
mul_one_ℤ (negsuc n) = ground arith

bits_int_lem : (a : ℤ) → bits_int (int_bits a) ≡ a
bits_int_lem (pos n) = ground arith
bits_int_lem (negsuc n) = ground arith

pub whole_floats-IsIeee : IsIeee whole_floats
whole_floats-IsIeee = record {
  mul_one = λ x _. mul_one_ℤ x;
  add_exact = λ a b _ _ _. refl;
  of_int_number = λ a. ==_refl (int_bits a);
  to_int-of_int = λ a h. ground arith;
  of_bits-bits = bits_int_lem;
  one_ge_zero = refl;
  one_le_one = refl;
  one_equal_one = refl;
}
