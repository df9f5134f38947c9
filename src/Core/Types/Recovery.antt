-- ===== src/Core/Types/Recovery.antt =====
-- `get_delta`, `interp` and `change` together, and the range where the arithmetic of `float` is
-- exact.
use haraka_engine.Base.{◌^◌, ◌≤◌, ◌≡◌, true, ok, ◌>>=◌, arith}
use haraka_engine.Base.Int.{ℤ, ◌-ℤ◌, abs, IsInt32, checked, checked_lem, +ℤ--ℤ}
use haraka_engine.Core.Platform.{Platform, IsIeee}
use haraka_engine.Core.Types.Template.{blend_int}
use haraka_engine.Core.Types.{
  GameValue, int_value, float_value, int_value_nointerp, vec2i, vec2f, change, get_delta, interp,
}

-- The two values and their difference are integers that `float` holds exactly.
abbrev pub IsExactInt : ℤ → ℤ → Type 0
IsExactInt a b = (abs a ≤ 2 ^ 24) × (abs b ≤ 2 ^ 24) × (abs (b -ℤ a) ≤ 2 ^ 24)

pub abs-IsInt32 : (a : ℤ) → abs a ≤ 2 ^ 24 → IsInt32 a
abs-IsInt32 a h = omega arith

module _ {F : Type 0} ⦃p : Platform F⦄ where
  -- The rounded difference is a number, and adding it back is exact.
  abbrev pub IsExactFloat : F → F → Type 0
  IsExactFloat a b = (p.equal (p.sub b a) (p.sub b a) ≡ true) × (p.add a (p.sub b a) ≡ b)

  -- Two values of one class with a difference that the arithmetic carries; without interpolation,
  -- two equal values.
  abbrev pub IsExact : GameValue F → GameValue F → Type 0
  IsExact (int_value a) (int_value b) = IsExactInt a b
  IsExact (float_value a) (float_value b) = IsExactFloat a b
  IsExact (int_value_nointerp a) (int_value_nointerp b) = IsExactInt a b × (a ≡ b)
  IsExact (vec2i a) (vec2i b) = IsExactInt a.x b.x × IsExactInt a.y b.y
  IsExact (vec2f a) (vec2f b) = IsExactFloat a.x b.x × IsExactFloat a.y b.y
  IsExact _ _ = ⊥

  module _ (ieee : IsIeee p) where
    blend_int_one : (a b : ℤ) → IsExactInt a b → blend_int a (b -ℤ a) p.one ≡ ok b
    blend_int_one a b h = rw (
      ieee.mul_one (p.of_int (b -ℤ a)) (ieee.of_int_number (b -ℤ a)),
      ieee.add_exact a (b -ℤ a) h.0 h.2 (rw (+ℤ--ℤ a b) h.1),
      +ℤ--ℤ a b,
      ieee.to_int-of_int b h.1,
    )

    blend_float_one : (a b : F) → IsExactFloat a b → p.add a (p.mul (p.sub b a) p.one) ≡ b
    blend_float_one a b h = rw (ieee.mul_one (p.sub b a) h.0) h.1

    pub checked_exact : (a b : ℤ) → IsExactInt a b → checked (b -ℤ a) ≡ ok (b -ℤ a)
    checked_exact a b h = checked_lem _ (abs-IsInt32 _ h.2)

    -- With IEEE floats: on two values of one class with an exact difference, `get_delta`, then
    -- `interp` of its result at 1.0, then `change` succeed and take the older value to the newer
    -- one.
    pub interp-get_delta :
        (a b : GameValue F)
        → IsExact a b
        → (get_delta a b >>= λ d. interp a d p.one >>= λ w. change a w) ≡ ok b
    unfolding get_delta interp change
    interp-get_delta (int_value a) (int_value b) h = rw (checked_exact a b h, blend_int_one a b h)
    interp-get_delta (float_value a) (float_value b) h = rw (blend_float_one a b h)
    interp-get_delta (int_value_nointerp a) (int_value_nointerp b) h =
        rw (checked_exact a b h.0, h.1)
    interp-get_delta (vec2i a) (vec2i b) h = rw (
      checked_exact a.x b.x h.0,
      checked_exact a.y b.y h.1,
      blend_int_one a.x b.x h.0,
      blend_int_one a.y b.y h.1,
    )
    interp-get_delta (vec2f a) (vec2f b) h =
        rw (blend_float_one a.x b.x h.0, blend_float_one a.y b.y h.1)
    interp-get_delta _ _ h = absurd h
