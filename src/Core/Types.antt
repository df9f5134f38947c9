-- ===== src/Core/Types.antt =====
-- core/types.hpp: the game values. A `GameValue` is one of the classes that the file names by its
-- typedefs; a virtual call matches on the class, and a failed `dynamic_cast` is a fault (the
-- assertion of a debug build, the null pointer that a release build reads through).
pub mod Template
pub mod Primitives
pub mod Vectors
pub mod Recovery
pub mod Wire
use haraka_engine.Base.{
  ℕ, Option, none, some, Result, ok, err, bad_cast, null_pointer, or_fail, ◌>>=◌, Bool, ◌≡◌,
}
use haraka_engine.Base.Order.{Bytes}
use haraka_engine.Base.Int.{ℤ}
use haraka_engine.Core.Platform.{Platform, equal_ℤ}
use Template.{Fundamental, int_type, float_type}
use Vectors.{Vec2}

pub data GameValue (F : Type 0) : Type 0 where
  int_value : ℤ → GameValue F
  float_value : F → GameValue F
  int_value_nointerp : ℤ → GameValue F
  vec2i : Vec2 ℤ → GameValue F
  vec2f : Vec2 F → GameValue F

module _ {F : Type 0} where
  -- `dynamic_cast<PrimitiveValue<int>*>`: the class without interpolation derives from it.
  unfoldable pub cast_int : GameValue F → Option ℤ
  cast_int (int_value v) = some v
  cast_int (int_value_nointerp v) = some v
  cast_int _ = none

  unfoldable pub cast_float : GameValue F → Option F
  cast_float (float_value v) = some v
  cast_float _ = none

  unfoldable pub cast_vec2i : GameValue F → Option (Vec2 ℤ)
  cast_vec2i (vec2i v) = some v
  cast_vec2i _ = none

  unfoldable pub cast_vec2f : GameValue F → Option (Vec2 F)
  cast_vec2f (vec2f v) = some v
  cast_vec2f _ = none

  -- The value of `self` after `self.change(other)`; its class stays.
  unfoldable pub change : GameValue F → GameValue F → Result (GameValue F)
  unfolding cast_int cast_float cast_vec2i cast_vec2f
  change (int_value _) other = do v ← or_fail (cast_int other) null_pointer; ok (int_value v)
  change (float_value _) other = do v ← or_fail (cast_float other) null_pointer; ok (float_value v)
  change (int_value_nointerp _) other = do
    v ← or_fail (cast_int other) null_pointer
    ok (int_value_nointerp v)
  change (vec2i _) other = do v ← or_fail (cast_vec2i other) null_pointer; ok (vec2i v)
  change (vec2f _) other = do v ← or_fail (cast_vec2f other) null_pointer; ok (vec2f v)

module _ {F : Type 0} ⦃p : Platform F⦄ where
  -- the template arguments
  abbrev pub ints : Fundamental F ℤ
  ints = int_type

  abbrev pub floats : Fundamental F F
  floats = float_type

  unfoldable pub serialize : GameValue F → Bytes
  unfolding Primitives.serialize Vectors.serialize
  serialize (int_value v) = Primitives.serialize ints v
  serialize (float_value v) = Primitives.serialize floats v
  serialize (int_value_nointerp v) = Primitives.serialize ints v
  serialize (vec2i v) = Vectors.serialize ints v
  serialize (vec2f v) = Vectors.serialize floats v

  -- The new value is of the template's base class, also where `self` has no interpolation.
  unfoldable pub deserialize : GameValue F → Bytes → GameValue F
  unfolding Primitives.deserialize Vectors.deserialize
  deserialize (int_value _) bytes = int_value (Primitives.deserialize ints bytes)
  deserialize (float_value _) bytes = float_value (Primitives.deserialize floats bytes)
  deserialize (int_value_nointerp _) bytes = int_value (Primitives.deserialize ints bytes)
  deserialize (vec2i _) bytes = vec2i (Vectors.deserialize ints bytes)
  deserialize (vec2f _) bytes = vec2f (Vectors.deserialize floats bytes)

  unfoldable pub checksum : GameValue F → ℕ
  unfolding Primitives.checksum Vectors.checksum
  checksum (int_value v) = Primitives.checksum ints v
  checksum (float_value v) = Primitives.checksum floats v
  checksum (int_value_nointerp v) = Primitives.checksum ints v
  checksum (vec2i v) = Vectors.checksum ints v
  checksum (vec2f v) = Vectors.checksum floats v

  unfoldable pub get_delta : GameValue F → GameValue F → Result (GameValue F)
  unfolding cast_int cast_float cast_vec2i cast_vec2f Primitives.get_delta Vectors.get_delta
  get_delta (int_value v) new_value = do
    w ← or_fail (cast_int new_value) bad_cast
    d ← Primitives.get_delta ints v w
    ok (int_value d)
  get_delta (float_value v) new_value = do
    w ← or_fail (cast_float new_value) bad_cast
    d ← Primitives.get_delta floats v w
    ok (float_value d)
  get_delta (int_value_nointerp v) new_value = do
    w ← or_fail (cast_int new_value) bad_cast
    d ← Primitives.get_delta ints v w
    ok (int_value d)
  get_delta (vec2i v) new_value = do
    w ← or_fail (cast_vec2i new_value) bad_cast
    d ← Vectors.get_delta ints v w
    ok (vec2i d)
  get_delta (vec2f v) new_value = do
    w ← or_fail (cast_vec2f new_value) bad_cast
    d ← Vectors.get_delta floats v w
    ok (vec2f d)

  unfoldable pub interp : GameValue F → GameValue F → F → Result (GameValue F)
  unfolding cast_int cast_float cast_vec2i cast_vec2f Primitives.interp Primitives.interp_none
      Vectors.interp
  interp (int_value v) delta t = do
    d ← or_fail (cast_int delta) bad_cast
    w ← Primitives.interp ints v d t
    ok (int_value w)
  interp (float_value v) delta t = do
    d ← or_fail (cast_float delta) bad_cast
    w ← Primitives.interp floats v d t
    ok (float_value w)
  interp (int_value_nointerp v) delta t = ok (int_value_nointerp v)
  interp (vec2i v) delta t = do
    d ← or_fail (cast_vec2i delta) bad_cast
    w ← Vectors.interp ints v d t
    ok (vec2i w)
  interp (vec2f v) delta t = do
    d ← or_fail (cast_vec2f delta) bad_cast
    w ← Vectors.interp floats v d t
    ok (vec2f w)
