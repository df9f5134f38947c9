-- ===== src/Core/Types/Vectors.antt =====
-- `core::Vec2<T>`: its members over the operations of `T`.
use haraka_engine.Base.{ℕ, ◌++◌, Result, ok, ◌>>=◌, drop}
use haraka_engine.Base.Order.{Bytes}
use haraka_engine.Core.Platform.{Platform}
use haraka_engine.Core.Types.Template.{Fundamental}

pub record Vec2 (T : Type 0) : Type 0 where
  pub x : T
  pub y : T

module _ {F T : Type 0} (t : Fundamental F T) where
  -- `operator-`, `operator+` and `operator*`
  unfoldable pub minus : Vec2 T → Vec2 T → Result (Vec2 T)
  minus a b = do x ← t.minus a.x b.x; y ← t.minus a.y b.y; ok (record { x = x; y = y })

  unfoldable pub plus : Vec2 T → Vec2 T → Result (Vec2 T)
  plus a b = do x ← t.plus a.x b.x; y ← t.plus a.y b.y; ok (record { x = x; y = y })

  unfoldable pub scale : Vec2 T → T → Result (Vec2 T)
  scale a scalar = do x ← t.times a.x scalar; y ← t.times a.y scalar; ok (record { x = x; y = y })

  -- `operator+=` and `operator-=`: the new value of the left operand
  unfoldable pub plus_assign : Vec2 T → Vec2 T → Result (Vec2 T)
  plus_assign a other = do
    x ← t.plus a.x other.x
    let a' = record a { x = x }
    y ← t.plus a'.y other.y
    ok (record a' { y = y })

  unfoldable pub minus_assign : Vec2 T → Vec2 T → Result (Vec2 T)
  minus_assign a other = do
    x ← t.minus a.x other.x
    let a' = record a { x = x }
    y ← t.minus a'.y other.y
    ok (record a' { y = y })

  unfoldable pub get_delta : Vec2 T → Vec2 T → Result (Vec2 T)
  get_delta self new_value = do
    x ← t.minus new_value.x self.x
    y ← t.minus new_value.y self.y
    ok (record { x = x; y = y })

  unfoldable pub interp : Vec2 T → Vec2 T → F → Result (Vec2 T)
  interp self delta_value interval = do
    x ← t.blend self.x delta_value.x interval
    y ← t.blend self.y delta_value.y interval
    ok (record { x = x; y = y })

  unfoldable pub serialize : Vec2 T → Bytes
  serialize self = t.to_bytes self.x ++ t.to_bytes self.y

  unfoldable pub deserialize : Bytes → Vec2 T
  deserialize bytes = record { x = t.of_bytes bytes; y = t.of_bytes (drop 4 bytes) }

module _ {F T : Type 0} ⦃p : Platform F⦄ (t : Fundamental F T) where
  -- `process_bytes` of each member in turn: the CRC of their bytes
  unfoldable pub checksum : Vec2 T → ℕ
  checksum self = p.crc32 (t.to_bytes self.x ++ t.to_bytes self.y)
