-- ===== src/Core/Types/Primitives.antt =====
-- `core::PrimitiveValue<T>` and `core::PrimitiveValueNoInterp<T>`: an object is its `_value`.
use haraka_engine.Base.{ℕ, Result, ok}
use haraka_engine.Base.Order.{Bytes}
use haraka_engine.Core.Platform.{Platform}
use haraka_engine.Core.Types.Template.{Fundamental}

module _ {F T : Type 0} (t : Fundamental F T) where
  unfoldable pub get_delta : T → T → Result T
  get_delta value new_value = t.minus new_value value

  unfoldable pub interp : T → T → F → Result T
  interp value delta_value interval = t.blend value delta_value interval

  -- the override of `PrimitiveValueNoInterp`
  unfoldable pub interp_none : T → T → F → Result T
  interp_none value delta_value interval = ok value

  unfoldable pub serialize : T → Bytes
  serialize value = t.to_bytes value

  unfoldable pub deserialize : Bytes → T
  deserialize bytes = t.of_bytes bytes

module _ {F T : Type 0} ⦃p : Platform F⦄ (t : Fundamental F T) where
  -- `process_bytes` of each member in turn: the CRC of their bytes
  unfoldable pub checksum : T → ℕ
  checksum value = p.crc32 (t.to_bytes value)
