-- ===== src/Core/Types/Wire.antt =====
-- The bytes of a game value, written by `serialize` and read back by `deserialize`.
use haraka_engine.Base.{ℕ, ◌^◌, ◌<◌, ◌≡◌, ap, ◌++◌, ok, arith}
use haraka_engine.Base.Order.{Bytes}
use haraka_engine.Base.Int.{ℤ, IsInt32, to_word, of_word, of_word-to_word, to_word-lt}
use haraka_engine.Core.Platform.{Platform, IsIeee}
use haraka_engine.Core.Types.Template.{word_bytes, bytes_word}
use haraka_engine.Core.Types.Vectors
use haraka_engine.Core.Types.Vectors.{Vec2}
use haraka_engine.Core.Types.{
  GameValue, int_value, float_value, int_value_nointerp, vec2i, vec2f, change, serialize,
  deserialize,
}

pub bytes_word-word_bytes :
    (w : ℕ) (rest : Bytes) → w < 2 ^ 32 → bytes_word (word_bytes w ++ rest) ≡ w
bytes_word-word_bytes w rest h = omega arith

bytes_word_only : (w : ℕ) → w < 2 ^ 32 → bytes_word (word_bytes w) ≡ w
bytes_word_only w h = omega arith

vec_eq : {T : Type 0} {a b : Vec2 T} → a.x ≡ b.x → a.y ≡ b.y → a ≡ b
vec_eq p q = λ i. record { x = p i; y = q i }

module _ {F : Type 0} ⦃p : Platform F⦄ where
  abbrev pub IsFloat32 : F → Type 0
  IsFloat32 a = p.bits a < 2 ^ 32

  -- The value fits its type.
  abbrev pub IsValue : GameValue F → Type 0
  IsValue (int_value a) = IsInt32 a
  IsValue (float_value a) = IsFloat32 a
  IsValue (int_value_nointerp a) = IsInt32 a
  IsValue (vec2i a) = IsInt32 a.x × IsInt32 a.y
  IsValue (vec2f a) = IsFloat32 a.x × IsFloat32 a.y

  -- Two values of one class.
  abbrev pub SameClass : GameValue F → GameValue F → Type 0
  SameClass (int_value a) (int_value b) = Unit
  SameClass (float_value a) (float_value b) = Unit
  SameClass (int_value_nointerp a) (int_value_nointerp b) = Unit
  SameClass (vec2i a) (vec2i b) = Unit
  SameClass (vec2f a) (vec2f b) = Unit
  SameClass _ _ = ⊥

  -- The values that reading bytes through a reference value may give: those of the template's base
  -- class, also where the reference has no interpolation.
  abbrev pub Reads : GameValue F → GameValue F → Type 0
  Reads (int_value a) (int_value b) = IsInt32 b
  Reads (int_value_nointerp a) (int_value b) = IsInt32 b
  Reads (float_value a) (float_value b) = IsFloat32 b
  Reads (vec2i a) (vec2i b) = IsInt32 b.x × IsInt32 b.y
  Reads (vec2f a) (vec2f b) = IsFloat32 b.x × IsFloat32 b.y
  Reads _ _ = ⊥

  module _ (ieee : IsIeee p) where
    int_read :
        (a : ℤ) (rest : Bytes)
        → IsInt32 a
        → of_word (bytes_word (word_bytes (to_word a) ++ rest)) ≡ a
    int_read a rest h =
        rw (bytes_word-word_bytes (to_word a) rest (to_word-lt a h)) (of_word-to_word a h)

    int_read_only : (a : ℤ) → IsInt32 a → of_word (bytes_word (word_bytes (to_word a))) ≡ a
    int_read_only a h = rw (bytes_word_only (to_word a) (to_word-lt a h)) (of_word-to_word a h)

    float_read :
        (a : F) (rest : Bytes)
        → IsFloat32 a
        → p.of_bits (bytes_word (word_bytes (p.bits a) ++ rest)) ≡ a
    float_read a rest h = rw (bytes_word-word_bytes (p.bits a) rest h) (ieee.of_bits-bits a)

    float_read_only : (a : F) → IsFloat32 a → p.of_bits (bytes_word (word_bytes (p.bits a))) ≡ a
    float_read_only a h = rw (bytes_word_only (p.bits a) h) (ieee.of_bits-bits a)

    -- With IEEE floats: a value that fits its type, written to bytes, read through a value of its
    -- class and assigned to that one, gives the value.
    pub change-deserialize :
        (old v : GameValue F)
        → SameClass old v
        → IsValue v
        → change old (deserialize old (serialize v)) ≡ ok v
    unfolding change deserialize serialize Vectors.deserialize Vectors.serialize
    change-deserialize (int_value a) (int_value b) s h = rw (int_read_only b h)
    change-deserialize (float_value a) (float_value b) s h = rw (float_read_only b h)
    change-deserialize (int_value_nointerp a) (int_value_nointerp b) s h = rw (int_read_only b h)
    change-deserialize (vec2i a) (vec2i b) s h =
        ap (λ v. ok (vec2i v))
          (vec_eq (int_read b.x (word_bytes (to_word b.y)) h.0) (int_read_only b.y h.1))
    change-deserialize (vec2f a) (vec2f b) s h =
        ap (λ v. ok (vec2f v))
          (vec_eq (float_read b.x (word_bytes (p.bits b.y)) h.0) (float_read_only b.y h.1))
    change-deserialize _ _ s h = absurd s

    -- The class of `reference` makes a value of the class of `v` from bytes, and `v` fits its type.
    pub read_back :
        (reference v : GameValue F) → Reads reference v → deserialize reference (serialize v) ≡ v
    unfolding deserialize serialize Vectors.deserialize Vectors.serialize
    read_back (int_value a) (int_value b) h = ap int_value (int_read_only b h)
    read_back (int_value_nointerp a) (int_value b) h = ap int_value (int_read_only b h)
    read_back (float_value a) (float_value b) h = ap float_value (float_read_only b h)
    read_back (vec2i a) (vec2i b) h =
        ap vec2i (vec_eq (int_read b.x (word_bytes (to_word b.y)) h.0) (int_read_only b.y h.1))
    read_back (vec2f a) (vec2f b) h =
        ap vec2f (vec_eq (float_read b.x (word_bytes (p.bits b.y)) h.0) (float_read_only b.y h.1))
    read_back _ _ h = absurd h
