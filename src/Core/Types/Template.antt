-- ===== src/Core/Types/Template.antt =====
-- The template parameter `T` of core/types.hpp: the operations of a fundamental type that the
-- templates use, for `int` (four bytes, little endian, two's complement) and for `float`.
use haraka_engine.Base.{ℕ, ◌+◌, ◌*◌, ◌/◌, ◌%◌, [], ◌∷◌, Result, ok, overflow, or_fail, get_or}
use haraka_engine.Base.Order.{Bytes}
use haraka_engine.Base.Int.{ℤ, pos, ◌+ℤ◌, ◌-ℤ◌, ◌*ℤ◌, checked, to_word, of_word}
use haraka_engine.Core.Platform.{Platform}

-- `ss.write((char*) &word, 4)`
abbrev pub word_bytes : ℕ → Bytes
word_bytes w = w % 256 ∷ w / 256 % 256 ∷ w / 65536 % 256 ∷ w / 16777216 % 256 ∷ []

-- `ss.read((char*) &word, 4)` into a word that is 0: bytes that are missing stay 0.
abbrev pub bytes_word : Bytes → ℕ
bytes_word bs =
    get_or bs 0 0 + 256 * get_or bs 1 0 + 65536 * get_or bs 2 0 + 16777216 * get_or bs 3 0

pub record Fundamental (F T : Type 0) : Type 0 where
  pub zero_t : T
  pub plus : T → T → Result T
  pub minus : T → T → Result T
  pub times : T → T → Result T
  -- `value + (delta * interval)`, converted back to `T`
  pub blend : T → T → F → Result T
  pub to_bytes : T → Bytes
  pub of_bytes : Bytes → T

module _ {F : Type 0} ⦃p : Platform F⦄ where
  -- `int`: the scaled difference is a float, the sum is one, and the result is truncated.
  abbrev pub blend_int : ℤ → ℤ → F → Result ℤ
  blend_int value delta interval =
      or_fail (p.to_int (p.add (p.of_int value) (p.mul (p.of_int delta) interval))) overflow

  abbrev pub int_type : Fundamental F ℤ
  int_type = record {
    zero_t = pos 0;
    plus = λ a b. checked (a +ℤ b);
    minus = λ a b. checked (a -ℤ b);
    times = λ a b. checked (a *ℤ b);
    blend = blend_int;
    to_bytes = λ a. word_bytes (to_word a);
    of_bytes = λ bs. of_word (bytes_word bs);
  }

  abbrev pub float_type : Fundamental F F
  float_type = record {
    zero_t = p.zero_f;
    plus = λ a b. ok (p.add a b);
    minus = λ a b. ok (p.sub a b);
    times = λ a b. ok (p.mul a b);
    blend = λ value delta interval. ok (p.add value (p.mul delta interval));
    to_bytes = λ a. word_bytes (p.bits a);
    of_bytes = λ bs. p.of_bits (bytes_word bs);
  }
