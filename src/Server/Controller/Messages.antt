-- ===== src/Server/Controller/Messages.antt =====
-- The buffers that protocol buffers give back as they were written: proto3 wants its strings in UTF-8,
-- its `uint32` in 32 bits, and a message below 2 ^ 31 bytes; the parser refuses all else.
use haraka_engine.Base.{
  ℕ, ◌<◌, ◌^◌, ◌≡◌, Bool, true, false, ◌&&◌, leb, Option, none, some, List, [], ◌∷◌, All, length,
  if◌then◌else◌,
}
use haraka_engine.Base.Order.{Bytes, nat_ord, bytes_ord}
use haraka_engine.Base.Map.{Map, IsSorted, Entries}
use haraka_engine.Core.Object.{ObjectBuffer}
use haraka_engine.Core.Delta.{DeltaBuffer}
use haraka_engine.Server.Controller.{Codec}

-- The bounds of the bytes that follow the first byte of a character; overlong forms, surrogates and
-- what lies above U+10FFFF are left out.
abbrev continuation : ℕ × ℕ
continuation = (128, 191)

abbrev following : ℕ → Option (List (ℕ × ℕ))
following a =
    if leb a 127
    then some []
    else if leb 194 a && leb a 223
    then some (continuation ∷ [])
    else if leb 224 a && leb a 224
    then some ((160, 191) ∷ continuation ∷ [])
    else if leb 237 a && leb a 237
    then some ((128, 159) ∷ continuation ∷ [])
    else if leb 225 a && leb a 239
    then some (continuation ∷ continuation ∷ [])
    else if leb 240 a && leb a 240
    then some ((144, 191) ∷ continuation ∷ continuation ∷ [])
    else if leb 241 a && leb a 243
    then some (continuation ∷ continuation ∷ continuation ∷ [])
    else if leb 244 a && leb a 244
    then some ((128, 143) ∷ continuation ∷ continuation ∷ [])
    else none

-- The rest of a text, in the middle of a character.
abbrev utf8_from : List (ℕ × ℕ) → Bytes → Bool
utf8_from [] [] = true
utf8_from (bounds ∷ more) [] = false
utf8_from (bounds ∷ more) (b ∷ text) = leb bounds.0 b && leb b bounds.1 && utf8_from more text
utf8_from [] (a ∷ text) = elim (following a) [ none ↦ false | some more ↦ utf8_from more text ]

abbrev pub is_utf8 : Bytes → Bool
is_utf8 text = utf8_from [] text

abbrev pub IsText : Bytes → Type 0
IsText text = is_utf8 text ≡ true

abbrev pub IsUint32 : ℕ → Type 0
IsUint32 n = n < 2 ^ 32

abbrev pub AreTexts : Map Bytes Bytes → Type 0
AreTexts values = IsSorted values × Entries (λ name value. IsText name × IsText value) values

abbrev pub IsObjectMessage : ObjectBuffer → Type 0
IsObjectMessage o = IsUint32 o.id × IsText o.type_name × AreTexts o.values

-- The strings of a difference are texts, its numbers have 32 bits, and its maps have each key once.
pub record IsMessage (b : DeltaBuffer) : Type 0 where
  pub prev_tick : IsUint32 b.prev_tick
  pub next_tick : IsUint32 b.next_tick
  pub sorted : IsSorted b.delta_objects
  pub delta_objects : Entries (λ id values. IsUint32 id × AreTexts values) b.delta_objects
  pub added_objects : All IsObjectMessage b.added_objects
  pub deleted_objects : All IsUint32 b.deleted_objects

module _ (codec : Codec) where
  pub record IsSendable (b : DeltaBuffer) : Type 0 where
    pub message : IsMessage b
    pub bounded : length (codec.write_delta b) < 2 ^ 31

  -- What the codec promises: such a difference, when it was written, is parsed again.
  abbrev pub ReadsBack : Type 0
  ReadsBack = (b : DeltaBuffer) → IsSendable b → codec.read_delta (codec.write_delta b) ≡ some b
