-- ===== src/Core/Object/Serial.antt =====
-- `serialize` and `deserialize` of objects, through the factory.
use haraka_engine.Base.{◌≡◌, sym, ap, ◌∙◌, some, [], ◌∷◌, ◌++◌, append-nil, ok}
use haraka_engine.Base.Order.{Bytes, bytes_ord}
use haraka_engine.Base.Map.{Map, find, Before, IsSorted, Aligned}
use haraka_engine.Base.Map.Prefix.{assign-end, Before-nil, Before-snoc, snoc-append}
use haraka_engine.Core.Platform.{Platform, IsIeee}
use haraka_engine.Core.Types
use haraka_engine.Core.Types.{GameValue}
use haraka_engine.Core.Types.Wire.{IsValue, SameClass, change-deserialize as value_back}
use haraka_engine.Core.Object.{
  GameObject, Game, instantiate, restore, serialize_values, serialize, deserialize,
}
use haraka_engine.Core.Object.Loops.{object_eq, Steps, for_values-Steps}

module _ {F : Type 0} ⦃p : Platform F⦄ where
  -- What a fresh object of the class needs to take the value: its class, and that the value fits.
  abbrev pub Receives : GameValue F → GameValue F → Type 0
  Receives old v = SameClass old v × IsValue v

  -- The object that `deserialize` fills: made by the class's creator, with the buffer's id.
  abbrev pub fresh : Game F → GameObject F → GameObject F → GameObject F
  fresh g o created = g.add_values (record created { id = o.id })

  -- The class of `o` is registered, and its fresh objects have the values of `o` by name and class.
  pub record IsRegistered (g : Game F) (o : GameObject F) : Type 0 where
    pub created : GameObject F
    pub found : find o.type_name g.registry ≡ some created
    pub keeps_id : (fresh g o created).id ≡ o.id
    pub keeps_type : (fresh g o created).type_name ≡ o.type_name
    pub sorted : IsSorted o.values
    pub fresh_sorted : IsSorted (fresh g o created).values
    pub receives : Aligned Receives (fresh g o created).values o.values

  abbrev pub written : Map Bytes (GameValue F) → Map Bytes Bytes
  written [] = []
  written ((k, v) ∷ vs) = (k, Types.serialize v) ∷ written vs

  pub serialize_values-written :
      (vs : Map Bytes (GameValue F)) (acc : Map Bytes Bytes)
      → IsSorted vs
      → Before acc vs
      → serialize_values vs acc ≡ acc ++ written vs
  unfolding serialize_values
  serialize_values-written [] acc s b = sym (append-nil acc)
  serialize_values-written ((k, v) ∷ vs) acc s b = rw (assign-end k (Types.serialize v) acc b) (
      serialize_values-written vs (acc ++ (k, Types.serialize v) ∷ []) s.1
        (Before-snoc k (Types.serialize v) acc vs s.0 b)
      ∙ sym (snoc-append acc (k, Types.serialize v) (written vs)))

  module _ (ieee : IsIeee p) where
    pub written-Steps :
        (fs vs : Map Bytes (GameValue F))
        → Aligned Receives fs vs
        → Steps restore (written vs) fs vs
    unfolding restore
    written-Steps [] [] h = tt
    written-Steps ((i, f) ∷ fs) ((k, v) ∷ vs) h =
        (sym h.0, sym h.0, value_back ieee f v h.1.0 h.1.1, written-Steps fs vs h.2)
    written-Steps [] (_ ∷ _) h = absurd h
    written-Steps (_ ∷ _) [] h = absurd h

    -- With IEEE floats: an object of a registered class is read back from its buffer as it was.
    pub deserialize-serialize_object :
        (g : Game F) (o : GameObject F) → IsRegistered g o → deserialize g (serialize o) ≡ ok o
    unfolding deserialize serialize instantiate
    deserialize-serialize_object g o h =
        rw
          (
            h.found,
            serialize_values-written o.values [] h.sorted (Before-nil Bytes o.values),
            for_values-Steps restore [] (written o.values) (fresh g o h.created).values o.values
                h.fresh_sorted (Before-nil (GameValue F) (fresh g o h.created).values)
                (written-Steps _ o.values h.receives),
          )
          (ap ok (object_eq (fresh g o h.created) o h.keeps_id h.keeps_type))
