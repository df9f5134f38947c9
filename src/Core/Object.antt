-- ===== src/Core/Object.antt =====
-- core/game_object.hpp and core/game_object.cpp: objects with named values, the factory, and the
-- exchange of values with the protocol buffer `serialization::GameObject`.
pub mod Loops
pub mod AnyOrder
pub mod Fixed
pub mod Shape
pub mod Compare
pub mod Serial
use haraka_engine.Base.{
  ℕ, Option, none, some, List, [], ◌∷◌, ◌++◌, Result, ok, err, null_pointer, out_of_range,
  unknown_class_type, or_fail, ◌>>=◌, ◌≡◌,
}
use haraka_engine.Base.Order.{Bytes, bytes_ord}
use haraka_engine.Base.Map.{Map, find, assign, insert}
use haraka_engine.Core.Platform.{Platform}
use haraka_engine.Core.Types.Template.{word_bytes}
use haraka_engine.Core.Types.{GameValue}
use haraka_engine.Core.Types

-- `_values` names the values of the object in the order of their names. `type_name` is what the
-- virtual function of that name returns.
pub record GameObject (F : Type 0) : Type 0 where
  pub id : ℕ
  pub type_name : Bytes
  pub values : Map Bytes (GameValue F)

-- `diffset_t`
abbrev pub DiffSet : Type 0 → Type 0
DiffSet F = Map Bytes (GameValue F)

-- What a game adds to the engine: for each registered class the object that its creator makes, and
-- the virtual functions of the classes.
pub record Game (F : Type 0) : Type 0 where
  pub registry : Map Bytes (GameObject F)
  pub add_values : GameObject F → GameObject F
  pub clone : GameObject F → GameObject F
  pub update : F → GameObject F → GameObject F

-- "a deepcopy of this game object": what the classes promise.
abbrev pub Clones : {F : Type 0} → Game F → Type 0
Clones {F} g = (o : GameObject F) → g.clone o ≡ o

-- `serialization::GameObject`
pub record ObjectBuffer : Type 0 where
  pub id : ℕ
  pub type_name : Bytes
  pub values : Map Bytes Bytes

module _ {V D : Type 0} where
  -- The loop `for (auto& [name, d] : entries) _values[name] = step(_values[name], d)`. A name that
  -- the object lacks makes `operator[]` add a null pointer, which is then read through.
  unfoldable pub for_values : (V → D → Result V) → Map Bytes D → Map Bytes V → Result (Map Bytes V)
  for_values step [] values = ok values
  for_values step ((name, d) ∷ entries) values = do
    v ← or_fail (find name values) null_pointer
    w ← step v d
    for_values step entries (assign name w values)

module _ {F : Type 0} where
  -- `Registrar`: the class is entered under its name, in place of one that was there.
  unfoldable pub registrar : Game F → Bytes → GameObject F → Game F
  registrar g name created = record g { registry = assign name created g.registry }

  unfoldable pub instantiate : Game F → Bytes → Result (GameObject F)
  instantiate g type = or_fail (find type g.registry) unknown_class_type

  unfoldable pub get_value : GameObject F → Bytes → Result (GameValue F)
  get_value o name = or_fail (find name o.values) out_of_range

module _ {F : Type 0} ⦃p : Platform F⦄ where
  -- The body of the loop of `interpolate`: the value takes its interpolated value.
  unfoldable pub advance : F → GameValue F → GameValue F → Result (GameValue F)
  advance t v delta = do w ← Types.interp v delta t; Types.change v w

  unfoldable pub interpolate : Game F → GameObject F → DiffSet F → F → Result (GameObject F)
  interpolate g self differences t = do
    let new_object = g.clone self
    values ← for_values (advance t) differences new_object.values
    ok (record new_object { values = values })

  -- The loop of `compare`.
  unfoldable pub compare_values :
      Map Bytes (GameValue F) → Map Bytes (GameValue F) → DiffSet F → Result (DiffSet F)
  compare_values [] others diffset = ok diffset
  compare_values ((name, v) ∷ values) others diffset = do
    w ← or_fail (find name others) out_of_range
    d ← Types.get_delta v w
    compare_values values others (insert name d diffset)

  unfoldable pub compare : GameObject F → GameObject F → Result (DiffSet F)
  compare self other = compare_values self.values other.values []

  -- The bytes that `checksum` processes: the four bytes of each value's checksum.
  unfoldable pub checksum_bytes : Map Bytes (GameValue F) → Bytes
  checksum_bytes [] = []
  checksum_bytes ((name, v) ∷ values) = word_bytes (Types.checksum v) ++ checksum_bytes values

  unfoldable pub checksum : GameObject F → ℕ
  checksum o = p.crc32 (checksum_bytes o.values)

  -- The loop of `serialize`.
  unfoldable pub serialize_values : Map Bytes (GameValue F) → Map Bytes Bytes → Map Bytes Bytes
  serialize_values [] serialized = serialized
  serialize_values ((name, v) ∷ values) serialized =
      serialize_values values (assign name (Types.serialize v) serialized)

  unfoldable pub serialize : GameObject F → ObjectBuffer
  serialize o = record { id = o.id; type_name = o.type_name; values = serialize_values o.values [] }

  -- The body of the loop of `deserialize`: the value takes what its bytes hold.
  unfoldable pub restore : GameValue F → Bytes → Result (GameValue F)
  restore old bytes = Types.change old (Types.deserialize old bytes)

  unfoldable pub deserialize : Game F → ObjectBuffer → Result (GameObject F)
  deserialize g buffer = do
    created ← instantiate g buffer.type_name
    let new_object = g.add_values (record created { id = buffer.id })
    values ← for_values restore buffer.values new_object.values
    ok (record new_object { values = values })
