-- ===== src/Core/Snapshot.antt =====
-- core/snapshot.hpp and core/snapshot.cpp: the class `Snapshot`, but for `apply`, which `Delta` has.
-- A snapshot's `shared_ptr`s are the objects that they point to: nothing outside `update` and the
-- actions of the game writes to an object of a snapshot.
pub mod WellFormed
pub mod Serial
use haraka_engine.Base.{
  ℕ, ◌+◌, ◌%◌, ◌^◌, Bool, true, false, Option, none, some, List, [], ◌∷◌, ◌++◌, map, Result, ok,
  ◌>>=◌,
}
use haraka_engine.Base.Order.{nat_ord}
use haraka_engine.Base.Map.{Map, find, assign, erase}
use haraka_engine.Core.Platform.{Platform}
use haraka_engine.Core.Object
use haraka_engine.Core.Object.{GameObject, ObjectBuffer, Game}

pub record Snapshot (F : Type 0) : Type 0 where
  pub objects : Map ℕ (GameObject F)
  pub tick : ℕ

-- `serialization::Snapshot`
pub record SnapshotBuffer : Type 0 where
  pub tick : ℕ
  pub objects : List ObjectBuffer

module _ {F : Type 0} where
  -- `Snapshot(tick)`
  unfoldable pub empty : ℕ → Snapshot F
  empty tick = record { objects = []; tick = tick }

  -- The loop of the copy constructor.
  unfoldable pub copy_objects :
      Game F → Map ℕ (GameObject F) → Map ℕ (GameObject F) → Map ℕ (GameObject F)
  copy_objects g [] objects = objects
  copy_objects g ((id, o) ∷ others) objects = copy_objects g others (assign id (g.clone o) objects)

  -- The copy constructor: the copy is one tick on, in 32 bits.
  unfoldable pub copy : Game F → Snapshot F → Snapshot F
  copy g other = record {
    objects = copy_objects g other.objects [];
    tick = (other.tick + 1) % 2 ^ 32;
  }

  unfoldable pub add_object : Snapshot F → GameObject F → Snapshot F
  add_object s o = record s { objects = assign o.id o s.objects }

  unfoldable pub get_object : Snapshot F → ℕ → Option (GameObject F)
  get_object s id = find id s.objects

  unfoldable pub update : Game F → F → Snapshot F → Snapshot F
  update g delta_time s = record s { objects = map (λ e. (e.0, g.update delta_time e.1)) s.objects }

  unfoldable pub delete_object : Snapshot F → ℕ → Snapshot F × Bool
  delete_object s id = elim (find id s.objects) [
    | none ↦ (s, false)
    | some _ ↦ (record s { objects = erase id s.objects }, true)
  ]

module _ {F : Type 0} ⦃p : Platform F⦄ where
  -- The loops of `deserialize` and `serialize`.
  unfoldable pub add_buffers : Game F → List ObjectBuffer → Snapshot F → Result (Snapshot F)
  add_buffers g [] s = ok s
  add_buffers g (b ∷ bs) s = do o ← Object.deserialize g b; add_buffers g bs (add_object s o)

  unfoldable pub deserialize : Game F → SnapshotBuffer → Result (Snapshot F)
  deserialize g buffer = add_buffers g buffer.objects (empty buffer.tick)

  unfoldable pub serialize_objects : Map ℕ (GameObject F) → List ObjectBuffer → List ObjectBuffer
  serialize_objects [] buffers = buffers
  serialize_objects ((id, o) ∷ objects) buffers =
      serialize_objects objects (buffers ++ Object.serialize o ∷ [])

  unfoldable pub serialize : Snapshot F → SnapshotBuffer
  serialize s = record { tick = s.tick; objects = serialize_objects s.objects [] }
