-- ===== src/Core/Delta.antt =====
-- core/snapshot.hpp and core/snapshot.cpp: the class `DeltaSnapshot`, and `Snapshot::apply`. An
-- assertion that fails ends the run, as in a build without NDEBUG.
pub mod Pairs
pub mod Evaluate
pub mod Apply
pub mod Sync
pub mod Keeps
pub mod Reachable
pub mod AnyOrder
pub mod Unordered
pub mod Serial
pub mod Pipeline
use haraka_engine.Base.{
  ℕ, ◌≡◌, Bool, true, false, ◌||◌, Option, none, some, List, [], ◌∷◌, ◌++◌, Result, ok, err, haraka,
  assertion, null_pointer, or_fail, guard, ◌>>=◌, ◌>>◌, ◌==◌, if◌then◌else◌,
}
use haraka_engine.Base.Order.{Bytes, nat_ord, bytes_ord}
use haraka_engine.Base.Map.{Map, find, assign, insert}
use haraka_engine.Core.Platform.{Platform}
use haraka_engine.Core.Types
use haraka_engine.Core.Object
use haraka_engine.Core.Object.{GameObject, ObjectBuffer, DiffSet, Game}
use haraka_engine.Core.Snapshot
use haraka_engine.Core.Snapshot.{Snapshot, get_object, add_object, delete_object}

pub record DeltaSnapshot (F : Type 0) : Type 0 where
  pub prev_tick : ℕ
  pub next_tick : ℕ
  pub delta_values : Map ℕ (DiffSet F)
  pub deleted_objects : List ℕ
  pub added_objects : Map ℕ (GameObject F)

-- `serialization::DeltaSnapshot`; a `ValueMap` is its one field.
pub record DeltaBuffer : Type 0 where
  pub prev_tick : ℕ
  pub next_tick : ℕ
  pub delta_objects : Map ℕ (Map Bytes Bytes)
  pub added_objects : List ObjectBuffer
  pub deleted_objects : List ℕ

module _ {F : Type 0} where
  -- `DeltaSnapshot(prev_tick, next_tick)`
  unfoldable pub empty : ℕ → ℕ → DeltaSnapshot F
  empty prev_tick next_tick = record {
    prev_tick = prev_tick;
    next_tick = next_tick;
    delta_values = [];
    deleted_objects = [];
    added_objects = [];
  }

  -- The move constructor: the new object, and what is left of the old one.
  unfoldable pub move : DeltaSnapshot F → DeltaSnapshot F × DeltaSnapshot F
  unfolding empty
  move d = (d, empty 0 0)

  -- One round of the loop of `evaluate` over the objects of the newer snapshot.
  unfoldable pub visit_next :
      Snapshot F → Snapshot F → ℕ → DeltaSnapshot F → Result (DeltaSnapshot F)
  visit_next prev next id d = do
    n ← or_fail (get_object next id) assertion
    ok (elim (get_object prev id) [
      | none ↦ record d { added_objects = assign id n d.added_objects }
      | some _ ↦ d
    ])

  unfoldable pub scan_next :
      Snapshot F → Snapshot F → Map ℕ (GameObject F) → DeltaSnapshot F → Result (DeltaSnapshot F)
  scan_next prev next [] d = ok d
  scan_next prev next ((id, _) ∷ entries) d = do
    d' ← visit_next prev next id d
    scan_next prev next entries d'

  -- The loops of `apply` over the added and the deleted objects.
  unfoldable pub add_objects : Map ℕ (GameObject F) → Snapshot F → Snapshot F
  add_objects [] s = s
  add_objects ((id, o) ∷ added) s = add_objects added (add_object s o)

  unfoldable pub delete_objects : List ℕ → Snapshot F → Result (Snapshot F)
  delete_objects [] s = ok s
  delete_objects (id ∷ ids) s = do
    guard (delete_object s id).1 assertion
    delete_objects ids (delete_object s id).0

module _ {F : Type 0} ⦃p : Platform F⦄ where
  -- One round of the loop of `evaluate` over the objects of the older snapshot.
  unfoldable pub visit_prev :
      Snapshot F → Snapshot F → ℕ → DeltaSnapshot F → Result (DeltaSnapshot F)
  visit_prev prev next id d = do
    o ← or_fail (get_object prev id) assertion
    elim (get_object next id) [
      | none ↦ ok (record d { deleted_objects = d.deleted_objects ++ id ∷ [] })
      | some n ↦ if Object.checksum o == Object.checksum n then ok d else do
        differences ← Object.compare o n
        ok (record d { delta_values = assign o.id differences d.delta_values })
    ]

  unfoldable pub scan_prev :
      Snapshot F → Snapshot F → Map ℕ (GameObject F) → DeltaSnapshot F → Result (DeltaSnapshot F)
  scan_prev prev next [] d = ok d
  scan_prev prev next ((id, _) ∷ entries) d = do
    d' ← visit_prev prev next id d
    scan_prev prev next entries d'

  unfoldable pub evaluate : DeltaSnapshot F → Snapshot F → Snapshot F → Result (DeltaSnapshot F)
  evaluate d prev next = do
    d' ← scan_prev prev next prev.objects d
    scan_next prev next next.objects d'

  -- The loop of `apply` over the changed objects: each is interpolated from its state in `self`.
  unfoldable pub apply_values :
      Game F → Snapshot F → F → Map ℕ (DiffSet F) → Snapshot F → Result (Snapshot F)
  apply_values g self t [] next = ok next
  apply_values g self t ((id, differences) ∷ entries) next = do
    o ← or_fail (get_object self id) assertion
    new_object ← Object.interpolate g o differences t
    apply_values g self t entries (record next { objects = assign id new_object next.objects })

  -- Added and deleted objects count at the interpolation time 1.0 only.
  unfoldable pub apply_objects : DeltaSnapshot F → F → Snapshot F → Result (Snapshot F)
  apply_objects d t next =
      if p.equal t p.one
      then delete_objects d.deleted_objects (add_objects d.added_objects next)
      else ok next

  unfoldable pub apply : Game F → Snapshot F → DeltaSnapshot F → F → Result (Snapshot F)
  apply g self d t = if p.less p.one t || p.less t p.zero_f then err haraka else do
    next ← apply_objects d t (Snapshot.copy g self)
    apply_values g self t d.delta_values next

  -- The loops of `deserialize`: the reference object gives each value its class.
  unfoldable pub read_values :
      Option (GameObject F) → Map Bytes Bytes → DiffSet F → Result (DiffSet F)
  read_values reference [] differences = ok differences
  read_values reference ((name, bytes) ∷ entries) differences = do
    o ← or_fail reference null_pointer
    v ← Object.get_value o name
    read_values reference entries (insert name (Types.deserialize v bytes) differences)

  unfoldable pub read_deltas :
      Snapshot F → Map ℕ (Map Bytes Bytes) → Map ℕ (DiffSet F) → Result (Map ℕ (DiffSet F))
  read_deltas reference [] deltas = ok deltas
  read_deltas reference ((id, values) ∷ entries) deltas = do
    differences ← read_values (get_object reference id) values []
    read_deltas reference entries (insert id differences deltas)

  unfoldable pub read_added :
      Game F → List ObjectBuffer → Map ℕ (GameObject F) → Result (Map ℕ (GameObject F))
  read_added g [] added = ok added
  read_added g (b ∷ bs) added = do o ← Object.deserialize g b; read_added g bs (insert o.id o added)

  unfoldable pub deserialize : Game F → DeltaBuffer → Snapshot F → Result (DeltaSnapshot F)
  unfolding empty
  deserialize g buffer reference = do
    let d = empty buffer.prev_tick buffer.next_tick
    deltas ← read_deltas reference buffer.delta_objects d.delta_values
    added ← read_added g buffer.added_objects d.added_objects
    ok (record d {
      delta_values = deltas;
      deleted_objects = d.deleted_objects ++ buffer.deleted_objects;
      added_objects = added;
    })

  -- The loops of `serialize`.
  unfoldable pub write_values : DiffSet F → Map Bytes Bytes → Map Bytes Bytes
  write_values [] serialized = serialized
  write_values ((name, v) ∷ differences) serialized =
      write_values differences (insert name (Types.serialize v) serialized)

  unfoldable pub write_deltas :
      Map ℕ (DiffSet F) → Map ℕ (Map Bytes Bytes) → Map ℕ (Map Bytes Bytes)
  write_deltas [] buffers = buffers
  write_deltas ((id, differences) ∷ deltas) buffers =
      write_deltas deltas (assign id (write_values differences []) buffers)

  unfoldable pub serialize : DeltaSnapshot F → DeltaBuffer
  serialize d = record {
    prev_tick = d.prev_tick;
    next_tick = d.next_tick;
    delta_objects = write_deltas d.delta_values [];
    added_objects = Snapshot.serialize_objects d.added_objects [];
    deleted_objects = d.deleted_objects;
  }
