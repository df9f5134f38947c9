-- ===== src/Core/Delta/Serial.antt =====
-- `serialize` and `deserialize` of differences, with the reference snapshot that gives the values
-- their classes.
use haraka_engine.Base.{ℕ, ◌≡◌, sym, ap, ◌∙◌, some, [], ◌∷◌, ◌++◌, append-nil, ok}
use haraka_engine.Base.Order.{Bytes, nat_ord, bytes_ord}
use haraka_engine.Base.Map.{Entries, Map, find, insert, Before, IsSorted}
use haraka_engine.Base.Map.Prefix.{assign-end, insert-end, Before-nil, Before-snoc, snoc-append}
use haraka_engine.Core.Platform.{Platform, IsIeee}
use haraka_engine.Core.Types
use haraka_engine.Core.Types.{GameValue}
use haraka_engine.Core.Types.Wire.{Reads, read_back}
use haraka_engine.Core.Object
use haraka_engine.Core.Object.{GameObject, ObjectBuffer, DiffSet, Game}
use haraka_engine.Core.Object.Serial.{written, deserialize-serialize_object as object_back}
use haraka_engine.Core.Snapshot.{Snapshot, get_object}
use haraka_engine.Core.Snapshot.WellFormed.{Keyed}
use haraka_engine.Core.Snapshot.Serial.{buffers, serialize_objects-buffers, AllRegistered}
use haraka_engine.Core.Delta.{
  DeltaSnapshot, empty, read_values, read_deltas, read_added, deserialize, write_values,
  write_deltas, serialize,
}

module _ {F : Type 0} ⦃p : Platform F⦄ where
  write_values-written :
      (ds : DiffSet F) (acc : Map Bytes Bytes)
      → IsSorted ds
      → Before acc ds
      → write_values ds acc ≡ acc ++ written ds
  unfolding write_values
  write_values-written [] acc s b = sym (append-nil acc)
  write_values-written ((k, v) ∷ ds) acc s b = rw (insert-end k (Types.serialize v) acc b) (
      write_values-written ds (acc ++ (k, Types.serialize v) ∷ []) s.1
        (Before-snoc k (Types.serialize v) acc ds s.0 b)
      ∙ sym (snoc-append acc (k, Types.serialize v) (written ds)))

  -- The buffers of the differences, in order.
  abbrev written_deltas : Map ℕ (DiffSet F) → Map ℕ (Map Bytes Bytes)
  written_deltas [] = []
  written_deltas ((id, ds) ∷ m) = (id, written ds) ∷ written_deltas m

  -- The reference object has a value of each name, whose class reads the difference's value.
  abbrev pub ReadableValues : GameObject F → DiffSet F → Type 0
  ReadableValues o [] = Unit
  ReadableValues o ((name, v) ∷ ds) =
      ((r : GameValue F) × (find name o.values ≡ some r) × Reads r v) × ReadableValues o ds

  -- The reference snapshot has each object that changed, with readable values.
  abbrev pub IsReadable : Snapshot F → ℕ → DiffSet F → Type 0
  IsReadable reference id ds =
      (o : GameObject F) × (find id reference.objects ≡ some o) × IsSorted ds × ReadableValues o ds

  abbrev pub Readable : Snapshot F → Map ℕ (DiffSet F) → Type 0
  Readable reference = Entries (IsReadable reference)

  write_deltas-written :
      (reference : Snapshot F) (m : Map ℕ (DiffSet F)) (acc : Map ℕ (Map Bytes Bytes))
      → IsSorted m
      → Before acc m
      → Readable reference m
      → write_deltas m acc ≡ acc ++ written_deltas m
  unfolding write_deltas
  write_deltas-written reference [] acc s b r = sym (append-nil acc)
  write_deltas-written reference ((id, ds) ∷ m) acc s b r =
      rw (write_values-written ds [] r.0.2 (Before-nil Bytes ds), assign-end id (written ds) acc b)
        (write_deltas-written reference m (acc ++ (id, written ds) ∷ []) s.1
            (Before-snoc id (written ds) acc m s.0 b) r.1
          ∙ sym (snoc-append acc (id, written ds) (written_deltas m)))

  -- What a difference has to be to survive the exchange.
  pub record IsSendable (g : Game F) (reference : Snapshot F) (d : DeltaSnapshot F) : Type 0 where
    pub sorted : IsSorted d.delta_values
    pub readable : Readable reference d.delta_values
    pub added_sorted : IsSorted d.added_objects
    pub added_keyed : Keyed d.added_objects
    pub registered : AllRegistered g d.added_objects

  module _ (ieee : IsIeee p) (g : Game F) where
    read_values-written :
        (o : GameObject F) (ds acc : DiffSet F)
        → IsSorted ds
        → Before acc ds
        → ReadableValues o ds
        → read_values (some o) (written ds) acc ≡ ok (acc ++ ds)
    unfolding read_values Object.get_value
    read_values-written o [] acc s b r = ap ok (sym (append-nil acc))
    read_values-written o ((k, v) ∷ ds) acc s b ((old, found, reads), r) =
        rw (found, read_back ieee old v reads, insert-end k v acc b)
          (read_values-written o ds (acc ++ (k, v) ∷ []) s.1 (Before-snoc k v acc ds s.0 b) r
            ∙ ap ok (sym (snoc-append acc (k, v) ds)))

    read_deltas-written :
        (reference : Snapshot F) (m acc : Map ℕ (DiffSet F))
        → IsSorted m
        → Before acc m
        → Readable reference m
        → read_deltas reference (written_deltas m) acc ≡ ok (acc ++ m)
    unfolding read_deltas get_object
    read_deltas-written reference [] acc s b r = ap ok (sym (append-nil acc))
    read_deltas-written reference ((id, ds) ∷ m) acc s b ((o, found, h, values), r) =
        rw
          (
            found,
            read_values-written o ds [] h (Before-nil (GameValue F) ds) values,
            insert-end id ds acc b,
          )
          (read_deltas-written reference m (acc ++ (id, ds) ∷ []) s.1
              (Before-snoc id ds acc m s.0 b) r
            ∙ ap ok (sym (snoc-append acc (id, ds) m)))

    read_added-buffers :
        (m acc : Map ℕ (GameObject F))
        → IsSorted m
        → Keyed m
        → AllRegistered g m
        → Before acc m
        → read_added g (buffers m) acc ≡ ok (acc ++ m)
    unfolding read_added
    read_added-buffers [] acc h k r b = ap ok (sym (append-nil acc))
    read_added-buffers ((id, o) ∷ m) acc h k r b =
        let entered = ap (λ i. insert i o acc) k.0 ∙ insert-end id o acc b in
        rw (object_back ieee g o r.0, entered)
          (read_added-buffers m (acc ++ (id, o) ∷ []) h.1 k.1 r.1 (Before-snoc id o acc m h.0 b)
            ∙ ap ok (sym (snoc-append acc (id, o) m)))

    -- With IEEE floats: a difference with sorted entries, whose changed values are readable through
    -- the reference snapshot and whose added objects have registered classes, is read back from its
    -- buffer as it was.
    pub deserialize-serialize_delta :
        (reference : Snapshot F) (d : DeltaSnapshot F)
        → IsSendable g reference d
        → deserialize g (serialize d) reference ≡ ok d
    unfolding deserialize serialize empty
    deserialize-serialize_delta reference d h = rw (
      write_deltas-written reference d.delta_values [] h.sorted
          (Before-nil (Map Bytes Bytes) d.delta_values) h.readable,
      read_deltas-written reference d.delta_values [] h.sorted
          (Before-nil (DiffSet F) d.delta_values) h.readable,
      serialize_objects-buffers d.added_objects [],
      read_added-buffers d.added_objects [] h.added_sorted h.added_keyed h.registered
          (Before-nil (GameObject F) d.added_objects),
    )
