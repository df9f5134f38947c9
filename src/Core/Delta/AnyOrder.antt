-- ===== src/Core/Delta/AnyOrder.antt =====
-- `deserialize` of a difference reads unordered maps of protocol buffers.
use haraka_engine.Base.{
  ℕ, ◌≡◌, refl, sym, ◌∙◌, subst, Option, Result-cases, none, some, [], ◌∷◌, Result, ok, or_fail,
  null_pointer, ◌>>=◌, >>=-eq-ok, inl, inr,
}
use haraka_engine.Base.Order.{Bytes, nat_ord, bytes_ord}
use haraka_engine.Base.Map.{Map, find}
use haraka_engine.Base.Map.Collect.{DistinctKeys, collect, Agrees, collect_order}
use haraka_engine.Core.Platform.{Platform}
use haraka_engine.Core.Types
use haraka_engine.Core.Types.{GameValue}
use haraka_engine.Core.Object
use haraka_engine.Core.Object.{GameObject, DiffSet, Game}
use haraka_engine.Core.Snapshot.{Snapshot, get_object}
use haraka_engine.Core.Delta.{
  DeltaSnapshot, DeltaBuffer, empty, read_values, read_deltas, deserialize,
}

-- The values of an object, in two orders.
abbrev pub Alike : Option (Map Bytes Bytes) → Option (Map Bytes Bytes) → Type 0
Alike none none = Unit
Alike (some m) (some n) =
    DistinctKeys m × DistinctKeys n × ((name : Bytes) → find name m ≡ find name n)
Alike _ _ = ⊥

-- One map of maps, in two orders, with no key twice.
pub record IsReordered (m n : Map ℕ (Map Bytes Bytes)) : Type 0 where
  pub distinct : DistinctKeys m
  pub distinct' : DistinctKeys n
  pub alike : (id : ℕ) → Alike (find id m) (find id n)

module _ {F : Type 0} ⦃p : Platform F⦄ where
  abbrev value_of : Option (GameObject F) → Bytes → Bytes → Result (GameValue F)
  value_of reference name bytes = or_fail reference null_pointer >>= λ o.
      Object.get_value o name >>= λ v. ok (Types.deserialize v bytes)

  read_values-collect :
      (reference : Option (GameObject F)) (entries : Map Bytes Bytes) (acc : DiffSet F)
      → read_values reference entries acc ≡ collect (value_of reference) entries acc
  unfolding read_values collect
  read_values-collect reference [] acc = refl
  read_values-collect none ((name, bytes) ∷ entries) acc = refl
  read_values-collect (some o) ((name, bytes) ∷ entries) acc =
      elim (Result-cases (Object.get_value o name)) [
        | inl (v, e) ↦ rw e (read_values-collect (some o) entries _)
        | inr (x, e) ↦ rw e refl
      ]

  abbrev delta_of : Snapshot F → ℕ → Map Bytes Bytes → Result (DiffSet F)
  delta_of reference id values = read_values (get_object reference id) values []

  read_deltas-collect :
      (reference : Snapshot F) (entries : Map ℕ (Map Bytes Bytes)) (acc : Map ℕ (DiffSet F))
      → read_deltas reference entries acc ≡ collect (delta_of reference) entries acc
  unfolding read_deltas collect
  read_deltas-collect reference [] acc = refl
  read_deltas-collect reference ((id, values) ∷ entries) acc =
      elim (Result-cases (delta_of reference id values)) [
        | inl (ds, e) ↦ rw e (read_deltas-collect reference entries _)
        | inr (x, e) ↦ rw e refl
      ]

  Agrees-refl :
      (reference : Option (GameObject F)) (name : Bytes) (r : Option Bytes)
      → Agrees (value_of reference) name r r
  Agrees-refl reference name none = tt
  Agrees-refl reference name (some b) = λ v made. made

  read_values_order :
      (reference : Option (GameObject F)) (m n : Map Bytes Bytes) (ds : DiffSet F)
      → DistinctKeys m
      → DistinctKeys n
      → ((name : Bytes) → find name m ≡ find name n)
      → read_values reference m [] ≡ ok ds
      → read_values reference n [] ≡ ok ds
  read_values_order reference m n ds u v same e =
      read_values-collect reference n []
      ∙ collect_order (value_of reference) m n [] ds u v
          (λ name.
            subst (Agrees (value_of reference) name (find name m)) (same name)
              (Agrees-refl reference name (find name m)))
          tt (sym (read_values-collect reference m []) ∙ e)

  Alike-Agrees :
      (reference : Snapshot F) (id : ℕ) (r q : Option (Map Bytes Bytes))
      → Alike r q
      → Agrees (delta_of reference) id r q
  Alike-Agrees reference id none none a = tt
  Alike-Agrees reference id (some m) (some n) (u, v, same) =
      λ ds e. read_values_order (get_object reference id) m n ds u v same e
  Alike-Agrees reference id none (some n) a = absurd a
  Alike-Agrees reference id (some m) none a = absurd a

  read_deltas_order :
      (reference : Snapshot F) (m n : Map ℕ (Map Bytes Bytes)) (ds : Map ℕ (DiffSet F))
      → IsReordered m n
      → read_deltas reference m [] ≡ ok ds
      → read_deltas reference n [] ≡ ok ds
  read_deltas_order reference m n ds h e =
      read_deltas-collect reference n []
      ∙ collect_order (delta_of reference) m n [] ds h.distinct h.distinct'
          (λ id. Alike-Agrees reference id (find id m) (find id n) (h.alike id)) tt
          (sym (read_deltas-collect reference m []) ∙ e)

  -- Where a buffer of a difference is read, with a snapshot as its reference, a buffer with the
  -- same changed objects and values in any other order, and no id and no name twice, is read to the
  -- same difference.
  pub deserialize_reordered :
      (g : Game F) (buffer : DeltaBuffer) (delta_objects : Map ℕ (Map Bytes Bytes))
      (reference : Snapshot F) (d : DeltaSnapshot F)
      → IsReordered buffer.delta_objects delta_objects
      → deserialize g buffer reference ≡ ok d
      → deserialize g (record buffer { delta_objects = delta_objects }) reference ≡ ok d
  unfolding deserialize empty
  deserialize_reordered g buffer delta_objects reference d h e =
      let (deltas, read, rest) = >>=-eq-ok (read_deltas reference buffer.delta_objects []) _ e in
      rw (read_deltas_order reference buffer.delta_objects delta_objects deltas h read) rest
