-- ===== src/Core/Snapshot/Serial.antt =====
-- `serialize` and `deserialize` of snapshots.
use haraka_engine.Base.{ℕ, ◌≡◌, sym, ap, ◌∙◌, List, [], ◌∷◌, ◌++◌, append-nil, ok}
use haraka_engine.Base.Order.{nat_ord}
use haraka_engine.Base.Map.{Entries, Map, assign, Before, IsSorted}
use haraka_engine.Base.Map.Prefix.{assign-end, Before-nil, Before-snoc, snoc-append}
use haraka_engine.Core.Platform.{Platform, IsIeee}
use haraka_engine.Core.Object
use haraka_engine.Core.Object.{GameObject, ObjectBuffer, Game}
use haraka_engine.Core.Object.Serial.{IsRegistered, deserialize-serialize_object as object_back}
use haraka_engine.Core.Snapshot.{
  Snapshot, empty, add_object, add_buffers, deserialize, serialize_objects, serialize,
}
use haraka_engine.Core.Snapshot.WellFormed.{Keyed, IsSnapshot}

module _ {F : Type 0} ⦃p : Platform F⦄ where
  -- The buffers of the objects, in order.
  abbrev pub buffers : Map ℕ (GameObject F) → List ObjectBuffer
  buffers [] = []
  buffers ((id, o) ∷ m) = Object.serialize o ∷ buffers m

  pub serialize_objects-buffers :
      (m : Map ℕ (GameObject F)) (acc : List ObjectBuffer)
      → serialize_objects m acc ≡ acc ++ buffers m
  unfolding serialize_objects
  serialize_objects-buffers [] acc = sym (append-nil acc)
  serialize_objects-buffers ((id, o) ∷ m) acc =
      serialize_objects-buffers m (acc ++ Object.serialize o ∷ [])
      ∙ sym (snoc-append acc (Object.serialize o) (buffers m))

  -- The class of each object is registered.
  abbrev pub AllRegistered : Game F → Map ℕ (GameObject F) → Type 0
  AllRegistered g = Entries (λ id o. IsRegistered g o)

  module _ (ieee : IsIeee p) (g : Game F) where
    add_buffers-buffers :
        (m : Map ℕ (GameObject F)) (s : Snapshot F)
        → IsSorted m
        → Keyed m
        → AllRegistered g m
        → Before s.objects m
        → add_buffers g (buffers m) s ≡ ok (record s { objects = s.objects ++ m })
    unfolding add_buffers add_object
    add_buffers-buffers [] s h k r b =
        ap (λ l. ok (record s { objects = l })) (sym (append-nil s.objects))
    add_buffers-buffers ((id, o) ∷ m) s h k r b =
        let s' : Snapshot F = record s { objects = s.objects ++ (id, o) ∷ [] } in
        let written = ap (λ i. assign i o s.objects) k.0 ∙ assign-end id o s.objects b in
        rw (object_back ieee g o r.0, written)
          (add_buffers-buffers m s' h.1 k.1 r.1 (Before-snoc id o s.objects m h.0 b)
            ∙ ap (λ l. ok (record s { objects = l })) (sym (snoc-append s.objects (id, o) m)))

    -- With IEEE floats: a well-formed snapshot whose objects have registered classes is read back
    -- from its buffer as it was.
    pub deserialize-serialize_snapshot :
        (s : Snapshot F)
        → IsSnapshot s
        → AllRegistered g s.objects
        → deserialize g (serialize s) ≡ ok s
    unfolding deserialize serialize empty
    deserialize-serialize_snapshot s h r = rw (serialize_objects-buffers s.objects []) (
        add_buffers-buffers s.objects (empty s.tick) h.sorted h.keyed r
          (Before-nil (GameObject F) s.objects))
