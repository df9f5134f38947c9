-- ===== src/Core/Snapshot/WellFormed.antt =====
-- Well-formed snapshots: the objects in the order of their ids, each under its own id; and the
-- operations of `Snapshot` on them.
use haraka_engine.Base.{
  ℕ, ◌≡◌, refl, ◌∙◌, subst, Bool, true, false, List, none, some, [], ◌∷◌, map, ok, arith, >>=-eq-ok,
}
use haraka_engine.Base.Order.{nat_ord}
use haraka_engine.Base.Map.{Map, find, assign, erase, Above, IsSorted}
use haraka_engine.Base.Map.Laws.{assign-IsSorted, erase-IsSorted}
use haraka_engine.Core.Platform.{Platform}
use haraka_engine.Core.Object
use haraka_engine.Core.Object.{GameObject, ObjectBuffer, Game}
use haraka_engine.Core.Snapshot.{
  Snapshot, SnapshotBuffer, empty, copy_objects, copy, add_object, update, delete_object,
  add_buffers, deserialize,
}

module _ {F : Type 0} where
  -- Each object stands under its own id.
  abbrev pub Keyed : Map ℕ (GameObject F) → Type 0
  Keyed [] = Unit
  Keyed ((id, o) ∷ m) = (o.id ≡ id) × Keyed m

  pub record IsSnapshot (s : Snapshot F) : Type 0 where
    pub sorted : IsSorted s.objects
    pub keyed : Keyed s.objects

  pub Keyed-assign :
      (o : GameObject F) (m : Map ℕ (GameObject F)) → Keyed m → Keyed (assign o.id o m)
  unfolding assign
  Keyed-assign o [] h = (refl, tt)
  Keyed-assign o ((k, w) ∷ m) h = ground (arith, Keyed-assign o m h.1)

  pub find-Keyed :
      (k : ℕ) (o : GameObject F) (m : Map ℕ (GameObject F)) → Keyed m → find k m ≡ some o → o.id ≡ k
  unfolding find
  find-Keyed k o [] h e = cc
  find-Keyed k o ((j, w) ∷ m) h e = ground (arith, find-Keyed k o m h.1)

  Keyed-erase : (k : ℕ) (m : Map ℕ (GameObject F)) → Keyed m → Keyed (erase k m)
  unfolding erase
  Keyed-erase k [] h = tt
  Keyed-erase k ((j, w) ∷ m) h = ground (arith, Keyed-erase k m h.1)

  pub empty-IsSnapshot : (tick : ℕ) → IsSnapshot (empty tick)
  unfolding empty
  empty-IsSnapshot tick = record { sorted = tt; keyed = tt }

  -- `add_object` keeps a snapshot well formed, also where the object's id is taken.
  pub add_object-IsSnapshot :
      (s : Snapshot F) (o : GameObject F) → IsSnapshot s → IsSnapshot (add_object s o)
  unfolding add_object
  add_object-IsSnapshot s o h = record {
    sorted = assign-IsSorted o.id o s.objects h.sorted;
    keyed = Keyed-assign o s.objects h.keyed;
  }

  -- `delete_object` keeps a snapshot well formed, whether or not it finds the id.
  pub delete_object-IsSnapshot :
      (s : Snapshot F) (id : ℕ) → IsSnapshot s → IsSnapshot (delete_object s id).0
  unfolding delete_object
  delete_object-IsSnapshot s id h =
      let gone : IsSnapshot (record s { objects = erase id s.objects }) = record {
        sorted = erase-IsSorted id s.objects h.sorted;
        keyed = Keyed-erase id s.objects h.keyed;
      } in
      elim (find id s.objects)
        as (λ r.
          IsSnapshot
            (elim r as (λ _. Snapshot F × Bool) [
              | none ↦ (s, false)
              | some _ ↦ (record s { objects = erase id s.objects }, true)
            ]).0) [ none ↦ h | some _ ↦ gone ]

  -- The virtual functions of the game leave an object's id alone.
  pub record KeepsIds (g : Game F) : Type 0 where
    pub clone_id : (o : GameObject F) → (g.clone o).id ≡ o.id
    pub update_id : (t : F) (o : GameObject F) → (g.update t o).id ≡ o.id

  copy_objects-Keyed :
      (g : Game F) (es acc : Map ℕ (GameObject F))
      → KeepsIds g
      → Keyed es
      → IsSnapshot (record { objects = acc; tick = 0 })
      → IsSnapshot (record { objects = copy_objects g es acc; tick = 0 })
  unfolding copy_objects
  copy_objects-Keyed g [] acc keeps k h = h
  copy_objects-Keyed g ((id, o) ∷ es) acc keeps k h =
      copy_objects-Keyed g es (assign id (g.clone o) acc) keeps k.1 (record {
        sorted = assign-IsSorted id (g.clone o) acc h.sorted;
        keyed =
            subst (λ i. Keyed (assign i (g.clone o) acc)) (keeps.clone_id o ∙ k.0)
              (Keyed-assign (g.clone o) acc h.keyed);
      })

  -- With a game that keeps ids: the copy of a well-formed snapshot is well formed.
  pub copy-IsSnapshot :
      (g : Game F) (s : Snapshot F) → KeepsIds g → IsSnapshot s → IsSnapshot (copy g s)
  unfolding copy
  copy-IsSnapshot g s keeps h =
      let c =
        copy_objects-Keyed g s.objects [] keeps h.keyed (record { sorted = tt; keyed = tt }) in
      record { sorted = c.sorted; keyed = c.keyed }

  abbrev updated : Game F → F → ℕ × GameObject F → ℕ × GameObject F
  updated g t e = (e.0, g.update t e.1)

  updated-Above :
      (g : Game F) (t : F) (k : ℕ) (m : Map ℕ (GameObject F))
      → Above k m
      → Above k (map (updated g t) m)
  updated-Above g t k [] a = tt
  updated-Above g t k (e ∷ m) a = (a.0, updated-Above g t k m a.1)

  updated-IsSorted :
      (g : Game F) (t : F) (m : Map ℕ (GameObject F)) → IsSorted m → IsSorted (map (updated g t) m)
  updated-IsSorted g t [] s = tt
  updated-IsSorted g t (e ∷ m) s = (updated-Above g t e.0 m s.0, updated-IsSorted g t m s.1)

  updated-Keyed :
      (g : Game F) (t : F) (m : Map ℕ (GameObject F))
      → KeepsIds g
      → Keyed m
      → Keyed (map (updated g t) m)
  updated-Keyed g t [] keeps k = tt
  updated-Keyed g t (e ∷ m) keeps k = (keeps.update_id t e.1 ∙ k.0, updated-Keyed g t m keeps k.1)

  -- With a game that keeps ids: `update` keeps a snapshot well formed.
  pub update-IsSnapshot :
      (g : Game F) (t : F) (s : Snapshot F) → KeepsIds g → IsSnapshot s → IsSnapshot (update g t s)
  unfolding update
  update-IsSnapshot g t s keeps h = record {
    sorted = updated-IsSorted g t s.objects h.sorted;
    keyed = updated-Keyed g t s.objects keeps h.keyed;
  }

module _ {F : Type 0} ⦃p : Platform F⦄ where
  add_buffers-IsSnapshot :
      (g : Game F) (bs : List ObjectBuffer) (s t : Snapshot F)
      → IsSnapshot s
      → add_buffers g bs s ≡ ok t
      → IsSnapshot t
  unfolding add_buffers
  add_buffers-IsSnapshot g [] s t h e = subst IsSnapshot (cc) h
  add_buffers-IsSnapshot g (b ∷ bs) s t h e =
      let (o, _, rest) = >>=-eq-ok (Object.deserialize g b) _ e in
      add_buffers-IsSnapshot g bs (add_object s o) t (add_object-IsSnapshot s o h) rest

  -- Whatever the buffer holds, a snapshot that `deserialize` gives is well formed.
  pub deserialize-IsSnapshot :
      (g : Game F) (buffer : SnapshotBuffer) (t : Snapshot F)
      → deserialize g buffer ≡ ok t
      → IsSnapshot t
  unfolding deserialize
  deserialize-IsSnapshot g buffer t e =
      add_buffers-IsSnapshot g buffer.objects (empty buffer.tick) t (empty-IsSnapshot buffer.tick) e
