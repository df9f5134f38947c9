-- ===== src/Core/Delta/Apply.antt =====
-- The loops of `apply`: the objects that the copy holds after each of them.
use haraka_engine.Base.{
  ℕ, ◌+◌, ◌%◌, ◌^◌, ◌≡◌, refl, sym, ◌∙◌, none, some, [], ◌∷◌, ◌++◌, append-nil, ok, arith,
  Option-cases, inl, inr, lt, eq, gt, compare,
}
use haraka_engine.Base.Order.{nat_ord}
use haraka_engine.Base.Map.{Map, find, assign, erase, Above, Before, IsSorted}
use haraka_engine.Base.Map.Prefix.{snoc-append, assign-end, Before-snoc, Before-nil}
use haraka_engine.Base.Map.Laws.{
  find-assign, find-erase, assign-IsSorted, erase-IsSorted, find-Above,
}
use haraka_engine.Core.Platform.{Platform}
use haraka_engine.Core.Object
use haraka_engine.Core.Object.{GameObject, DiffSet, Game, Clones}
use haraka_engine.Core.Snapshot.{
  Snapshot, copy_objects, copy, get_object, add_object, delete_object,
}
use haraka_engine.Core.Delta.{add_objects, delete_objects, apply_values}
use haraka_engine.Core.Snapshot.WellFormed.{Keyed}
use haraka_engine.Core.Delta.Evaluate.{gone}

module _ {F : Type 0} where
  copy_objects-Clones :
      (g : Game F) (es acc : Map ℕ (GameObject F))
      → Clones g
      → IsSorted es
      → Before acc es
      → copy_objects g es acc ≡ acc ++ es
  unfolding copy_objects
  copy_objects-Clones g [] acc c s b = sym (append-nil acc)
  copy_objects-Clones g ((id, o) ∷ es) acc c s b =
      rw (c o, assign-end id o acc b)
        (copy_objects-Clones g es (acc ++ (id, o) ∷ []) c s.1 (Before-snoc id o acc es s.0 b)
          ∙ sym (snoc-append acc (id, o) es))

  -- A copy has the objects of the original, and the next tick.
  pub copy-Clones :
      (g : Game F) (s : Snapshot F)
      → Clones g
      → IsSorted s.objects
      → copy g s ≡ record s { tick = (s.tick + 1) % 2 ^ 32 }
  unfolding copy
  copy-Clones g s c h =
      rw (copy_objects-Clones g s.objects [] c h (Before-nil (GameObject F) s.objects))

  pub find-add_objects :
      (j : ℕ) (added : Map ℕ (GameObject F)) (s : Snapshot F)
      → IsSorted added
      → Keyed added
      → find j (add_objects added s).objects
        ≡ elim (find j added) [ none ↦ find j s.objects | some o ↦ some o ]
  unfolding add_objects add_object find
  find-add_objects j [] s h k = refl
  find-add_objects j ((id, o) ∷ added) s h k = ground (
    arith,
    find-add_objects j added (add_object s o) h.1 k.1,
    find-assign j o.id o s.objects,
    find-Above id added h.0,
    nat_ord.same_of_eq j id,
  )

  pub add_objects-IsSorted :
      (added : Map ℕ (GameObject F)) (s : Snapshot F)
      → IsSorted s.objects
      → IsSorted (add_objects added s).objects
  unfolding add_objects add_object
  add_objects-IsSorted [] s h = h
  add_objects-IsSorted ((id, o) ∷ added) s h =
      add_objects-IsSorted added (add_object s o) (assign-IsSorted o.id o s.objects h)

  pub add_objects-tick :
      (added : Map ℕ (GameObject F)) (s : Snapshot F) → (add_objects added s).tick ≡ s.tick
  unfolding add_objects add_object
  add_objects-tick [] s = refl
  add_objects-tick ((id, o) ∷ added) s = add_objects-tick added (add_object s o)

  -- The ids of the entries are in the map.
  abbrev pub Present : Map ℕ (GameObject F) → Map ℕ (GameObject F) → Type 0
  Present [] m = Unit
  Present ((id, o) ∷ es) m = ((w : GameObject F) × (find id m ≡ some w)) × Present es m

  Present-erase :
      (k : ℕ) (es m : Map ℕ (GameObject F))
      → Above k es
      → IsSorted m
      → Present es m
      → Present es (erase k m)
  Present-erase k [] m a s h = tt
  Present-erase k ((id, o) ∷ es) m a s h = (
    (h.0.0, rw (find-erase id k m s) (ground (arith, nat_ord.flip_lt k id a.0, h.0.1))),
    Present-erase k es m a.1 s h.1,
  )

  module _ (other : Map ℕ (GameObject F)) where
    -- The map without the entries that are not in the other map.
    unfoldable pub erased : Map ℕ (GameObject F) → Map ℕ (GameObject F) → Map ℕ (GameObject F)
    erased [] m = m
    erased ((id, o) ∷ es) m = elim (find id other) [
      | none ↦ erased es (erase id m)
      | some _ ↦ erased es m
    ]

    pub find-erased :
        (j : ℕ) (es m : Map ℕ (GameObject F))
        → IsSorted m
        → find j (erased es m) ≡ elim (find j es) [
          | none ↦ find j m
          | some _ ↦ elim (find j other) [ none ↦ none | some _ ↦ find j m ]
        ]
    unfolding erased find
    find-erased j [] m s = refl
    find-erased j ((id, o) ∷ es) m s = elim (Option-cases (find id other)) [
      | inl e ↦ ground (
        arith,
        e,
        find-erased j es (erase id m) (erase-IsSorted id m s),
        find-erase j id m s,
        nat_ord.same_of_eq j id,
      )
      | inr (n, e) ↦ ground (arith, e, find-erased j es m s, nat_ord.same_of_eq j id)
    ]

    pub erased-IsSorted : (es m : Map ℕ (GameObject F)) → IsSorted m → IsSorted (erased es m)
    unfolding erased
    erased-IsSorted [] m s = s
    erased-IsSorted ((id, o) ∷ es) m s =
        ground
          (arith, erased-IsSorted es m s, erased-IsSorted es (erase id m), erase-IsSorted id m s)

    -- The deletion loop finds each object that it deletes.
    pub delete_objects-gone :
        (es : Map ℕ (GameObject F)) (s : Snapshot F)
        → IsSorted es
        → IsSorted s.objects
        → Present es s.objects
        → delete_objects (gone other es) s ≡ ok (record s { objects = erased es s.objects })
    unfolding delete_objects delete_object gone erased
    delete_objects-gone [] s h k q = refl
    delete_objects-gone ((id, o) ∷ es) s h k q = elim (Option-cases (find id other)) [
      | inl e ↦
          rw (e, q.0.1, gone, delete_objects, delete_object, erased)
            (delete_objects-gone es (record s { objects = erase id s.objects }) h.1
              (erase-IsSorted id s.objects k) (Present-erase id es s.objects h.0 k q.1))
      | inr (n, e) ↦ rw (e, gone, erased) (delete_objects-gone es s h.1 k q.1)
    ]

module _ {F : Type 0} ⦃p : Platform F⦄ (g : Game F) (prev next : Snapshot F) where
  -- Each entry takes the object from its state in the older snapshot to that in the newer one.
  abbrev pub Leads : Map ℕ (DiffSet F) → Type 0
  Leads [] = Unit
  Leads ((id, ds) ∷ m) =
      ((o : GameObject F) × (n : GameObject F) × (find id prev.objects ≡ some o)
        × (find id next.objects ≡ some n)
        × (Object.interpolate g o ds p.one ≡ ok n))
      × Leads m

  -- The map with the objects that the entries lead to.
  unfoldable pub led : Map ℕ (DiffSet F) → Map ℕ (GameObject F) → Map ℕ (GameObject F)
  led [] m = m
  led ((id, ds) ∷ es) m = elim (find id next.objects) [ none ↦ m | some n ↦ led es (assign id n m) ]

  pub apply_values-Leads :
      (es : Map ℕ (DiffSet F)) (s : Snapshot F)
      → Leads es
      → apply_values g prev p.one es s ≡ ok (record s { objects = led es s.objects })
  unfolding apply_values get_object led
  apply_values-Leads [] s h = refl
  apply_values-Leads ((id, ds) ∷ es) s ((o, n, e, f, h), r) =
      rw (e, f, h, apply_values, get_object, led)
        (apply_values-Leads es (record s { objects = assign id n s.objects }) r)

  pub find-led :
      (j : ℕ) (es : Map ℕ (DiffSet F)) (m : Map ℕ (GameObject F))
      → Leads es
      → find j (led es m) ≡ elim (find j es) [ none ↦ find j m | some _ ↦ find j next.objects ]
  unfolding led find
  find-led j [] m h = refl
  find-led j ((id, ds) ∷ es) m ((o, n, e, f, h), r) =
      ground
        (arith, f, find-led j es (assign id n m) r, find-assign j id n m, nat_ord.same_of_eq j id)

  pub led-IsSorted :
      (es : Map ℕ (DiffSet F)) (m : Map ℕ (GameObject F)) → IsSorted m → IsSorted (led es m)
  unfolding led
  led-IsSorted [] m s = s
  led-IsSorted ((id, ds) ∷ es) m s = elim (Option-cases (find id next.objects)) [
    | inl e ↦ rw (e, led) s
    | inr (n, e) ↦ rw (e, led) (led-IsSorted es (assign id n m) (assign-IsSorted id n m s))
  ]

  pub Leads-assign :
      (id : ℕ) (ds : DiffSet F) (m : Map ℕ (DiffSet F))
      → Leads ((id, ds) ∷ [])
      → Leads m
      → Leads (assign id ds m)
  unfolding assign
  Leads-assign id ds [] h r = h
  Leads-assign id ds ((k, es) ∷ m) h r =
      elim (compare id k)
        as (λ c. Leads (elim c [
          | lt ↦ (id, ds) ∷ (k, es) ∷ m
          | eq ↦ (id, ds) ∷ m
          | gt ↦ (k, es) ∷ assign id ds m
        ])) [ lt ↦ (h.0, r) | eq ↦ (h.0, r.1) | gt ↦ (r.0, Leads-assign id ds m h r.1) ]
