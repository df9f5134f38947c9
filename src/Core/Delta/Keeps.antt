-- ===== src/Core/Delta/Keeps.antt =====
-- What `apply` keeps of the snapshot it starts from, whatever the difference holds.
use haraka_engine.Base.{
  ℕ, ◌+◌, ◌%◌, ◌^◌, ◌≡◌, refl, sym, ap, ◌∙◌, subst, Bool, true, false, ◌||◌, Option, none, some,
  List, [], ◌∷◌, Result, ok, err, haraka, guard, or_fail, if◌then◌else◌, arith, Bool-cases, inl,
  inr, >>=-eq-ok, assertion,
}
use haraka_engine.Base.Order.{nat_ord}
use haraka_engine.Base.Map.{Map, find, assign}
use haraka_engine.Base.Map.Laws.{find-assign, assign-IsSorted, eq_of_same, find_nil}
use haraka_engine.Core.Platform.{Platform}
use haraka_engine.Core.Object
use haraka_engine.Core.Object.{GameObject, DiffSet, Game}
use haraka_engine.Core.Snapshot.{
  Snapshot, copy_objects, copy, get_object, add_object, delete_object,
}
use haraka_engine.Core.Snapshot.WellFormed.{
  IsSnapshot, Keyed, KeepsIds, Keyed-assign, find-Keyed, add_object-IsSnapshot,
  delete_object-IsSnapshot, copy-IsSnapshot,
}
use haraka_engine.Core.Delta.{
  DeltaSnapshot, add_objects, delete_objects, apply_values, apply_objects, apply,
}

or_fail-eq-ok {ℓ} : {A : Type ℓ} (o : Option A) {a : A} → or_fail o assertion ≡ ok a → o ≡ some a
or_fail-eq-ok none h = cc
or_fail-eq-ok (some a) h = cc

if_err-eq-ok :
    {A : Type 0} (b : Bool) (m : Result A) {a : A} → (if b then err haraka else m) ≡ ok a → m ≡ ok a
if_err-eq-ok true m e = cc
if_err-eq-ok false m e = e

module _ {F : Type 0} where
  abbrev pub has : ℕ → Snapshot F → Bool
  has id s = elim (find id s.objects) [ none ↦ false | some _ ↦ true ]

  add_objects-IsSnapshot :
      (added : Map ℕ (GameObject F)) (s : Snapshot F)
      → IsSnapshot s
      → IsSnapshot (add_objects added s)
  unfolding add_objects
  add_objects-IsSnapshot [] s h = h
  add_objects-IsSnapshot ((id, o) ∷ added) s h =
      add_objects-IsSnapshot added (add_object s o) (add_object-IsSnapshot s o h)

  delete_objects-IsSnapshot :
      (ids : List ℕ) (s t : Snapshot F) → IsSnapshot s → delete_objects ids s ≡ ok t → IsSnapshot t
  unfolding delete_objects
  delete_objects-IsSnapshot [] s t h e = subst IsSnapshot (cc) h
  delete_objects-IsSnapshot (id ∷ ids) s t h e =
      let (_, _, rest) = >>=-eq-ok (guard (delete_object s id).1 assertion) _ e in
      delete_objects-IsSnapshot ids (delete_object s id).0 t (delete_object-IsSnapshot s id h) rest

  -- The copy has the ids of the original.
  has-copy_objects :
      (g : Game F) (j : ℕ) (es acc : Map ℕ (GameObject F))
      → has j (record { objects = copy_objects g es acc; tick = 0 })
        ≡ (has j (record { objects = es; tick = 0 }) || has j (record { objects = acc; tick = 0 }))
  unfolding copy_objects find
  has-copy_objects g j [] acc = refl
  has-copy_objects g j ((id, o) ∷ es) acc =
      ground (
        arith,
        has-copy_objects g j es (assign id (g.clone o) acc),
        find-assign j id (g.clone o) acc,
      )

  has-copy : (g : Game F) (j : ℕ) (s : Snapshot F) → has j (copy g s) ≡ has j s
  unfolding copy
  has-copy g j s = ground (arith, has-copy_objects g j s.objects [], find_nil {V = GameObject F} j)

module _ {F : Type 0} ⦃p : Platform F⦄ (g : Game F) (keeps : KeepsIds g) (self : Snapshot F)
    (h : IsSnapshot self) (t : F) where
  interpolate_id :
      (o n : GameObject F) (ds : DiffSet F) → Object.interpolate g o ds t ≡ ok n → n.id ≡ o.id
  unfolding Object.interpolate
  interpolate_id o n ds e =
      let (values, _, made) = >>=-eq-ok (Object.for_values _ ds (g.clone o).values) _ e in
      ap (λ (r : Result (GameObject F)). elim r [ ok m ↦ m.id | err _ ↦ 0 ]) (sym made)
      ∙ keeps.clone_id o

  -- The loop's write keeps the snapshot well formed, and its ids as they are.
  assigned :
      (id : ℕ) (o n : GameObject F) (ds : DiffSet F) (next : Snapshot F)
      → IsSnapshot next
      → find id self.objects ≡ some o
      → Object.interpolate g o ds t ≡ ok n
      → IsSnapshot (record next { objects = assign id n next.objects })
  assigned id o n ds next k there made = record {
    sorted = assign-IsSorted id n next.objects k.sorted;
    keyed =
        subst (λ i. Keyed (assign i n next.objects))
          (interpolate_id o n ds made ∙ find-Keyed id o self.objects h.keyed there)
          (Keyed-assign n next.objects k.keyed);
  }

  has-assigned :
      (id : ℕ) (o n : GameObject F) (j : ℕ) (next : Snapshot F)
      → find id self.objects ≡ some o
      → ((j : ℕ) → has j self ≡ true → has j next ≡ true)
      → has j (record next { objects = assign id n next.objects }) ≡ has j next
  has-assigned id o n j next there sub =
      ground (arith, find-assign j id n next.objects, eq_of_same j id, sub id, there)

  apply_values-IsSnapshot :
      (es : Map ℕ (DiffSet F)) (next s : Snapshot F)
      → IsSnapshot next
      → apply_values g self t es next ≡ ok s
      → IsSnapshot s × (s.tick ≡ next.tick)
  unfolding apply_values get_object
  apply_values-IsSnapshot [] next s k e =
      let q : next ≡ s = cc in (subst IsSnapshot q k, ap (λ (r : Snapshot F). r.tick) (sym q))
  apply_values-IsSnapshot ((id, ds) ∷ es) next s k e =
      let (o, found, e') = >>=-eq-ok (or_fail (find id self.objects) assertion) _ e in
      let (n, made, e'') = >>=-eq-ok (Object.interpolate g o ds t) _ e' in
      apply_values-IsSnapshot es (record next { objects = assign id n next.objects }) s
        (assigned id o n ds next k (or_fail-eq-ok (find id self.objects) found) made) e''

  apply_values-has :
      (es : Map ℕ (DiffSet F)) (next s : Snapshot F)
      → ((j : ℕ) → has j self ≡ true → has j next ≡ true)
      → apply_values g self t es next ≡ ok s
      → (j : ℕ) → has j s ≡ has j next
  unfolding apply_values get_object
  apply_values-has [] next s sub e j = let q : next ≡ s = cc in ap (has j) (sym q)
  apply_values-has ((id, ds) ∷ es) next s sub e j =
      let (o, found, e') = >>=-eq-ok (or_fail (find id self.objects) assertion) _ e in
      let (n, made, e'') = >>=-eq-ok (Object.interpolate g o ds t) _ e' in
      let there = or_fail-eq-ok (find id self.objects) found in
      apply_values-has es (record next { objects = assign id n next.objects }) s
        (λ i sees. ground (arith, find-assign i id n next.objects, sub i sees)) e'' j
      ∙ has-assigned id o n j next there sub

  -- A run of `apply` that succeeds goes through its two parts.
  apply-eq-ok :
      (d : DeltaSnapshot F) (s : Snapshot F)
      → apply g self d t ≡ ok s
      → (n : Snapshot F) × (apply_objects d t (copy g self) ≡ ok n)
        × (apply_values g self t d.delta_values n ≡ ok s)
  unfolding apply
  apply-eq-ok d s e =
      >>=-eq-ok (apply_objects d t (copy g self)) _
        (if_err-eq-ok (p.less p.one t || p.less t p.zero_f) _ e)

  apply_objects-IsSnapshot :
      (d : DeltaSnapshot F) (next n : Snapshot F)
      → IsSnapshot next
      → apply_objects d t next ≡ ok n
      → IsSnapshot n
  unfolding apply_objects
  apply_objects-IsSnapshot d next n k e = elim (Bool-cases (p.equal t p.one)) [
    | inl late ↦
        delete_objects-IsSnapshot d.deleted_objects (add_objects d.added_objects next) n
          (add_objects-IsSnapshot d.added_objects next k) (rw (late, apply_objects) at e)
    | inr early ↦ subst IsSnapshot (ground (arith, early, e)) k
  ]

  -- With a game that keeps ids and a well-formed snapshot: whatever the difference and the time, a
  -- snapshot that `apply` gives is well formed.
  pub apply-IsSnapshot :
      (d : DeltaSnapshot F) (s : Snapshot F) → apply g self d t ≡ ok s → IsSnapshot s
  apply-IsSnapshot d s e =
      let (n, made, applied) = apply-eq-ok d s e in
      (apply_values-IsSnapshot d.delta_values n s
        (apply_objects-IsSnapshot d (copy g self) n (copy-IsSnapshot g self keeps h) made)
        applied).0

  apply_objects-before :
      (d : DeltaSnapshot F) (next n : Snapshot F)
      → p.equal t p.one ≡ false
      → apply_objects d t next ≡ ok n
      → next ≡ n
  unfolding apply_objects
  apply_objects-before d next n early e = ground (arith, early, e)

  copy-tick : (copy g self).tick ≡ (self.tick + 1) % 2 ^ 32
  unfolding copy
  copy-tick = refl

  -- With a game that keeps ids and a well-formed snapshot: at an interpolation time other than 1.0,
  -- what a successful `apply` gives is one tick on, in 32 bits, and has an object for an id exactly
  -- where the older snapshot has one, whatever the difference holds.
  pub apply_before :
      (d : DeltaSnapshot F) (s : Snapshot F)
      → p.equal t p.one ≡ false
      → apply g self d t ≡ ok s
      → (s.tick ≡ (self.tick + 1) % 2 ^ 32) × ((id : ℕ) → has id s ≡ has id self)
  apply_before d s early e =
      let (n, made, applied) = apply-eq-ok d s e in
      let same_copy = apply_objects-before d (copy g self) n early made in
      let applied' =
        subst (λ m. apply_values g self t d.delta_values m ≡ ok s) (sym same_copy) applied in
      (
        (apply_values-IsSnapshot d.delta_values (copy g self) s (copy-IsSnapshot g self keeps h)
              applied').1
            ∙ copy-tick,
        λ id.
            apply_values-has d.delta_values (copy g self) s (λ j sees. has-copy g j self ∙ sees)
              applied' id
            ∙ has-copy g id self,
      )
