-- ===== src/Core/Delta/Sync.antt =====
-- `evaluate` and `apply` together, on two successive snapshots.
use haraka_engine.Base.{
  ℕ, ◌+◌, ◌%◌, ◌^◌, ◌≡◌, none, some, [], ◌∷◌, ok, ◌==◌, arith, Bool-cases, Option-cases, inl, inr,
}
use haraka_engine.Base.Order.{nat_ord}
use haraka_engine.Base.Map.{Map, find, IsSorted}
use haraka_engine.Base.Map.Laws.{map_ext, find_nil}
use haraka_engine.Core.Platform.{Platform, IsIeee}
use haraka_engine.Core.Object
use haraka_engine.Core.Object.{GameObject, DiffSet, Game, Clones}
use haraka_engine.Core.Snapshot.{Snapshot}
use haraka_engine.Core.Delta.{DeltaSnapshot, empty, evaluate, add_objects, apply_objects, apply}
use haraka_engine.Core.Delta.Pairs.{Part, Part-self, IsSuccession, differences, compare-differences}
use haraka_engine.Core.Delta.Evaluate.{
  find-extra, extra-Keyed, extra-IsSorted, changed, marks, find-marks, evaluated, evaluate_lem,
  recorded,
}
use haraka_engine.Core.Delta.Apply.{
  copy-Clones, find-add_objects, add_objects-IsSorted, add_objects-tick, Present, erased,
  find-erased, erased-IsSorted, delete_objects-gone, Leads, led, apply_values-Leads, find-led,
  led-IsSorted, Leads-assign,
}

module _ {F : Type 0} ⦃p : Platform F⦄ (ieee : IsIeee p) (g : Game F) (clones : Clones g)
    (prev next : Snapshot F) (h : IsSuccession prev next) where
  marks-Leads :
      (es : Map ℕ (GameObject F)) (acc : Map ℕ (DiffSet F))
      → Part es prev.objects
      → Leads g prev next acc
      → Leads g prev next (marks next.objects es acc)
  unfolding marks changed
  marks-Leads [] acc part l = l
  marks-Leads ((id, o) ∷ es) acc part l = elim (Option-cases (find id next.objects)) [
    | inl e ↦ rw (e, marks) (marks-Leads es acc part.1 l)
    | inr (n, e) ↦ elim (Bool-cases (Object.checksum o == Object.checksum n)) [
      | inl c ↦ rw (e, c, marks, changed) (marks-Leads es acc part.1 l)
      | inr c ↦
          rw (e, c, marks, changed)
            (marks-Leads es _ part.1 (
              Leads-assign g prev next id (differences o n) acc
                (
                  (
                    o,
                    n,
                    part.0,
                    e,
                    (compare-differences ieee g clones o n (h.exact id o n part.0 e)).1,
                  ),
                  tt,
                )
                l))
    ]
  ]

  -- Two states that `evaluate` takes for the same are the same.
  unchanged :
      (id : ℕ) (o n : GameObject F)
      → find id prev.objects ≡ some o
      → find id next.objects ≡ some n
      → changed o n ≡ none
      → o ≡ n
  unfolding changed
  unchanged id o n e f c = h.no_collision id o n e f (ground (arith, c))

  abbrev whole : DeltaSnapshot F
  whole = evaluated ieee g clones prev next h (empty prev.tick next.tick)

  added_lem :
      (j : ℕ)
      → find j whole.added_objects
        ≡ elim (find j prev.objects) [ none ↦ find j next.objects | some _ ↦ none ]
  unfolding empty find
  added_lem j = ground (arith, find-extra prev.objects j next.objects [] h.newer.sorted)

  abbrev start : Snapshot F
  start = record prev { tick = (prev.tick + 1) % 2 ^ 32 }

  abbrev with_added : Snapshot F
  with_added = add_objects whole.added_objects start

  find-with_added :
      (j : ℕ)
      → find j with_added.objects
        ≡ elim (find j prev.objects) [ none ↦ find j next.objects | some o ↦ some o ]
  unfolding empty
  find-with_added j = ground (
    arith,
    added_lem j,
    find-add_objects j whole.added_objects start (extra-IsSorted prev.objects next.objects [] tt)
        (extra-Keyed prev.objects next.objects [] h.newer.keyed tt),
  )

  with_added-IsSorted : IsSorted with_added.objects
  with_added-IsSorted = add_objects-IsSorted whole.added_objects start h.older.sorted

  older-Present : (es : Map ℕ (GameObject F)) → Part es prev.objects → Present es with_added.objects
  older-Present [] part = tt
  older-Present ((id, o) ∷ es) part =
      ((o, ground (arith, find-with_added id, part.0)), older-Present es part.1)

  abbrev remaining : Map ℕ (GameObject F)
  remaining = erased next.objects prev.objects with_added.objects

  find-remaining :
      (j : ℕ)
      → find j remaining ≡ elim (find j next.objects) [
        | none ↦ none
        | some n ↦ elim (find j prev.objects) [ none ↦ some n | some o ↦ some o ]
      ]
  find-remaining j = ground (
    arith,
    find-with_added j,
    find-erased next.objects j prev.objects with_added.objects with_added-IsSorted,
  )

  whole-Leads : Leads g prev next whole.delta_values
  unfolding empty
  whole-Leads = marks-Leads prev.objects [] (Part-self prev.objects h.older.sorted) tt

  find-led-recorded :
      (j : ℕ)
      → find j (led g prev next whole.delta_values remaining)
        ≡ elim (recorded next.objects j prev.objects) [
          | none ↦ find j remaining
          | some _ ↦ find j next.objects
        ]
  unfolding empty
  find-led-recorded j = ground (
    arith,
    find-led g prev next j whole.delta_values remaining whole-Leads,
    find-marks next.objects j prev.objects [] h.older.sorted,
    find_nil {V = DiffSet F} j,
  )

  find-led-remaining :
      (j : ℕ) → find j (led g prev next whole.delta_values remaining) ≡ find j next.objects
  find-led-remaining j = elim (Option-cases (find j prev.objects)) [
    | inl e ↦ ground (arith, e, find-led-recorded j, find-remaining j)
    | inr (o, e) ↦ elim (Option-cases (find j next.objects)) [
      | inl f ↦ ground (arith, e, f, find-led-recorded j, find-remaining j)
      | inr (n, f) ↦ elim (Option-cases (changed o n)) [
        | inl c ↦
            ground (arith, e, f, c, find-led-recorded j, find-remaining j, unchanged j o n e f c)
        | inr (ds, c) ↦ ground (arith, e, f, c, find-led-recorded j, find-remaining j)
      ]
    ]
  ]

  -- The objects after all three loops are those of the newer snapshot.
  objects_lem : led g prev next whole.delta_values remaining ≡ next.objects
  objects_lem =
      map_ext _ next.objects
        (led-IsSorted g prev next whole.delta_values remaining
          (erased-IsSorted next.objects prev.objects with_added.objects with_added-IsSorted))
        h.newer.sorted find-led-remaining

  -- With IEEE floats and a `clone` that copies: for two snapshots in succession (well formed; their
  -- common objects with exact differences, an unchanged `PrimitiveValueNoInterp` among them, and no
  -- collision of checksums), `evaluate` on a new difference succeeds, and `apply` of its result at
  -- 1.0 to the older snapshot gives the objects of the newer one, at the older one's tick plus 1,
  -- in 32 bits.
  pub apply-evaluate :
      (d : DeltaSnapshot F) × (evaluate (empty prev.tick next.tick) prev next ≡ ok d)
      × (apply g prev d p.one ≡ ok (record next { tick = (prev.tick + 1) % 2 ^ 32 }))
  unfolding apply apply_objects empty
  apply-evaluate = (
    whole,
    evaluate_lem ieee g clones prev next h (empty prev.tick next.tick),
    rw (
      ieee.one_le_one,
      ieee.one_ge_zero,
      ieee.one_equal_one,
      copy-Clones g prev clones h.older.sorted,
      delete_objects-gone next.objects prev.objects with_added h.older.sorted with_added-IsSorted
          (older-Present prev.objects (Part-self _ h.older.sorted)),
      apply_values-Leads g prev next whole.delta_values _ whole-Leads,
      objects_lem,
      add_objects-tick whole.added_objects start,
    ),
  )
