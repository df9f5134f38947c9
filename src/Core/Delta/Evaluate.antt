-- ===== src/Core/Delta/Evaluate.antt =====
-- What `evaluate` computes from two successive snapshots: its two loops as functions that cannot
-- fail, and the lookups in their results.
use haraka_engine.Base.{
  ℕ, ◌≡◌, refl, sym, ap, Option, none, some, List, [], ◌∷◌, ◌++◌, append-nil, ok, ◌==◌,
  if◌then◌else◌, arith, Bool-cases, Option-cases, inl, inr,
}
use haraka_engine.Base.Order.{nat_ord}
use haraka_engine.Base.Map.{Map, find, assign, IsSorted}
use haraka_engine.Base.Map.Prefix.{snoc-append}
use haraka_engine.Base.Map.Laws.{find-assign, assign-IsSorted, find-Above}
use haraka_engine.Core.Platform.{Platform, IsIeee}
use haraka_engine.Core.Object
use haraka_engine.Core.Object.{GameObject, DiffSet, Game, Clones}
use haraka_engine.Core.Snapshot.{Snapshot, get_object}
use haraka_engine.Core.Delta.{DeltaSnapshot, visit_prev, scan_prev, visit_next, scan_next, evaluate}
use haraka_engine.Core.Delta.Pairs.{Part, Part-self, IsSuccession, differences, compare-differences}
use haraka_engine.Core.Snapshot.WellFormed.{Keyed, Keyed-assign, find-Keyed}

module _ {F : Type 0} (other : Map ℕ (GameObject F)) where
  -- The ids that are not in the other map, in order.
  unfoldable pub gone : Map ℕ (GameObject F) → List ℕ
  gone [] = []
  gone ((id, o) ∷ es) = elim (find id other) [ none ↦ id ∷ gone es | some _ ↦ gone es ]

  -- The entries that are not in the other map.
  unfoldable pub extra : Map ℕ (GameObject F) → Map ℕ (GameObject F) → Map ℕ (GameObject F)
  extra [] acc = acc
  extra ((id, n) ∷ es) acc = elim (find id other) [
    | none ↦ extra es (assign id n acc)
    | some _ ↦ extra es acc
  ]

  pub find-extra :
      (j : ℕ) (es acc : Map ℕ (GameObject F))
      → IsSorted es
      → find j (extra es acc) ≡ elim (find j other) [
        | none ↦ elim (find j es) [ none ↦ find j acc | some n ↦ some n ]
        | some _ ↦ find j acc
      ]
  unfolding extra find
  find-extra j [] acc s = ground arith
  find-extra j ((id, n) ∷ es) acc s = ground (
    arith,
    find-extra j es acc s.1,
    find-extra j es (assign id n acc) s.1,
    find-assign j id n acc,
    find-Above id es s.0,
    nat_ord.same_of_eq j id,
  )

  pub extra-Keyed : (es acc : Map ℕ (GameObject F)) → Keyed es → Keyed acc → Keyed (extra es acc)
  unfolding extra
  extra-Keyed [] acc h k = k
  extra-Keyed ((id, n) ∷ es) acc h k =
      ground (
        arith,
        extra-Keyed es acc h.1 k,
        extra-Keyed es (assign id n acc) h.1,
        Keyed-assign n acc k,
      )

  pub extra-IsSorted : (es acc : Map ℕ (GameObject F)) → IsSorted acc → IsSorted (extra es acc)
  unfolding extra
  extra-IsSorted [] acc s = s
  extra-IsSorted ((id, n) ∷ es) acc s = ground (
    arith,
    extra-IsSorted es acc s,
    extra-IsSorted es (assign id n acc),
    assign-IsSorted id n acc s,
  )

module _ {F : Type 0} ⦃p : Platform F⦄ where
  -- What `evaluate` records of an object that has a newer state.
  unfoldable pub changed : GameObject F → GameObject F → Option (DiffSet F)
  changed o n = if Object.checksum o == Object.checksum n then none else some (differences o n)

module _ {F : Type 0} ⦃p : Platform F⦄ (other : Map ℕ (GameObject F)) where
  unfoldable pub marks : Map ℕ (GameObject F) → Map ℕ (DiffSet F) → Map ℕ (DiffSet F)
  marks [] acc = acc
  marks ((id, o) ∷ es) acc = elim (find id other) [
    | none ↦ marks es acc
    | some n ↦ elim (changed o n) [ none ↦ marks es acc | some ds ↦ marks es (assign id ds acc) ]
  ]

  -- The difference recorded for an id, if the objects of the older snapshot are `es`.
  abbrev pub recorded : ℕ → Map ℕ (GameObject F) → Option (DiffSet F)
  recorded j es = elim (find j es) [
    | none ↦ none
    | some o ↦ elim (find j other) [ none ↦ none | some n ↦ changed o n ]
  ]

  pub find-marks :
      (j : ℕ) (es : Map ℕ (GameObject F)) (acc : Map ℕ (DiffSet F))
      → IsSorted es
      → find j (marks es acc) ≡ elim (recorded j es) [ none ↦ find j acc | some ds ↦ some ds ]
  unfolding marks find
  find-marks j [] acc s = refl
  find-marks j ((id, o) ∷ es) acc s = elim (Option-cases (find id other)) [
    | inl e ↦
        ground (arith, e, find-marks j es acc s.1, find-Above id es s.0, nat_ord.same_of_eq j id)
    | inr (n, e) ↦ elim (Option-cases (changed o n)) [
      | inl c ↦
          ground
            (arith, e, c, find-marks j es acc s.1, find-Above id es s.0, nat_ord.same_of_eq j id)
      | inr (ds, c) ↦ ground (
        arith,
        e,
        c,
        find-marks j es (assign id ds acc) s.1,
        find-assign j id ds acc,
        find-Above id es s.0,
        nat_ord.same_of_eq j id,
      )
    ]
  ]

  pub marks-IsSorted :
      (es : Map ℕ (GameObject F)) (acc : Map ℕ (DiffSet F)) → IsSorted acc → IsSorted (marks es acc)
  unfolding marks
  marks-IsSorted [] acc s = s
  marks-IsSorted ((id, o) ∷ es) acc s = elim (Option-cases (find id other)) [
    | inl e ↦ rw (e, marks) (marks-IsSorted es acc s)
    | inr (n, e) ↦ elim (Option-cases (changed o n)) [
      | inl c ↦ rw (e, c, marks) (marks-IsSorted es acc s)
      | inr (ds, c) ↦ rw (e, c, marks) (marks-IsSorted es _ (assign-IsSorted id ds acc s))
    ]
  ]

module _ {F : Type 0} ⦃p : Platform F⦄ (ieee : IsIeee p) (g : Game F) (clones : Clones g)
    (prev next : Snapshot F) (h : IsSuccession prev next) where
  -- `evaluate` in one step: the result that its loops build.
  abbrev pub evaluated : DeltaSnapshot F → DeltaSnapshot F
  evaluated d = record d {
    delta_values = marks next.objects prev.objects d.delta_values;
    deleted_objects = d.deleted_objects ++ gone next.objects prev.objects;
    added_objects = extra prev.objects next.objects d.added_objects;
  }

  scan_next_lem :
      (es : Map ℕ (GameObject F)) (d : DeltaSnapshot F)
      → Part es next.objects
      → scan_next prev next es d
        ≡ ok (record d { added_objects = extra prev.objects es d.added_objects })
  unfolding scan_next visit_next get_object extra
  scan_next_lem [] d part = refl
  scan_next_lem ((id, n) ∷ es) d part = elim (Option-cases (find id prev.objects)) [
    | inl e ↦
        rw (part.0, e, visit_next, get_object, extra)
          (scan_next_lem es (record d { added_objects = assign id n d.added_objects }) part.1)
    | inr (o, e) ↦ rw (part.0, e, visit_next, get_object, extra) (scan_next_lem es d part.1)
  ]

  scan_prev_lem :
      (es : Map ℕ (GameObject F)) (d : DeltaSnapshot F)
      → Part es prev.objects
      → scan_prev prev next es d
        ≡ ok (record d {
          delta_values = marks next.objects es d.delta_values;
          deleted_objects = d.deleted_objects ++ gone next.objects es;
        })
  unfolding scan_prev visit_prev get_object marks gone changed
  scan_prev_lem [] d part =
      ap (λ l. ok (record d { deleted_objects = l })) (sym (append-nil d.deleted_objects))
  scan_prev_lem ((id, o) ∷ es) d part = elim (Option-cases (find id next.objects)) [
    | inl e ↦
        rw
          (
            part.0,
            e,
            visit_prev,
            get_object,
            marks,
            gone,
            snoc-append d.deleted_objects id (gone next.objects es),
          )
          (scan_prev_lem es (record d { deleted_objects = d.deleted_objects ++ id ∷ [] }) part.1)
    | inr (n, e) ↦ elim (Bool-cases (Object.checksum o == Object.checksum n)) [
      | inl c ↦
          rw (part.0, e, c, visit_prev, get_object, marks, gone, changed)
            (scan_prev_lem es d part.1)
      | inr c ↦
          rw
            (
              part.0,
              e,
              c,
              (compare-differences ieee g clones o n (h.exact id o n part.0 e)).0,
              visit_prev,
              get_object,
              marks,
              gone,
              changed,
            )
            (simp (find-Keyed id o prev.objects h.older.keyed part.0) (
              scan_prev_lem es
                (record d { delta_values = assign id (differences o n) d.delta_values }) part.1))
    ]
  ]

  -- `evaluate` succeeds on two successive snapshots, and builds that result.
  pub evaluate_lem : (d : DeltaSnapshot F) → evaluate d prev next ≡ ok (evaluated d)
  unfolding evaluate
  evaluate_lem d = rw (
    scan_prev_lem prev.objects d (Part-self prev.objects h.older.sorted),
    scan_next_lem next.objects _ (Part-self next.objects h.newer.sorted),
  )
