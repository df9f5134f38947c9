-- ===== src/Core/Object/Compare.antt =====
-- `compare` and `interpolate` together, on two states of one object.
use haraka_engine.Base.{◌≡◌, refl, sym, ap, ◌∙◌, [], ◌∷◌, ◌++◌, append-nil, ok, >>=-eq-ok}
use haraka_engine.Base.Order.{Bytes, bytes_ord}
use haraka_engine.Base.Map.{Map, Below, Before, IsSorted, Aligned}
use haraka_engine.Base.Map.Prefix.{find-here, insert-end, Before-nil, Before-snoc, snoc-append}
use haraka_engine.Core.Platform.{Platform, IsIeee}
use haraka_engine.Core.Types.{GameValue, get_delta}
use haraka_engine.Core.Types.Recovery.{IsExact, interp-get_delta}
use haraka_engine.Core.Object.{
  GameObject, DiffSet, Game, Clones, advance, interpolate, compare_values, compare,
}
use haraka_engine.Core.Object.Loops.{object_eq, Steps, for_values-Steps}

module _ {F : Type 0} ⦃p : Platform F⦄ where
  -- Two states of one object: the same values by name, each pair with an exact difference.
  pub record IsExactPair (o n : GameObject F) : Type 0 where
    pub same_id : o.id ≡ n.id
    pub same_type : o.type_name ≡ n.type_name
    pub sorted : IsSorted o.values
    pub aligned : Aligned IsExact o.values n.values

  -- `ds` has the difference of each pair of values, by name.
  abbrev pub Deltas : DiffSet F → Map Bytes (GameValue F) → Map Bytes (GameValue F) → Type 0
  Deltas [] [] [] = Unit
  Deltas ((i, d) ∷ ds) ((j, v) ∷ vs) ((k, w) ∷ ws) =
      (i ≡ j) × (get_delta v w ≡ ok d) × Deltas ds vs ws
  Deltas _ _ _ = ⊥

  compare_values_step :
      (i j : Bytes) (v w d : GameValue F) (vs pre ws : Map Bytes (GameValue F)) (acc : DiffSet F)
      → j ≡ i
      → get_delta v w ≡ ok d
      → Below pre i
      → Below acc i
      → compare_values ((i, v) ∷ vs) (pre ++ (j, w) ∷ ws) acc
        ≡ compare_values vs ((pre ++ (j, w) ∷ []) ++ ws) (acc ++ (i, d) ∷ [])
  unfolding compare_values
  compare_values_step i j v w d vs pre ws acc e h b c =
      rw (e, find-here i w pre ws b, h, insert-end i d acc c, snoc-append pre (i, w) ws)

  module _ (ieee : IsIeee p) where
    compare_values-Steps :
        (pre vs ws : Map Bytes (GameValue F)) (acc : DiffSet F)
        → IsSorted vs
        → Before pre vs
        → Before acc vs
        → Aligned IsExact vs ws
        → (ds : DiffSet F) × (compare_values vs (pre ++ ws) acc ≡ ok (acc ++ ds))
          × Steps (advance p.one) ds vs ws
          × Deltas ds vs ws
    unfolding compare_values advance
    compare_values-Steps pre [] [] acc s b c h = ([], ap ok (sym (append-nil acc)), tt, tt)
    compare_values-Steps pre ((i, v) ∷ vs) ((j, w) ∷ ws) acc s b c h =
        let (d, found, applied) = >>=-eq-ok (get_delta v w) _ (interp-get_delta ieee v w h.1) in
        let (ds, rest, steps, deltas) =
          compare_values-Steps (pre ++ (j, w) ∷ []) vs ws (acc ++ (i, d) ∷ []) s.1
            (rw (sym h.0) (Before-snoc i w pre vs s.0 b)) (Before-snoc i d acc vs s.0 c) h.2 in
        (
          (i, d) ∷ ds,
          compare_values_step i j v w d vs pre ws acc (sym h.0) found b c
              ∙ rest
              ∙ ap ok (sym (snoc-append acc (i, d) ds)),
          (refl, sym h.0, applied, steps),
          (refl, found, deltas),
        )
    compare_values-Steps _ [] (_ ∷ _) _ s b c h = absurd h
    compare_values-Steps _ (_ ∷ _) [] _ s b c h = absurd h

    -- With IEEE floats and a `clone` that copies: on two states of one object with exact
    -- differences, `compare` succeeds, and `interpolate` of its result at 1.0 takes the older state
    -- to the newer one.
    pub interpolate-compare :
        (g : Game F) (o n : GameObject F)
        → Clones g
        → IsExactPair o n
        → (ds : DiffSet F) × (compare o n ≡ ok ds) × (interpolate g o ds p.one ≡ ok n)
    unfolding compare interpolate
    interpolate-compare g o n clones h =
        let (ds, found, steps, _) =
          compare_values-Steps [] o.values n.values [] h.sorted (Before-nil (GameValue F) o.values)
            (Before-nil (GameValue F) o.values) h.aligned in
        (
          ds,
          found,
          rw
              (
                clones o,
                for_values-Steps (advance p.one) [] ds o.values n.values h.sorted
                    (Before-nil (GameValue F) o.values) steps,
              )
              (ap ok (object_eq o n h.same_id h.same_type)),
        )

    -- What `compare` gives has the difference of each pair of values.
    pub compare-Deltas :
        (o n : GameObject F)
        → IsExactPair o n
        → (ds : DiffSet F) × (compare o n ≡ ok ds) × Deltas ds o.values n.values
    unfolding compare
    compare-Deltas o n h =
        let (ds, found, _, deltas) =
          compare_values-Steps [] o.values n.values [] h.sorted (Before-nil (GameValue F) o.values)
            (Before-nil (GameValue F) o.values) h.aligned in
        (ds, found, deltas)
