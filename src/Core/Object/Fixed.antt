-- ===== src/Core/Object/Fixed.antt =====
-- The values of `PrimitiveValueNoInterp` under `interpolate`.
use haraka_engine.Base.{◌≡◌, sym, ap, ◌∙◌, subst, some, none, [], ◌∷◌, Option, ok, >>=-eq-ok}
use haraka_engine.Base.Int.{ℤ}
use haraka_engine.Base.Order.{Bytes, bytes_ord}
use haraka_engine.Base.Map.{Map, find, IsSorted}
use haraka_engine.Base.Map.Laws.{find-Above}
use haraka_engine.Base.Map.Collect.{DistinctKeys}
use haraka_engine.Core.Platform.{Platform}
use haraka_engine.Core.Types.{GameValue, int_value_nointerp, interp, change}
use haraka_engine.Core.Types
use haraka_engine.Core.Types.Primitives
use haraka_engine.Core.Object.{GameObject, DiffSet, Game, Clones, advance, for_values, interpolate}
use haraka_engine.Core.Object.AnyOrder.{Outcome, for_values-Outcome}

sorted-DistinctKeys : {D : Type 0} (ds : Map Bytes D) → IsSorted ds → DistinctKeys ds
sorted-DistinctKeys [] s = tt
sorted-DistinctKeys ((k, d) ∷ ds) s = (find-Above k ds s.0, sorted-DistinctKeys ds s.1)

module _ {F : Type 0} ⦃p : Platform F⦄ where
  advance_fixed :
      (t : F) (a : ℤ) (d w : GameValue F)
      → advance t (int_value_nointerp a) d ≡ ok w
      → int_value_nointerp a ≡ w
  unfolding advance Types.interp Types.change Primitives.interp_none
  advance_fixed t a d w e = cc

  Outcome-fixed :
      (t : F) (a : ℤ) (vs ws : Map Bytes (GameValue F)) (name : Bytes) (r : Option (GameValue F))
      → find name vs ≡ some (int_value_nointerp a)
      → Outcome (advance t) vs ws name r
      → find name ws ≡ some (int_value_nointerp a)
  Outcome-fixed t a vs ws name none e h = h ∙ e
  Outcome-fixed t a vs ws name (some d) e (v, w, found, made, put) =
      let same : v ≡ int_value_nointerp a = cc in
      put ∙ ap some (sym (advance_fixed t a d w (subst (λ x. advance t x d ≡ ok w) same made)))

  -- With a `clone` that copies: whatever a difference holds for a value of
  -- `PrimitiveValueNoInterp`, and at whatever time, 1.0 included, the object that `interpolate`
  -- gives has the old value.
  pub interpolate_fixed :
      (g : Game F) (o r : GameObject F) (differences : DiffSet F) (t : F) (name : Bytes) (a : ℤ)
      → Clones g
      → IsSorted differences
      → find name o.values ≡ some (int_value_nointerp a)
      → interpolate g o differences t ≡ ok r
      → find name r.values ≡ some (int_value_nointerp a)
  unfolding interpolate
  interpolate_fixed g o r ds t name a clones s e h =
      let (ws, ran, made) = >>=-eq-ok (for_values (advance t) ds (g.clone o).values) _ h in
      let whole : record (g.clone o) { values = ws } ≡ r = cc in
      let same = ap (λ (x : GameObject F). x.values) whole in
      subst (λ x. find name x ≡ some (int_value_nointerp a)) same
        (Outcome-fixed t a (g.clone o).values ws name (find name ds)
          (ap (λ (x : GameObject F). find name x.values) (clones o) ∙ e)
          (for_values-Outcome (advance t) ds (g.clone o).values ws name (sorted-DistinctKeys ds s)
            ran))
