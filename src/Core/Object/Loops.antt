-- ===== src/Core/Object/Loops.antt =====
-- The loops over an object's values, run over all of its values in order.
use haraka_engine.Base.{◌≡◌, refl, sym, ap, ◌∙◌, [], ◌∷◌, ◌++◌, Result, ok}
use haraka_engine.Base.Order.{Bytes, bytes_ord}
use haraka_engine.Base.Map.{Map, Below, Before, IsSorted}
use haraka_engine.Base.Map.Prefix.{find-here, assign-here, Before-snoc, snoc-append}
use haraka_engine.Core.Object.{GameObject, for_values}

pub object_eq :
    {F : Type 0} (o n : GameObject F)
    → o.id ≡ n.id
    → o.type_name ≡ n.type_name
    → record o { values = n.values } ≡ n
object_eq o n e f = λ i. record { id = e i; type_name = f i; values = n.values }

module _ {V D : Type 0} (step : V → D → Result V) where
  -- Each entry of `ds` takes the value of its name in `vs` to that in `ws`.
  abbrev pub Steps : Map Bytes D → Map Bytes V → Map Bytes V → Type 0
  Steps [] [] [] = Unit
  Steps ((k, d) ∷ ds) ((i, v) ∷ vs) ((j, w) ∷ ws) =
      (k ≡ i) × (j ≡ i) × (step v d ≡ ok w) × Steps ds vs ws
  Steps _ _ _ = ⊥

  for_values_step :
      (pre : Map Bytes V) (k i j : Bytes) (d : D) (v w : V) (ds : Map Bytes D) (vs : Map Bytes V)
      → k ≡ i
      → j ≡ i
      → step v d ≡ ok w
      → Below pre i
      → for_values step ((k, d) ∷ ds) (pre ++ (i, v) ∷ vs)
        ≡ for_values step ds ((pre ++ (j, w) ∷ []) ++ vs)
  unfolding for_values
  for_values_step pre k i j d v w ds vs e f h b =
      rw (e, f, find-here i v pre vs b, h, assign-here i w v pre vs b)

  pub for_values-Steps :
      (pre : Map Bytes V) (ds : Map Bytes D) (vs ws : Map Bytes V)
      → IsSorted vs
      → Before pre vs
      → Steps ds vs ws
      → for_values step ds (pre ++ vs) ≡ ok (pre ++ ws)
  unfolding for_values
  for_values-Steps pre [] [] [] s b h = refl
  for_values-Steps pre ((k, d) ∷ ds) ((i, v) ∷ vs) ((j, w) ∷ ws) s b h =
      for_values_step pre k i j d v w ds vs h.0 h.1 h.2 b
      ∙ for_values-Steps (pre ++ (j, w) ∷ []) ds vs ws s.1 (rw h.1 (Before-snoc i w pre vs s.0 b))
          h.3
      ∙ ap ok (sym (snoc-append pre (j, w) ws))
  for_values-Steps _ _ _ _ s b h = absurd h
