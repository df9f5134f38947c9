-- ===== src/Core/Examples/Shapes.antt =====
-- The theorem on the shape of objects, used on a player that is read and moved.
use haraka_engine.Base.{◌≡◌, refl, ok, List, [], ◌∷◌, arith}
use haraka_engine.Base.Int.{ℤ, pos, ◌+ℤ◌, ◌*ℤ◌}
use haraka_engine.Base.Map.{find, assign}
use haraka_engine.Base.Text.{codes}
use haraka_engine.Core.Platform.{whole_floats, whole_floats-IsIeee}
use haraka_engine.Core.Types
use haraka_engine.Core.Types.{int_value}
use haraka_engine.Core.Types.Primitives
use haraka_engine.Core.Object
use haraka_engine.Core.Object.{GameObject, ObjectBuffer, DiffSet}
use haraka_engine.Core.Object.Serial.{deserialize-serialize_object}
use haraka_engine.Core.Object.Shape.{prototype, moved, SameShape, deserialize-SameShape}
use haraka_engine.Core.Examples.{player, arena, arena-Clones}
use haraka_engine.Core.Examples.Classes.{player-IsRegistered}

abbrev buffer : ObjectBuffer
buffer = Object.serialize (player 1 (pos 10) (pos 0) (pos 0))

abbrev healed : List (DiffSet ℤ × ℤ)
healed = ((codes "life", int_value (pos 5)) ∷ [], pos 1) ∷ []

healed-player :
    moved arena healed (player 1 (pos 10) (pos 0) (pos 0)) ≡ ok (player 1 (pos 15) (pos 0) (pos 0))
unfolding Object.interpolate Object.for_values Object.advance Types.interp Types.change
    Primitives.interp find assign Types.cast_int ◌+ℤ◌ ◌*ℤ◌
healed-player = refl

deserialize-SameShape_example :
    (q : GameObject ℤ) × (prototype arena buffer ≡ ok q)
    × SameShape q (player 1 (pos 15) (pos 0) (pos 0))
deserialize-SameShape_example =
    deserialize-SameShape arena buffer healed (player 1 (pos 10) (pos 0) (pos 0))
      (player 1 (pos 15) (pos 0) (pos 0)) arena-Clones (λ created. ((refl, tt), (tt, tt)))
      (deserialize-serialize_object whole_floats-IsIeee arena (player 1 (pos 10) (pos 0) (pos 0)) (
        player-IsRegistered 1 (pos 10) (pos 0) (pos 0) (omega arith, omega arith) (omega arith)
          (omega arith)))
      healed-player
