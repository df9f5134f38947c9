-- ===== src/Core/Examples/Reordered.antt =====
-- The theorems on unordered maps of protocol buffers, used on the example game.
use mathlib.Core.Quot
use native.Mathlib.Nat.{ℕ_set}
use haraka_engine.Core.Delta.Unordered.{message, deserialize_as_sent}
use haraka_engine.Core.Delta.{DeltaBuffer}
use haraka_engine.Base.{
  sym, ℕ, none, compare, lt, eq, gt, ◌≡◌, refl, [], ◌∷◌, false, some, ok, arith,
}
use haraka_engine.Base.Int.{ℤ, pos, negsuc}
use haraka_engine.Base.Map.{Map, insert, find, same, assign}
use haraka_engine.Base.Order.{nat_ord, Bytes, bytes_ord}
use haraka_engine.Base.Text.{codes}
use haraka_engine.Core.Platform.{whole_floats, whole_floats-IsIeee}
use haraka_engine.Core.Types
use haraka_engine.Core.Types.{GameValue, int_value, int_value_nointerp, vec2f}
use haraka_engine.Core.Object
use haraka_engine.Core.Object.{GameObject, ObjectBuffer, DiffSet}
use haraka_engine.Core.Object.AnyOrder.{deserialize_any_order}
use haraka_engine.Core.Object.Serial.{IsRegistered, deserialize-serialize_object}
use haraka_engine.Core.Delta
use haraka_engine.Core.Delta.Serial.{IsSendable}
use haraka_engine.Core.Examples.Classes.{player-IsRegistered}
use haraka_engine.Core.Delta.{DeltaSnapshot}
use haraka_engine.Core.Delta.AnyOrder.{Alike}
use haraka_engine.Base.Map.Laws.{find_nil}
use haraka_engine.Core.Examples.{player_type, player, arena, older, hit}

one-IsRegistered : IsRegistered arena (player 1 (pos 10) (pos 0) (pos 0))
one-IsRegistered =
    player-IsRegistered 1 (pos 10) (pos 0) (pos 0) (omega arith, omega arith) (omega arith)
      (omega arith)

three-IsRegistered : IsRegistered arena (player 3 (pos 100) (pos 0) (pos 0))
three-IsRegistered =
    player-IsRegistered 3 (pos 100) (pos 0) (pos 0) (omega arith, omega arith) (omega arith)
      (omega arith)

find_swapped :
    (k l : Bytes) (b c : Bytes)
    → same k l ≡ false
    → (j : Bytes) → find j ((k, b) ∷ (l, c) ∷ []) ≡ find j ((l, c) ∷ (k, b) ∷ [])
unfolding find
find_swapped k l b c apart j =
    ground (arith, apart, bytes_ord.same_of_eq j k, bytes_ord.same_of_eq j l)

-- The buffer of a player, and its values in another order.
abbrev sent : ObjectBuffer
sent = Object.serialize (player 1 (pos 10) (pos 0) (pos 0))

abbrev shuffled : Map Bytes Bytes
shuffled =
    (codes "pos", Types.serialize {F = ℤ} (vec2f (record { x = pos 0; y = pos 0 })))
    ∷ (codes "life", Types.serialize {F = ℤ} (int_value (pos 10)))
    ∷ []

deserialize_any_order_example :
    Object.deserialize arena (record { id = 1; type_name = player_type; values = shuffled })
    ≡ ok (player 1 (pos 10) (pos 0) (pos 0))
unfolding find Object.serialize Object.serialize_values assign
deserialize_any_order_example =
    deserialize_any_order arena sent shuffled (player 1 (pos 10) (pos 0) (pos 0)) (refl, (refl, tt))
      (refl, (refl, tt)) (find_swapped (codes "life") (codes "pos") _ _ refl)
      (λ x. ((refl, tt), (tt, tt)))
      (deserialize-serialize_object whole_floats-IsIeee arena (player 1 (pos 10) (pos 0) (pos 0))
        one-IsRegistered)

-- A hit with a move, and its buffer with the values of the player in another order.
abbrev hit_back : DeltaSnapshot ℤ
hit_back = record hit {
  delta_values =
      (
        1,
        (codes "life", int_value (negsuc 1))
            ∷ (codes "pos", vec2f (record { x = negsuc 2; y = pos 4 }))
            ∷ [],
      )
      ∷ [];
}

hit_back-IsSendable : IsSendable arena older hit_back
unfolding find
hit_back-IsSendable = record {
  sorted = (tt, tt);
  readable = (
    (
      player 1 (pos 10) (pos 0) (pos 0),
      refl,
      ((refl, tt), (tt, tt)),
      (
        (int_value (pos 10), refl, (omega arith, omega arith)),
        ((vec2f (record { x = pos 0; y = pos 0 }), refl, (omega arith, omega arith)), tt),
      ),
    ),
    tt,
  );
  added_sorted = (tt, tt);
  added_keyed = (refl, tt);
  registered = (three-IsRegistered, tt);
}

abbrev life_bytes : Bytes
life_bytes = Types.serialize {F = ℤ} (int_value (negsuc 1))

abbrev pos_bytes : Bytes
pos_bytes = Types.serialize {F = ℤ} (vec2f (record { x = negsuc 2; y = pos 4 }))

abbrev forward : Map Bytes Bytes
forward = (codes "life", life_bytes) ∷ (codes "pos", pos_bytes) ∷ []

abbrev backward : Map Bytes Bytes
backward = (codes "pos", pos_bytes) ∷ (codes "life", life_bytes) ∷ []

one-Alike : (id : ℕ) → Alike (find id ((1, forward) ∷ [])) (find id ((1, backward) ∷ []))
unfolding find
one-Alike id =
    elim (compare id 1)
      as (λ c.
        Alike (elim c [ eq ↦ some forward | _ ↦ none ])
          (elim c [ eq ↦ some backward | _ ↦ none ])) [
            | lt ↦ tt
            | eq ↦ (
              (refl, (refl, tt)),
              (refl, (refl, tt)),
              find_swapped (codes "life") (codes "pos") _ _ refl,
            )
            | gt ↦ tt
          ]

hit_back_lem : (Delta.serialize hit_back).delta_objects ≡ (1, forward) ∷ []
unfolding Delta.serialize Delta.write_deltas Delta.write_values find insert assign
hit_back_lem = refl

abbrev backward_buffer : DeltaBuffer
backward_buffer = record (Delta.serialize hit_back) { delta_objects = (1, backward) ∷ [] }

backward-message : message backward_buffer ≡ message (Delta.serialize hit_back)
backward-message = sym (
    Quot.sound (record {
      prev_tick = refl;
      next_tick = refl;
      added_objects = refl;
      deleted_objects = refl;
      reordered =
          rw hit_back_lem (record {
            distinct = (find_nil 1, tt);
            distinct' = (find_nil 1, tt);
            alike = one-Alike;
          });
    }))

deserialize_as_sent_example : Delta.deserialize arena backward_buffer older ≡ ok hit_back
deserialize_as_sent_example =
    deserialize_as_sent (hlevel ℕ_set) arena older hit_back backward_buffer whole_floats-IsIeee
      hit_back-IsSendable backward-message
