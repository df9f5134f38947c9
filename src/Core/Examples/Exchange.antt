-- ===== src/Core/Examples/Exchange.antt =====
-- The theorems on the exchange with protocol buffers, used on the example game.
use haraka_engine.Base.{◌≡◌, ◌>>=◌, refl, [], ◌∷◌, some, ok, arith}
use haraka_engine.Base.Int.{ℤ, pos, negsuc}
use haraka_engine.Base.Map.{find, assign}
use haraka_engine.Base.Order.{nat_ord, bytes_ord}
use haraka_engine.Base.Text.{codes}
use haraka_engine.Core.Platform.{whole_floats, whole_floats-IsIeee}
use haraka_engine.Core.Types
use haraka_engine.Core.Types.{GameValue, int_value, int_value_nointerp, vec2f}
use haraka_engine.Core.Object
use haraka_engine.Core.Object.{GameObject, ObjectBuffer, DiffSet}
use haraka_engine.Core.Object.Fixed.{interpolate_fixed}
use haraka_engine.Core.Object.Serial.{IsRegistered, deserialize-serialize_object}
use haraka_engine.Core.Snapshot
use haraka_engine.Core.Snapshot.{SnapshotBuffer}
use haraka_engine.Core.Snapshot.Serial.{deserialize-serialize_snapshot}
use haraka_engine.Core.Delta
use haraka_engine.Core.Delta.Serial.{IsSendable, deserialize-serialize_delta}
use haraka_engine.Core.Examples.Classes.{player-IsRegistered, older_newer}
use haraka_engine.Core.Delta.{DeltaSnapshot}
use haraka_engine.Core.Delta.Pipeline.{delta_exchange}
use haraka_engine.Core.Examples.{
  succession, newer, arena-Clones, player, arena, older, older-IsSnapshot, hit,
}

abbrev lives : GameValue ℤ
lives = int_value (pos 3)

abbrev debt : GameValue ℤ
debt = int_value (negsuc 299)

one-IsRegistered : IsRegistered arena (player 1 (pos 10) (pos 0) (pos 0))
one-IsRegistered =
    player-IsRegistered 1 (pos 10) (pos 0) (pos 0) (omega arith, omega arith) (omega arith)
      (omega arith)

two-IsRegistered : IsRegistered arena (player 2 (pos 20) (pos 5) (pos 5))
two-IsRegistered =
    player-IsRegistered 2 (pos 20) (pos 5) (pos 5) (omega arith, omega arith) (omega arith)
      (omega arith)

three-IsRegistered : IsRegistered arena (player 3 (pos 100) (pos 0) (pos 0))
three-IsRegistered =
    player-IsRegistered 3 (pos 100) (pos 0) (pos 0) (omega arith, omega arith) (omega arith)
      (omega arith)

deserialize-serialize_object_example :
    Object.deserialize arena (Object.serialize (player 1 (pos 10) (pos 0) (pos 0)))
    ≡ ok (player 1 (pos 10) (pos 0) (pos 0))
deserialize-serialize_object_example =
    deserialize-serialize_object whole_floats-IsIeee arena (player 1 (pos 10) (pos 0) (pos 0))
      one-IsRegistered

deserialize-serialize_snapshot_example :
    Snapshot.deserialize arena (Snapshot.serialize older) ≡ ok older
deserialize-serialize_snapshot_example =
    deserialize-serialize_snapshot whole_floats-IsIeee arena older older-IsSnapshot
      (one-IsRegistered, (two-IsRegistered, tt))

hit-IsSendable : IsSendable arena older hit
unfolding find
hit-IsSendable = record {
  sorted = (tt, tt);
  readable = (
    (
      player 1 (pos 10) (pos 0) (pos 0),
      refl,
      (tt, tt),
      ((int_value (pos 10), refl, (omega arith, omega arith)), tt),
    ),
    tt,
  );
  added_sorted = (tt, tt);
  added_keyed = (refl, tt);
  registered = (three-IsRegistered, tt);
}

deserialize-serialize_delta_example : Delta.deserialize arena (Delta.serialize hit) older ≡ ok hit
deserialize-serialize_delta_example =
    deserialize-serialize_delta whole_floats-IsIeee arena older hit hit-IsSendable

delta_exchange_example :
    (d : DeltaSnapshot ℤ) × (Delta.evaluate (Delta.empty 7 8) older newer ≡ ok d)
    × ((Delta.deserialize arena (Delta.serialize d) older >>= λ received.
          Delta.apply arena older received (pos 1))
        ≡ ok newer)
delta_exchange_example =
    delta_exchange whole_floats-IsIeee arena arena-Clones older newer (succession 7 8)
      (older_newer 7 8)

-- A door whose lock is at 3, and a difference that is to take it to 8.
abbrev door : GameObject ℤ
door = record {
  id = 4;
  type_name = codes "D";
  values = (codes "lock", int_value_nointerp (pos 3)) ∷ [];
}

abbrev unlocked : DiffSet ℤ
unlocked = (codes "lock", int_value (pos 5)) ∷ []

door_lem : Object.interpolate arena door unlocked (pos 1) ≡ ok door
unfolding Object.interpolate Object.for_values Object.advance Types.interp Types.change
    Types.cast_int find assign
door_lem = refl

door_found : find (codes "lock") door.values ≡ some (int_value_nointerp (pos 3))
unfolding find
door_found = refl

interpolate_fixed_example : find (codes "lock") door.values ≡ some (int_value_nointerp (pos 3))
interpolate_fixed_example =
    interpolate_fixed arena door door unlocked (pos 1) (codes "lock") (pos 3) arena-Clones (tt, tt)
      door_found door_lem
