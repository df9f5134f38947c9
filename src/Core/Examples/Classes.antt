-- ===== src/Core/Examples/Classes.antt =====
-- The players of the example game are of a registered class, and its snapshots can be exchanged.
use haraka_engine.Base.{ℕ, refl, [], arith}
use haraka_engine.Base.Int.{ℤ, pos, negsuc, IsInt32, ◌-ℤ◌}
use haraka_engine.Base.Map.{find, Aligned}
use haraka_engine.Core.Platform.{whole_floats}
use haraka_engine.Core.Types.Wire.{IsFloat32}
use haraka_engine.Core.Object.{GameObject}
use haraka_engine.Core.Object.Serial.{IsRegistered}
use haraka_engine.Core.Delta.Pipeline.{Fits, IsExchangeable}
use haraka_engine.Core.Examples.{player_type, player, arena, older, newer, find-AllPairs}

abbrev blank : GameObject ℤ
blank = record { id = 0; type_name = player_type; values = [] }

pub player-IsRegistered :
    (id : ℕ) (life x y : ℤ)
    → IsInt32 life
    → IsFloat32 x
    → IsFloat32 y
    → IsRegistered arena (player id life x y)
unfolding find
player-IsRegistered id life x y h fx fy = record {
  created = blank;
  found = refl;
  keeps_id = refl;
  keeps_type = refl;
  sorted = ((refl, tt), (tt, tt));
  fresh_sorted = ((refl, tt), (tt, tt));
  receives = (refl, (tt, h), (refl, (tt, (fx, fy)), tt));
}

pub older_newer :
    (m n : ℕ) → IsExchangeable arena (record older { tick = m }) (record newer { tick = n })
unfolding find ◌-ℤ◌
older_newer m n = record {
  fits =
      find-AllPairs (λ o n. Aligned Fits o.values n.values) older.objects newer.objects
        ((refl, tt, (refl, (omega arith, omega arith), tt)), (tt, tt));
  registered = (
    player-IsRegistered 1 (pos 8) (negsuc 2) (pos 4) (omega arith, omega arith) (omega arith)
        (omega arith),
    (
      player-IsRegistered 3 (pos 100) (pos 0) (pos 0) (omega arith, omega arith) (omega arith)
          (omega arith),
      tt,
    ),
  );
}
