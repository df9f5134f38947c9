-- ===== src/Core/Examples/Growing.antt =====
-- A tick of the example game whose differences are texts: the first player gains lives and moves on.
use haraka_engine.Base.{◌≡◌, refl, true, [], ◌∷◌, ok, ℕ, arith}
use haraka_engine.Base.Int.{ℤ, pos, ◌-ℤ◌, ◌+ℤ◌}
use haraka_engine.Base.Map.{find, assign, insert, Aligned}
use haraka_engine.Base.Text.{codes}
use haraka_engine.Util.Deque
use haraka_engine.Util.Deque.{deque}
use haraka_engine.Core.Platform.{whole_floats}
use haraka_engine.Core.Types
use haraka_engine.Core.Types.{int_value, vec2f}
use haraka_engine.Core.Types.Primitives
use haraka_engine.Core.Types.Vectors
use haraka_engine.Core.Object
use haraka_engine.Core.Object.{checksum}
use haraka_engine.Core.Object.Compare.{IsExactPair}
use haraka_engine.Core.Snapshot
use haraka_engine.Core.Snapshot.{Snapshot}
use haraka_engine.Core.Delta
use haraka_engine.Core.Delta.{DeltaSnapshot}
use haraka_engine.Core.Delta.Pairs.{IsSuccession}
use haraka_engine.Core.Delta.Pipeline.{Fits, IsExchangeable}
use haraka_engine.Core.Action
use haraka_engine.Core.Action.{returns, GameAction}
use haraka_engine.Core.Instance
use haraka_engine.Core.Instance.{GameInstance, create, add_action, update_tick}
use haraka_engine.Core.Instance.Replay.{IsTick}
use haraka_engine.Core.Examples.{arena, older, older-IsSnapshot, player, find-AllPairs}
use haraka_engine.Core.Examples.Classes.{player-IsRegistered}

abbrev grown : Snapshot ℤ
grown = record {
  objects = (1, player 1 (pos 12) (pos 3) (pos 4)) ∷ (3, player 3 (pos 100) (pos 0) (pos 0)) ∷ [];
  tick = 8;
}

-- An action that puts the grown objects in place of the older ones.
abbrev grow : GameAction ℤ
grow = record {
  id = 5;
  values = [];
  type_name = codes "G";
  check_action = λ values world. returns true;
  perform_act = λ values world. (record world { objects = grown.objects }, returns tt);
}

abbrev pub growing : GameInstance ℤ
growing = add_action (create arena older true 20) grow

abbrev pub growth : DeltaSnapshot ℤ
growth = record {
  prev_tick = 8;
  next_tick = 9;
  delta_values =
      (
        1,
        (codes "life", int_value (pos 2))
            ∷ (codes "pos", vec2f (record { x = pos 3; y = pos 4 }))
            ∷ [],
      )
      ∷ [];
  deleted_objects = 2 ∷ [];
  added_objects = (3, player 3 (pos 100) (pos 0) (pos 0)) ∷ [];
}

abbrev pub grown_instance : GameInstance ℤ
grown_instance = record growing {
  action_queue = deque [];
  action_status_list = record { action_id = 5; success = true; message = [] } ∷ [];
  current_snapshot = record grown { tick = 9 };
  delta_snapshots = growth ∷ [];
}

growing_lem : update_tick arena growing ≡ (grown_instance, ok growth)
unfolding Instance.update_tick Instance.finish_tick Instance.create Instance.ms_of
    Instance.add_action Instance.play_all Instance.play_action Instance.report Action.act
    Deque.push_back Snapshot.copy Snapshot.copy_objects Snapshot.update Snapshot.get_object
    Delta.empty Delta.evaluate Delta.scan_prev Delta.scan_next Delta.visit_prev Delta.visit_next
    Object.checksum Object.checksum_bytes Object.compare Object.compare_values Types.checksum
    Types.get_delta Types.cast_int Types.cast_vec2f Primitives.checksum Primitives.get_delta
    Vectors.checksum Vectors.get_delta Vectors.minus Primitives.serialize Vectors.serialize find
    assign insert ◌-ℤ◌ ◌+ℤ◌
growing_lem = refl

growing_snapshot : growing.current_snapshot ≡ record older { tick = 8 }
unfolding Instance.create Instance.add_action Snapshot.copy Snapshot.copy_objects assign
growing_snapshot = refl

older_grown : (m n : ℕ) → IsSuccession (record older { tick = m }) (record grown { tick = n })
unfolding find Object.checksum Object.checksum_bytes Types.checksum Primitives.checksum
    Vectors.checksum Vectors.serialize Primitives.serialize ◌+ℤ◌ ◌-ℤ◌
older_grown m n = record {
  older = record { sorted = older-IsSnapshot.sorted; keyed = older-IsSnapshot.keyed };
  newer = record { sorted = ((refl, tt), (tt, tt)); keyed = (refl, (refl, tt)) };
  exact = find-AllPairs IsExactPair older.objects grown.objects (
    record {
      same_id = refl;
      same_type = refl;
      sorted = ((refl, tt), (tt, tt));
      aligned =
          (refl, (omega arith, omega arith, omega arith), (refl, ((refl, refl), (refl, refl)), tt));
    },
    (tt, tt),
  );
  no_collision =
      find-AllPairs (λ o n. checksum o ≡ checksum n → o ≡ n) older.objects grown.objects
        (λ e. absurd (omega (arith, e)), (tt, tt));
}

pub growing-IsTick : IsTick arena growing growth
growing-IsTick = record {
  succeeds = rw growing_lem refl;
  succession = rw (growing_lem, growing_snapshot) (older_grown 8 9);
  tick = rw (growing_lem, growing_snapshot) refl;
}

older-IsExchangeable :
    (m n : ℕ) → IsExchangeable arena (record older { tick = m }) (record grown { tick = n })
unfolding find ◌-ℤ◌
older-IsExchangeable m n = record {
  fits =
      find-AllPairs (λ o n. Aligned Fits o.values n.values) older.objects grown.objects
        ((refl, tt, (refl, (omega arith, omega arith), tt)), (tt, tt));
  registered = (
    player-IsRegistered 1 (pos 12) (pos 3) (pos 4) (omega arith, omega arith) (omega arith)
        (omega arith),
    (
      player-IsRegistered 3 (pos 100) (pos 0) (pos 0) (omega arith, omega arith) (omega arith)
          (omega arith),
      tt,
    ),
  );
}

pub growing-IsExchangeable :
    IsExchangeable arena growing.current_snapshot (update_tick arena growing).0.current_snapshot
growing-IsExchangeable = rw (growing_lem, growing_snapshot) (older-IsExchangeable 8 9)
