-- ===== src/Core/Examples/Tick.antt =====
-- The theorems on the game instance, used on the example game.
use haraka_engine.Base.{◌≡◌, refl, subst, Result, true, false, [], ◌∷◌, ok, err, haraka}
use haraka_engine.Base.Int.{ℤ, pos, negsuc, ◌-ℤ◌, ◌+ℤ◌}
use haraka_engine.Base.Map.{find, assign, insert}
use haraka_engine.Base.Text.{codes}
use haraka_engine.Util.Deque
use haraka_engine.Util.Deque.{deque}
use haraka_engine.Core.Platform.{whole_floats, whole_floats-IsIeee}
use haraka_engine.Core.Types
use haraka_engine.Core.Types.{int_value, vec2f}
use haraka_engine.Core.Types.Primitives
use haraka_engine.Core.Types.Vectors
use haraka_engine.Core.Object
use haraka_engine.Core.Snapshot
use haraka_engine.Core.Delta
use haraka_engine.Core.Delta.{DeltaSnapshot}
use haraka_engine.Core.Action
use haraka_engine.Core.Action.{returns, throws, GameAction}
use haraka_engine.Core.Instance
use haraka_engine.Core.Instance.{GameInstance, create, add_action, update_tick, play_action}
use haraka_engine.Core.Instance.Statuses.{status_ids, update_tick_statuses, update_tick_fails}
use haraka_engine.Core.Instance.Replay.{
  IsReplayed, IsTick, begin, queued, ticked, History-IsReplayed,
}
use haraka_engine.Core.Delta.Pipeline.{IsExchangeable}
use haraka_engine.Core.Examples.Classes.{older_newer}
use haraka_engine.Core.Instance.Ticks
use haraka_engine.Core.Instance.Ticks.{IsTame, IsCounted, Life-IsCounted}
use haraka_engine.Core.Instance.Following
use haraka_engine.Core.Instance.Following.{IsComparable, Course, Course-IsReplayed}
use haraka_engine.Core.Examples.{
  arena-KeepsIds, older-IsSnapshot, newer-IsSnapshot, arena, arena-Clones, older, newer, player,
  succession, join, cheat,
}

-- An instance with a refused action and a possible one in its queue.
abbrev pub waiting : GameInstance ℤ
waiting = add_action (add_action (create arena older true 20) (cheat 4)) (join 6 (pos 30))

abbrev pub delta : DeltaSnapshot ℤ
delta = record {
  prev_tick = 8;
  next_tick = 9;
  delta_values =
      (
        1,
        (codes "life", int_value (negsuc 1))
            ∷ (codes "pos", vec2f (record { x = negsuc 2; y = pos 4 }))
            ∷ [],
      )
      ∷ [];
  deleted_objects = 2 ∷ [];
  added_objects = (3, player 3 (pos 100) (pos 0) (pos 0)) ∷ [];
}

-- What the tick makes of it.
abbrev pub served : GameInstance ℤ
served = record waiting {
  action_queue = deque [];
  action_status_list =
      record { action_id = 4; success = false; message = codes "Action cannot be activated" }
      ∷ record { action_id = 6; success = true; message = [] }
      ∷ [];
  current_snapshot = record newer { tick = 9 };
  delta_snapshots = delta ∷ [];
}

pub waiting_lem : update_tick arena waiting ≡ (served, ok delta)
unfolding Instance.update_tick Instance.finish_tick Instance.create Instance.ms_of
    Instance.add_action Instance.play_all Instance.play_action Instance.report Action.act
    Deque.push_back Snapshot.copy Snapshot.copy_objects Snapshot.update Snapshot.get_object
    Delta.empty Delta.evaluate Delta.scan_prev Delta.scan_next Delta.visit_prev Delta.visit_next
    Object.checksum Object.checksum_bytes Object.compare Object.compare_values Types.checksum
    Types.get_delta Types.cast_int Types.cast_vec2f Primitives.checksum Primitives.get_delta
    Vectors.checksum Vectors.get_delta Vectors.minus Primitives.serialize Vectors.serialize find
    assign insert ◌-ℤ◌ ◌+ℤ◌
waiting_lem = refl

waiting_snapshot : waiting.current_snapshot ≡ record older { tick = 8 }
unfolding Instance.create Instance.add_action Snapshot.copy Snapshot.copy_objects assign
waiting_snapshot = refl

pub waiting-IsTick : IsTick arena waiting delta
waiting-IsTick = record {
  succeeds = rw waiting_lem refl;
  succession = rw (waiting_lem, waiting_snapshot) (succession 8 9);
  tick = rw (waiting_lem, waiting_snapshot) refl;
}

pub waiting-IsExchangeable :
    IsExchangeable arena waiting.current_snapshot (update_tick arena waiting).0.current_snapshot
waiting-IsExchangeable = rw (waiting_lem, waiting_snapshot) (older_newer 8 9)

History-IsReplayed_example : IsReplayed arena (update_tick arena waiting).0
History-IsReplayed_example =
    History-IsReplayed arena whole_floats-IsIeee arena-Clones older true 20
      (ticked (queued (queued begin (cheat 4)) (join 6 (pos 30))) delta waiting-IsTick)

update_tick_statuses_example :
    ((update_tick arena waiting).0.action_queue ≡ deque [])
    × (status_ids (update_tick arena waiting).0.action_status_list ≡ 4 ∷ 6 ∷ [])
unfolding Instance.create Instance.add_action Deque.push_back
update_tick_statuses_example = update_tick_statuses arena waiting delta waiting-IsTick.succeeds

-- An action that throws an exception of its own.
abbrev broken : GameAction ℤ
broken = record {
  id = 9;
  values = [];
  type_name = codes "B";
  check_action = λ values world. returns true;
  perform_act = λ values world. (Snapshot.empty 0, throws haraka (codes "no"));
}

abbrev failing : GameInstance ℤ
failing = add_action (create arena older true 20) broken

failing_lem : (update_tick arena failing).1 ≡ err haraka
unfolding Instance.update_tick Instance.finish_tick Instance.create Instance.ms_of
    Instance.add_action Instance.play_all Instance.play_action Instance.report Action.act
    Deque.push_back Snapshot.copy Snapshot.copy_objects Snapshot.update Snapshot.get_object
    Delta.empty Delta.evaluate Delta.scan_prev Delta.scan_next Delta.visit_prev Delta.visit_next
    Object.checksum Object.checksum_bytes Object.compare Object.compare_values Types.checksum
    Types.get_delta Types.cast_int Types.cast_vec2f Primitives.checksum Primitives.get_delta
    Vectors.checksum Vectors.get_delta Vectors.minus Primitives.serialize Vectors.serialize find
    assign insert ◌-ℤ◌ ◌+ℤ◌
failing_lem = refl

update_tick_fails_example :
    ((update_tick arena failing).0.current_snapshot ≡ failing.current_snapshot)
    × ((update_tick arena failing).0.base_snapshot ≡ failing.base_snapshot)
    × ((update_tick arena failing).0.delta_snapshots ≡ failing.delta_snapshots)
update_tick_fails_example = update_tick_fails arena failing haraka failing_lem

cheat-IsTame : IsTame (cheat 4)
cheat-IsTame tick world w = w

join-IsTame : IsTame (join 6 (pos 30))
join-IsTame tick world w =
    (record { sorted = newer-IsSnapshot.sorted; keyed = newer-IsSnapshot.keyed }, w.1)

-- An action that throws before it does anything.
abbrev hasty : GameAction ℤ
hasty = record broken { perform_act = λ values world. (world, throws haraka (codes "no")) }

hasty-IsTame : IsTame hasty
hasty-IsTame tick world w = w

abbrev delayed : GameInstance ℤ
delayed = add_action served hasty

delayed_lem : (update_tick arena delayed).1 ≡ err haraka
unfolding Instance.update_tick Instance.add_action Instance.play_all Instance.play_action
    Instance.report Action.act Deque.push_back
delayed_lem = refl

waiting-IsComparable :
    IsComparable waiting.current_snapshot (update_tick arena waiting).0.current_snapshot
waiting-IsComparable = record {
  exact = waiting-IsTick.succession.exact;
  no_collision = waiting-IsTick.succession.no_collision;
}

served-Course : Course arena (create arena older true 20) served
served-Course =
    subst
      (λ (r : GameInstance ℤ × Result (DeltaSnapshot ℤ)).
        Course arena (create arena older true 20) r.0)
      waiting_lem
      (Following.ticked delta
        (Following.queued (Following.queued Following.begin (cheat 4) cheat-IsTame)
          (join 6 (pos 30)) join-IsTame)
        waiting-IsTick.succeeds waiting-IsComparable)

Course-IsReplayed_example : IsReplayed arena (update_tick arena delayed).0
Course-IsReplayed_example =
    Course-IsReplayed arena whole_floats-IsIeee arena-Clones arena-KeepsIds older true 20
      older-IsSnapshot
      (Following.failed haraka (Following.queued served-Course hasty hasty-IsTame) delayed_lem)

Life-IsCounted_example :
    IsCounted arena
      (update_tick arena (add_action (update_tick arena (create arena older true 20)).0 hasty)).0
Life-IsCounted_example =
    Life-IsCounted arena older true 20 arena-KeepsIds older-IsSnapshot
      (Ticks.ticked (Ticks.queued (Ticks.ticked Ticks.begin) hasty hasty-IsTame))
