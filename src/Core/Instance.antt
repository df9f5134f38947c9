-- ===== src/Core/Instance.antt =====
-- core/gameinstance.hpp and core/gameinstance.cpp: the game that a server or a client runs. The queue
-- of actions is the deque of util/tsdeque.hpp; a tick takes it from front to back.
pub mod Statuses
pub mod Replay
pub mod Ticks
pub mod Following
use haraka_engine.Base.{
  ℕ, Bool, true, false, List, [], ◌∷◌, ◌++◌, Result, ok, err, Error, unknown_id, impossible_action,
}
use haraka_engine.Base.Order.{Bytes}
use haraka_engine.Base.Int.{ℤ, pos}
use haraka_engine.Util.Deque
use haraka_engine.Util.Deque.{Deque, deque}
use haraka_engine.Core.Platform.{Platform}
use haraka_engine.Core.Object.{Game}
use haraka_engine.Core.Snapshot
use haraka_engine.Core.Snapshot.{Snapshot}
use haraka_engine.Core.Delta
use haraka_engine.Core.Delta.{DeltaSnapshot}
use haraka_engine.Core.Action.{GameAction, ActionStatus, Attempt, returns, throws, act}

pub record GameInstance (F : Type 0) : Type 0 where
  pub action_queue : Deque (GameAction F)
  pub action_status_list : List ActionStatus
  pub tick_rate : ℕ
  pub ms_per_tick : F
  pub server_side : Bool
  pub base_snapshot : Snapshot F
  pub current_snapshot : Snapshot F
  pub delta_snapshots : List (DeltaSnapshot F)

-- How `_play_action` reports an action that threw: two exceptions of the engine are caught.
unfoldable pub report : ℕ → Attempt (Unit {0}) → Attempt ActionStatus
report id (returns _) = returns (record { action_id = id; success = true; message = [] })
report id (throws unknown_id message) =
    returns (record { action_id = id; success = false; message = message })
report id (throws impossible_action message) =
    returns (record { action_id = id; success = false; message = message })
report id (throws e message) = throws e message

module _ {F : Type 0} where
  unfoldable pub add_action : GameInstance F → GameAction F → GameInstance F
  add_action i a = record i { action_queue = Deque.push_back i.action_queue a }

  unfoldable pub action_list : GameInstance F → List (GameAction F)
  action_list i = Deque.to_vector i.action_queue

  unfoldable pub play_action : GameAction F → Snapshot F → Snapshot F × Attempt ActionStatus
  unfolding report
  play_action a s = let (s', result) = act a s in (s', report a.id result)

  -- The loop over the queue: what is left of the queue, the reports, and the world. An exception that
  -- is not caught leaves the loop, with its action popped.
  unfoldable pub play_all :
      List (GameAction F)
      → Snapshot F
      → List ActionStatus
      → List (GameAction F) × List ActionStatus × Attempt (Snapshot F)
  play_all [] s statuses = ([], statuses, returns s)
  play_all (a ∷ queue) s statuses =
      let (s', played) = play_action a s in
      elim played [
        | returns status ↦ play_all queue s' (statuses ++ status ∷ [])
        | throws e message ↦ (queue, statuses, throws e message)
      ]

module _ {F : Type 0} ⦃p : Platform F⦄ where
  -- `1000.0f / (float) _tick_rate`
  unfoldable pub ms_of : ℕ → F
  ms_of tick_rate = p.div (p.of_int (pos 1000)) (p.of_int (pos tick_rate))

  -- The constructor with `_initialize`: the base is a copy of the snapshot, and the current snapshot
  -- is assigned from the base.
  unfoldable pub create : Game F → Snapshot F → Bool → ℕ → GameInstance F
  create g s server_side tick_rate =
      let base = Snapshot.copy g s in
      record {
        action_queue = deque [];
        action_status_list = [];
        tick_rate = tick_rate;
        ms_per_tick = ms_of tick_rate;
        server_side = server_side;
        base_snapshot = base;
        current_snapshot = base;
        delta_snapshots = [];
      }

  -- The default constructor, which leaves `_ms_per_tick` as the memory had it; the current snapshot is
  -- a copy of the base.
  unfoldable pub create_default : Game F → F → GameInstance F
  create_default g ms_per_tick =
      let base = Snapshot.empty 0 in
      record {
        action_queue = deque [];
        action_status_list = [];
        tick_rate = 0;
        ms_per_tick = ms_per_tick;
        server_side = false;
        base_snapshot = base;
        current_snapshot = Snapshot.copy g base;
        delta_snapshots = [];
      }

  -- The end of `update_tick`, from the world that the actions left: physics, difference, history.
  unfoldable pub finish_tick :
      Game F → GameInstance F → Snapshot F → GameInstance F × Result (DeltaSnapshot F)
  finish_tick g i world =
      let next = Snapshot.update g (p.div i.ms_per_tick (p.of_int (pos 1000))) world in
      let current = i.current_snapshot in
      elim (Delta.evaluate (Delta.empty current.tick next.tick) current next) [
        | err e ↦ (i, err e)
        | ok delta ↦ (
          record i { delta_snapshots = i.delta_snapshots ++ delta ∷ []; current_snapshot = next },
          ok delta,
        )
      ]

  unfoldable pub update_tick : Game F → GameInstance F → GameInstance F × Result (DeltaSnapshot F)
  update_tick g i =
      let (queue, statuses, played) =
        play_all i.action_queue.queue (Snapshot.copy g i.current_snapshot) [] in
      let i' : GameInstance F = record i {
        action_queue = deque queue;
        action_status_list = statuses;
      } in
      elim played [ returns world ↦ finish_tick g i' world | throws e message ↦ (i', err e) ]
