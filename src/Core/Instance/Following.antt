-- ===== src/Core/Instance/Following.antt =====
-- Histories with ticks that fail: what a client that replays them has.
use haraka_engine.Base.{
  ℕ, ◌≡◌, sym, ◌∙◌, Bool, some, length, length-append, [], ◌∷◌, ok, err, Error,
}
use haraka_engine.Base.Order.{nat_ord}
use haraka_engine.Base.Map.{find}
use haraka_engine.Core.Platform.{Platform, IsIeee}
use haraka_engine.Core.Object
use haraka_engine.Core.Object.{Game, GameObject, Clones}
use haraka_engine.Core.Object.Compare.{IsExactPair}
use haraka_engine.Core.Snapshot.{Snapshot}
use haraka_engine.Core.Snapshot.WellFormed.{IsSnapshot, KeepsIds}
use haraka_engine.Core.Delta.{DeltaSnapshot}
use haraka_engine.Core.Action.{GameAction}
use haraka_engine.Core.Instance.{GameInstance, create, add_action, update_tick}
use haraka_engine.Core.Instance.Statuses.{update_tick_fails}
use haraka_engine.Core.Instance.Replay.{
  IsTick, IsReplayed, ticked-IsReplayed, create-IsReplayed, add_action-IsReplayed,
  update_tick-IsRecorded,
}
use haraka_engine.Core.Instance.Ticks.{
  IsTame, IsCounted, Life, update_tick-IsCounted, Life-IsCounted,
}
use haraka_engine.Core.Instance.Ticks
use haraka_engine.Core.Instance.Ticks.{one_more}

module _ {F : Type 0} ⦃p : Platform F⦄ where
  -- The objects that are in both snapshots have exact differences, and no two states of one of them
  -- have the same checksum by chance.
  pub record IsComparable (prev next : Snapshot F) : Type 0 where
    pub exact :
        (id : ℕ) (o n : GameObject F)
        → find id prev.objects ≡ some o
        → find id next.objects ≡ some n
        → IsExactPair o n
    pub no_collision :
        (id : ℕ) (o n : GameObject F)
        → find id prev.objects ≡ some o
        → find id next.objects ≡ some n
        → Object.checksum o ≡ Object.checksum n
        → o ≡ n

module _ {F : Type 0} ⦃p : Platform F⦄ (g : Game F) where
  -- The states of an instance: tame actions are queued; a tick fails, or succeeds between snapshots
  -- that can be compared.
  pub data Course (i : GameInstance F) : GameInstance F → Type 0 where
    begin : Course i i
    queued :
        {j : GameInstance F}
        → Course i j
        → (a : GameAction F) → IsTame a
        → Course i (add_action j a)
    ticked :
        {j : GameInstance F} (delta : DeltaSnapshot F)
        → Course i j
        → (update_tick g j).1 ≡ ok delta
        → IsComparable j.current_snapshot (update_tick g j).0.current_snapshot
        → Course i (update_tick g j).0
    failed :
        {j : GameInstance F} (x : Error)
        → Course i j
        → (update_tick g j).1 ≡ err x
        → Course i (update_tick g j).0

  Course-Life : {i j : GameInstance F} → Course i j → Life g i j
  Course-Life begin = Ticks.begin
  Course-Life (queued c a tame) = Ticks.queued (Course-Life c) a tame
  Course-Life (ticked delta c made compared) = Ticks.ticked (Course-Life c)
  Course-Life (failed x c thrown) = Ticks.ticked (Course-Life c)

  failed-IsReplayed :
      (i : GameInstance F) (x : Error)
      → (update_tick g i).1 ≡ err x
      → IsReplayed g i
      → IsReplayed g (update_tick g i).0
  failed-IsReplayed i x thrown r =
      let (current, base, history) = update_tick_fails g i x thrown in rw (current, base, history) r

  module _ (ieee : IsIeee p) (clones : Clones g) (keeps : KeepsIds g) where
    counted-IsTick :
        (i : GameInstance F) (delta : DeltaSnapshot F)
        → IsCounted g i
        → (update_tick g i).1 ≡ ok delta
        → IsComparable i.current_snapshot (update_tick g i).0.current_snapshot
        → IsTick g i delta
    counted-IsTick i delta c made compared =
        let after = update_tick-IsCounted g i keeps c in
        let recorded = update_tick-IsRecorded g i delta made in
        record {
          succeeds = made;
          succession = record {
            older = c.well_formed;
            newer = after.well_formed;
            exact = compared.exact;
            no_collision = compared.no_collision;
          };
          tick =
              (rw (recorded.base, recorded.history, length-append i.delta_snapshots (delta ∷ [])) at
                after.tick)
              ∙ sym (
                  one_more i.base_snapshot.tick (length i.delta_snapshots) i.current_snapshot.tick
                    c.tick);
        }

    -- With IEEE floats, a `clone` that copies, a game that keeps ids, and a well-formed snapshot to
    -- begin with: of every instance that is reached by queueing tame actions, which leave a well-
    -- formed world well formed and at its tick, by ticks that fail in any way, and by ticks that
    -- succeed between snapshots whose common objects have exact differences (an unchanged
    -- `PrimitiveValueNoInterp` among them) and no collision of checksums, the differences of the
    -- history, applied in turn at 1.0 to the base snapshot, give the current snapshot.
    pub Course-IsReplayed :
        (s : Snapshot F) (server_side : Bool) (tick_rate : ℕ) {j : GameInstance F}
        → IsSnapshot s
        → Course (create g s server_side tick_rate) j
        → IsReplayed g j
    Course-IsReplayed s server_side tick_rate h begin = create-IsReplayed g s server_side tick_rate
    Course-IsReplayed s server_side tick_rate h (queued {j} c a tame) =
        add_action-IsReplayed g j a (Course-IsReplayed s server_side tick_rate h c)
    Course-IsReplayed s server_side tick_rate h (ticked {j} delta c made compared) =
        let counted = Life-IsCounted g s server_side tick_rate keeps h (Course-Life c) in
        ticked-IsReplayed g ieee clones j delta (counted-IsTick j delta counted made compared)
          (Course-IsReplayed s server_side tick_rate h c)
    Course-IsReplayed s server_side tick_rate h (failed {j} x c thrown) =
        failed-IsReplayed j x thrown (Course-IsReplayed s server_side tick_rate h c)
