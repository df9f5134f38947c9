-- ===== src/Core/Instance/Statuses.antt =====
-- The reports of a tick, and what a failing tick leaves behind.
use haraka_engine.Base.{
  ℕ, ◌≡◌, refl, sym, ap, ◌∙◌, subst, false, List, [], ◌∷◌, ◌++◌, append-nil, Result, ok, err, Error,
  arith, inl, inr, ◌⊎◌,
}
use haraka_engine.Base.Order.{Bytes}
use haraka_engine.Base.Text.{codes}
use haraka_engine.Base.Map.Prefix.{snoc-append}
use haraka_engine.Util.Deque.{deque}
use haraka_engine.Core.Platform.{Platform}
use haraka_engine.Core.Object.{Game}
use haraka_engine.Core.Snapshot
use haraka_engine.Core.Snapshot.{Snapshot}
use haraka_engine.Core.Delta.{DeltaSnapshot}
use haraka_engine.Core.Action.{GameAction, ActionStatus, Attempt, returns, throws, act}
use haraka_engine.Core.Instance.{
  GameInstance, report, play_action, play_all, finish_tick, update_tick,
}

abbrev pub status_ids : List ActionStatus → List ℕ
status_ids [] = []
status_ids (s ∷ statuses) = s.action_id ∷ status_ids statuses

status_ids-snoc :
    (statuses : List ActionStatus) (s : ActionStatus)
    → status_ids (statuses ++ s ∷ []) ≡ status_ids statuses ++ s.action_id ∷ []
status_ids-snoc [] s = refl
status_ids-snoc (t ∷ statuses) s = ap (λ r. t.action_id ∷ r) (status_ids-snoc statuses s)

pub Attempt-cases :
    {A : Type 0} (r : Attempt A)
    → ((a : A) × (r ≡ returns a)) ⊎ ((e : Error) × (m : Bytes) × (r ≡ throws e m))
Attempt-cases (returns a) = inl (a, refl)
Attempt-cases (throws e m) = inr (e, m, refl)

report_id :
    (id : ℕ) (r : Attempt (Unit {0})) (s : ActionStatus)
    → report id r ≡ returns s
    → s.action_id ≡ id
unfolding report
report_id id r s h = ground arith

-- What the loop over the queue leaves.
abbrev pub Played : Type 0 → Type 0
Played F = List (GameAction F) × List ActionStatus × Attempt (Snapshot F)

module _ {F : Type 0} where
  abbrev pub action_ids : List (GameAction F) → List ℕ
  action_ids [] = []
  action_ids (a ∷ actions) = a.id ∷ action_ids actions

  -- An action whose check returns false leaves the world as it is, and its report has its id, no
  -- success, and the message of the exception.
  pub play_action_refused :
      (a : GameAction F) (s : Snapshot F)
      → a.check_action a.values s ≡ returns false
      → play_action a s ≡ (
        s,
        returns (record {
          action_id = a.id;
          success = false;
          message = codes "Action cannot be activated";
        }),
      )
  unfolding play_action act report
  play_action_refused a s h = rw (h, act)

  pub play_all-cons :
      (a : GameAction F) (queue : List (GameAction F)) (s : Snapshot F)
      (statuses : List ActionStatus) (status : ActionStatus)
      → (play_action a s).1 ≡ returns status
      → play_all (a ∷ queue) s statuses
        ≡ play_all queue (play_action a s).0 (statuses ++ status ∷ [])
  unfolding play_all
  play_all-cons a queue s statuses status h = rw (h, play_all)

  pub play_all_thrown :
      (a : GameAction F) (queue : List (GameAction F)) (s : Snapshot F)
      (statuses : List ActionStatus) (e : Error) (m : Bytes)
      → (play_action a s).1 ≡ throws e m
      → play_all (a ∷ queue) s statuses ≡ (queue, statuses, throws e m)
  unfolding play_all
  play_all_thrown a queue s statuses e m h = rw (h, play_all)

  play_action_id :
      (a : GameAction F) (s : Snapshot F) (status : ActionStatus)
      → (play_action a s).1 ≡ returns status
      → status.action_id ≡ a.id
  unfolding play_action
  play_action_id a s status h = report_id a.id (act a s).1 status h

  -- A loop that ends without an exception has emptied the queue, with a report for each action.
  pub play_all-returns :
      (queue : List (GameAction F)) (s world : Snapshot F) (statuses : List ActionStatus)
      → (play_all queue s statuses).2 ≡ returns world
      → ((play_all queue s statuses).0 ≡ [])
        × (status_ids (play_all queue s statuses).1 ≡ status_ids statuses ++ action_ids queue)
  unfolding play_all
  play_all-returns [] s world statuses h = (refl, sym (append-nil (status_ids statuses)))
  play_all-returns (a ∷ queue) s world statuses h = elim (Attempt-cases (play_action a s).1) [
    | inl (status, e) ↦
        let same = play_all-cons a queue s statuses status e in
        let (emptied, ids) =
          play_all-returns queue (play_action a s).0 world (statuses ++ status ∷ [])
            (subst (λ (r : Played F). r.2 ≡ returns world) same h) in
        (
          ap (λ (r : Played F). r.0) same ∙ emptied,
          ap (λ (r : Played F). status_ids r.1) same
              ∙ ids
              ∙ ap (λ l. l ++ action_ids queue) (status_ids-snoc statuses status)
              ∙ ap (λ n. (status_ids statuses ++ n ∷ []) ++ action_ids queue)
                  (play_action_id a s status e)
              ∙ sym (snoc-append (status_ids statuses) a.id (action_ids queue)),
        )
    | inr (x, m, e) ↦
        absurd (cc (ap (λ (r : Played F). r.2) (play_all_thrown a queue s statuses x m e)))
  ]

module _ {F : Type 0} ⦃p : Platform F⦄ (g : Game F) (i : GameInstance F) where
  abbrev pub played : Played F
  played = play_all i.action_queue.queue (Snapshot.copy g i.current_snapshot) []

  abbrev pub emptied : GameInstance F
  emptied = record i { action_queue = deque played.0; action_status_list = played.1 }

  pub update_tick_returns :
      (world : Snapshot F)
      → played.2 ≡ returns world
      → update_tick g i ≡ finish_tick g emptied world
  unfolding update_tick
  update_tick_returns world h = rw (h, update_tick)

  pub update_tick_throws :
      (e : Error) (m : Bytes) → played.2 ≡ throws e m → update_tick g i ≡ (emptied, err e)
  unfolding update_tick
  update_tick_throws e m h = rw (h, update_tick)

  finish_tick_keeps :
      (j : GameInstance F) (world : Snapshot F)
      → ((finish_tick g j world).0.action_queue ≡ j.action_queue)
        × ((finish_tick g j world).0.action_status_list ≡ j.action_status_list)
        × ((finish_tick g j world).0.base_snapshot ≡ j.base_snapshot)
  unfolding finish_tick
  finish_tick_keeps j world = ground arith

  finish_tick_fails :
      (j : GameInstance F) (world : Snapshot F) (e : Error)
      → (finish_tick g j world).1 ≡ err e
      → (finish_tick g j world).0 ≡ j
  unfolding finish_tick
  finish_tick_fails j world e h = ground arith

  -- A tick that succeeds leaves the queue empty, and a report for each action that was in it, with
  -- the actions' ids in the order of the queue.
  pub update_tick_statuses :
      (delta : DeltaSnapshot F)
      → (update_tick g i).1 ≡ ok delta
      → ((update_tick g i).0.action_queue ≡ deque [])
        × (status_ids (update_tick g i).0.action_status_list ≡ action_ids i.action_queue.queue)
  update_tick_statuses delta h = elim (Attempt-cases played.2) [
    | inl (world, e) ↦
        let (none_left, ids) =
          play_all-returns i.action_queue.queue (Snapshot.copy g i.current_snapshot) world [] e in
        let (queue, statuses, _) = finish_tick_keeps emptied world in
        rw (update_tick_returns world e) (queue ∙ ap deque none_left, ap status_ids statuses ∙ ids)
    | inr (x, m, e) ↦ absurd (
        cc (
          h,
          ap (λ (r : GameInstance F × Result (DeltaSnapshot F)). r.1) (update_tick_throws x m e),
        ))
  ]

  -- A tick that fails, by an exception of an action or by a fault of the comparison, leaves the
  -- current snapshot, the base snapshot and the history as they were.
  pub update_tick_fails :
      (x : Error)
      → (update_tick g i).1 ≡ err x
      → ((update_tick g i).0.current_snapshot ≡ i.current_snapshot)
        × ((update_tick g i).0.base_snapshot ≡ i.base_snapshot)
        × ((update_tick g i).0.delta_snapshots ≡ i.delta_snapshots)
  update_tick_fails x h = elim (Attempt-cases played.2) [
    | inl (world, e) ↦
        rw
          (
            update_tick_returns world e,
            finish_tick_fails emptied world x (
                ap (λ (r : GameInstance F × Result (DeltaSnapshot F)). r.1)
                  (sym (update_tick_returns world e))
                ∙ h),
          )
          (refl, refl, refl)
    | inr (y, m, e) ↦ rw (update_tick_throws y m e) (refl, refl, refl)
  ]
