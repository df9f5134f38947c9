-- ===== src/Core/Instance/Ticks.antt =====
-- The ticks that an instance counts, over ticks that succeed and ticks that fail.
use haraka_engine.Base.{
  ℕ, ◌+◌, ◌%◌, ◌^◌, ◌≡◌, refl, sym, ap, ◌∙◌, subst, Bool, List, [], ◌∷◌, ◌++◌, length,
  length-append, All, Result-cases, inl, inr, Bool-cases, arith,
}
use haraka_engine.Util.Deque
use haraka_engine.Util.Deque.{deque}
use haraka_engine.Core.Platform.{Platform}
use haraka_engine.Core.Object.{Game}
use haraka_engine.Core.Snapshot
use haraka_engine.Core.Snapshot.{Snapshot}
use haraka_engine.Core.Snapshot.WellFormed.{
  IsSnapshot, KeepsIds, copy-IsSnapshot, update-IsSnapshot,
}
use haraka_engine.Core.Action.{GameAction, ActionStatus, returns, act}
use haraka_engine.Core.Instance.{
  GameInstance, create, create_default, add_action, play_action, play_all, finish_tick, update_tick,
}
use haraka_engine.Core.Instance.Statuses.{
  Attempt-cases, play_all-cons, play_all_thrown, played, emptied, update_tick_returns,
  update_tick_throws,
}
use haraka_engine.Core.Instance.Replay.{moved, difference, finish_tick_ok, finish_tick_err}

All-snoc :
    {A : Type 0} (P : A → Type 0) (a : A) (xs : List A) → P a → All P xs → All P (xs ++ a ∷ [])
All-snoc P a [] h all = (h, tt)
All-snoc P a (x ∷ xs) h all = (all.0, All-snoc P a xs h all.1)

pub one_more : (b n t : ℕ) → t ≡ (b + n) % 2 ^ 32 → (t + 1) % 2 ^ 32 ≡ (b + (n + 1)) % 2 ^ 32
one_more b n t e = omega (arith, e)

module _ {F : Type 0} where
  -- A well-formed snapshot of the tick.
  abbrev pub World : ℕ → Snapshot F → Type 0
  World tick s = IsSnapshot s × (s.tick ≡ tick)

  -- What the action does to the world, throwing or not, leaves it well formed, and at its tick.
  abbrev pub IsTame : GameAction F → Type 0
  IsTame a =
      (tick : ℕ) (world : Snapshot F)
      → World tick world
      → World tick (a.perform_act a.values world).0

  play_action-World :
      (a : GameAction F) (tick : ℕ) (s : Snapshot F)
      → IsTame a
      → World tick s
      → World tick (play_action a s).0
  unfolding play_action act
  play_action-World a tick s tame w = elim (Attempt-cases (a.check_action a.values s)) [
    | inl (b, e) ↦ elim (Bool-cases b) [
      | inl possible ↦ rw (e, possible, play_action, act) (tame tick s w)
      | inr refused ↦ rw (e, refused, play_action, act) w
    ]
    | inr (x, m, e) ↦ rw (e, play_action, act) w
  ]

  -- The actions that are left in the queue are tame, and the world is well formed and at its tick.
  play_all-World :
      (queue : List (GameAction F)) (tick : ℕ) (s : Snapshot F) (statuses : List ActionStatus)
      → All IsTame queue
      → World tick s
      → All IsTame (play_all queue s statuses).0
        × ((world : Snapshot F) → (play_all queue s statuses).2 ≡ returns world → World tick world)
  unfolding play_all
  play_all-World [] tick s statuses tame w = (tt, λ world e. subst (World tick) (cc) w)
  play_all-World (a ∷ queue) tick s statuses tame w = elim (Attempt-cases (play_action a s).1) [
    | inl (status, e) ↦ rw (play_all-cons a queue s statuses status e) (
        play_all-World queue tick (play_action a s).0 (statuses ++ status ∷ []) tame.1
          (play_action-World a tick s tame.0 w))
    | inr (x, m, e) ↦ rw (play_all_thrown a queue s statuses x m e) (tame.1, λ world f. absurd (cc))
  ]

module _ {F : Type 0} ⦃p : Platform F⦄ (g : Game F) where
  -- The queue holds tame actions; the current snapshot is well formed, and its tick is that of the base
  -- and one more for each difference of the history, in 32 bits.
  pub record IsCounted (i : GameInstance F) : Type 0 where
    pub tame : All IsTame i.action_queue.queue
    pub well_formed : IsSnapshot i.current_snapshot
    pub tick : i.current_snapshot.tick ≡ (i.base_snapshot.tick + length i.delta_snapshots) % 2 ^ 32

  -- The states of an instance whose actions are tame, through ticks that succeed or fail.
  pub data Life (i : GameInstance F) : GameInstance F → Type 0 where
    begin : Life i i
    queued :
        {j : GameInstance F} → Life i j → (a : GameAction F) → IsTame a → Life i (add_action j a)
    ticked : {j : GameInstance F} → Life i j → Life i (update_tick g j).0

  moved-World :
      (i : GameInstance F) (tick : ℕ) (world : Snapshot F)
      → KeepsIds g
      → World tick world
      → World tick (moved g i world)
  unfolding Snapshot.update
  moved-World i tick world keeps w = (update-IsSnapshot g _ world keeps w.0, w.1)

  finish_tick-IsCounted :
      (i : GameInstance F) (world : Snapshot F)
      → KeepsIds g
      → IsCounted i
      → World ((i.current_snapshot.tick + 1) % 2 ^ 32) world
      → IsCounted (finish_tick g i world).0
  finish_tick-IsCounted i world keeps c w = elim (Result-cases (difference g i world)) [
    | inl (d, e) ↦
        let w' = moved-World i _ world keeps w in
        let count = length-append i.delta_snapshots (d ∷ []) in
        rw (finish_tick_ok g i world d e) (record {
          tame = c.tame;
          well_formed = w'.0;
          tick =
              w'.1
              ∙ one_more i.base_snapshot.tick (length i.delta_snapshots) i.current_snapshot.tick
                  c.tick
              ∙ ap (λ n. (i.base_snapshot.tick + n) % 2 ^ 32) (sym count);
        })
    | inr (x, e) ↦ rw (finish_tick_err g i world x e) c
  ]

  pub update_tick-IsCounted :
      (i : GameInstance F) → KeepsIds g → IsCounted i → IsCounted (update_tick g i).0
  unfolding Snapshot.copy
  update_tick-IsCounted i keeps c =
      let start = copy-IsSnapshot g i.current_snapshot keeps c.well_formed in
      let (left, world_of) =
        play_all-World i.action_queue.queue ((i.current_snapshot.tick + 1) % 2 ^ 32)
          (Snapshot.copy g i.current_snapshot) [] c.tame (start, refl) in
      let c' : IsCounted (emptied g i) = record {
        tame = left;
        well_formed = c.well_formed;
        tick = c.tick;
      } in
      elim (Attempt-cases (played g i).2) [
        | inl (world, e) ↦
            rw (update_tick_returns g i world e)
              (finish_tick-IsCounted (emptied g i) world keeps c' (world_of world e))
        | inr (x, m, e) ↦ rw (update_tick_throws g i x m e) c'
      ]

  add_action-IsCounted :
      (i : GameInstance F) (a : GameAction F) → IsTame a → IsCounted i → IsCounted (add_action i a)
  unfolding add_action Deque.push_back
  add_action-IsCounted i a tame c = record {
    tame = All-snoc IsTame a i.action_queue.queue tame c.tame;
    well_formed = c.well_formed;
    tick = c.tick;
  }

  create-IsCounted :
      (s : Snapshot F) (server_side : Bool) (tick_rate : ℕ)
      → KeepsIds g
      → IsSnapshot s
      → IsCounted (create g s server_side tick_rate)
  unfolding create Snapshot.copy
  create-IsCounted s server_side tick_rate keeps h = record {
    tame = tt;
    well_formed = copy-IsSnapshot g s keeps h;
    tick = omega arith;
  }

  -- With a game that keeps ids, and a well-formed snapshot to begin with: in every state that an
  -- instance reaches by queueing actions that leave a well-formed world well formed and at its
  -- tick, and by ticks that succeed or fail in any way, the current snapshot is well formed, and
  -- its tick is that of the base plus the number of differences in the history, in 32 bits.
  pub Life-IsCounted :
      (s : Snapshot F) (server_side : Bool) (tick_rate : ℕ) {j : GameInstance F}
      → KeepsIds g
      → IsSnapshot s
      → Life (create g s server_side tick_rate) j
      → IsCounted j
  Life-IsCounted s server_side tick_rate keeps h begin =
      create-IsCounted s server_side tick_rate keeps h
  Life-IsCounted s server_side tick_rate keeps h (queued {j} l a tame) =
      add_action-IsCounted j a tame (Life-IsCounted s server_side tick_rate keeps h l)
  Life-IsCounted s server_side tick_rate keeps h (ticked {j} l) =
      update_tick-IsCounted j keeps (Life-IsCounted s server_side tick_rate keeps h l)

  -- The default constructor starts with a current snapshot that is one tick ahead of the base, and
  -- with no difference.
  create_default-IsCounted : (ms_per_tick : F) → ¬ IsCounted (create_default g ms_per_tick)
  unfolding create_default Snapshot.copy Snapshot.empty
  create_default-IsCounted ms_per_tick c = omega (arith, c.tick)
