-- ===== src/Core/Instance/Replay.antt =====
-- The history of differences that an instance keeps, replayed from its base snapshot, as a client
-- does that follows a server.
use haraka_engine.Base.{
  ℕ, ◌+◌, ◌%◌, ◌^◌, ◌≡◌, refl, sym, ap, ◌∙◌, subst, Bool, List, [], ◌∷◌, ◌++◌, Result, ok, err,
  Error, ◌>>=◌, >>=-eq-ok, >>=-ok, Result-cases, inl, inr,
}
use haraka_engine.Base.Int.{pos}
use haraka_engine.Core.Platform.{Platform, IsIeee}
use haraka_engine.Core.Object.{Game, Clones}
use haraka_engine.Core.Snapshot
use haraka_engine.Core.Snapshot.{Snapshot}
use haraka_engine.Core.Delta
use haraka_engine.Core.Delta.{DeltaSnapshot, evaluate, apply}
use haraka_engine.Core.Delta.Pairs.{IsSuccession}
use haraka_engine.Core.Delta.Sync.{apply-evaluate}
use haraka_engine.Core.Action.{GameAction}
use haraka_engine.Core.Instance.{GameInstance, create, add_action, finish_tick, update_tick}
use haraka_engine.Core.Instance.Statuses.{
  Attempt-cases, played, emptied, update_tick_returns, update_tick_throws,
}

module _ {F : Type 0} ⦃p : Platform F⦄ (g : Game F) where
  -- The differences, applied in turn and in full.
  unfoldable pub replay : Snapshot F → List (DeltaSnapshot F) → Result (Snapshot F)
  replay s [] = ok s
  replay s (d ∷ ds) = do s' ← apply g s d p.one; replay s' ds

  replay-snoc :
      (s t : Snapshot F) (ds : List (DeltaSnapshot F)) (d : DeltaSnapshot F)
      → replay s ds ≡ ok t
      → replay s (ds ++ d ∷ []) ≡ apply g t d p.one
  unfolding replay
  replay-snoc s t [] d e =
      let q : s ≡ t = cc in >>=-ok (apply g s d p.one) ∙ ap (λ r. apply g r d p.one) q
  replay-snoc s t (c ∷ ds) d e =
      let (u, f, rest) = >>=-eq-ok (apply g s c p.one) _ e in rw f (replay-snoc u t ds d rest)

  -- A tick whose two snapshots are in succession, the newer one tick on.
  pub record IsTick (i : GameInstance F) (delta : DeltaSnapshot F) : Type 0 where
    pub succeeds : (update_tick g i).1 ≡ ok delta
    pub succession : IsSuccession i.current_snapshot (update_tick g i).0.current_snapshot
    pub tick : (update_tick g i).0.current_snapshot.tick ≡ (i.current_snapshot.tick + 1) % 2 ^ 32

  -- The states that an instance goes through.
  pub data History (i : GameInstance F) : GameInstance F → Type 0 where
    begin : History i i
    queued : {j : GameInstance F} → History i j → (a : GameAction F) → History i (add_action j a)
    ticked :
        {j : GameInstance F}
        → History i j
        → (delta : DeltaSnapshot F) → IsTick j delta
        → History i (update_tick g j).0

  abbrev pub IsReplayed : GameInstance F → Type 0
  IsReplayed i = replay i.base_snapshot i.delta_snapshots ≡ ok i.current_snapshot

  -- A tick adds the difference of its two snapshots to the history.
  pub record IsRecorded (i : GameInstance F) (delta : DeltaSnapshot F) (j : GameInstance F)
      : Type 0 where
    pub evaluated :
        evaluate
          (Delta.empty i.current_snapshot.tick j.current_snapshot.tick)
          i.current_snapshot
          j.current_snapshot
        ≡ ok delta
    pub history : j.delta_snapshots ≡ i.delta_snapshots ++ delta ∷ []
    pub base : j.base_snapshot ≡ i.base_snapshot

  abbrev pub moved : GameInstance F → Snapshot F → Snapshot F
  moved i world = Snapshot.update g (p.div i.ms_per_tick (p.of_int (pos 1000))) world

  abbrev pub difference : GameInstance F → Snapshot F → Result (DeltaSnapshot F)
  difference i world =
      evaluate (Delta.empty i.current_snapshot.tick (moved i world).tick) i.current_snapshot
        (moved i world)

  pub finish_tick_ok :
      (i : GameInstance F) (world : Snapshot F) (d : DeltaSnapshot F)
      → difference i world ≡ ok d
      → finish_tick g i world ≡ (
        record i {
          delta_snapshots = i.delta_snapshots ++ d ∷ [];
          current_snapshot = moved i world;
        },
        ok d,
      )
  unfolding finish_tick
  finish_tick_ok i world d e = rw (e, finish_tick)

  pub finish_tick_err :
      (i : GameInstance F) (world : Snapshot F) (x : Error)
      → difference i world ≡ err x
      → finish_tick g i world ≡ (i, err x)
  unfolding finish_tick
  finish_tick_err i world x e = rw (e, finish_tick)

  abbrev pub Ticked : Type 0
  Ticked = GameInstance F × Result (DeltaSnapshot F)

  finish_tick-IsRecorded :
      (i : GameInstance F) (world : Snapshot F) (delta : DeltaSnapshot F)
      → (finish_tick g i world).1 ≡ ok delta
      → IsRecorded i delta (finish_tick g i world).0
  finish_tick-IsRecorded i world delta h = elim (Result-cases (difference i world)) [
    | inl (d, e) ↦
        let made = finish_tick_ok i world d e in
        let same : d ≡ delta = cc (h, ap (λ (r : Ticked). r.1) made) in
        rw made (record {
          evaluated = e ∙ ap ok same;
          history = ap (λ x. i.delta_snapshots ++ x ∷ []) same;
          base = refl;
        })
    | inr (x, e) ↦ absurd (cc (h, ap (λ (r : Ticked). r.1) (finish_tick_err i world x e)))
  ]

  pub update_tick-IsRecorded :
      (i : GameInstance F) (delta : DeltaSnapshot F)
      → (update_tick g i).1 ≡ ok delta
      → IsRecorded i delta (update_tick g i).0
  update_tick-IsRecorded i delta h = elim (Attempt-cases (played g i).2) [
    | inl (world, e) ↦
        let q = update_tick_returns g i world e in
        let r =
          finish_tick-IsRecorded (emptied g i) world delta (sym (ap (λ (r : Ticked). r.1) q) ∙ h) in
        rw q (record { evaluated = r.evaluated; history = r.history; base = r.base })
    | inr (x, m, e) ↦ absurd (cc (h, ap (λ (r : Ticked). r.1) (update_tick_throws g i x m e)))
  ]

  pub create-IsReplayed :
      (s : Snapshot F) (server_side : Bool) (tick_rate : ℕ)
      → IsReplayed (create g s server_side tick_rate)
  unfolding create replay
  create-IsReplayed s server_side tick_rate = refl

  pub add_action-IsReplayed :
      (i : GameInstance F) (a : GameAction F) → IsReplayed i → IsReplayed (add_action i a)
  unfolding add_action
  add_action-IsReplayed i a h = h

  module _ (ieee : IsIeee p) (clones : Clones g) where
    -- With IEEE floats and a `clone` that copies: of a tick that succeeds between snapshots in
    -- succession, one tick apart, the difference it returns, applied at 1.0 to the snapshot before
    -- the tick, gives the snapshot behind it.
    pub update_tick_sync :
        (i : GameInstance F) (delta : DeltaSnapshot F)
        → IsTick i delta
        → apply g i.current_snapshot delta p.one ≡ ok (update_tick g i).0.current_snapshot
    update_tick_sync i delta h =
        let next = (update_tick g i).0.current_snapshot in
        let (d, found, applied) =
          apply-evaluate ieee g clones i.current_snapshot next h.succession in
        let same : d ≡ delta = cc (found, (update_tick-IsRecorded i delta h.succeeds).evaluated) in
        subst (λ x. apply g i.current_snapshot x p.one ≡ ok next) same
          (applied ∙ ap (λ t. ok (record next { tick = t })) (sym h.tick))

    pub ticked-IsReplayed :
        (i : GameInstance F) (delta : DeltaSnapshot F)
        → IsTick i delta
        → IsReplayed i
        → IsReplayed (update_tick g i).0
    ticked-IsReplayed i delta h r =
        let recorded = update_tick-IsRecorded i delta h.succeeds in
        rw (recorded.history, recorded.base)
          (replay-snoc i.base_snapshot i.current_snapshot i.delta_snapshots delta r
            ∙ update_tick_sync i delta h)

    -- With IEEE floats and a `clone` that copies: of every instance that is reached from a new one
    -- by queueing actions and by ticks that succeed between snapshots in succession, one tick
    -- apart, the differences of its history, applied in turn at 1.0 to its base snapshot, give its
    -- current snapshot.
    pub History-IsReplayed :
        (s : Snapshot F) (server_side : Bool) (tick_rate : ℕ) {j : GameInstance F}
        → History (create g s server_side tick_rate) j
        → IsReplayed j
    History-IsReplayed s server_side tick_rate begin = create-IsReplayed s server_side tick_rate
    History-IsReplayed s server_side tick_rate (queued {j} h a) =
        add_action-IsReplayed j a (History-IsReplayed s server_side tick_rate h)
    History-IsReplayed s server_side tick_rate (ticked {j} h delta t) =
        ticked-IsReplayed j delta t (History-IsReplayed s server_side tick_rate h)
