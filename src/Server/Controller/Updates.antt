-- ===== src/Server/Controller/Updates.antt =====
-- `update_tick` and `_send_delta_update`: what the clients are sent of a tick, and what they make of
-- it.
use haraka_engine.Base.{
  ℕ, ◌≡◌, refl, sym, ap, ◌∙◌, Bool, Bool-cases, inl, inr, Option, none, some, List, [], ◌∷◌, ◌++◌,
  Result, ok, err, haraka, invalid_delete, ◌>>=◌, or_fail,
}
use haraka_engine.Core.Platform.{Platform, IsIeee}
use haraka_engine.Core.Object.{Game, Clones}
use haraka_engine.Core.Snapshot.{Snapshot}
use haraka_engine.Core.Delta
use haraka_engine.Core.Delta.{DeltaSnapshot, DeltaBuffer}
use haraka_engine.Core.Delta.Pipeline.{IsExchangeable, delta_exchange}
use haraka_engine.Core.Instance
use haraka_engine.Core.Instance.{GameInstance}
use haraka_engine.Core.Instance.Replay.{IsTick, update_tick-IsRecorded}
use haraka_engine.Net.Session.{Packet}
use haraka_engine.Net.Server.Broadcast.{live, mail, told_all, message_all_clients_lem}
use haraka_engine.Server.Controller.{
  PacketType, delta_snapshot_result, Codec, Controller, ServerController, encode_packet,
  on_client_disconnect, delta_update, send_delta_update, update_tick,
}
use haraka_engine.Server.Controller.Messages.{IsSendable, ReadsBack}

module _ {F : Type 0} ⦃p : Platform F⦄ (g : Game F) (codec : Codec) where
  -- What a client that holds a snapshot makes of a packet: the body is parsed, the difference read
  -- with the snapshot as its reference, and applied in full.
  unfoldable pub followed : Snapshot F → Packet PacketType → Result (Snapshot F)
  followed held packet = do
    buffer ← or_fail (codec.read_delta packet.body) haraka
    d ← Delta.deserialize g buffer held
    Delta.apply g held d p.one

  abbrev pub update_packet : DeltaSnapshot F → Packet PacketType
  update_packet delta =
      encode_packet (codec.write_delta (Delta.serialize delta)) delta_snapshot_result

  abbrev told_instance : (connected : ℕ → Bool) → List (Option ℕ) → Controller F → Controller F
  told_instance connected = told_all connected on_client_disconnect

  pub update_tick_lem :
      (s : ServerController F) (delta : DeltaSnapshot F)
      → (Instance.update_tick g s.derived.game_instance).1 ≡ ok delta
      → update_tick g codec s ≡ (
        record s {
          sessions = live s.connected s.sessions;
          outbox = s.outbox ++ mail s.connected (update_packet delta) none s.sessions;
          derived = told_all s.connected on_client_disconnect s.sessions (record s.derived {
            game_instance = (Instance.update_tick g s.derived.game_instance).0;
          });
        },
        err invalid_delete,
      )
  unfolding update_tick send_delta_update delta_update
  update_tick_lem s delta h =
      rw (h, update_tick, message_all_clients_lem on_client_disconnect (update_packet delta) none)

  told_all_instance :
      (connected : ℕ → Bool) (clients : List (Option ℕ)) (h : Controller F)
      → (told_instance connected clients h).game_instance ≡ h.game_instance
  unfolding on_client_disconnect
  told_all_instance connected [] h = refl
  told_all_instance connected (none ∷ clients) h =
      told_all_instance connected clients (on_client_disconnect h none)
  told_all_instance connected (some c ∷ clients) h = elim (Bool-cases (connected c)) [
    | inl e ↦ rw e (told_all_instance connected clients h)
    | inr e ↦ rw e (told_all_instance connected clients (on_client_disconnect h (some c)))
  ]

  -- The clients are sent one packet each, from which one that holds the snapshot before the tick gets
  -- the snapshot behind it.
  pub record IsBroadcast (s t : ServerController F) : Type 0 where
    pub packet : Packet PacketType
    pub sent : t.outbox ≡ s.outbox ++ mail s.connected packet none s.sessions
    pub kept : t.sessions ≡ live s.connected s.sessions
    pub follows :
        followed s.derived.game_instance.current_snapshot packet
        ≡ ok t.derived.game_instance.current_snapshot

  module _ (ieee : IsIeee p) (clones : Clones g) (reads_back : ReadsBack codec) where
    pub followed_lem :
        (i : GameInstance F) (delta : DeltaSnapshot F)
        → IsTick g i delta
        → IsExchangeable g i.current_snapshot (Instance.update_tick g i).0.current_snapshot
        → IsSendable codec (Delta.serialize delta)
        → followed i.current_snapshot (update_packet delta)
          ≡ ok (Instance.update_tick g i).0.current_snapshot
    unfolding followed encode_packet
    followed_lem i delta h x sendable =
        let next = (Instance.update_tick g i).0.current_snapshot in
        let (d, made, received) =
          delta_exchange ieee g clones i.current_snapshot next h.succession x in
        let same : d ≡ delta = cc (made, (update_tick-IsRecorded g i delta h.succeeds).evaluated) in
        rw (reads_back (Delta.serialize delta) sendable, sym same, received, sym h.tick)

    -- With IEEE floats, a `clone` that copies, and a codec that reads back what proto3 allows: when
    -- the instance's tick succeeds, its two snapshots in succession, one tick apart, and fit to be
    -- exchanged, and the buffer of its difference is such a message (its strings in UTF-8, its
    -- numbers in 32 bits, its maps with each key once, below 2 ^ 31 bytes), the server's
    -- `update_tick` drops the sessions that are not connected, sends each other one a packet, and
    -- then ends in the delete of a local object; a client that holds the snapshot before the tick
    -- parses, reads and applies the packet to get the server's new snapshot.
    pub update_tick-IsBroadcast :
        (s : ServerController F) (delta : DeltaSnapshot F)
        → IsTick g s.derived.game_instance delta
        → IsExchangeable g s.derived.game_instance.current_snapshot
            (Instance.update_tick g s.derived.game_instance).0.current_snapshot
        → IsSendable codec (Delta.serialize delta)
        → ((update_tick g codec s).1 ≡ err invalid_delete) × IsBroadcast s (update_tick g codec s).0
    update_tick-IsBroadcast s delta h x sendable = rw (update_tick_lem s delta h.succeeds) (
      refl,
      record {
        packet = update_packet delta;
        sent = refl;
        kept = refl;
        follows =
            followed_lem s.derived.game_instance delta h x sendable
            ∙ ap (λ (i : GameInstance F). ok i.current_snapshot)
                (sym (told_all_instance s.connected s.sessions _));
      },
    )
