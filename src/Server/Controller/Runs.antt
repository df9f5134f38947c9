-- ===== src/Server/Controller/Runs.antt =====
-- A server as it runs: sessions that come, go and send packets, in any order, and its own ticks.
use haraka_engine.Base.{map, ℕ, ◌≡◌, Bool, Result-cases, inl, inr, Option, none, List, ok}
use haraka_engine.Core.Platform.{Platform}
use haraka_engine.Core.Object.{Game}
use haraka_engine.Core.Instance
use haraka_engine.Net.Session.{Packet}
use haraka_engine.Net.Server
use haraka_engine.Net.Server.{OwnedPacket}
use haraka_engine.Util.Deque.{Deque, deque}
use haraka_engine.Server.Controller.{
  PacketType, Codec, ServerController, on_client_disconnect, virtuals, message_all_logged, create,
  send_delta_update, update_tick,
}
use haraka_engine.Server.Controller.Sessions.{IsLog}
use haraka_engine.Server.Controller.Keeps.{
  Logs, from_session, message_client-Logs, message_all_clients-Logs, visit_logged-Logs,
  accept_session-Logs, update-Logs,
}

module _ {F : Type 0} ⦃p : Platform F⦄ (g : Game F) (codec : Codec) where
  -- One thing that happens: a session that `async_accept` has made, the loop of `update` over what the
  -- sessions received, sockets
  -- that open or close, a packet to one client, to all sessions or to those that are logged in, a tick.
  pub data Step (s : ServerController F) : ServerController F → Type 0 where
    accepts : (c : ℕ) → Step s (Server.accept_session (virtuals codec) s c)
    answers :
        {t : ServerController F} {left : Deque (OwnedPacket PacketType)} (n : ℕ)
        (received : List (ℕ × Packet PacketType))
        → Server.update (virtuals codec) n s (deque (map from_session received)) ≡ ok (t, left)
        → Step s t
    sockets : (connected : ℕ → Bool) → Step s (record s { connected = connected })
    messages :
        (client : Option ℕ) (packet : Packet PacketType)
        → Step s (Server.message_client on_client_disconnect s client packet)
    broadcasts :
        (packet : Packet PacketType) (exclude : Option ℕ)
        → Step s (Server.message_all_clients on_client_disconnect s packet exclude)
    informs :
        (packet : Packet PacketType) (exclude : Option ℕ)
        → Step s (message_all_logged s packet exclude)
    -- A tick counts with the state that it leaves, however it ends.
    ticks : Step s (update_tick g codec s).0

  pub data Reach (s : ServerController F) : ServerController F → Type 0 where
    start : Reach s s
    later : {t u : ServerController F} → Reach s t → Step t u → Reach s u

  update_tick-Logs : (s : ServerController F) → Logs s → Logs (update_tick g codec s).0
  unfolding update_tick send_delta_update
  update_tick-Logs s h = elim (Result-cases (Instance.update_tick g s.derived.game_instance).1) [
    | inl (delta, e) ↦ rw (e, update_tick, send_delta_update) (message_all_clients-Logs _ _ none h)
    | inr (x, e) ↦ rw (e, update_tick) h
  ]

  Step-Logs : {s t : ServerController F} → Step s t → Logs s → Logs t
  unfolding message_all_logged
  Step-Logs {s} (accepts c) h = accept_session-Logs codec s c h
  Step-Logs {s} {t} (answers {left = left} n received e) h =
      update-Logs codec n received s t left e h
  Step-Logs (sockets connected) h = h
  Step-Logs {s} (messages client packet) h = message_client-Logs s client packet h
  Step-Logs {s} (broadcasts packet exclude) h = message_all_clients-Logs s packet exclude h
  Step-Logs {s} (informs packet exclude) h = visit_logged-Logs packet _ 0 s h
  Step-Logs {s} ticks h = update_tick-Logs s h

  Reach_keeps : {s t : ServerController F} → Reach s t → Logs s → Logs t
  Reach_keeps start h = h
  Reach_keeps (later r step) h = Step-Logs step (Reach_keeps r h)

  create-Logs : (tick_rate : ℕ) (connected : ℕ → Bool) → Logs (create g tick_rate connected)
  unfolding create
  create-Logs tick_rate connected = tt

  -- In every state that a server reaches from its creation, by accepted sessions, runs of `update`
  -- over what sessions received that end without a fault, sockets that open and close, its own
  -- messages and its ticks: no two entries are for one session, and an entry is logged in exactly
  -- while it has a session.
  pub Reach-IsLog :
      (tick_rate : ℕ) (connected : ℕ → Bool) {s : ServerController F}
      → Reach (create g tick_rate connected) s
      → IsLog s.derived.session_info
  Reach-IsLog tick_rate connected r = Reach_keeps r (create-Logs tick_rate connected)
