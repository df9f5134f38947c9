-- ===== src/Server/Controller/Handshake.antt =====
-- How a client logs in, and the packets of clients that have no entry.
use haraka_engine.Base.{
  ℕ, ◌≡◌, refl, true, false, Bool-cases, inl, inr, none, some, List, [], ◌∷◌, ◌++◌, ok, err,
  bad_iterator,
}
use haraka_engine.Net.Session.{Packet}
use haraka_engine.Net.Server
use haraka_engine.Server.SessionInfo.{SessionInfo}
use haraka_engine.Server.Controller.{
  PacketType, connection, connection_confirmed, Codec, ServerController, find_session, same_pointer,
  header_only, is_connection, on_client_disconnect, on_client_connect, add_info, on_message,
  virtuals,
}
use haraka_engine.Server.Controller.Sessions.{
  IsLog, disconnect_session_absent, find_session-disconnect_session, same_pointer_self,
}
use haraka_engine.Server.Controller.Keeps.{
  entry, parse_connection_result_lem, on_message_known, message_client_infos,
}

find_session-end :
    (infos : List SessionInfo) (codec : Codec) (c : ℕ) (packet : Packet PacketType)
    → find_session infos (some c) ≡ none
    → find_session (infos ++ entry codec c packet ∷ []) (some c) ≡ some (entry codec c packet)
unfolding find_session
find_session-end [] codec c packet h = rw (same_pointer_self c, find_session) refl
find_session-end (i ∷ infos) codec c packet h =
    elim (Bool-cases (same_pointer i.session (some c))) [
      | inl f ↦ absurd (cc (rw (f, find_session) at h))
      | inr f ↦
          rw (f, find_session) (find_session-end infos codec c packet (rw (f, find_session) at h))
    ]

module _ {F : Type 0} (codec : Codec) where
  -- The server with the client of the packet logged in.
  abbrev pub logged_in_by : ServerController F → ℕ → Packet PacketType → ServerController F
  logged_in_by s c packet = record s {
    outbox = s.outbox ++ (c, header_only connection_confirmed) ∷ [];
    derived = record s.derived {
      session_info = s.derived.session_info ++ entry codec c packet ∷ [];
    };
  }

  on_message_unknown :
      (s : ServerController F) (c : ℕ) (packet : Packet PacketType)
      → find_session s.derived.session_info (some c) ≡ none
      → is_connection packet.header.id ≡ false
      → on_message codec s (some c) packet ≡ err bad_iterator
  unfolding on_message
  on_message_unknown s c packet f e = rw (f, e, on_message)

  -- A `CONNECTION` packet of a connected session without an entry enters it, logged in with the
  -- name and the token of the packet, at the end of the list and is confirmed; nothing else
  -- changes, and no further packet of that session, of whatever kind, changes anything.
  pub on_message_login :
      (s : ServerController F) (c : ℕ) (packet : Packet PacketType)
      → find_session s.derived.session_info (some c) ≡ none
      → s.connected c ≡ true
      → is_connection packet.header.id ≡ true
      → (on_message codec s (some c) packet ≡ ok (logged_in_by s c packet))
        × ((q : Packet PacketType)
            → on_message codec (logged_in_by s c packet) (some c) q ≡ ok (logged_in_by s c packet))
  unfolding on_message add_info Server.message_client Server.send
  on_message_login s c packet f up e = (
    rw (f, e, on_message, parse_connection_result_lem codec s c packet, up),
    λ q.
        on_message_known codec (logged_in_by s c packet) (some c) q (entry codec c packet)
          (find_session-end s.derived.session_info codec c packet f),
  )

  -- A session that had no entry when it was accepted, and answers with a packet other than
  -- `CONNECTION`, `CONNECTION_RESULT` included, has the server read through the end iterator.
  pub accept_session-on_message :
      (s : ServerController F) (c : ℕ) (packet : Packet PacketType)
      → find_session s.derived.session_info (some c) ≡ none
      → is_connection packet.header.id ≡ false
      → on_message codec (Server.accept_session (virtuals codec) s c) (some c) packet
        ≡ err bad_iterator
  unfolding Server.accept_session on_client_connect
  accept_session-on_message s c packet f e =
      on_message_unknown _ c packet
        (message_client_infos s (some c) (header_only connection)
          (λ is. find_session is (some c) ≡ none) f
          (disconnect_session_absent s.derived.session_info (some c) c f))
        e

  -- With at most one entry for a session: when a message finds a session disconnected, a packet
  -- other than `CONNECTION` that this session sent before has the server read through the end
  -- iterator.
  pub message_client-on_message :
      (s : ServerController F) (c : ℕ) (q packet : Packet PacketType)
      → IsLog s.derived.session_info
      → s.connected c ≡ false
      → is_connection packet.header.id ≡ false
      → on_message codec (Server.message_client on_client_disconnect s (some c) q) (some c) packet
        ≡ err bad_iterator
  unfolding Server.message_client Server.drop_client Server.told on_client_disconnect
  message_client-on_message s c q packet l down e =
      on_message_unknown _ c packet
        (rw (down, Server.message_client)
          (find_session-disconnect_session s.derived.session_info c l))
        e
