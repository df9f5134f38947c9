-- ===== src/Server/Controller/Keeps.antt =====
-- What each member of the controller keeps of the sessions' information.
use haraka_engine.Base.{
  sym, ap, ◌∙◌, take, map, >>=-eq-ok, ℕ, zero, suc, ◌+◌, ◌≡◌, refl, subst, Bool, Bool-cases,
  Option-cases, inl, inr, Option, none, some, List, [], ◌∷◌, ◌++◌, ok, get_elem?,
}
use haraka_engine.Net.Session.{Packet}
use haraka_engine.Net.Server
use haraka_engine.Net.Server.{OwnedPacket}
use haraka_engine.Net.Link
use haraka_engine.Util.Deque.{Deque, deque}
use haraka_engine.Net.Server.Broadcast.{answered, update_lem, told_all, message_all_clients_lem}
use haraka_engine.Server.SessionInfo
use haraka_engine.Server.SessionInfo.{SessionInfo, is_logged, logged_in}
use haraka_engine.Server.Controller.{
  PacketType, connection, connection_result, connection_confirmed, connection_denied, disconnection,
  full_snapshot, full_snapshot_result, delta_snapshot_result, action, Codec, Controller,
  ServerController, find_session, disconnect_session, header_only, is_connection,
  on_client_disconnect, on_client_connect, add_info, parse_connection_result, dispatch, on_message,
  virtuals, visit_logged,
}
use haraka_engine.Server.Controller.Sessions.{
  IsLog, disconnect_session-IsLog, disconnect_session_absent, snoc-IsLog,
}

-- What a client that connects is entered with.
abbrev pub entry : Codec → ℕ → Packet PacketType → SessionInfo
entry codec c packet =
    let buffer = codec.read_connection packet.body in
    record {
      status = logged_in;
      username = buffer.username;
      token = buffer.token;
      session = some c;
    }

-- The entry of the input queue for a packet that a session received.
abbrev pub from_session : ℕ × Packet PacketType → OwnedPacket PacketType
from_session m = Link.owned Link.server m.0 m.1

module _ {F : Type 0} where
  abbrev pub Logs : ServerController F → Type 0
  Logs s = IsLog s.derived.session_info

  pub message_client_infos :
      (s : ServerController F) (client : Option ℕ) (packet : Packet PacketType)
      (P : List SessionInfo → Type 0)
      → P s.derived.session_info
      → P (disconnect_session s.derived.session_info client)
      → P (Server.message_client on_client_disconnect s client packet).derived.session_info
  unfolding Server.message_client Server.drop_client Server.told Server.send on_client_disconnect
  message_client_infos s none packet P same dropped = dropped
  message_client_infos s (some c) packet P same dropped = elim (Bool-cases (s.connected c)) [
    | inl e ↦ rw (e, Server.message_client) same
    | inr e ↦ rw (e, Server.message_client) dropped
  ]

  pub message_client-Logs :
      (s : ServerController F) (client : Option ℕ) (packet : Packet PacketType)
      → Logs s
      → Logs (Server.message_client on_client_disconnect s client packet)
  message_client-Logs s client packet h =
      message_client_infos s client packet IsLog h
        (disconnect_session-IsLog s.derived.session_info client h)

  told_all-Logs :
      (connected : ℕ → Bool) (clients : List (Option ℕ)) (h : Controller F)
      → IsLog h.session_info
      → IsLog (told_all connected on_client_disconnect clients h).session_info
  unfolding on_client_disconnect
  told_all-Logs connected [] h l = l
  told_all-Logs connected (none ∷ clients) h l =
      told_all-Logs connected clients (on_client_disconnect h none)
        (disconnect_session-IsLog h.session_info none l)
  told_all-Logs connected (some c ∷ clients) h l = elim (Bool-cases (connected c)) [
    | inl e ↦ rw e (told_all-Logs connected clients h l)
    | inr e ↦ rw e (
        told_all-Logs connected clients (on_client_disconnect h (some c))
          (disconnect_session-IsLog h.session_info (some c) l))
  ]

  pub message_all_clients-Logs :
      (s : ServerController F) (packet : Packet PacketType) (exclude : Option ℕ)
      → Logs s
      → Logs (Server.message_all_clients on_client_disconnect s packet exclude)
  message_all_clients-Logs s packet exclude h =
      rw (message_all_clients_lem on_client_disconnect packet exclude s)
        (told_all-Logs s.connected s.sessions s.derived h)

  pub visit_logged-Logs :
      (packet : Packet PacketType) (n k : ℕ) (s : ServerController F)
      → Logs s
      → Logs (visit_logged packet s k n)
  unfolding visit_logged
  visit_logged-Logs packet zero k s h = h
  visit_logged-Logs packet (suc n) k s h =
      elim (Option-cases (get_elem? s.derived.session_info k)) [
        | inl e ↦ rw (e, visit_logged) (visit_logged-Logs packet n (k + 1) s h)
        | inr (i, e) ↦ elim (Bool-cases (SessionInfo.logged i)) [
          | inl f ↦
              rw (e, f, visit_logged)
                (visit_logged-Logs packet n (k + 1) _ (message_client-Logs s i.session packet h))
          | inr f ↦ rw (e, f, visit_logged) (visit_logged-Logs packet n (k + 1) s h)
        ]
      ]

  pub accept_session-Logs :
      (codec : Codec) (s : ServerController F) (c : ℕ)
      → Logs s
      → Logs (Server.accept_session (virtuals codec) s c)
  unfolding Server.accept_session on_client_connect
  accept_session-Logs codec s c h = message_client-Logs s (some c) (header_only connection) h

  pub parse_connection_result_lem :
      (codec : Codec) (s : ServerController F) (c : ℕ) (packet : Packet PacketType)
      → parse_connection_result codec s (some c) packet
        ≡ add_info
            (Server.message_client on_client_disconnect s
              (some c)
              (header_only connection_confirmed))
            (entry codec c packet)
  unfolding parse_connection_result SessionInfo.log SessionInfo.create SessionInfo.reconnected
  parse_connection_result_lem codec s c packet = refl

  parse_connection_result-Logs :
      (codec : Codec) (s : ServerController F) (c : ℕ) (packet : Packet PacketType)
      → find_session s.derived.session_info (some c) ≡ none
      → Logs s
      → Logs (parse_connection_result codec s (some c) packet)
  unfolding add_info is_logged
  parse_connection_result-Logs codec s c packet e h =
      let infos = s.derived.session_info in
      let info = entry codec c packet in
      rw (parse_connection_result_lem codec s c packet) (
        message_client_infos s (some c) (header_only connection_confirmed)
          (λ is. IsLog (is ++ info ∷ [])) (snoc-IsLog infos info refl e h)
          (snoc-IsLog (disconnect_session infos (some c)) info refl
            (disconnect_session_absent infos (some c) c e)
            (disconnect_session-IsLog infos (some c) h)))

  dispatch_lem : (type : PacketType) (s : ServerController F) → dispatch type s ≡ s
  unfolding dispatch
  dispatch_lem disconnection s = refl
  dispatch_lem full_snapshot s = refl
  dispatch_lem action s = refl
  dispatch_lem connection s = refl
  dispatch_lem connection_result s = refl
  dispatch_lem connection_confirmed s = refl
  dispatch_lem connection_denied s = refl
  dispatch_lem full_snapshot_result s = refl
  dispatch_lem delta_snapshot_result s = refl

  pub on_message_known :
      (codec : Codec) (s : ServerController F) (client : Option ℕ) (packet : Packet PacketType)
      (i : SessionInfo)
      → find_session s.derived.session_info client ≡ some i
      → on_message codec s client packet ≡ ok s
  unfolding on_message
  on_message_known codec s client packet i e = elim (Bool-cases (SessionInfo.logged i)) [
    | inl f ↦ rw (e, f, on_message, dispatch_lem packet.header.id s) refl
    | inr f ↦ rw (e, f, on_message) refl
  ]

  on_message-Logs :
      (codec : Codec) (s t : ServerController F) (c : ℕ) (packet : Packet PacketType)
      → on_message codec s (some c) packet ≡ ok t
      → Logs s
      → Logs t
  unfolding on_message
  on_message-Logs codec s t c packet e h =
      elim (Option-cases (find_session s.derived.session_info (some c))) [
        | inl f ↦ elim (Bool-cases (is_connection packet.header.id)) [
          | inl b ↦
              let same : parse_connection_result codec s (some c) packet ≡ t =
                cc (rw (f, b, on_message) at e) in
              subst Logs same (parse_connection_result-Logs codec s c packet f h)
          | inr b ↦ absurd (cc (rw (f, b, on_message) at e))
        ]
        | inr (i, f) ↦
            let same : s ≡ t = cc (e, on_message_known codec s (some c) packet i f) in
            subst Logs same h
      ]

  answered-Logs :
      (codec : Codec) (n : ℕ) (received : List (ℕ × Packet PacketType)) (s t : ServerController F)
      → answered (virtuals codec) (take n (map from_session received)) s ≡ ok t
      → Logs s
      → Logs t
  unfolding Link.owned
  answered-Logs codec zero received s t e h = let same : s ≡ t = cc in subst Logs same h
  answered-Logs codec (suc n) [] s t e h = let same : s ≡ t = cc in subst Logs same h
  answered-Logs codec (suc n) ((c, packet) ∷ received) s t e h =
      let (u, first, rest) = >>=-eq-ok (on_message codec s (some c) packet) _ e in
      answered-Logs codec n received u t rest (on_message-Logs codec s u c packet first h)

  pub update-Logs :
      (codec : Codec) (n : ℕ) (received : List (ℕ × Packet PacketType)) (s t : ServerController F)
      (left : Deque (OwnedPacket PacketType))
      → Server.update (virtuals codec) n s (deque (map from_session received)) ≡ ok (t, left)
      → Logs s
      → Logs t
  update-Logs codec n received s t left e h =
      let answers = sym (update_lem (virtuals codec) n s (map from_session received)) ∙ e in
      let (u, done, same) =
        >>=-eq-ok (answered (virtuals codec) (take n (map from_session received)) s) _ answers in
      let u_t : u ≡ t = cc in answered-Logs codec n received s t (done ∙ ap ok u_t) h
