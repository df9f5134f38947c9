-- ===== src/Server/Controller/Numbering.antt =====
-- The ids that a `ServerController` gives to its sessions.
use haraka_engine.Base.{ℕ, ◌≡◌, refl, subst, Option, none, some, ok, Bool-cases, inl, inr}
use haraka_engine.Net.Session.{Packet}
use haraka_engine.Net.Server.Ids.{KeepsIds, SameIds, message_client-SameIds}
use haraka_engine.Net.Server.Lifecycle.Numbered.{AnswersKeepIds}
use haraka_engine.Server.SessionInfo
use haraka_engine.Server.SessionInfo.{SessionInfo}
use haraka_engine.Server.Controller.{
  PacketType, connection, connection_confirmed, header_only, is_connection, Codec, ServerController,
  find_session, on_client_disconnect, on_client_connect, parse_connection_result, add_info,
  on_message, virtuals,
}
use haraka_engine.Server.Controller.Keeps.{on_message_known}

module _ {F : Type 0} (codec : Codec) where
  pub virtuals-KeepsIds : KeepsIds (virtuals {F = F} codec)
  unfolding on_client_connect
  virtuals-KeepsIds = record {
    ids =
        λ s c. (message_client-SameIds on_client_disconnect s (some c) (header_only connection)).0;
    counter =
        λ s c. (message_client-SameIds on_client_disconnect s (some c) (header_only connection)).1;
  }

  parse_connection_result-SameIds :
      (s : ServerController F) (client : Option ℕ) (packet : Packet PacketType)
      → SameIds s (parse_connection_result codec s client packet)
  unfolding parse_connection_result add_info SessionInfo.log SessionInfo.create
      SessionInfo.reconnected
  parse_connection_result-SameIds s client packet =
      message_client-SameIds on_client_disconnect s client (header_only connection_confirmed)

  on_message-SameIds :
      (s t : ServerController F) (client : Option ℕ) (packet : Packet PacketType)
      → on_message codec s client packet ≡ ok t
      → SameIds s t
  unfolding on_message
  on_message-SameIds s t client packet e = go (find_session s.derived.session_info client) refl
    where
      go : (r : Option SessionInfo) → find_session s.derived.session_info client ≡ r → SameIds s t
      go none f = elim (Bool-cases (is_connection packet.header.id)) [
        | inl b ↦
            let same : parse_connection_result codec s client packet ≡ t =
              cc (rw (f, b, on_message) at e) in
            subst (SameIds s) same (parse_connection_result-SameIds s client packet)
        | inr b ↦ absurd (cc (rw (f, b, on_message) at e))
      ]
      go (some i) f =
          let same : s ≡ t = cc (e, on_message_known codec s client packet i f) in
          subst (SameIds s) same (refl, refl)

  pub virtuals-AnswersKeepIds : AnswersKeepIds (virtuals {F = F} codec)
  virtuals-AnswersKeepIds = record {
    ids = λ s t client packet e. (on_message-SameIds s t client packet e).0;
    counter = λ s t client packet e. (on_message-SameIds s t client packet e).1;
  }
