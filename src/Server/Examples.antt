-- ===== src/Server/Examples.antt =====
-- The theorems on the server, used on a server of the example game.
mod Format
mod Following
mod Opening
use haraka_engine.Net.Session.{Packet}
use haraka_engine.Net.Link
use haraka_engine.Util.Deque
use haraka_engine.Server.SessionInfo.{SessionInfo, disconnected, logged_in, is_logged}
use haraka_engine.Server.Controller
use haraka_engine.Server.Controller.{header_only}
use haraka_engine.Server.Controller.{
  PacketType, connection, connection_result, action, find_session, same_pointer, create, virtuals,
  on_client_connect, on_client_disconnect, on_message, message_all_logged,
}
use haraka_engine.Server.Controller.Sessions.{IsLog}
use haraka_engine.Server.Controller.Keeps.{from_session}
use haraka_engine.Server.Controller.Runs.{start, later, accepts, answers, Reach-IsLog}
use haraka_engine.Server.Controller.Handshake.{
  logged_in_by, on_message_login, accept_session-on_message, message_client-on_message,
}
use haraka_engine.Server.Controller.Informing.{message_all_logged_lem}
use haraka_engine.Base.{
  map, ℕ, ◌≡◌, ◌≤◌, arith, Bool-cases, inl, inr, refl, true, false, Option, none, some, err,
  bad_iterator, invalid_delete, [], ◌∷◌, append-nil, sym, if◌then◌else◌, ◌==◌, ok,
}
use haraka_engine.Base.Int.{ℤ, pos}
use haraka_engine.Core.Platform.{whole_floats, whole_floats-IsIeee}
use haraka_engine.Core.Delta
use haraka_engine.Core.Snapshot
use haraka_engine.Core.Object
use haraka_engine.Core.Types
use haraka_engine.Core.Types.Primitives
use haraka_engine.Core.Types.Vectors
use haraka_engine.Base.Map.{insert, assign, find}
use haraka_engine.Server.Controller.Messages.{IsSendable, ReadsBack}
use haraka_engine.Core.Instance
use haraka_engine.Core.Instance.{GameInstance}
use haraka_engine.Core.Examples.{arena, arena-Clones}
use haraka_engine.Core.Examples.Classes.{older_newer}
use haraka_engine.Core.Examples.Growing.{growing, growth, growing-IsTick, growing-IsExchangeable}
use haraka_engine.Net.Server
use haraka_engine.Net.Server.{Server}
use haraka_engine.Net.Server.Ids.{KeepsIds, accept_all, Rising, accept_all-Rising}
use haraka_engine.Server.SessionInfo
use haraka_engine.Server.Controller.{header_only}
use haraka_engine.Server.Controller.{Codec, ServerController, update_tick}
use haraka_engine.Server.Controller.Updates.{IsBroadcast, update_tick-IsBroadcast}
use haraka_engine.Server.Examples.Format.{difference, first, first-get}

abbrev pub codec : Codec
codec = record {
  write_delta = difference.put;
  read_delta = λ bytes. first (difference.get bytes);
  read_connection = λ bytes. record { username = bytes; token = [] };
}

-- Of the sessions 1 to 3, the second has gone.
abbrev pub server : ServerController ℤ
server = record {
  sessions = some 1 ∷ some 2 ∷ some 3 ∷ [];
  connected = λ c. if c == 2 then false else true;
  outbox = [];
  session_ids = (1, 0) ∷ (2, 1) ∷ (3, 2) ∷ [];
  client_id_counter = 3;
  derived = record {
    game_instance = growing;
    session_info = [];
    current_tick = 0;
    tick_rate = 20;
    ms_per_tick = pos 50;
  };
}

pub codec-ReadsBack : ReadsBack codec
codec-ReadsBack b h = first-get b h.message

pub growth-IsSendable : IsSendable codec (Delta.serialize growth)
unfolding Delta.serialize Delta.write_values Delta.write_deltas Snapshot.serialize_objects
    Object.serialize Object.serialize_values insert assign find Types.serialize Primitives.serialize
    Vectors.serialize
growth-IsSendable = record {
  message = record {
    prev_tick = omega arith;
    next_tick = omega arith;
    sorted = (tt, tt);
    delta_objects =
        ((omega arith, (((refl, tt), (tt, tt)), ((refl, refl), ((refl, refl), tt)))), tt);
    added_objects =
        ((omega arith, refl, (((refl, tt), (tt, tt)), ((refl, refl), ((refl, refl), tt)))), tt);
    deleted_objects = (omega arith, tt);
  };
  bounded = omega arith;
}

update_tick-IsBroadcast_example :
    ((update_tick arena codec server).1 ≡ err invalid_delete)
    × IsBroadcast arena codec server (update_tick arena codec server).0
update_tick-IsBroadcast_example =
    update_tick-IsBroadcast arena codec whole_floats-IsIeee arena-Clones codec-ReadsBack server
      growth growing-IsTick growing-IsExchangeable growth-IsSendable

abbrev hello : Packet PacketType
hello = record { header = record { id = connection; size = 3 }; body = 97 ∷ 110 ∷ 110 ∷ [] }

abbrev reply : Packet PacketType
reply = record { header = record { id = connection_result; size = 0 }; body = [] }

abbrev move : Packet PacketType
move = record { header = record { id = action; size = 1 }; body = 7 ∷ [] }

abbrev pub lobby : ServerController ℤ
lobby = create arena 20 (λ c. true)

abbrev met : ServerController ℤ
met = Server.accept_session (virtuals codec) lobby 4

met_unknown : find_session met.derived.session_info (some 4) ≡ none
unfolding find_session Controller.create Server.accept_session on_client_connect
    Server.message_client Server.send
met_unknown = refl

met_connected : met.connected 4 ≡ true
unfolding Controller.create Server.accept_session on_client_connect Server.message_client
    Server.send
met_connected = refl

on_message_login_example :
    (on_message codec met (some 4) hello ≡ ok (logged_in_by codec met 4 hello))
    × ((q : Packet PacketType)
        → on_message codec (logged_in_by codec met 4 hello) (some 4) q
          ≡ ok (logged_in_by codec met 4 hello))
unfolding Controller.is_connection
on_message_login_example = on_message_login codec met 4 hello met_unknown met_connected refl

accept_session-on_message_example :
    on_message codec (Server.accept_session (virtuals codec) lobby 4) (some 4) reply
    ≡ err bad_iterator
unfolding find_session Controller.create Controller.is_connection
accept_session-on_message_example = accept_session-on_message codec lobby 4 reply refl refl

-- A server that the clients 4 and 5 are logged in to, of which 4 has gone.
abbrev login : ℕ → SessionInfo
login c = record { status = logged_in; username = 97 ∷ []; token = []; session = some c }

abbrev left : ServerController ℤ
left = record server {
  connected = λ c. if c == 4 then false else true;
  derived = record server.derived { session_info = login 4 ∷ login 5 ∷ [] };
}

left-IsLog : IsLog left.derived.session_info
unfolding is_logged find_session same_pointer
left-IsLog = (refl, refl, (refl, refl, tt))

message_client-on_message_example :
    on_message codec (Server.message_client on_client_disconnect left (some 4) hello) (some 4) move
    ≡ err bad_iterator
unfolding Controller.is_connection
message_client-on_message_example =
    message_client-on_message codec left 4 hello move left-IsLog refl refl

message_all_logged_lem_example : message_all_logged left move (some 5) ≡ record left {
  sessions = some 1 ∷ some 2 ∷ some 3 ∷ [];
  outbox = (5, move) ∷ [];
  derived = record left.derived {
    session_info = record (login 4) { status = disconnected; session = none } ∷ login 5 ∷ [];
  };
}
unfolding Server.remove_null SessionInfo.disconnect
message_all_logged_lem_example = message_all_logged_lem move left (some 5) left-IsLog

met_login :
    Server.update (virtuals codec) 9 met (Deque.deque (map (from_session) ((4, hello) ∷ [])))
    ≡ ok (logged_in_by codec met 4 hello, Deque.deque [])
unfolding Controller.is_connection Server.update Deque.empty Deque.is_empty Deque.pop_front
    Deque.pop_front_of Link.owned
met_login =
    rw ((on_message_login codec met 4 hello met_unknown met_connected refl).0, Server.update) refl

Reach-IsLog_example :
    IsLog
      (Server.accept_session
        (virtuals codec)
        (logged_in_by codec met 4 hello)
        6).derived.session_info
Reach-IsLog_example =
    Reach-IsLog arena codec 20 (λ c. true)
      (later (later (later start (accepts 4)) (answers 9 ((4, hello) ∷ []) met_login)) (accepts 6))
