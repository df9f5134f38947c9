-- ===== src/Net/Examples.antt =====
-- The theorems on sessions and the server, used on a session that sends a packet with a body and one
-- without, and on a server with a client that has gone.
mod Lifecycle
mod Sending
mod Waiting
use haraka_engine.Base.{
  ℕ, Option, ◌≡◌, refl, Bool, true, false, none, some, not, List, [], ◌∷◌, ◌++◌, ok, arith,
  if◌then◌else◌, get_or, drop, ◌==◌, inl,
}
use haraka_engine.Base.Order.{Bytes}
use haraka_engine.Util.Deque
use haraka_engine.Core.Types.Template.{word_bytes, bytes_word}
use haraka_engine.Core.Types.Wire.{bytes_word-word_bytes}
use haraka_engine.Net.Session
use haraka_engine.Net.Session.{
  Packet, PacketHeader, Layout, IsLayout, Writer, writing_header, writing_body, idle, opened, Reach,
  start, later, sends, runs, header_done, body_done, fails, frames, send_packet, header_written,
  body_written,
}
use haraka_engine.Net.Session.Runs.{sent_bytes, wrote-frames, completed_returns}
use haraka_engine.Net.Session.Receiving.{read_packets, reader, read_packets-sent}
use haraka_engine.Net.Link
use haraka_engine.Net.Client
use haraka_engine.Net.Client.{Client, connects, connected, receives}
use mathlib.Core.List.{Memᴰ}
use mathlib.Core.List.Memᴰ.{head, tail}
use haraka_engine.Net.Server
use haraka_engine.Net.Server.{Server, Callbacks, OwnedPacket}
use haraka_engine.Net.Server.Broadcast.{message_all_clients_lem, message_client_keeps, update_lem}

-- One byte for the kind of the packet, four for the size of its body.
abbrev pub five : Layout Bool
five = record {
  width = 5;
  to_bytes = λ h. (if h.id then 1 else 0) ∷ word_bytes h.size;
  of_bytes = λ bs. record { id = get_or bs 0 0 == 1; size = bytes_word (drop 1 bs) };
}

five_id : (b : Bool) → ((if b then 1 else 0) == 1) ≡ b
five_id true = refl
five_id false = refl

pub five-IsLayout : IsLayout five
five-IsLayout = record {
  filled = omega arith;
  length-to_bytes = λ h. refl;
  of_bytes-to_bytes = λ h bounded i. record {
    id = five_id h.id i;
    size = bytes_word-word_bytes h.size [] bounded i;
  };
}

abbrev pub action : Packet Bool
action = record { header = record { id = true; size = 2 }; body = 7 ∷ 9 ∷ [] }

abbrev pub farewell : Packet Bool
farewell = record { header = record { id = false; size = 0 }; body = [] }

abbrev pub both : List (Packet Bool)
both = action ∷ farewell ∷ []

-- Both packets have been sent, and the first write is outstanding.
abbrev pub busy : Writer Bool
busy = record {
  output_queue = Deque.deque both;
  posted = [];
  writing = writing_header;
  is_open = true;
  sent = both;
  wrote = [];
}

pub busy-Reach : Reach five busy
unfolding Session.send_packet Session.enqueue Deque.empty Deque.is_empty Deque.push_back
    Session.write_header
busy-Reach =
    later
      (later (later (later start (sends action)) (sends farewell))
        (runs action (farewell ∷ []) refl))
      (runs farewell [] refl)

-- Both packets have been written.
abbrev pub finished : Writer Bool
finished = record {
  output_queue = Deque.deque [];
  posted = [];
  writing = idle;
  is_open = true;
  sent = both;
  wrote = frames five both;
}

pub finished-Reach : Reach five finished
unfolding Session.header_written Session.body_written Session.next_packet Session.write_header
    Session.write_body Deque.front Deque.front_of Deque.pop_front Deque.pop_front_of Deque.empty
    Deque.is_empty
finished-Reach =
    later (later (later busy-Reach (header_done _ refl refl refl)) (body_done _ refl refl refl))
      (header_done _ refl refl refl)

-- The first write has failed behind three of its five bytes.
abbrev broken : Writer Bool
broken = record busy { is_open = false; writing = Session.stopped; wrote = 1 ∷ 2 ∷ 0 ∷ [] }

broken-Reach : Reach five broken
unfolding Session.write_failed
broken-Reach = later busy-Reach (fails (1 ∷ 2 ∷ 0 ∷ []) (0 ∷ 0 ∷ []) refl (inl refl))

wrote-frames_example : (left : Bytes) × (1 ∷ 2 ∷ 0 ∷ left ≡ frames five both)
wrote-frames_example = wrote-frames five broken-Reach

read_packets-sent_example :
    (last : Packet Bool) × (read_packets five 2 (reader five farewell [] (frames five both))
      ≡ some (reader five last both []))
read_packets-sent_example =
    read_packets-sent five five-IsLayout farewell [] finished-Reach refl refl
      ((refl, omega arith), ((refl, omega arith), tt))

-- Three clients of whom the second has gone, beside a null pointer; the derived class keeps a list of
-- whom it was told about.
abbrev pub club : Server Bool (List (Option ℕ))
club = record {
  sessions = some 1 ∷ some 2 ∷ none ∷ some 3 ∷ [];
  connected = λ c. not (c == 2);
  outbox = [];
  session_ids = [];
  client_id_counter = 3;
  derived = [];
}

abbrev pub told : List (Option ℕ) → Option ℕ → List (Option ℕ)
told h client = h ++ client ∷ []

abbrev pub clerk : Callbacks Bool (List (Option ℕ))
clerk = record {
  on_client_connect = λ s c. (s, true);
  on_client_disconnect = told;
  on_message = λ s remote packet. ok s;
}

message_all_clients_lem_example :
    Server.message_all_clients told club farewell (some 3) ≡ record club {
      sessions = some 1 ∷ some 3 ∷ [];
      outbox = (1, farewell) ∷ [];
      derived = some 2 ∷ none ∷ [];
    }
unfolding Server.is_session
message_all_clients_lem_example = message_all_clients_lem told farewell (some 3) club

message_client_keeps_example :
    Memᴰ (some 2) (Server.message_client told club (some 2) farewell).sessions
message_client_keeps_example = message_client_keeps told club 2 farewell refl (tail (head refl))

abbrev letters : List (OwnedPacket Bool)
letters =
    record { remote = some 1; packet = action }
    ∷ record { remote = some 3; packet = farewell }
    ∷ record { remote = some 1; packet = farewell }
    ∷ []

update_lem_example :
    Server.update clerk 2 club (Deque.deque letters)
    ≡ ok (club, Deque.deque (record { remote = some 1; packet = farewell } ∷ []))
update_lem_example = update_lem clerk 2 club letters

-- A client that connects and gets a packet.
abbrev joined : Client Bool
joined = record {
  stopped = false;
  joinable = true;
  session = some (
      Link.read_header
        (Link.server_connected (Link.connect_to_server true (Link.create Link.client false))));
  input_queue = Deque.deque (record { remote = none; packet = action } ∷ []);
  sent = [];
  released = [];
}

joined-Reach : Client.Reach Client.create joined
unfolding Client.create Client.connect Client.packet_read Link.create Link.connect_to_server
    Link.server_connected Link.read_header Link.owned Deque.push_back
joined-Reach =
    Client.later
      (Client.later (Client.later Client.start (connects true true true true refl))
        (connected _ refl refl refl))
      (receives 3 _ action refl refl refl)

-- The client disconnects and connects again.
abbrev rejoined : Client Bool
rejoined = record (Client.disconnect joined) {
  joinable = true;
  session = some (Link.connect_to_server true (Link.create Link.client false));
}
