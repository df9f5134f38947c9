-- ===== src/Net/Link.antt =====
-- net/session.hpp: how a `TCPSession` connects, reads and closes. An asynchronous operation is
-- outstanding until boost::asio runs its handler; each handler is a function.
use haraka_engine.Base.{ℕ, ◌+◌, ◌-◌, Bool, true, false, none, some, if◌then◌else◌}
use haraka_engine.Net.Session.{Packet}
use haraka_engine.Net.Server.{OwnedPacket}

pub data OwnerType : Type 0 where
  server client : OwnerType

-- `posted` counts the closes that are posted, `connecting` and `reading` say what is outstanding.
pub record Link : Type 0 where
  pub owner : OwnerType
  pub id : ℕ
  pub is_open : Bool
  pub connecting : Bool
  pub reading : Bool
  pub posted : ℕ

unfoldable pub create : OwnerType → Bool → Link
create owner is_open = record {
  owner = owner;
  id = 0;
  is_open = is_open;
  connecting = false;
  reading = false;
  posted = 0;
}

unfoldable pub is_connected : Link → Bool
is_connected l = l.is_open

unfoldable pub read_header : Link → Link
read_header l = record l { reading = true }

unfoldable pub connect_to_client : Link → ℕ → Link
unfolding read_header is_connected
connect_to_client l id = elim l.owner [
  | server ↦ if is_connected l then read_header (record l { id = id }) else l
  | client ↦ l
]

-- `opened` says whether `async_connect` has the socket open, as it does while it tries an endpoint.
unfoldable pub connect_to_server : Bool → Link → Link
connect_to_server opened l = elim l.owner [
  | server ↦ l
  | client ↦ record l { connecting = true; is_open = opened }
]

-- The handler of `async_connect`, without an error and with one.
unfoldable pub server_connected : Link → Link
unfolding read_header
server_connected l = read_header (record l { connecting = false; is_open = true })

unfoldable pub connect_failed : Bool → Link → Link
connect_failed opened l = record l { connecting = false; is_open = opened }

unfoldable pub disconnect : Link → Link
unfolding is_connected
disconnect l = if is_connected l then record l { posted = l.posted + 1 } else l

unfoldable pub close_socket : Link → Link
close_socket l = record l { is_open = false }

-- The handler that `disconnect` posts.
unfoldable pub close_posted : Link → Link
unfolding close_socket
close_posted l = close_socket (record l { posted = l.posted - 1 })

-- The handlers of `read_header` and `read_body`, with an error.
unfoldable pub read_failed : Link → Link
unfolding close_socket
read_failed l = close_socket (record l { reading = false })

-- What `add_packet_to_input_queue` puts in the queue for the session at an address.
unfoldable pub owned : {E : Type 0} → OwnerType → ℕ → Packet E → OwnedPacket E
owned server self packet = record { remote = some self; packet = packet }
owned client self packet = record { remote = none; packet = packet }

unfoldable pub is_tcp : Link → Bool
is_tcp l = true

unfoldable pub is_udp : Link → Bool
is_udp l = false
