-- ===== src/Client/Examples.antt =====
-- The theorem on the client's controller, used on one that connects and gets a packet.
use haraka_engine.Base.{◌≡◌, refl, true, false, some, none, ok, err, terminated, [], ◌∷◌}
use haraka_engine.Util.Deque
use haraka_engine.Net.Client
use haraka_engine.Net.Client.{connected, receives}
use haraka_engine.Net.Link
use haraka_engine.Net.Session.{Packet}
use haraka_engine.Server.Controller.{PacketType, connection}
use haraka_engine.Server.SessionInfo.{disconnected}
use haraka_engine.Client.Controller
use haraka_engine.Client.Controller.{
  ClientController, connecting, here, later, handles, connect_again,
}

abbrev news : Packet PacketType
news = record { header = record { id = connection; size = 0 }; body = [] }

abbrev begun : ClientController
begun = connecting true Controller.create

abbrev informed : ClientController
informed = record {
  status = disconnected;
  client = record {
    stopped = false;
    joinable = true;
    session = some (
        Link.read_header
          (Link.server_connected (Link.connect_to_server true (Link.create Link.client false))));
    input_queue = Deque.deque (record { remote = none; packet = news } ∷ []);
    sent = [];
    released = [];
  };
}

informed-Reach : Controller.Reach begun informed
unfolding Controller.create Client.create Client.packet_read Link.create Link.connect_to_server
    Link.server_connected Link.read_header Link.owned Deque.push_back
informed-Reach =
    later (later here (handles (connected _ refl refl refl) tt))
      (handles (receives 3 _ news refl refl refl) tt)

connect_again_example :
    (Controller.connect true true true Controller.create ≡ ok (begun, true))
    × (Controller.connect true false true informed ≡ err terminated)
    × (disconnected ≡ disconnected)
unfolding Controller.create Client.create
connect_again_example = connect_again true false Controller.create informed refl informed-Reach
