-- ===== src/Net/Client.antt =====
-- net/client.hpp: `Client`. boost::asio runs a handler only while the context is not stopped, and a
-- context that has been stopped stays so until it is restarted.
pub mod Disconnected
pub mod Reading
use haraka_engine.Base.{
  ℕ, Bool, true, false, Option, none, some, List, [], ◌∷◌, ◌++◌, Result, ok, err, terminated, ◌<◌,
  ◌≡◌, if◌then◌else◌,
}
use haraka_engine.Util.Deque
use haraka_engine.Util.Deque.{Deque, deque}
use haraka_engine.Net.Session.{Packet}
use haraka_engine.Net.Server.{OwnedPacket}
use haraka_engine.Net.Link
use haraka_engine.Net.Link.{Link}

-- `stopped` is the context's state, `joinable` the thread's. Recorded beside them: the packets that
-- were given to `send_packet`, and the sessions that were released.
pub record Client (E : Type 0) : Type 0 where
  pub stopped : Bool
  pub joinable : Bool
  pub session : Option Link
  pub input_queue : Deque (OwnedPacket E)
  pub sent : List (Packet E)
  pub released : List Link

abbrev pub optional : Option Link → List Link
optional none = []
optional (some l) = l ∷ []

module _ {E : Type 0} where
  unfoldable pub create : Client E
  create = record {
    stopped = false;
    joinable = false;
    session = none;
    input_queue = deque [];
    sent = [];
    released = [];
  }

  unfoldable pub is_connected : Client E → Bool
  is_connected c = elim c.session [ none ↦ false | some l ↦ Link.is_connected l ]

  -- `resolved` says whether the resolver finds the host or throws, and `threaded` whether the system
  -- makes the thread or the constructor throws. A thread that is joinable must not be assigned to:
  -- `std::terminate` is called.
  unfoldable pub connect : Bool → Bool → Bool → Client E → Result (Client E × Bool)
  connect resolved opened threaded c =
      let l = Link.connect_to_server opened (Link.create Link.client false) in
      let c' = record c { session = some l } in
      if resolved
      then (if threaded
          then (if c.joinable then err terminated else ok (record c' { joinable = true }, true))
          else ok (c', false))
      else ok (c, false)

  unfoldable pub close_session : Client E → Client E
  close_session c =
      if is_connected c
      then record c { session = elim c.session [ none ↦ none | some l ↦ some (Link.disconnect l) ] }
      else c

  -- The rest of `disconnect`: the context is stopped, the thread joined, and `release` gives the pointer
  -- up without a delete.
  unfoldable pub stop_context : Client E → Client E
  stop_context c = record c {
    stopped = true;
    joinable = false;
    session = none;
    released = c.released ++ optional c.session;
  }

  unfoldable pub disconnect : Client E → Client E
  disconnect c = stop_context (close_session c)

  unfoldable pub send : Client E → Packet E → Client E
  send c msg = if is_connected c then record c { sent = c.sent ++ msg ∷ [] } else c

  -- `add_packet_to_input_queue` of the session, which reads on.
  unfoldable pub packet_read : ℕ → Link → Packet E → Client E → Client E
  packet_read self l packet c = record c {
    input_queue = Deque.push_back c.input_queue (Link.owned l.owner self packet);
    session = some (Link.read_header l);
  }

  -- What happens to a client: a call, `disconnect` in its two parts; a packet that the user takes
  -- from the queue which `input_queue` hands out; and a handler that the context
  -- runs, which needs a context that is not stopped, and a session with the operation outstanding.
  pub data Step (c : Client E) : Client E → Type 0 where
    connects :
        {d : Client E} (resolved opened threaded result : Bool)
        → connect resolved opened threaded c ≡ ok (d, result)
        → Step c d
    closes_session : Step c (close_session c)
    stops : Step c (stop_context c)
    sends : (msg : Packet E) → Step c (send c msg)
    takes :
        (packet : OwnedPacket E) (queue : Deque (OwnedPacket E))
        → Deque.pop_front c.input_queue ≡ ok (packet, queue)
        → Step c (record c { input_queue = queue })
    connected :
        (l : Link)
        → c.stopped ≡ false
        → c.session ≡ some l
        → l.connecting ≡ true
        → Step c (record c { session = some (Link.server_connected l) })
    refused :
        (l : Link) (opened : Bool)
        → c.stopped ≡ false
        → c.session ≡ some l
        → l.connecting ≡ true
        → Step c (record c { session = some (Link.connect_failed opened l) })
    receives :
        (self : ℕ) (l : Link) (packet : Packet E)
        → c.stopped ≡ false
        → c.session ≡ some l
        → l.reading ≡ true
        → Step c (packet_read self l packet c)
    read_fails :
        (l : Link)
        → c.stopped ≡ false
        → c.session ≡ some l
        → l.reading ≡ true
        → Step c (record c { session = some (Link.read_failed l) })
    closes :
        (l : Link)
        → c.stopped ≡ false
        → c.session ≡ some l
        → 0 < l.posted
        → Step c (record c { session = some (Link.close_posted l) })

  pub data Reach (c : Client E) : Client E → Type 0 where
    start : Reach c c
    later : {d e : Client E} → Reach c d → Step d e → Reach c e
