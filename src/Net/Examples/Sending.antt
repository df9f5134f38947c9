-- ===== src/Net/Examples/Sending.antt =====
-- The theorems on what the handlers of a session come to and on what has been received, used on two
-- packets.
use haraka_engine.Base.{◌≤◌, ◌⊎◌, ◌≡◌, refl, Bool, some, List, [], ◌∷◌, arith}
use haraka_engine.Util.Deque
use haraka_engine.Net.Examples.{
  five-IsLayout, finished-Reach, both, action, farewell, five, busy, busy-Reach, finished,
}
use haraka_engine.Net.Session
use haraka_engine.Net.Session.{Packet, Reader, reading_body, header_done, body_done}
use haraka_engine.Net.Session.Receiving.{reader}
use haraka_engine.Net.Session.Delivery.{reads, reads_received}
use haraka_engine.Net.Session.Drained.{IsDrained, CanRun, Handlers, none, next, Handlers-IsDrained}

finished-Handlers : Handlers five busy 3 finished
unfolding Session.header_written Session.body_written Session.next_packet Session.write_header
    Session.write_body Deque.front Deque.front_of Deque.pop_front Deque.pop_front_of Deque.empty
    Deque.is_empty
finished-Handlers =
    next (header_done _ refl refl refl) tt
      (next (body_done _ refl refl refl) tt (next (header_done _ refl refl refl) tt none))

Handlers-IsDrained_example : (3 ≤ 4) × (IsDrained five busy finished ⊎ CanRun five finished)
Handlers-IsDrained_example = Handlers-IsDrained five finished-Handlers busy-Reach tt refl

-- The packet with a body has come, and the header of the other one.
abbrev halfway : Reader Bool
halfway = record {
  temp_packet = farewell;
  input_queue = Deque.deque (action ∷ []);
  reading = reading_body;
  unread = [];
}

halfway_read : reads five 3 (reader five farewell [] finished.wrote) ≡ some halfway
unfolding reads Session.complete Session.header_read Session.body_read Session.resize
    Session.split_at Session.add_packet_to_input_queue Deque.push_back
halfway_read = refl

reads_received_example : (more : List (Packet Bool)) × (action ∷ more ≡ both)
reads_received_example =
    reads_received five five-IsLayout farewell 3 halfway finished-Reach
      ((refl, omega arith), ((refl, omega arith), tt)) halfway_read
