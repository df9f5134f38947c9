-- ===== src/Net/Session.antt =====
-- net/packet.hpp, and `TCPSession` of net/session.hpp: the two halves of a session, which share no
-- field but the socket. Each handler that boost::asio calls is a function; the context runs one
-- handler at a time. An asynchronous write or read is outstanding until its handler runs.
pub mod Sending
pub mod Runs
pub mod Receiving
pub mod Draining
pub mod Drained
pub mod Cutting
pub mod Delivery
use haraka_engine.Base.{
  ℕ, zero, suc, ◌<◌, ◌^◌, ◌≡◌, Bool, true, false, not, Option, none, some, List, [], ◌∷◌, ◌++◌,
  Result, ok, err, ◌>>=◌, ltb, if◌then◌else◌, length, ◌⊎◌,
}
use haraka_engine.Base.Order.{Bytes}
use haraka_engine.Util.Deque
use haraka_engine.Util.Deque.{Deque}

pub record PacketHeader (E : Type 0) : Type 0 where
  pub id : E
  pub size : ℕ

pub record Packet (E : Type 0) : Type 0 where
  pub header : PacketHeader E
  pub body : Bytes

-- The memory of a `PacketHeader`, which is what is written: a matter of the compiler.
pub record Layout (E : Type 0) : Type 0 where
  pub width : ℕ
  pub to_bytes : PacketHeader E → Bytes
  pub of_bytes : Bytes → PacketHeader E

-- A header has the `sizeof` of its type, and its memory holds it (`size` has 32 bits).
pub record IsLayout {E : Type 0} (layout : Layout E) : Type 0 where
  pub filled : 0 < layout.width
  pub length-to_bytes : (h : PacketHeader E) → length (layout.to_bytes h) ≡ layout.width
  pub of_bytes-to_bytes :
      (h : PacketHeader E) → h.size < 2 ^ 32 → layout.of_bytes (layout.to_bytes h) ≡ h

-- The write that is outstanding: none, as the queue is empty; the header or the body of the queue's
-- front; none, as one has failed.
pub data Writing : Type 0 where
  idle writing_header writing_body stopped : Writing

-- The sending half, with the packets whose `send_packet` has posted a handler that has not run, and
-- two records of the past: the packets that were sent, and the bytes that the socket has taken.
pub record Writer (E : Type 0) : Type 0 where
  pub output_queue : Deque (Packet E)
  pub posted : List (Packet E)
  pub writing : Writing
  pub is_open : Bool
  pub sent : List (Packet E)
  pub wrote : Bytes

-- The read that is outstanding, of a header or of a body.
pub data Reading : Type 0 where
  reading_header reading_body : Reading

-- The receiving half, with the packets that it has put in the input queue, and the bytes that the
-- socket has and that no read has taken.
pub record Reader (E : Type 0) : Type 0 where
  pub temp_packet : Packet E
  pub input_queue : Deque (Packet E)
  pub reading : Reading
  pub unread : Bytes

-- `body.resize(n)`
unfoldable pub resize : ℕ → Bytes → Bytes
resize zero body = []
resize (suc n) [] = 0 ∷ resize n []
resize (suc n) (b ∷ body) = b ∷ resize n body

-- What a read of `n` bytes takes, and what it leaves; with too few bytes it stays outstanding.
unfoldable pub split_at : ℕ → Bytes → Option (Bytes × Bytes)
split_at zero bytes = some ([], bytes)
split_at (suc n) [] = none
split_at (suc n) (b ∷ bytes) = elim (split_at n bytes) [
  | none ↦ none
  | some (taken, rest) ↦ some (b ∷ taken, rest)
]

module _ {E : Type 0} where
  unfoldable pub write_header : Writer E → Writer E
  write_header s = record s { writing = writing_header }

  unfoldable pub write_body : Writer E → Writer E
  write_body s = record s { writing = writing_body }

  unfoldable pub send_packet : Writer E → Packet E → Writer E
  send_packet s p = record s { posted = s.posted ++ p ∷ []; sent = s.sent ++ p ∷ [] }

  -- The handler that `send_packet` posts.
  unfoldable pub enqueue : Writer E → Packet E → Writer E
  enqueue s p =
      let writing_message = not (Deque.empty s.output_queue) in
      let s' = record s { output_queue = Deque.push_back s.output_queue p } in
      if writing_message then s' else write_header s'

  -- The end of both handlers of a write: the packet is popped, and the next one begun.
  unfoldable pub next_packet : Writer E → Result (Writer E)
  next_packet s = do
    popped ← Deque.pop_front s.output_queue
    let s' = record s { output_queue = popped.1; writing = idle }
    ok (if not (Deque.empty popped.1) then write_header s' else s')

  -- The handler of `write_header`, without an error.
  unfoldable pub header_written : Writer E → Result (Writer E)
  header_written s = do
    p ← Deque.front s.output_queue
    if ltb 0 (length p.body) then ok (write_body s) else next_packet s

  -- The handler of `write_body`, without an error.
  unfoldable pub body_written : Writer E → Result (Writer E)
  body_written s = next_packet s

  -- Both handlers, with an error.
  unfoldable pub write_failed : Writer E → Writer E
  write_failed s = record s { is_open = false; writing = stopped }

  unfoldable pub close_socket : Writer E → Writer E
  close_socket s = record s { is_open = false }

  unfoldable pub add_packet_to_input_queue : Reader E → Reader E
  add_packet_to_input_queue s = record s {
    input_queue = Deque.push_back s.input_queue s.temp_packet;
    reading = reading_header;
  }

  -- The handler of `read_header`, for the header and the length that were read.
  unfoldable pub header_read : PacketHeader E → ℕ → Reader E → Reader E
  header_read header length_read s =
      let s' = record s { temp_packet = record { header = header; body = s.temp_packet.body } } in
      if ltb 0 length_read
      then record s' {
        temp_packet = record { header = header; body = resize header.size s'.temp_packet.body };
        reading = reading_body;
      }
      else add_packet_to_input_queue s'

  -- The handler of `read_body`, for the bytes that were read.
  unfoldable pub body_read : Bytes → Reader E → Reader E
  body_read bytes s =
      add_packet_to_input_queue
        (record s { temp_packet = record { header = s.temp_packet.header; body = bytes } })

module _ {E : Type 0} (layout : Layout E) where
  -- The outstanding read, when the socket has the bytes that it asks for.
  unfoldable pub complete : Reader E → Option (Reader E)
  complete s = elim s.reading [
    | reading_header ↦ elim (split_at layout.width s.unread) [
      | none ↦ none
      | some (bytes, rest) ↦
          some (header_read (layout.of_bytes bytes) layout.width (record s { unread = rest }))
    ]
    | reading_body ↦ elim (split_at (length s.temp_packet.body) s.unread) [
      | none ↦ none
      | some (bytes, rest) ↦ some (body_read bytes (record s { unread = rest }))
    ]
  ]

  -- What a packet is on the wire.
  abbrev pub frame : Packet E → Bytes
  frame p = layout.to_bytes p.header ++ p.body

  abbrev pub frames : List (Packet E) → Bytes
  frames [] = []
  frames (p ∷ ps) = frame p ++ frames ps

  -- The bytes of the outstanding write.
  abbrev pub buffer_of : Writing → List (Packet E) → Bytes
  buffer_of writing_header (p ∷ ps) = layout.to_bytes p.header
  buffer_of writing_body (p ∷ ps) = p.body
  buffer_of _ _ = []

  abbrev pub took : Writer E → Bytes → Writer E
  took s bytes = record s { wrote = s.wrote ++ bytes }

  -- What happens to the sending half: a call, the run of a posted handler, the completion of the
  -- outstanding write on an open socket, its failure behind some of its bytes, and a close from
  -- elsewhere, behind which the outstanding write can only fail. A write that had completed before
  -- the close, and whose handler waits, is one that completes just before it.
  pub data Step (s : Writer E) : Writer E → Type 0 where
    sends : (p : Packet E) → Step s (send_packet s p)
    runs :
        (p : Packet E) (ps : List (Packet E))
        → s.posted ≡ p ∷ ps
        → Step s (enqueue (record s { posted = ps }) p)
    header_done :
        (t : Writer E)
        → s.is_open ≡ true
        → s.writing ≡ writing_header
        → header_written (took s (buffer_of s.writing s.output_queue.queue)) ≡ ok t
        → Step s t
    body_done :
        (t : Writer E)
        → s.is_open ≡ true
        → s.writing ≡ writing_body
        → body_written (took s (buffer_of s.writing s.output_queue.queue)) ≡ ok t
        → Step s t
    fails :
        (part left : Bytes)
        → part ++ left ≡ buffer_of s.writing s.output_queue.queue
        → (s.writing ≡ writing_header) ⊎ (s.writing ≡ writing_body)
        → Step s (write_failed (took s part))
    closes : Step s (close_socket s)

  abbrev pub opened : Writer E
  opened = record {
    output_queue = Deque.deque [];
    posted = [];
    writing = idle;
    is_open = true;
    sent = [];
    wrote = [];
  }

  pub data Reach : Writer E → Type 0 where
    start : Reach opened
    later : {s t : Writer E} → Reach s → Step s t → Reach t
