-- ===== src/Server/Examples/Following.antt =====
-- The theorem on a client that follows a game, used on a tick of the example game.
use haraka_engine.Base.{ℕ, ◌≡◌, refl, some, ok, List, [], ◌∷◌, get_or, drop, length, arith}
use haraka_engine.Core.Platform.{whole_floats, whole_floats-IsIeee}
use haraka_engine.Core.Examples.{arena, arena-Clones}
use haraka_engine.Core.Examples.Growing.{growing, growth, growing-IsTick, growing-IsExchangeable}
use haraka_engine.Core.Instance.{update_tick}
use haraka_engine.Core.Types.Template.{word_bytes, bytes_word}
use haraka_engine.Core.Types.Wire.{bytes_word-word_bytes}
use haraka_engine.Net.Session.{Packet, Layout, IsLayout, Writer, Reader, Reach, idle}
use haraka_engine.Net.Session.Receiving.{read_packets, reader}
use haraka_engine.Net.Session.Drained.{send_all-IsDrained}
use haraka_engine.Server.Controller
use haraka_engine.Server.Controller.{
  PacketType, connection, connection_result, connection_confirmed, connection_denied, disconnection,
  full_snapshot, full_snapshot_result, delta_snapshot_result, action,
}
use haraka_engine.Server.Controller.Updates.{update_packet}
use haraka_engine.Server.Controller.Mirror.{followed_all, here, ticks, Course-IsMirrored}
use haraka_engine.Server.Examples.{codec, codec-ReadsBack, growth-IsSendable}

abbrev tag : PacketType → ℕ
tag connection = 0
tag connection_result = 1
tag connection_confirmed = 2
tag connection_denied = 3
tag disconnection = 4
tag full_snapshot = 5
tag full_snapshot_result = 6
tag delta_snapshot_result = 7
tag action = 8

abbrev types : List PacketType
types =
    connection ∷ connection_result ∷ connection_confirmed ∷ connection_denied ∷ disconnection
    ∷ full_snapshot ∷ full_snapshot_result ∷ delta_snapshot_result ∷ action ∷ []

type_of_tag : (t : PacketType) → get_or types (tag t) connection ≡ t
type_of_tag connection = refl
type_of_tag connection_result = refl
type_of_tag connection_confirmed = refl
type_of_tag connection_denied = refl
type_of_tag disconnection = refl
type_of_tag full_snapshot = refl
type_of_tag full_snapshot_result = refl
type_of_tag delta_snapshot_result = refl
type_of_tag action = refl

-- One byte for the kind of the packet, four for the size of its body.
abbrev tagged : Layout PacketType
tagged = record {
  width = 5;
  to_bytes = λ h. tag h.id ∷ word_bytes h.size;
  of_bytes =
      λ bs. record { id = get_or types (get_or bs 0 0) connection; size = bytes_word (drop 1 bs) };
}

tagged-IsLayout : IsLayout tagged
tagged-IsLayout = record {
  filled = omega arith;
  length-to_bytes = λ h. refl;
  of_bytes-to_bytes = λ h bounded i. record {
    id = type_of_tag h.id i;
    size = bytes_word-word_bytes h.size [] bounded i;
  };
}

abbrev packet : Packet PacketType
packet = update_packet arena codec growth

-- A session that has sent the packet of the tick.
abbrev sender :
    (w : Writer PacketType) × Reach tagged w
    × (w.writing ≡ idle)
    × (w.posted ≡ [])
    × (w.sent ≡ packet ∷ [])
sender = send_all-IsDrained tagged (packet ∷ [])

Course-IsMirrored_example :
    (r : Reader PacketType) × (read_packets tagged
        (length sender.0.sent)
        (reader tagged (Controller.header_only action) [] sender.0.wrote)
      ≡ some r)
    × (followed_all arena codec growing.current_snapshot r.input_queue.queue
        ≡ ok (update_tick arena growing).0.current_snapshot)
Course-IsMirrored_example =
    Course-IsMirrored arena codec whole_floats-IsIeee arena-Clones codec-ReadsBack tagged
      (Controller.header_only action) tagged-IsLayout
      (ticks growth here growing-IsTick growing-IsExchangeable growth-IsSendable) sender.1 sender.4
      sender.2 sender.3
