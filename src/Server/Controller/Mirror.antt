-- ===== src/Server/Controller/Mirror.antt =====
-- A client that follows a game over many ticks: the packets that `_send_delta_update` makes of the
-- differences, one a tick, carried as bytes from the one session to the other.
use haraka_engine.Base.{
  ◌≡◌, refl, sym, ap, ◌∙◌, subst, some, List, [], ◌∷◌, ◌++◌, Result, ok, ◌>>=◌, >>=-eq-ok, All,
  length, arith,
}
use haraka_engine.Core.Platform.{Platform, IsIeee}
use haraka_engine.Core.Object.{Game, Clones}
use haraka_engine.Core.Snapshot.{Snapshot}
use haraka_engine.Core.Action.{GameAction}
use haraka_engine.Core.Delta
use haraka_engine.Core.Delta.{DeltaSnapshot}
use haraka_engine.Core.Delta.Pipeline.{IsExchangeable}
use haraka_engine.Core.Instance.{GameInstance, add_action, update_tick}
use haraka_engine.Core.Instance.Replay.{IsTick}
use haraka_engine.Net.Session.{Packet, Layout, IsLayout, Writer, Reader, idle, Reach}
use haraka_engine.Net.Session.Receiving.{IsPacket, read_packets, reader, read_packets-sent}
use haraka_engine.Server.Controller.{PacketType, Codec, encode_packet}
use haraka_engine.Server.Controller.Messages.{IsSendable, ReadsBack}
use haraka_engine.Server.Controller.Updates.{update_packet, followed, followed_lem}

module _ {F : Type 0} ⦃p : Platform F⦄ (g : Game F) (codec : Codec) where
  -- What a client makes of the packets, from a snapshot that it holds.
  abbrev pub followed_all : Snapshot F → List (Packet PacketType) → Result (Snapshot F)
  followed_all held [] = ok held
  followed_all held (packet ∷ packets) =
      followed g codec held packet >>= λ next. followed_all next packets

  -- A course of an instance, with the differences that it returned: actions that are queued, and ticks
  -- between snapshots in succession which fit to be exchanged, as does the buffer of the difference.
  pub data Course (i : GameInstance F) : List (DeltaSnapshot F) → GameInstance F → Type 0 where
    here : Course i [] i
    ticks :
        {deltas : List (DeltaSnapshot F)} {j : GameInstance F} (delta : DeltaSnapshot F)
        → Course i deltas j
        → IsTick g j delta
        → IsExchangeable g j.current_snapshot (update_tick g j).0.current_snapshot
        → IsSendable codec (Delta.serialize delta)
        → Course i (deltas ++ delta ∷ []) (update_tick g j).0
    queues :
        {deltas : List (DeltaSnapshot F)} {j : GameInstance F} (a : GameAction F)
        → Course i deltas j
        → Course i deltas (add_action j a)

  abbrev pub update_packets : List (DeltaSnapshot F) → List (Packet PacketType)
  update_packets [] = []
  update_packets (delta ∷ deltas) = update_packet g codec delta ∷ update_packets deltas

  followed_all-snoc :
      (deltas : List (DeltaSnapshot F)) (delta : DeltaSnapshot F) (held next last : Snapshot F)
      → followed_all held (update_packets deltas) ≡ ok next
      → followed g codec next (update_packet g codec delta) ≡ ok last
      → followed_all held (update_packets (deltas ++ delta ∷ [])) ≡ ok last
  followed_all-snoc [] delta held next last e f = let same : held ≡ next = cc in rw (same, f) refl
  followed_all-snoc (d ∷ deltas) delta held next last e f =
      let (first, one, others) =
        >>=-eq-ok (followed g codec held (update_packet g codec d))
          (λ h. followed_all h (update_packets deltas)) e in
      rw one (followed_all-snoc deltas delta first next last others f)

  update_packet-IsPacket :
      (delta : DeltaSnapshot F)
      → IsSendable codec (Delta.serialize delta)
      → IsPacket (update_packet g codec delta)
  unfolding encode_packet
  update_packet-IsPacket delta h = (omega (arith, h.bounded), omega arith)

  update_packets-IsPacket :
      (deltas : List (DeltaSnapshot F)) (delta : DeltaSnapshot F)
      → All IsPacket (update_packets deltas)
      → IsPacket (update_packet g codec delta)
      → All IsPacket (update_packets (deltas ++ delta ∷ []))
  update_packets-IsPacket [] delta h k = (k, tt)
  update_packets-IsPacket (d ∷ deltas) delta h k = (h.0, update_packets-IsPacket deltas delta h.1 k)

  Course-IsPacket :
      {i j : GameInstance F} {deltas : List (DeltaSnapshot F)}
      → Course i deltas j
      → All IsPacket (update_packets deltas)
  Course-IsPacket here = tt
  Course-IsPacket (ticks {deltas} delta course tick fits sendable) =
      update_packets-IsPacket deltas delta (Course-IsPacket course)
        (update_packet-IsPacket delta sendable)
  Course-IsPacket (queues a course) = Course-IsPacket course

  module _ (ieee : IsIeee p) (clones : Clones g) (reads_back : ReadsBack codec) where
    Course-followed :
        {i j : GameInstance F} {deltas : List (DeltaSnapshot F)}
        → Course i deltas j
        → followed_all i.current_snapshot (update_packets deltas) ≡ ok j.current_snapshot
    unfolding add_action
    Course-followed here = refl
    Course-followed {i} (ticks {deltas} {j} delta course tick fits sendable) =
        followed_all-snoc deltas delta i.current_snapshot j.current_snapshot _
          (Course-followed course)
          (followed_lem g codec ieee clones reads_back j delta tick fits sendable)
    Course-followed (queues a course) = Course-followed course

    -- With IEEE floats, a `clone` that copies, a codec that reads back what proto3 allows, and a
    -- lawful layout of headers: take any course of a game instance through ticks that succeed
    -- between snapshots in succession, one tick apart, which fit to be exchanged, with differences
    -- whose buffers are messages that proto3 allows, and through actions that are queued. When the
    -- sending half of a session was given the packets of these differences, as `_send_delta_update`
    -- makes them, and has come to rest, a receiver that reads the bytes gets packets from which,
    -- one after the other, a client that held the instance's first snapshot gets its last one.
    pub Course-IsMirrored :
        {i j : GameInstance F} {deltas : List (DeltaSnapshot F)} {w : Writer PacketType}
        (layout : Layout PacketType) (temp : Packet PacketType)
        → IsLayout layout
        → Course i deltas j
        → Reach layout w
        → w.sent ≡ update_packets deltas
        → w.writing ≡ idle
        → w.posted ≡ []
        → (r : Reader PacketType) × (read_packets layout
              (length w.sent)
              (reader layout temp [] w.wrote)
            ≡ some r)
          × (followed_all i.current_snapshot r.input_queue.queue ≡ ok j.current_snapshot)
    Course-IsMirrored {i} {j} {deltas} {w} layout temp lawful course run sent rest quiet =
        let fit = subst (All IsPacket) (sym sent) (Course-IsPacket course) in
        let (last, e) = read_packets-sent layout lawful temp [] run rest quiet fit in
        (
          reader layout last w.sent [],
          e,
          ap (followed_all i.current_snapshot) sent ∙ Course-followed course,
        )
