-- ===== src/Net/Session/Receiving.antt =====
-- The receiving half of a session, and a session that reads what another has written.
use haraka_engine.Base.{
  ℕ, zero, suc, ◌<◌, ◌^◌, true, ◌≡◌, refl, sym, ap, ◌∙◌, Option, none, some, List, [], ◌∷◌, ◌++◌,
  append_assoc, length, All, arith, ltb, append-nil,
}
use haraka_engine.Base.Order.{Bytes}
use haraka_engine.Base.Map.Prefix.{snoc-append}
use haraka_engine.Util.Deque
use haraka_engine.Util.Deque.{Deque, deque}
use haraka_engine.Net.Session.{
  Packet, PacketHeader, Layout, IsLayout, Writer, idle, Reader, reading_header, reading_body,
  resize, split_at, add_packet_to_input_queue, header_read, body_read, complete, frame, frames,
  Reach,
}
use haraka_engine.Net.Session.Runs.{wrote-frames_idle}

split_at-append : (n : ℕ) (xs ys : Bytes) → length xs ≡ n → split_at n (xs ++ ys) ≡ some (xs, ys)
unfolding split_at
split_at-append zero [] ys e = refl
split_at-append (suc n) (x ∷ xs) ys e =
    rw (split_at-append n xs ys (omega (arith, e)), split_at) refl
split_at-append zero (x ∷ xs) ys e = absurd (omega (arith, e))
split_at-append (suc n) [] ys e = absurd (omega (arith, e))

pub positive : (n : ℕ) → 0 < n → ltb 0 n ≡ true
positive n h = ground arith

pub length-resize : (n : ℕ) (body : Bytes) → length (resize n body) ≡ n
unfolding resize
length-resize zero body = refl
length-resize (suc n) [] = ap suc (length-resize n [])
length-resize (suc n) (b ∷ body) = ap suc (length-resize n body)

-- The header says how long the body is, in its 32 bits.
abbrev pub IsPacket : {E : Type 0} → Packet E → Type 0
IsPacket p = (p.header.size ≡ length p.body) × (p.header.size < 2 ^ 32)

abbrev pub then_complete : {E : Type 0} → Layout E → Option (Reader E) → Option (Reader E)
then_complete layout none = none
then_complete layout (some s) = complete layout s

module _ {E : Type 0} (layout : Layout E) where
  -- The reads of `n` packets, a header and a body each.
  unfoldable pub read_packets : ℕ → Reader E → Option (Reader E)
  read_packets zero s = some s
  read_packets (suc n) s = elim (then_complete layout (complete layout s)) [
    | none ↦ none
    | some t ↦ read_packets n t
  ]

  abbrev pub reader : Packet E → List (Packet E) → Bytes → Reader E
  reader temp received unread = record {
    temp_packet = temp;
    input_queue = deque received;
    reading = reading_header;
    unread = unread;
  }

  module _ (lawful : IsLayout layout) where
    complete_header :
        (temp : Packet E) (received : List (Packet E)) (h : PacketHeader E) (rest : Bytes)
        → h.size < 2 ^ 32
        → complete layout (reader temp received (layout.to_bytes h ++ rest))
          ≡ some (record {
            temp_packet = record { header = h; body = resize h.size temp.body };
            input_queue = deque received;
            reading = reading_body;
            unread = rest;
          })
    unfolding complete header_read
    complete_header temp received h rest bounded =
        rw
          (
            split_at-append layout.width (layout.to_bytes h) rest (lawful.length-to_bytes h),
            lawful.of_bytes-to_bytes h bounded,
            positive layout.width lawful.filled,
            complete,
          )
          refl

    complete_body :
        (h : PacketHeader E) (old body : Bytes) (received : List (Packet E)) (rest : Bytes)
        → length old ≡ length body
        → complete layout (record {
          temp_packet = record { header = h; body = old };
          input_queue = deque received;
          reading = reading_body;
          unread = body ++ rest;
        })
          ≡ some (
              reader
                (record { header = h; body = body })
                (received ++ record { header = h; body = body } ∷ [])
                rest)
    unfolding complete body_read add_packet_to_input_queue Deque.push_back
    complete_body h old body received rest e =
        rw (split_at-append (length old) body rest (sym e), complete) refl

    read_packet :
        (temp : Packet E) (received : List (Packet E)) (p : Packet E) (rest : Bytes)
        → IsPacket p
        → then_complete layout (complete layout (reader temp received (frame layout p ++ rest)))
          ≡ some (reader p (received ++ p ∷ []) rest)
    read_packet temp received p rest fits =
        rw
          (
            append_assoc (layout.to_bytes p.header) p.body rest,
            complete_header temp received p.header (p.body ++ rest) fits.1,
          )
          (complete_body p.header (resize p.header.size temp.body) p.body received rest
            (length-resize p.header.size temp.body ∙ fits.0))

    -- With a lawful layout of headers: from frames of packets whose headers give their bodies'
    -- lengths, the reads put exactly these packets behind what the input queue had, in order, and
    -- leave the bytes behind the frames unread.
    pub read_packets-frames :
        (temp : Packet E) (received ps : List (Packet E)) (rest : Bytes)
        → All IsPacket ps
        → (last : Packet E) × (read_packets
              (length ps)
              (reader temp received (frames layout ps ++ rest))
            ≡ some (reader last (received ++ ps) rest))
    unfolding read_packets
    read_packets-frames temp received [] rest fits =
        (temp, ap (λ l. some (reader temp l rest)) (sym (append-nil received)))
    read_packets-frames temp received (p ∷ ps) rest fits =
        let (last, e) = read_packets-frames p (received ++ p ∷ []) ps rest fits.1 in
        (
          last,
          rw
              (
                append_assoc (frame layout p) (frames layout ps) rest,
                read_packet temp received p (frames layout ps ++ rest) fits.0,
                read_packets,
              )
              (e ∙ ap (λ l. some (reader last l rest)) (sym (snoc-append received p ps))),
        )

    -- With a lawful layout of headers: when a sending session that was given packets whose headers
    -- give their bodies' lengths has no write outstanding, none failed and no handler posted, a
    -- session that reads the bytes it wrote receives exactly the packets that were sent, in order.
    pub read_packets-sent :
        {s : Writer E} (temp : Packet E) (received : List (Packet E))
        → Reach layout s
        → s.writing ≡ idle
        → s.posted ≡ []
        → All IsPacket s.sent
        → (last : Packet E) × (read_packets (length s.sent) (reader temp received s.wrote)
            ≡ some (reader last (received ++ s.sent) []))
    read_packets-sent {s} temp received r resting none_posted fits =
        rw (wrote-frames_idle layout r resting none_posted, sym (append-nil (frames layout s.sent)))
          (read_packets-frames temp received s.sent [] fits)
