-- ===== src/Net/Session/Delivery.antt =====
-- What a session has received at any moment of a transmission, one that breaks off included.
use haraka_engine.Base.{
  ℕ, zero, suc, ◌≡◌, refl, sym, ap, ◌∙◌, subst, Option, none, some, List, [], ◌∷◌, ◌++◌,
  append_assoc, length, All,
}
use haraka_engine.Base.Order.{Bytes}
use haraka_engine.Base.Map.Prefix.{snoc-append}
use haraka_engine.Util.Deque
use haraka_engine.Util.Deque.{deque}
use haraka_engine.Net.Session.{
  Packet, PacketHeader, Layout, IsLayout, Writer, Reader, Reading, reading_header, reading_body,
  split_at, add_packet_to_input_queue, header_read, body_read, complete, frames, Reach,
}
use haraka_engine.Net.Session.Cutting.{append_cancel, no_bytes, split_at-some}
use haraka_engine.Net.Session.Runs.{wrote-frames}
use haraka_engine.Net.Session.Receiving.{IsPacket, reader, positive, length-resize}

module _ {E : Type 0} (layout : Layout E) where
  -- The outstanding reads, as many as that, each completed with the bytes that it asks for.
  unfoldable pub reads : ℕ → Reader E → Option (Reader E)
  reads zero s = some s
  reads (suc n) s = elim (complete layout s) [ none ↦ none | some t ↦ reads n t ]

  -- The packets that are to come, for a reader that begins a packet, or has got its header; `left` are
  -- the bytes that have not come.
  abbrev Awaits : Reading → Packet E → Bytes → List (Packet E) → Type 0
  Awaits reading_header temp bytes later = bytes ≡ frames layout later
  Awaits reading_body temp bytes [] = ⊥
  Awaits reading_body temp bytes (p ∷ later) =
      (temp.header ≡ p.header)
      × (length temp.body ≡ length p.body)
      × (bytes ≡ p.body ++ frames layout later)

  -- Of these packets, the reader has the first ones in its queue.
  record IsInStep (ps : List (Packet E)) (left : Bytes) (s : Reader E) : Type 0 where
    later : List (Packet E)
    received : s.input_queue.queue ++ later ≡ ps
    fits : All IsPacket later
    awaits : Awaits s.reading s.temp_packet (s.unread ++ left) later

  module _ (lawful : IsLayout layout) where
    header-IsInStep :
        (ps : List (Packet E)) (left : Bytes) (temp : Packet E) (queue : List (Packet E))
        (taken rest : Bytes) (later : List (Packet E))
        → length taken ≡ layout.width
        → queue ++ later ≡ ps
        → All IsPacket later
        → (taken ++ rest) ++ left ≡ frames layout later
        → IsInStep ps left
            (header_read (layout.of_bytes taken) layout.width (reader layout temp queue rest))
    unfolding header_read
    header-IsInStep ps left temp queue taken rest [] size all fits e =
        absurd (no_bytes layout.width taken rest left lawful.filled size e)
    header-IsInStep ps left temp queue taken rest (p ∷ later) size all fits e =
        let (same, tail) =
          append_cancel taken (rest ++ left) (layout.to_bytes p.header)
            (p.body ++ frames layout later) (size ∙ sym (lawful.length-to_bytes p.header))
            (sym (append_assoc taken rest left)
              ∙ e
              ∙ append_assoc (layout.to_bytes p.header) p.body (frames layout later)) in
        let header : layout.of_bytes taken ≡ p.header =
          ap layout.of_bytes same ∙ lawful.of_bytes-to_bytes p.header fits.0.1 in
        rw (positive layout.width lawful.filled, header_read)
          (record {
            later = p ∷ later;
            received = all;
            fits = fits;
            awaits = (
              header,
              length-resize (layout.of_bytes taken).size temp.body
                  ∙ ap (λ (h : PacketHeader E). h.size) header
                  ∙ fits.0.0,
              tail,
            );
          })

    body_read-IsInStep :
        (ps : List (Packet E)) (left : Bytes) (header : PacketHeader E) (old : Bytes)
        (queue : List (Packet E)) (unread taken rest : Bytes) (p : Packet E)
        (later : List (Packet E))
        → length taken ≡ length p.body
        → queue ++ p ∷ later ≡ ps
        → All IsPacket later
        → header ≡ p.header
        → (taken ++ rest) ++ left ≡ p.body ++ frames layout later
        → IsInStep ps left (
            body_read taken (record {
              temp_packet = record { header = header; body = old };
              input_queue = deque queue;
              reading = reading_body;
              unread = rest;
            }))
    unfolding body_read add_packet_to_input_queue Deque.push_back
    body_read-IsInStep ps left header old queue unread taken rest p later size all fits head e =
        let (same, tail) =
          append_cancel taken (rest ++ left) p.body (frames layout later) size
            (sym (append_assoc taken rest left) ∙ e) in
        record {
          later = later;
          received =
              (λ i. (queue ++ record { header = head i; body = same i } ∷ []) ++ later)
              ∙ sym (snoc-append queue p later)
              ∙ all;
          fits = fits;
          awaits = tail;
        }

    -- A completed read of a header, and one of a body.
    header_done-IsInStep :
        (ps : List (Packet E)) (left : Bytes) (temp : Packet E) (queue : List (Packet E))
        (unread : Bytes) (t : Reader E)
        → complete layout (reader layout temp queue unread) ≡ some t
        → IsInStep ps left (reader layout temp queue unread)
        → IsInStep ps left t
    unfolding complete
    header_done-IsInStep ps left temp queue unread t e h = go (split_at layout.width unread) refl
      where
        go : (r : Option (Bytes × Bytes)) → split_at layout.width unread ≡ r → IsInStep ps left t
        go none f = absurd (cc (rw (f, complete) at e))
        go (some (taken, rest)) f =
            let (parts, size) = split_at-some layout.width unread taken rest f in
            let done =
              header_read (layout.of_bytes taken) layout.width (reader layout temp queue rest) in
            let same : done ≡ t = cc (rw (f, complete) at e) in
            subst (IsInStep ps left) same (
              header-IsInStep ps left temp queue taken rest h.later size h.received h.fits
                (ap (λ l. l ++ left) (sym parts) ∙ h.awaits))

    body_done-IsInStep :
        (ps : List (Packet E)) (left : Bytes) (temp : Packet E) (queue : List (Packet E))
        (unread : Bytes) (t : Reader E) (later : List (Packet E))
        → complete layout (record (reader layout temp queue unread) { reading = reading_body })
          ≡ some t
        → queue ++ later ≡ ps
        → All IsPacket later
        → Awaits reading_body temp (unread ++ left) later
        → IsInStep ps left t
    unfolding complete
    body_done-IsInStep ps left temp queue unread t [] e all fits h = absurd h
    body_done-IsInStep ps left temp queue unread t (p ∷ later) e all fits (head, long, bytes) =
        go (split_at (length temp.body) unread) refl
      where
        go :
            (r : Option (Bytes × Bytes))
            → split_at (length temp.body) unread ≡ r
            → IsInStep ps left t
        go none f = absurd (cc (rw (f, complete) at e))
        go (some (taken, rest)) f =
            let (parts, size) = split_at-some (length temp.body) unread taken rest f in
            let done =
              body_read taken (record (reader layout temp queue rest) { reading = reading_body }) in
            let same : done ≡ t = cc (rw (f, complete) at e) in
            subst (IsInStep ps left) same (
              body_read-IsInStep ps left temp.header temp.body queue unread taken rest p later
                (size ∙ long) all fits.1 head (ap (λ l. l ++ left) (sym parts) ∙ bytes))

    complete-IsInStep :
        (ps : List (Packet E)) (left : Bytes) (m : Reading) (temp : Packet E)
        (queue : List (Packet E)) (unread : Bytes) (t : Reader E)
        → complete layout (record (reader layout temp queue unread) { reading = m }) ≡ some t
        → IsInStep ps left (record (reader layout temp queue unread) { reading = m })
        → IsInStep ps left t
    complete-IsInStep ps left reading_header temp queue unread t e h =
        header_done-IsInStep ps left temp queue unread t e h
    complete-IsInStep ps left reading_body temp queue unread t e h =
        body_done-IsInStep ps left temp queue unread t h.later e h.received h.fits h.awaits

    reads-IsInStep :
        (ps : List (Packet E)) (left : Bytes) (n : ℕ) (s t : Reader E)
        → reads n s ≡ some t
        → IsInStep ps left s
        → IsInStep ps left t
    unfolding reads
    reads-IsInStep ps left zero s t e h = let same : s ≡ t = cc in subst (IsInStep ps left) same h
    reads-IsInStep ps left (suc n) s t e h =
        go (complete layout s) refl (λ u. reads-IsInStep ps left n u t)
      where
        go :
            (r : Option (Reader E))
            → complete layout s ≡ r
            → ((u : Reader E) → reads n u ≡ some t → IsInStep ps left u → IsInStep ps left t)
            → IsInStep ps left t
        go none f rest = absurd (cc (rw (f, reads) at e))
        go (some u) f rest =
            rest u (rw (f, reads) at e)
              (complete-IsInStep ps left s.reading s.temp_packet s.input_queue.queue s.unread u f h)

    -- With a lawful layout of headers: take any state of a sending session, failures and closes
    -- included, that was given packets whose headers give their bodies' lengths. However many reads
    -- a receiver completes on the bytes that the socket has taken, what it has put in its input
    -- queue begins the packets that were sent, in order.
    pub reads_received :
        {s : Writer E} (temp : Packet E) (n : ℕ) (r : Reader E)
        → Reach layout s
        → All IsPacket s.sent
        → reads n (reader layout temp [] s.wrote) ≡ some r
        → (more : List (Packet E)) × (r.input_queue.queue ++ more ≡ s.sent)
    reads_received {s} temp n r run fits e =
        let (left, whole) = wrote-frames layout run in
        let h =
          reads-IsInStep s.sent left n (reader layout temp [] s.wrote) r e
            (record { later = s.sent; received = refl; fits = fits; awaits = whole }) in
        (h.later, h.received)
