-- ===== src/Net/Session/Sending.antt =====
-- The sending half of a session: one write at a time, in the order of the packets.
use haraka_engine.Base.{
  ◌≡◌, refl, sym, ap, ◌∙◌, Bool, false, List, [], ◌∷◌, ◌++◌, Result, arith, append-nil,
  append_assoc, ok, ltb, length, inl, inr, Bool-cases,
}
use haraka_engine.Base.Order.{Bytes}
use haraka_engine.Base.Map.Prefix.{snoc-append}
use haraka_engine.Util.Deque
use haraka_engine.Util.Deque.{Deque, deque}
use haraka_engine.Net.Session.{
  Packet, Layout, Writer, Writing, idle, writing_header, writing_body, stopped, write_header,
  write_body, send_packet, enqueue, next_packet, header_written, body_written, close_socket, frame,
  frames, opened,
}

module _ {E : Type 0} (layout : Layout E) where
  pub frames-append :
      (ps qs : List (Packet E)) → frames layout (ps ++ qs) ≡ frames layout ps ++ frames layout qs
  frames-append [] qs = refl
  frames-append (p ∷ ps) qs =
      ap (λ r. frame layout p ++ r) (frames-append ps qs)
      ∙ sym (append_assoc (frame layout p) (frames layout ps) (frames layout qs))

  -- Behind the frames of `done`, the bytes of the queue's front that are on their way.
  abbrev pub Partly : Writing → List (Packet E) → Bytes → Bytes → Type 0
  Partly idle [] all wrote = wrote ≡ all
  Partly idle (p ∷ ps) all wrote = ⊥
  Partly writing_header (p ∷ ps) all wrote = wrote ≡ all
  Partly writing_body (p ∷ ps) all wrote = wrote ≡ all ++ layout.to_bytes p.header
  Partly stopped (p ∷ ps) all wrote = (left : Bytes) × (wrote ++ left ≡ all ++ frame layout p)
  Partly _ [] all wrote = ⊥

  -- The packets that were sent are those done, those queued and those posted, in this order.
  pub record IsOrdered (s : Writer E) : Type 0 where
    pub done : List (Packet E)
    pub ordered : s.sent ≡ done ++ s.output_queue.queue ++ s.posted
    pub partly : Partly s.writing s.output_queue.queue (frames layout done) s.wrote

  pub opened-IsOrdered : IsOrdered (opened layout)
  opened-IsOrdered = record { done = []; ordered = refl; partly = refl }

  pub send_packet-IsOrdered :
      (s : Writer E) (p : Packet E) → IsOrdered s → IsOrdered (send_packet s p)
  unfolding send_packet
  send_packet-IsOrdered s p h = record {
    done = h.done;
    ordered =
        ap (λ l. l ++ p ∷ []) h.ordered
        ∙ append_assoc (h.done ++ s.output_queue.queue) s.posted (p ∷ []);
    partly = h.partly;
  }

  pub close_socket-IsOrdered : (s : Writer E) → IsOrdered s → IsOrdered (close_socket s)
  unfolding close_socket
  close_socket-IsOrdered s h = record { done = h.done; ordered = h.ordered; partly = h.partly }

  abbrev pub state :
      List (Packet E) → Writing → List (Packet E) → Bool → List (Packet E) → Bytes → Writer E
  state q w posted up sent wrote = record {
    output_queue = deque q;
    posted = posted;
    writing = w;
    is_open = up;
    sent = sent;
    wrote = wrote;
  }

  Partly-front :
      (w : Writing) (x : Packet E) (xs ys : List (Packet E)) (all wrote : Bytes)
      → Partly w (x ∷ xs) all wrote
      → Partly w (x ∷ ys) all wrote
  Partly-front idle x xs ys all wrote h = absurd h
  Partly-front writing_header x xs ys all wrote h = h
  Partly-front writing_body x xs ys all wrote h = h
  Partly-front stopped x xs ys all wrote h = h

  pub enqueue-IsOrdered :
      (q : List (Packet E)) (w : Writing) (rest sent : List (Packet E)) (up : Bool) (wrote : Bytes)
      (p : Packet E) (done : List (Packet E))
      → sent ≡ done ++ q ++ p ∷ rest
      → Partly w q (frames layout done) wrote
      → IsOrdered (enqueue (state q w rest up sent wrote) p)
  unfolding enqueue Deque.push_back Deque.empty Deque.is_empty write_header
  enqueue-IsOrdered [] idle rest sent up wrote p done e h = record {
    done = done;
    ordered = e ∙ ap (λ d. d ++ p ∷ rest) (append-nil done) ∙ snoc-append done p rest;
    partly = h;
  }
  enqueue-IsOrdered (x ∷ xs) w rest sent up wrote p done e h = record {
    done = done;
    ordered =
        e
        ∙ snoc-append (done ++ x ∷ xs) p rest
        ∙ ap (λ l. l ++ rest) (append_assoc done (x ∷ xs) (p ∷ []));
    partly = Partly-front w x xs (xs ++ p ∷ []) (frames layout done) wrote h;
  }
  enqueue-IsOrdered [] _ rest sent up wrote p done e h = absurd h

  -- The handler does not throw, and what it leaves is in order.
  abbrev pub Continues : Result (Writer E) → Type 0
  Continues r = (t : Writer E) × (r ≡ ok t) × IsOrdered t

  frames-snoc :
      (done : List (Packet E)) (p : Packet E)
      → frames layout (done ++ p ∷ []) ≡ frames layout done ++ frame layout p
  frames-snoc done p =
      frames-append done (p ∷ []) ∙ ap (λ r. frames layout done ++ r) (append-nil (frame layout p))

  module _ (p : Packet E) (ps posted : List (Packet E)) (up : Bool) (sent : List (Packet E))
      (wrote : Bytes) (done : List (Packet E)) (e : sent ≡ done ++ (p ∷ ps) ++ posted) where
    next_packet-Continues :
        (w : Writing)
        → wrote ≡ frames layout done ++ frame layout p
        → Continues (next_packet (state (p ∷ ps) w posted up sent wrote))
    unfolding next_packet Deque.pop_front Deque.pop_front_of Deque.empty Deque.is_empty write_header
    next_packet-Continues w h = next ps e
      where
        next :
            (qs : List (Packet E))
            → sent ≡ done ++ (p ∷ qs) ++ posted
            → Continues (next_packet (state (p ∷ qs) w posted up sent wrote))
        next [] f = (
          _,
          refl,
          record {
            done = done ++ p ∷ [];
            ordered = f ∙ ap (λ l. l ++ posted) (sym (append-nil (done ++ p ∷ [])));
            partly = h ∙ sym (frames-snoc done p);
          },
        )
        next (x ∷ xs) f = (
          _,
          refl,
          record {
            done = done ++ p ∷ [];
            ordered = f ∙ ap (λ l. l ++ posted) (snoc-append done p (x ∷ xs));
            partly = h ∙ sym (frames-snoc done p);
          },
        )

  no_bytes : (b : Bytes) → ltb 0 (length b) ≡ false → b ≡ []
  no_bytes [] c = refl
  no_bytes (x ∷ xs) c = absurd (ground (arith, c))

  module _ (p : Packet E) (ps posted : List (Packet E)) (up : Bool) (sent : List (Packet E))
      (wrote : Bytes) (done : List (Packet E)) (e : sent ≡ done ++ (p ∷ ps) ++ posted) where
    abbrev pub headed : Writer E
    headed = state (p ∷ ps) writing_header posted up sent (wrote ++ layout.to_bytes p.header)

    pub header_written-Continues : wrote ≡ frames layout done → Continues (header_written headed)
    unfolding header_written Deque.front Deque.front_of write_body
    header_written-Continues h = elim (Bool-cases (ltb 0 (length p.body))) [
      | inl c ↦ (
        write_body headed,
        rw (c, header_written) refl,
        record { done = done; ordered = e; partly = ap (λ b. b ++ layout.to_bytes p.header) h },
      )
      | inr c ↦
          let whole : wrote ++ layout.to_bytes p.header ≡ frames layout done ++ frame layout p =
            ap (λ b. b ++ layout.to_bytes p.header) h
            ∙ ap (λ b. frames layout done ++ b)
                (sym (
                  ap (λ b. layout.to_bytes p.header ++ b) (no_bytes p.body c)
                  ∙ append-nil (layout.to_bytes p.header))) in
          let (t, made, o) =
            next_packet-Continues p ps posted up sent (wrote ++ layout.to_bytes p.header) done e
              writing_header whole in
          (t, rw (c, header_written) made, o)
    ]

    pub body_written-Continues :
        wrote ≡ frames layout done ++ layout.to_bytes p.header
        → Continues (body_written (state (p ∷ ps) writing_body posted up sent (wrote ++ p.body)))
    unfolding body_written
    body_written-Continues h =
        next_packet-Continues p ps posted up sent (wrote ++ p.body) done e writing_body (
          ap (λ b. b ++ p.body) h
          ∙ append_assoc (frames layout done) (layout.to_bytes p.header) p.body)
