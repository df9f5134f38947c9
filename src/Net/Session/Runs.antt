-- ===== src/Net/Session/Runs.antt =====
-- The runs of the sending half of a session.
use haraka_engine.Base.{
  Result, ◌≡◌, refl, sym, ap, ◌∙◌, subst, List, [], ◌∷◌, ◌++◌, append-nil, append_assoc, ok, ◌⊎◌,
  inl, inr,
}
use haraka_engine.Base.Order.{Bytes}
use haraka_engine.Net.Session.{
  Packet, Layout, Writer, Writing, idle, writing_header, writing_body, stopped, header_written,
  body_written, write_failed, frame, frames, buffer_of, took, Step, sends, runs, header_done,
  body_done, fails, closes, Reach, start, later,
}
use haraka_engine.Net.Session.Sending.{
  frames-append, Partly, IsOrdered, opened-IsOrdered, send_packet-IsOrdered, close_socket-IsOrdered,
  state, enqueue-IsOrdered, Continues, header_written-Continues, body_written-Continues,
}

module _ {E : Type 0} (layout : Layout E) where
  -- The bytes that a failing write has taken, and those that it has not.
  failed-Partly :
      (w : Writing) (q : List (Packet E)) (all wrote part left : Bytes)
      → part ++ left ≡ buffer_of layout w q
      → (w ≡ writing_header) ⊎ (w ≡ writing_body)
      → Partly layout w q all wrote
      → Partly layout stopped q all (wrote ++ part)
  failed-Partly writing_header (p ∷ ps) all wrote part left e _ h = (
    left ++ p.body,
    append_assoc wrote part (left ++ p.body)
        ∙ ap (λ b. wrote ++ b) (sym (append_assoc part left p.body) ∙ ap (λ b. b ++ p.body) e)
        ∙ ap (λ b. b ++ frame layout p) h,
  )
  failed-Partly writing_body (p ∷ ps) all wrote part left e _ h = (
    left,
    append_assoc wrote part left
        ∙ ap (λ b. wrote ++ b) e
        ∙ ap (λ b. b ++ p.body) h
        ∙ append_assoc all (layout.to_bytes p.header) p.body,
  )
  failed-Partly writing_header [] all wrote part left e _ h = absurd h
  failed-Partly writing_body [] all wrote part left e _ h = absurd h
  failed-Partly idle q all wrote part left e (inl c) h = absurd (cc (c))
  failed-Partly idle q all wrote part left e (inr c) h = absurd (cc (c))
  failed-Partly stopped q all wrote part left e (inl c) h = absurd (cc (c))
  failed-Partly stopped q all wrote part left e (inr c) h = absurd (cc (c))

  -- The outstanding write, when it completes.
  abbrev pub sent_bytes : Writer E → Writer E
  sent_bytes s = took layout s (buffer_of layout s.writing s.output_queue.queue)

  pub header_done-Continues :
      (s : Writer E)
      → s.writing ≡ writing_header
      → IsOrdered layout s
      → Continues layout (header_written (sent_bytes s))
  header_done-Continues s at h = go s.writing s.output_queue.queue at h.done h.ordered h.partly
    where
      go :
          (w : Writing) (q : List (Packet E))
          → w ≡ writing_header
          → (done : List (Packet E)) → s.sent ≡ done ++ q ++ s.posted
          → Partly layout w q (frames layout done) s.wrote
          → Continues layout
              (header_written (sent_bytes (state layout q w s.posted s.is_open s.sent s.wrote)))
      go writing_header (p ∷ ps) _ done e h =
          header_written-Continues layout p ps s.posted s.is_open s.sent s.wrote done e h
      go writing_header [] _ done e h = absurd h
      go idle q c done e h = absurd (cc (c))
      go writing_body q c done e h = absurd (cc (c))
      go stopped q c done e h = absurd (cc (c))

  pub body_done-Continues :
      (s : Writer E)
      → s.writing ≡ writing_body
      → IsOrdered layout s
      → Continues layout (body_written (sent_bytes s))
  body_done-Continues s at h = go s.writing s.output_queue.queue at h.done h.ordered h.partly
    where
      go :
          (w : Writing) (q : List (Packet E))
          → w ≡ writing_body
          → (done : List (Packet E)) → s.sent ≡ done ++ q ++ s.posted
          → Partly layout w q (frames layout done) s.wrote
          → Continues layout
              (body_written (sent_bytes (state layout q w s.posted s.is_open s.sent s.wrote)))
      go writing_body (p ∷ ps) _ done e h =
          body_written-Continues layout p ps s.posted s.is_open s.sent s.wrote done e h
      go writing_body [] _ done e h = absurd h
      go idle q c done e h = absurd (cc (c))
      go writing_header q c done e h = absurd (cc (c))
      go stopped q c done e h = absurd (cc (c))

  Step-IsOrdered : {s t : Writer E} → Step layout s t → IsOrdered layout s → IsOrdered layout t
  unfolding write_failed
  Step-IsOrdered {s} (sends p) h = send_packet-IsOrdered layout s p h
  Step-IsOrdered {s} (runs p ps e) h =
      enqueue-IsOrdered layout s.output_queue.queue s.writing ps s.sent s.is_open s.wrote p h.done
        (h.ordered ∙ ap (λ l. h.done ++ s.output_queue.queue ++ l) e) h.partly
  Step-IsOrdered {s} (header_done t up at e) h =
      let (u, made, o) = header_done-Continues s at h in
      let q : u ≡ t = cc (made, e) in subst (IsOrdered layout) q o
  Step-IsOrdered {s} (body_done t up at e) h =
      let (u, made, o) = body_done-Continues s at h in
      let q : u ≡ t = cc (made, e) in subst (IsOrdered layout) q o
  Step-IsOrdered {s} (fails part left e at) h = record {
    done = h.done;
    ordered = h.ordered;
    partly =
        failed-Partly s.writing s.output_queue.queue (frames layout h.done) s.wrote part left e at
          h.partly;
  }
  Step-IsOrdered {s} closes h = close_socket-IsOrdered layout s h

  pub Reach-IsOrdered : {s : Writer E} → Reach layout s → IsOrdered layout s
  Reach-IsOrdered start = opened-IsOrdered layout
  Reach-IsOrdered (later r st) = Step-IsOrdered st (Reach-IsOrdered r)

  Partly-prefix :
      (w : Writing) (q : List (Packet E)) (all wrote : Bytes)
      → Partly layout w q all wrote
      → (left : Bytes) × (wrote ++ left ≡ all ++ frames layout q)
  Partly-prefix idle [] all wrote h = ([], ap (λ b. b ++ []) h)
  Partly-prefix writing_header (p ∷ ps) all wrote h =
      (frames layout (p ∷ ps), ap (λ b. b ++ frames layout (p ∷ ps)) h)
  Partly-prefix writing_body (p ∷ ps) all wrote h = (
    p.body ++ frames layout ps,
    ap (λ b. b ++ (p.body ++ frames layout ps)) h
        ∙ append_assoc all (layout.to_bytes p.header) (p.body ++ frames layout ps)
        ∙ ap (λ b. all ++ b)
            (sym (append_assoc (layout.to_bytes p.header) p.body (frames layout ps))),
  )
  Partly-prefix stopped (p ∷ ps) all wrote (left, e) = (
    left ++ frames layout ps,
    sym (append_assoc wrote left (frames layout ps))
        ∙ ap (λ b. b ++ frames layout ps) e
        ∙ append_assoc all (frame layout p) (frames layout ps),
  )
  Partly-prefix idle (p ∷ ps) all wrote h = absurd h
  Partly-prefix writing_header [] all wrote h = absurd h
  Partly-prefix writing_body [] all wrote h = absurd h
  Partly-prefix stopped [] all wrote h = absurd h

  -- In every state of a sending session, failures and closes included: the bytes that the socket
  -- has taken begin the frames (header, then body) of the packets that were sent, in the order of
  -- the calls.
  pub wrote-frames :
      {s : Writer E} → Reach layout s → (left : Bytes) × (s.wrote ++ left ≡ frames layout s.sent)
  wrote-frames {s} r =
      let h = Reach-IsOrdered r in
      let (left, e) =
        Partly-prefix s.writing s.output_queue.queue (frames layout h.done) s.wrote h.partly in
      (
        left ++ frames layout s.posted,
        sym (append_assoc s.wrote left (frames layout s.posted))
            ∙ ap (λ b. b ++ frames layout s.posted)
                (e ∙ sym (frames-append layout h.done s.output_queue.queue))
            ∙ sym (frames-append layout (h.done ++ s.output_queue.queue) s.posted)
            ∙ ap (frames layout) (sym h.ordered),
      )

  idle_wrote :
      (w : Writing) (q : List (Packet E)) (all wrote : Bytes)
      → w ≡ idle
      → Partly layout w q all wrote
      → (q ≡ []) × (wrote ≡ all)
  idle_wrote idle [] all wrote _ h = (refl, h)
  idle_wrote idle (p ∷ ps) all wrote _ h = absurd h
  idle_wrote writing_header q all wrote c h = absurd (cc (c))
  idle_wrote writing_body q all wrote c h = absurd (cc (c))
  idle_wrote stopped q all wrote c h = absurd (cc (c))

  -- In every state of a sending session that has no write outstanding, none failed and no handler
  -- posted: the socket has taken exactly the frames of the packets that were sent, in order.
  pub wrote-frames_idle :
      {s : Writer E}
      → Reach layout s
      → s.writing ≡ idle
      → s.posted ≡ []
      → s.wrote ≡ frames layout s.sent
  wrote-frames_idle {s} r rest none_posted =
      let h = Reach-IsOrdered r in
      let (none_queued, whole) =
        idle_wrote s.writing s.output_queue.queue (frames layout h.done) s.wrote rest h.partly in
      whole
      ∙ ap (frames layout) (
          sym (
            h.ordered
            ∙ ap (λ l. h.done ++ s.output_queue.queue ++ l) none_posted
            ∙ append-nil (h.done ++ s.output_queue.queue)
            ∙ ap (λ l. h.done ++ l) none_queued
            ∙ append-nil h.done))

  -- The handler of the outstanding write, run without an error on what that write leaves.
  abbrev pub completed : Writing → Writer E → Result (Writer E)
  completed writing_header s = header_written (sent_bytes s)
  completed writing_body s = body_written (sent_bytes s)
  completed idle s = ok s
  completed stopped s = ok s

  -- In every state of a sending session the handler of the outstanding write, run without an error,
  -- returns: it finds its packet in the queue.
  pub completed_returns :
      {s : Writer E} → Reach layout s → (t : Writer E) × (completed s.writing s ≡ ok t)
  completed_returns {s} r = go s.writing refl
    where
      go : (w : Writing) → s.writing ≡ w → (t : Writer E) × (completed w s ≡ ok t)
      go writing_header at =
          let (t, made, _) = header_done-Continues s at (Reach-IsOrdered r) in (t, made)
      go writing_body at =
          let (t, made, _) = body_done-Continues s at (Reach-IsOrdered r) in (t, made)
      go idle at = (s, refl)
      go stopped at = (s, refl)
