-- ===== src/Net/Session/Draining.antt =====
-- The handlers of the sending half of a session, run with no further call and without a failure.
use haraka_engine.Base.{
  >>=-eq-ok, ℕ, suc, ◌+◌, ◌*◌, ◌≤◌, ◌<◌, ◌≡◌, refl, ap, ◌∙◌, subst, List, [], ◌∷◌, ◌++◌, ok,
  Bool-cases, ltb, inl, inr, length, length-append, arith,
}
use haraka_engine.Base.Order.{Bytes}
use haraka_engine.Util.Deque
use haraka_engine.Util.Deque.{deque}
use haraka_engine.Net.Session.{
  Packet, Layout, Writer, Writing, idle, writing_header, writing_body, stopped, write_header,
  write_body, enqueue, next_packet, header_written, body_written, frames, Step, sends, runs,
  header_done, body_done, fails, closes,
}
use haraka_engine.Net.Session.Sending.{Partly, IsOrdered}
use haraka_engine.Net.Session.Runs.{sent_bytes}

-- A write has not failed.
abbrev pub Alive : Writing → Type 0
Alive stopped = ⊥
Alive _ = Unit

module _ {E : Type 0} where
  -- The writes that the queue still asks for, two for each packet.
  abbrev pub writes_left : Writing → List (Packet E) → ℕ
  writes_left idle q = 2 * length q
  writes_left writing_header q = 2 * length q
  writes_left stopped q = 2 * length q
  writes_left writing_body [] = 0
  writes_left writing_body (p ∷ ps) = 1 + 2 * length ps

  -- At most so many handlers are to run.
  abbrev pub work : Writer E → ℕ
  work s = 3 * length s.posted + writes_left s.writing s.output_queue.queue

  -- The packet at the front is popped, and the next one begun, if there is one.
  record IsPopped (s t : Writer E) : Type 0 where
    popped : Packet E
    front : s.output_queue.queue ≡ popped ∷ t.output_queue.queue
    posted : t.posted ≡ s.posted
    pub sent : t.sent ≡ s.sent
    pub is_open : t.is_open ≡ s.is_open
    begun : writes_left t.writing t.output_queue.queue ≡ 2 * length t.output_queue.queue
    pub alive : Alive t.writing

  next_packet-IsPopped : (s t : Writer E) → next_packet s ≡ ok t → IsPopped s t
  unfolding next_packet Deque.pop_front Deque.pop_front_of Deque.empty Deque.is_empty write_header
  next_packet-IsPopped s t e = go s.output_queue.queue refl
    where
      go : (q : List (Packet E)) → s.output_queue.queue ≡ q → IsPopped s t
      go [] at = absurd (cc (rw at at e))
      go (p ∷ []) at =
          let r : Writer E = record s { output_queue = deque []; writing = idle } in
          let same : r ≡ t = cc (rw at at e) in
          subst (IsPopped s) same (record {
            popped = p;
            front = at;
            posted = refl;
            sent = refl;
            is_open = refl;
            begun = refl;
            alive = tt;
          })
      go (p ∷ x ∷ q) at =
          let r : Writer E = record s { output_queue = deque (x ∷ q); writing = writing_header } in
          let same : r ≡ t = cc (rw at at e) in
          subst (IsPopped s) same (record {
            popped = p;
            front = at;
            posted = refl;
            sent = refl;
            is_open = refl;
            begun = refl;
            alive = tt;
          })

  -- What a handler leaves, of a session that has not failed.
  pub record Decreases (s t : Writer E) : Type 0 where
    pub less : work t < work s
    pub sent : t.sent ≡ s.sent
    pub is_open : t.is_open ≡ s.is_open
    pub alive : Alive t.writing

  body_work :
      (w : Writing) (p : Packet E) (ps : List (Packet E))
      → w ≡ writing_body
      → writes_left w (p ∷ ps) ≡ 1 + 2 * length ps
  body_work idle p ps e = absurd (cc (e))
  body_work writing_header p ps e = absurd (cc (e))
  body_work stopped p ps e = absurd (cc (e))
  body_work writing_body p ps e = refl

  header_work :
      (w : Writing) (q : List (Packet E)) → w ≡ writing_header → writes_left w q ≡ 2 * length q
  header_work idle q e = refl
  header_work writing_header q e = refl
  header_work stopped q e = refl
  header_work writing_body q e = absurd (cc (e))

  IsPopped-Decreases :
      (s t : Writer E)
      → 2 * length s.output_queue.queue ≤ writes_left s.writing s.output_queue.queue + 1
      → IsPopped s t
      → Decreases s t
  IsPopped-Decreases s t enough h =
      let k : 2 * length s.output_queue.queue ≡ 2 * suc (length t.output_queue.queue) =
        ap (λ q. 2 * length q) h.front in
      record {
        less = omega (arith, enough, k, h.begun, ap length h.posted);
        sent = h.sent;
        is_open = h.is_open;
        alive = h.alive;
      }

  writes_left-append :
      (w : Writing) (x : Packet E) (q ps : List (Packet E))
      → writes_left w ((x ∷ q) ++ ps) ≡ writes_left w (x ∷ q) + 2 * length ps
  writes_left-append idle x q ps = omega (arith, length-append q ps)
  writes_left-append writing_header x q ps = omega (arith, length-append q ps)
  writes_left-append stopped x q ps = omega (arith, length-append q ps)
  writes_left-append writing_body x q ps = omega (arith, length-append q ps)

  work-enqueue :
      (s : Writer E) (p : Packet E) (q : List (Packet E))
      → s.output_queue.queue ≡ q
      → (q ≡ [] → s.writing ≡ idle)
      → Alive s.writing
      → (work (enqueue s p) ≡ work s + 2)
        × ((enqueue s p).sent ≡ s.sent)
        × ((enqueue s p).is_open ≡ s.is_open)
        × Alive (enqueue s p).writing
  unfolding enqueue write_header Deque.empty Deque.is_empty Deque.push_back
  work-enqueue s p [] at rest up =
      rw (at, enqueue) (omega (arith, ap (λ w. writes_left w []) (rest refl)), refl, refl, tt)
  work-enqueue s p (x ∷ q) at rest up =
      rw (at, enqueue) (omega (arith, writes_left-append s.writing x q (p ∷ [])), refl, refl, up)

module _ {E : Type 0} (layout : Layout E) where
  body_done-Decreases :
      (s t : Writer E)
      → s.writing ≡ writing_body
      → body_written (sent_bytes layout s) ≡ ok t
      → Decreases s t
  unfolding body_written
  body_done-Decreases s t at e =
      let h = next_packet-IsPopped (sent_bytes layout s) t e in
      let k : writes_left s.writing s.output_queue.queue ≡ 1 + 2 * length t.output_queue.queue =
        ap (writes_left s.writing) h.front ∙ body_work s.writing h.popped t.output_queue.queue at in
      record {
        less = omega (arith, k, h.begun, ap length h.posted);
        sent = h.sent;
        is_open = h.is_open;
        alive = h.alive;
      }

  front_cases :
      (q : List (Packet E)) (p : Packet E)
      → Deque.front (deque q) ≡ ok p
      → (ps : List (Packet E)) × (q ≡ p ∷ ps)
  unfolding Deque.front Deque.front_of
  front_cases [] p e = absurd (cc (e))
  front_cases (x ∷ ps) p e = (ps, cc)

  sent_bytes-IsPopped : (s t : Writer E) → IsPopped (sent_bytes layout s) t → IsPopped s t
  sent_bytes-IsPopped s t h = record {
    popped = h.popped;
    front = h.front;
    posted = h.posted;
    sent = h.sent;
    is_open = h.is_open;
    begun = h.begun;
    alive = h.alive;
  }

  body_begun :
      (s : Writer E) (p : Packet E) (ps : List (Packet E))
      → s.output_queue.queue ≡ p ∷ ps
      → s.writing ≡ writing_header
      → Decreases s (write_body (sent_bytes layout s))
  unfolding write_body
  body_begun s p ps f at =
      let left : writes_left writing_body s.output_queue.queue ≡ 1 + 2 * length ps =
        ap (writes_left writing_body) f in
      record {
        less = omega (arith, left, header_work s.writing s.output_queue.queue at, ap length f);
        sent = refl;
        is_open = refl;
        alive = tt;
      }

  header_done-Decreases :
      (s t : Writer E)
      → s.writing ≡ writing_header
      → header_written (sent_bytes layout s) ≡ ok t
      → Decreases s t
  unfolding header_written
  header_done-Decreases s t at e =
      let w = sent_bytes layout s in
      let (p, front, rest) = >>=-eq-ok (Deque.front w.output_queue) _ e in
      elim (Bool-cases (ltb 0 (length p.body))) [
        | inl c ↦
            let (ps, f) = front_cases s.output_queue.queue p front in
            let same : write_body w ≡ t = cc (rw c at rest) in
            subst (Decreases s) same (body_begun s p ps f at)
        | inr c ↦
            IsPopped-Decreases s t (omega (arith, header_work s.writing s.output_queue.queue at))
              (sent_bytes-IsPopped s t (next_packet-IsPopped w t (rw c at rest)))
      ]

  -- The steps that the context takes by itself: the run of a handler, without an error.
  abbrev pub IsHandler : {s t : Writer E} → Step layout s t → Type 0
  IsHandler (runs p ps e) = Unit
  IsHandler (header_done t live at e) = Unit
  IsHandler (body_done t live at e) = Unit
  IsHandler _ = ⊥

  pub unqueued :
      (w : Writing) (q : List (Packet E)) (all wrote : Bytes)
      → Partly layout w q all wrote
      → q ≡ []
      → Alive w
      → w ≡ idle
  unqueued idle q all wrote h e up = refl
  unqueued writing_header [] all wrote h e up = absurd h
  unqueued writing_body [] all wrote h e up = absurd h
  unqueued writing_header (p ∷ ps) all wrote h e up = absurd (cc (e))
  unqueued writing_body (p ∷ ps) all wrote h e up = absurd (cc (e))
  unqueued stopped q all wrote h e up = absurd up

  pub Step-Decreases :
      {s t : Writer E} (step : Step layout s t)
      → IsHandler step
      → IsOrdered layout s
      → Alive s.writing
      → Decreases s t
  Step-Decreases {s} (runs p ps e) _ h up =
      let (more, same, opened, still) =
        work-enqueue (record s { posted = ps }) p s.output_queue.queue refl
          (λ f.
            unqueued s.writing s.output_queue.queue (frames layout h.done) s.wrote h.partly f up)
          up in
      record {
        less = omega (arith, more, ap length e);
        sent = same;
        is_open = opened;
        alive = still;
      }
  Step-Decreases {s} (header_done t live at e) _ h up = header_done-Decreases s t at e
  Step-Decreases {s} (body_done t live at e) _ h up = body_done-Decreases s t at e
  Step-Decreases (sends p) not_one h up = absurd not_one
  Step-Decreases (fails part left e at) not_one h up = absurd not_one
  Step-Decreases closes not_one h up = absurd not_one
