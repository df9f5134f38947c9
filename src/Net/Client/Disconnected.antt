-- ===== src/Net/Client/Disconnected.antt =====
-- A client once it has disconnected, and what it makes of the packets it is sent.
use haraka_engine.Base.{
  Bool, true, false, Bool-cases, inl, inr, Option, none, some, List, [], ◌∷◌, ◌++◌, ok, ◌≡◌, refl,
  ◌∙◌, ◌⊎◌,
}
use haraka_engine.Util.Deque
use haraka_engine.Util.Deque.{Deque, deque}
use haraka_engine.Net.Server.{OwnedPacket}
use haraka_engine.Net.Link
use haraka_engine.Net.Link.{Link}
use haraka_engine.Net.Client.{Client, optional, connect, close_session}

-- No session of the client reads.
abbrev pub Silent : Option Link → Type 0
Silent none = Unit
Silent (some l) = l.reading ≡ false

module _ {E : Type 0} where
  -- What came of a client c since it disconnected: the context is stopped, no session reads, what is
  -- in the queue was there before, and the session that c had, closed where it was connected, stands
  -- behind those that were given up without a delete.
  pub record IsEnded (c d : Client E) : Type 0 where
    pub stopped : d.stopped ≡ true
    pub silent : Silent d.session
    pub input_queue :
        (taken : List (OwnedPacket E)) × (c.input_queue.queue ≡ taken ++ d.input_queue.queue)
    pub released :
        (later_on : List Link) × (d.released
          ≡ (c.released ++ optional (close_session c).session) ++ later_on)

  pub pop_front_queue :
      (d q : Deque (OwnedPacket E)) (packet : OwnedPacket E)
      → Deque.pop_front d ≡ ok (packet, q)
      → d.queue ≡ packet ∷ q.queue
  unfolding Deque.pop_front Deque.pop_front_of
  pop_front_queue d q packet e = go d.queue refl
    where
      go : (l : List (OwnedPacket E)) → d.queue ≡ l → d.queue ≡ packet ∷ q.queue
      go [] at = absurd (cc (rw at at e))
      go (m ∷ l) at =
          let item : m ≡ packet = cc (rw at at e) in
          let rest : deque l ≡ q = cc (rw at at e) in at ∙ λ i. item i ∷ (rest i).queue

  pub connect_cases :
      (resolved opened threaded result : Bool) (c d : Client E)
      → connect resolved opened threaded c ≡ ok (d, result)
      → (c ≡ d)
        ⊎ (record c {
          session = some (Link.connect_to_server opened (Link.create Link.client false));
        }
            ≡ d)
        ⊎ (record c {
          session = some (Link.connect_to_server opened (Link.create Link.client false));
          joinable = true;
        }
            ≡ d)
  unfolding connect
  connect_cases true opened true result c d e = elim (Bool-cases c.joinable) [
    | inl j ↦ absurd (cc (rw (j, connect) at e))
    | inr j ↦ inr (inr (cc (rw (j, connect) at e)))
  ]
  connect_cases true opened false result c d e = inr (inl (cc))
  connect_cases false opened threaded result c d e = inl (cc)

  abbrev released_by : Client E → List Link
  released_by c = c.released ++ optional (close_session c).session
