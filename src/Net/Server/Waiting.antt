-- ===== src/Net/Server/Waiting.antt =====
-- net/server.hpp: `update` with `wait` set, which waits for the queue before its loop. Other threads
-- push while it waits; while the loop runs, the queue is taken as it then stands.
use haraka_engine.Base.{ℕ, suc, ◌≡◌, refl, sym, ◌∙◌, false, List, [], ◌∷◌, Result, ◌>>=◌}
use haraka_engine.Util.Deque
use haraka_engine.Util.Deque.{Deque, deque}
use haraka_engine.Util.Deque.Wait
use haraka_engine.Util.Deque.Wait.{State, returned, wait_returned}
use haraka_engine.Net.Server.{Server, Callbacks, OwnedPacket, update}

module _ {E H : Type 0} (virtuals : Callbacks E H) where
  -- A run of `wait` on the queue that returns, and the loop on the queue that it leaves.
  pub record Updates (max_messages : ℕ) (s : Server E H) (input_queue : Deque (OwnedPacket E))
      (result : Result (Server E H × Deque (OwnedPacket E))) : Type 0 where
    pub waited : State (OwnedPacket E)
    pub waits : Wait.Reach input_queue waited
    pub back : waited.waiter ≡ returned
    pub loop : update virtuals max_messages s waited.queue ≡ result

  -- The message at the front is answered first, and the loop goes on with the others.
  pub record IsAnswering (n : ℕ) (s : Server E H) (queue : Deque (OwnedPacket E))
      (result : Result (Server E H × Deque (OwnedPacket E))) : Type 0 where
    pub message : OwnedPacket E
    pub others : List (OwnedPacket E)
    pub front : queue ≡ deque (message ∷ others)
    pub result_of : result ≡ (
        virtuals.on_message s message.remote message.packet >>= λ t.
        update virtuals n t (deque others))

  filled-IsAnswering :
      (n : ℕ) (s : Server E H) (queue : List (OwnedPacket E))
      → Deque.empty (deque queue) ≡ false
      → IsAnswering n s (deque queue) (update virtuals (suc n) s (deque queue))
  unfolding update Deque.empty Deque.is_empty Deque.pop_front Deque.pop_front_of
  filled-IsAnswering n s [] filled = absurd (cc (filled))
  filled-IsAnswering n s (m ∷ queue) filled = record {
    message = m;
    others = queue;
    front = refl;
    result_of = refl;
  }

  -- When `update` is to wait and has room for a message, and its `wait` returns, on any queue and
  -- with any pushes meanwhile: it finds a message at the front of the queue, answers it first, and
  -- goes on with the others and one message less; a fault of the handler is its own.
  pub Updates-IsAnswering :
      (n : ℕ) (s : Server E H) (input_queue : Deque (OwnedPacket E))
      (result : Result (Server E H × Deque (OwnedPacket E)))
      (u : Updates (suc n) s input_queue result)
      → IsAnswering n s u.waited.queue result
  Updates-IsAnswering n s input_queue result u =
      let h = filled-IsAnswering n s u.waited.queue.queue (wait_returned u.waits u.back) in
      record {
        message = h.message;
        others = h.others;
        front = h.front;
        result_of = sym u.loop ∙ h.result_of;
      }
