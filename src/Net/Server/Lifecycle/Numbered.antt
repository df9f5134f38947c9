-- ===== src/Net/Server/Lifecycle/Numbered.antt =====
-- The ids that a server gives to its sessions, whatever else happens to it.
use haraka_engine.Base.{
  ℕ, ◌+◌, ◌^◌, ◌≤◌, ◌<◌, ◌≡◌, refl, ◌∙◌, subst, Bool, Option, List, [], ◌∷◌, ok, >>=-eq-ok, inl,
  inr, take, arith,
}
use haraka_engine.Util.Deque.{deque}
use haraka_engine.Net.Session.{Packet}
use haraka_engine.Net.Server.{Server, Callbacks, OwnedPacket, message_all_clients, update}
use haraka_engine.Net.Server.Broadcast.{message_all_clients_lem, answered, update_lem}
use haraka_engine.Net.Server.Ids.{
  SameIds, message_client-SameIds, Rising, KeepsIds, IsNumbered, accept_session-IsNumbered,
}
use haraka_engine.Net.Server.Lifecycle.{
  Lifecycle, create, stop, accepted, accept_failed, wait_for_new_connection, Step, starts, stops,
  waits, accepts, accept_fails, messages, broadcasts, updates, sockets, Reach, here, later,
}
use haraka_engine.Net.Server.Lifecycle.Runs.{start_cases, arrived, arrivals_of}

module _ {E H : Type 0} (virtuals : Callbacks E H) where
  -- What the handler of a message leaves as it is.
  pub record AnswersKeepIds : Type 0 where
    pub ids :
        (s t : Server E H) (client : Option ℕ) (packet : Packet E)
        → virtuals.on_message s client packet ≡ ok t
        → t.session_ids ≡ s.session_ids
    pub counter :
        (s t : Server E H) (client : Option ℕ) (packet : Packet E)
        → virtuals.on_message s client packet ≡ ok t
        → t.client_id_counter ≡ s.client_id_counter

  answered-SameIds :
      (queue : List (OwnedPacket E)) (s t : Server E H)
      → AnswersKeepIds
      → answered virtuals queue s ≡ ok t
      → SameIds s t
  answered-SameIds [] s t keeps e = let same : s ≡ t = cc in subst (SameIds s) same (refl, refl)
  answered-SameIds (m ∷ queue) s t keeps e =
      let (u, one, others) =
        >>=-eq-ok (virtuals.on_message s m.remote m.packet) (answered virtuals queue) e in
      let (k, j) = answered-SameIds queue u t keeps others in
      (k ∙ keeps.ids s u m.remote m.packet one, j ∙ keeps.counter s u m.remote m.packet one)

  update-SameIds :
      (n : ℕ) (queue rest : List (OwnedPacket E)) (s t : Server E H)
      → AnswersKeepIds
      → update virtuals n s (deque queue) ≡ ok (t, deque rest)
      → SameIds s t
  update-SameIds n queue rest s t keeps e =
      let (u, all, same) =
        >>=-eq-ok (answered virtuals (take n queue) s) _
          (subst (λ r. r ≡ ok (t, deque rest)) (update_lem virtuals n s queue) e) in
      let q : u ≡ t = cc in subst (SameIds s) q (answered-SameIds (take n queue) s u keeps all)

  message_all_clients-SameIds :
      (s : Server E H) (msg : Packet E) (exclude : Option ℕ)
      → SameIds s (message_all_clients virtuals.on_client_disconnect s msg exclude)
  message_all_clients-SameIds s msg exclude =
      rw (message_all_clients_lem virtuals.on_client_disconnect msg exclude s) (refl, refl)

  SameIds-IsNumbered :
      (s t : Server E H) (n : ℕ)
      → SameIds s t
      → IsNumbered virtuals s n
      → IsNumbered virtuals t (n + 0)
  SameIds-IsNumbered s t n (e, f) h = rw (e, f) (omega (arith, h.0), h.1)

  Step-IsNumbered :
      {l m : Lifecycle E H} (n : ℕ) (step : Step virtuals l m)
      → KeepsIds virtuals
      → AnswersKeepIds
      → n + arrived step < 2 ^ 32
      → IsNumbered virtuals l.server n
      → IsNumbered virtuals m.server (n + arrived step)
  unfolding wait_for_new_connection stop accepted accept_failed
  Step-IsNumbered {l} {m} n (starts threaded result e) keeps answers small h =
      elim (start_cases threaded result l m e) [
        | inl same ↦
            SameIds-IsNumbered l.server m.server n
              (subst (λ k. SameIds l.server k.server) same (refl, refl)) h
        | inr same ↦
            SameIds-IsNumbered l.server m.server n
              (subst (λ k. SameIds l.server k.server) same (refl, refl)) h
      ]
  Step-IsNumbered {l} n stops keeps answers small h =
      SameIds-IsNumbered l.server l.server n (refl, refl) h
  Step-IsNumbered {l} n waits keeps answers small h =
      SameIds-IsNumbered l.server l.server n (refl, refl) h
  Step-IsNumbered {l} n (accepts c s) keeps answers small h =
      accept_session-IsNumbered virtuals l.server c n keeps small h
  Step-IsNumbered {l} n (accept_fails s) keeps answers small h =
      SameIds-IsNumbered l.server l.server n (refl, refl) h
  Step-IsNumbered {l} {m} n (messages client packet) keeps answers small h =
      SameIds-IsNumbered l.server m.server n
        (message_client-SameIds virtuals.on_client_disconnect l.server client packet) h
  Step-IsNumbered {l} {m} n (broadcasts msg exclude) keeps answers small h =
      SameIds-IsNumbered l.server m.server n (message_all_clients-SameIds l.server msg exclude) h
  Step-IsNumbered {l} n (updates max_messages queue rest s e) keeps answers small h =
      SameIds-IsNumbered l.server s n (update-SameIds max_messages queue rest l.server s answers e)
        h
  Step-IsNumbered {l} {m} n (sockets connected) keeps answers small h =
      SameIds-IsNumbered l.server m.server n (refl, refl) h

  Reach-IsNumbered :
      (connected : ℕ → Bool) (derived : H) {l : Lifecycle E H}
      (r : Reach virtuals (create connected derived) l)
      → KeepsIds virtuals
      → AnswersKeepIds
      → arrivals_of r < 2 ^ 32
      → IsNumbered virtuals l.server (arrivals_of r)
  unfolding create
  Reach-IsNumbered connected derived here keeps answers small = (omega arith, tt)
  Reach-IsNumbered connected derived (later r step) keeps answers small =
      Step-IsNumbered (arrivals_of r) step keeps answers small
        (Reach-IsNumbered connected derived r keeps answers (omega (arith, small)))

  -- With handlers of connections and messages that leave ids and counter alone: in every state that
  -- a server reaches from its constructor with fewer than 2 ^ 32 connections, approved and
  -- connected or not, by calls of its members, failed accepts, and sockets that open and close, the
  -- ids it gave rise strictly and lie below the counter, which is at most the number of the
  -- connections.
  pub Reach-Rising :
      (connected : ℕ → Bool) (derived : H) {l : Lifecycle E H}
      (r : Reach virtuals (create connected derived) l)
      → KeepsIds virtuals
      → AnswersKeepIds
      → arrivals_of r < 2 ^ 32
      → (l.server.client_id_counter ≤ arrivals_of r)
        × Rising l.server.session_ids l.server.client_id_counter
  Reach-Rising connected derived r keeps answers small =
      Reach-IsNumbered connected derived r keeps answers small
