-- ===== src/Net/Server/Lifecycle/Runs.antt =====
-- The runs of a server that is started and stopped: the accepts that are outstanding, and what `stop`
-- ends.
use haraka_engine.Base.{
  ℕ, ◌+◌, ◌<◌, ◌≡◌, refl, subst, Bool, true, false, Bool-cases, ◌⊎◌, inl, inr, ok, arith,
}
use haraka_engine.Net.Server.{Callbacks}
use haraka_engine.Net.Server.Lifecycle.{
  Lifecycle, create, start, stop, accepted, accept_failed, wait_for_new_connection, Step, starts,
  stops, waits, accepts, accept_fails, messages, broadcasts, updates, sockets, Reach, here, later,
}

module _ {E H : Type 0} where
  pub start_cases :
      (threaded result : Bool) (l m : Lifecycle E H)
      → start threaded l ≡ ok (m, result)
      → (wait_for_new_connection l ≡ m)
        ⊎ (record (wait_for_new_connection l) { joinable = true } ≡ m)
  unfolding start
  start_cases true result l m e = elim (Bool-cases l.joinable) [
    | inl j ↦ absurd (cc (rw (j, start) at e))
    | inr j ↦ inr (cc (rw (j, start) at e))
  ]
  start_cases false result l m e = inl (cc)

  -- An accept is outstanding for each of the n calls of `start` or of `wait_for_new_connection`, and for one at least when the thread
  -- is there.
  pub record IsWaiting (l : Lifecycle E H) (n : ℕ) : Type 0 where
    pub accepting : l.accepting ≡ n
    pub waiting : l.joinable ≡ true → 0 < l.accepting

  -- The context is stopped, and `start`, where it returns with a thread, says that all is well.
  pub record IsStopped (l : Lifecycle E H) : Type 0 where
    pub stopped : l.stopped ≡ true
    pub welcome : l.joinable ≡ false → (m : Lifecycle E H) × (start true l ≡ ok (m, true))

  stopped-IsStopped : (l : Lifecycle E H) → l.stopped ≡ true → IsStopped l
  unfolding start
  stopped-IsStopped l e = record { stopped = e; welcome = λ f. rw (f, start) (_, refl) }

module _ {E H : Type 0} {virtuals : Callbacks E H} where
  -- Whether a step is a call of `start` or of the member that it calls, or a connection that comes without an error.
  abbrev started : {l m : Lifecycle E H} → Step virtuals l m → ℕ
  started (starts threaded result e) = 1
  started waits = 1
  started _ = 0

  abbrev pub arrived : {l m : Lifecycle E H} → Step virtuals l m → ℕ
  arrived (accepts c h) = 1
  arrived _ = 0

  -- How many there are in a run.
  abbrev pub starts_of : {l m : Lifecycle E H} → Reach virtuals l m → ℕ
  starts_of here = 0
  starts_of (later r step) = starts_of r + started step

  abbrev pub arrivals_of : {l m : Lifecycle E H} → Reach virtuals l m → ℕ
  arrivals_of here = 0
  arrivals_of (later r step) = arrivals_of r + arrived step

  Step-IsWaiting :
      {l m : Lifecycle E H} {n : ℕ} (step : Step virtuals l m)
      → IsWaiting l n
      → IsWaiting m (n + started step)
  unfolding wait_for_new_connection stop accepted accept_failed
  Step-IsWaiting {l} {m} {n} (starts threaded result e) h =
      elim (start_cases threaded result l m e) [
        | inl same ↦
            subst (λ k. IsWaiting k (n + 1)) same
              (record { accepting = omega (arith, h.accepting); waiting = λ _. omega arith })
        | inr same ↦
            subst (λ k. IsWaiting k (n + 1)) same
              (record { accepting = omega (arith, h.accepting); waiting = λ _. omega arith })
      ]
  Step-IsWaiting waits h = record {
    accepting = omega (arith, h.accepting);
    waiting = λ _. omega arith;
  }
  Step-IsWaiting stops h = record { accepting = omega (arith, h.accepting); waiting = λ e. cc }
  Step-IsWaiting (accepts c s) h = record {
    accepting = omega (arith, h.accepting, s.outstanding);
    waiting = λ _. omega arith;
  }
  Step-IsWaiting (accept_fails s) h = record {
    accepting = omega (arith, h.accepting, s.outstanding);
    waiting = λ _. omega arith;
  }
  Step-IsWaiting (messages client packet) h = record {
    accepting = omega (arith, h.accepting);
    waiting = h.waiting;
  }
  Step-IsWaiting (broadcasts msg exclude) h = record {
    accepting = omega (arith, h.accepting);
    waiting = h.waiting;
  }
  Step-IsWaiting (updates max_messages queue rest s e) h = record {
    accepting = omega (arith, h.accepting);
    waiting = h.waiting;
  }
  Step-IsWaiting (sockets connected) h = record {
    accepting = omega (arith, h.accepting);
    waiting = h.waiting;
  }

  -- In every state that a server reaches from its constructor by calls of its members, connections,
  -- approved or not, failed accepts, and sockets that open and close: one accept is outstanding for
  -- each call of `start` and for each direct call of `wait_for_new_connection` that there was, and
  -- at least one while the context's thread is there.
  pub Reach-IsWaiting :
      (connected : ℕ → Bool) (derived : H) {l : Lifecycle E H}
      (r : Reach virtuals (create connected derived) l)
      → IsWaiting l (starts_of r)
  unfolding create
  Reach-IsWaiting connected derived here = record { accepting = refl; waiting = λ e. cc }
  Reach-IsWaiting connected derived (later r step) =
      Step-IsWaiting step (Reach-IsWaiting connected derived r)

  Step-stopped :
      {l m : Lifecycle E H} (step : Step virtuals l m)
      → l.stopped ≡ true
      → (m.stopped ≡ true) × (arrived step ≡ 0)
  unfolding wait_for_new_connection stop
  Step-stopped {l} {m} (starts threaded result e) h = elim (start_cases threaded result l m e) [
    | inl same ↦ (subst (λ k. k.stopped ≡ true) same h, refl)
    | inr same ↦ (subst (λ k. k.stopped ≡ true) same h, refl)
  ]
  Step-stopped stops h = (refl, refl)
  Step-stopped waits h = (h, refl)
  Step-stopped (accepts c s) h = absurd (cc (h, s.running))
  Step-stopped (accept_fails s) h = absurd (cc (h, s.running))
  Step-stopped (messages client packet) h = (h, refl)
  Step-stopped (broadcasts msg exclude) h = (h, refl)
  Step-stopped (updates max_messages queue rest s e) h = (h, refl)
  Step-stopped (sockets connected) h = (h, refl)

  Reach-stopped :
      {l m : Lifecycle E H} (r : Reach virtuals l m)
      → l.stopped ≡ true
      → (m.stopped ≡ true) × (arrivals_of r ≡ 0)
  Reach-stopped here h = (h, refl)
  Reach-stopped (later r step) h =
      let (k, none_yet) = Reach-stopped r h in
      let (j, none_now) = Step-stopped step k in (j, omega (arith, none_yet, none_now))

  -- From the end of `stop`, whatever is called afterwards, `start` included: no connection is
  -- accepted, and the context stays stopped; and whenever the server has no thread, a `start` that
  -- gets one returns true.
  pub stop-IsStopped :
      (l : Lifecycle E H) {m : Lifecycle E H} (r : Reach virtuals (stop l) m)
      → IsStopped m × (arrivals_of r ≡ 0)
  unfolding stop
  stop-IsStopped l r = let (k, none) = Reach-stopped r refl in (stopped-IsStopped _ k, none)
