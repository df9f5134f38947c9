-- ===== src/Util/Deque/Wait.antt =====
-- `ThreadSafeDeque::wait` against `push_back` in other threads, a lock region at a time. The waiting
-- thread is the queue's one consumer, as the server's loop is.
use haraka_engine.Base.{◌≡◌, refl, List, [], ◌∷◌, ◌++◌, Bool, true, false}
use haraka_engine.Util.Deque.{Deque, deque, push_back, push_front, empty}

-- Where the waiting thread stands: before a test of `empty()`; behind a test that saw an empty queue,
-- without a lock; in `_blocking.wait`; behind the call.
pub data Waiter : Type 0 where
  testing seen_empty blocked returned : Waiter

-- The queue, the waiter, and whether a push holds the queue's mutex before its `notify_one`.
pub record State (T : Type 0) : Type 0 where
  pub queue : Deque T
  pub waiter : Waiter
  pub notifying : Bool

-- `notify_one` wakes a thread that is blocked, and is lost on any other.
abbrev pub notified : Waiter → Waiter
notified blocked = testing
notified testing = testing
notified seen_empty = seen_empty
notified returned = returned

notified-returned : (w : Waiter) → notified w ≡ returned → w ≡ returned
notified-returned blocked e = cc
notified-returned testing e = cc
notified-returned seen_empty e = cc
notified-returned returned e = refl

module _ {T : Type 0} where
  pub data Step (s : State T) : State T → Type 0 where
    push :
        (x : T)
        → s.notifying ≡ false
        → Step s (record s { queue = push_back s.queue x; notifying = true })
    push_first :
        (x : T)
        → s.notifying ≡ false
        → Step s (record s { queue = push_front s.queue x; notifying = true })
    notify :
        s.notifying ≡ true → Step s (record s { waiter = notified s.waiter; notifying = false })
    test_empty :
        s.waiter ≡ testing
        → s.notifying ≡ false
        → empty s.queue ≡ true
        → Step s (record s { waiter = seen_empty })
    test_filled :
        s.waiter ≡ testing
        → s.notifying ≡ false
        → empty s.queue ≡ false
        → Step s (record s { waiter = returned })
    block : s.waiter ≡ seen_empty → Step s (record s { waiter = blocked })
    -- the standard allows a wake-up without a notification
    spurious : s.waiter ≡ blocked → Step s (record s { waiter = testing })

  abbrev pub calling : Deque T → State T
  calling q = record { queue = q; waiter = testing; notifying = false }

  pub data Reach (q : Deque T) : State T → Type 0 where
    start : Reach q (calling q)
    later : {s t : State T} → Reach q s → Step s t → Reach q t

  -- When `wait` has returned, the queue is not empty.
  abbrev pub IsServed : State T → Type 0
  IsServed s = s.waiter ≡ returned → empty s.queue ≡ false

  push_back-filled : (q : Deque T) (x : T) → empty (push_back q x) ≡ false
  unfolding push_back empty
  push_back-filled q x = filled q.queue
    where
      filled : (xs : List T) → empty (deque (xs ++ x ∷ [])) ≡ false
      filled [] = refl
      filled (y ∷ ys) = refl

  push_front-filled : (q : Deque T) (x : T) → empty (push_front q x) ≡ false
  unfolding push_front empty
  push_front-filled q x = refl

  Step-IsServed : {s t : State T} → Step s t → IsServed s → IsServed t
  Step-IsServed {s} (push x free) h = λ _. push_back-filled s.queue x
  Step-IsServed {s} (push_first x free) h = λ _. push_front-filled s.queue x
  Step-IsServed {s} (notify held) h = λ e. h (notified-returned s.waiter e)
  Step-IsServed (test_empty at free seen) h = λ e. cc
  Step-IsServed (test_filled at free seen) h = λ _. seen
  Step-IsServed (block at) h = λ e. cc
  Step-IsServed (spurious at) h = λ e. cc

  Reach-IsServed : {q : Deque T} {s : State T} → Reach q s → IsServed s
  Reach-IsServed start = λ e. cc
  Reach-IsServed (later r st) = Step-IsServed st (Reach-IsServed r)

  -- In every state that is reached from a call of `wait` on any queue, with any pushes between its
  -- steps: when the call has returned, the queue has an item.
  pub wait_returned :
      {q : Deque T} {s : State T} → Reach q s → s.waiter ≡ returned → empty s.queue ≡ false
  wait_returned r = Reach-IsServed r

  -- A waiter that sleeps although the queue has an item and no notification is under way.
  pub record IsStranded (s : State T) : Type 0 where
    pub asleep : s.waiter ≡ blocked
    pub filled : empty s.queue ≡ false
    pub silent : s.notifying ≡ false

  -- For each item there is a run of `wait` on an empty queue against a push of that item that ends
  -- with the waiter asleep, the item in the queue, and no notification under way.
  pub wait-IsStranded : (x : T) → (s : State T) × Reach (deque []) s × IsStranded s
  unfolding push_back empty
  wait-IsStranded x = (
    record { queue = deque (x ∷ []); waiter = blocked; notifying = false },
    later (later (later (later start (test_empty refl refl refl)) (push x refl)) (notify refl))
        (block refl),
    record { asleep = refl; filled = refl; silent = refl },
  )
