-- ===== src/Util/Deque.antt =====
-- util/tsdeque.hpp: `ThreadSafeDeque`. Each member holds the mutex from its first access to its last,
-- so a call is one step on the queue; `wait`, which releases it, is in `Deque/Wait`. What `front` and
-- `back` throw on the empty queue is `runtime_error`.
pub mod Ends
pub mod Wait
use haraka_engine.Base.{
  ℕ, Bool, true, false, List, [], ◌∷◌, ◌++◌, Result, ok, err, runtime_error, length,
}

-- The items from front to back.
pub record Deque {ℓ} (T : Type ℓ) : Type ℓ where
  pub queue : List T

module _ {ℓ} {T : Type ℓ} where
  abbrev pub deque : List T → Deque T
  deque items = record { queue = items }

  unfoldable pub front_of : List T → Result T
  front_of [] = err runtime_error
  front_of (x ∷ xs) = ok x

  unfoldable pub front : Deque T → Result T
  unfolding front_of
  front q = front_of q.queue

  unfoldable pub back_of : List T → Result T
  back_of [] = err runtime_error
  back_of (x ∷ []) = ok x
  back_of (x ∷ y ∷ xs) = back_of (y ∷ xs)

  unfoldable pub back : Deque T → Result T
  unfolding back_of
  back q = back_of q.queue

  unfoldable pub pop_front_of : List T → Result (T × Deque T)
  pop_front_of [] = err runtime_error
  pop_front_of (x ∷ xs) = ok (x, deque xs)

  -- The item, and the queue without it.
  unfoldable pub pop_front : Deque T → Result (T × Deque T)
  unfolding pop_front_of
  pop_front q = pop_front_of q.queue

  -- All but the last item of a list with a head.
  unfoldable pub but_last : T → List T → List T
  but_last x [] = []
  but_last x (y ∷ xs) = x ∷ but_last y xs

  unfoldable pub last_of : T → List T → T
  last_of x [] = x
  last_of x (y ∷ xs) = last_of y xs

  unfoldable pub pop_back_of : List T → Result (T × Deque T)
  unfolding but_last last_of
  pop_back_of [] = err runtime_error
  pop_back_of (x ∷ xs) = ok (last_of x xs, deque (but_last x xs))

  unfoldable pub pop_back : Deque T → Result (T × Deque T)
  unfolding pop_back_of
  pop_back q = pop_back_of q.queue

  unfoldable pub push_back : Deque T → T → Deque T
  push_back q item = deque (q.queue ++ item ∷ [])

  unfoldable pub push_front : Deque T → T → Deque T
  push_front q item = deque (item ∷ q.queue)

  unfoldable pub is_empty : List T → Bool
  is_empty [] = true
  is_empty (x ∷ xs) = false

  unfoldable pub empty : Deque T → Bool
  unfolding is_empty
  empty q = is_empty q.queue

  unfoldable pub count : Deque T → ℕ
  count q = length q.queue

  unfoldable pub clear : Deque T → Deque T
  clear q = deque []

  unfoldable pub to_vector_of : List T → List T → List T
  to_vector_of [] list = list
  to_vector_of (x ∷ xs) list = to_vector_of xs (list ++ x ∷ [])

  unfoldable pub to_vector : Deque T → List T
  unfolding to_vector_of
  to_vector q = to_vector_of q.queue []
