-- ===== src/Util/Examples.antt =====
-- The theorems on the deque, used on small queues.
use haraka_engine.Base.{ℕ, ◌≡◌, List, [], ◌∷◌, ok, err, runtime_error}
use haraka_engine.Util.Deque
use haraka_engine.Util.Deque.{Deque, deque}
use haraka_engine.Util.Deque.Ends.{push_all, pop_many, pop_many-push_all}
use haraka_engine.Util.Deque.Wait.{State, Reach, IsStranded, wait-IsStranded}

abbrev line : Deque ℕ
line = deque (4 ∷ [])

abbrev more : List ℕ
more = 9 ∷ 2 ∷ []

pop_many-push_all_example :
    (pop_many 3 (push_all line more) ≡ ok (4 ∷ 9 ∷ 2 ∷ [], deque []))
    × (pop_many 4 (push_all line more) ≡ err runtime_error)
unfolding Deque.count
pop_many-push_all_example = pop_many-push_all line more

wait-IsStranded_example : (s : State ℕ) × Reach (deque []) s × IsStranded s
wait-IsStranded_example = wait-IsStranded 7
