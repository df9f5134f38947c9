-- ===== src/Util/Deque/Ends.antt =====
-- The two ends of the deque, and a queue that is filled from the back and emptied from the front.
use haraka_engine.Base.{
  ℕ, zero, suc, ◌+◌, ◌≡◌, refl, sym, ap, ◌∙◌, subst, List, [], ◌∷◌, ◌++◌, append-nil, Result, ok,
  err, runtime_error, ◌>>=◌, length, length-append, arith,
}
use haraka_engine.Base.Map.Prefix.{snoc-append}
use haraka_engine.Util.Deque.{
  Deque, deque, front, back, back_of, pop_front, pop_back, but_last, last_of, push_back, push_front,
  count, to_vector_of, to_vector,
}

module _ {ℓ} {T : Type ℓ} where
  last_of-snoc : (x a : T) (xs : List T) → last_of x (xs ++ a ∷ []) ≡ a
  unfolding last_of
  last_of-snoc x a [] = refl
  last_of-snoc x a (y ∷ xs) = last_of-snoc y a xs

  but_last-snoc : (x a : T) (xs : List T) → but_last x (xs ++ a ∷ []) ≡ x ∷ xs
  unfolding but_last
  but_last-snoc x a [] = refl
  but_last-snoc x a (y ∷ xs) = ap (λ r. x ∷ r) (but_last-snoc y a xs)

  back_of-snoc : (a : T) (xs : List T) → back_of (xs ++ a ∷ []) ≡ ok a
  unfolding back_of
  back_of-snoc a [] = refl
  back_of-snoc a (x ∷ []) = refl
  back_of-snoc a (x ∷ y ∷ xs) = back_of-snoc a (y ∷ xs)

  pop_back-snoc : (a : T) (xs : List T) → pop_back (deque (xs ++ a ∷ [])) ≡ ok (a, deque xs)
  unfolding pop_back
  pop_back-snoc a [] = refl
  pop_back-snoc a (x ∷ xs) = ap ok (λ i. (last_of-snoc x a xs i, deque (but_last-snoc x a xs i)))

  -- For any queue: what a push put at an end, the reader of that end sees, and its pop gives back
  -- with the queue as it was; the count is one up.
  pub push_ends :
      (q : Deque T) (a : T)
      → (back (push_back q a) ≡ ok a)
        × (pop_back (push_back q a) ≡ ok (a, q))
        × (front (push_front q a) ≡ ok a)
        × (pop_front (push_front q a) ≡ ok (a, q))
        × (count (push_back q a) ≡ count q + 1)
        × (count (push_front q a) ≡ count q + 1)
  unfolding back push_back front push_front pop_front count
  push_ends q a = (
    back_of-snoc a q.queue,
    pop_back-snoc a q.queue,
    refl,
    refl,
    omega (arith, length-append q.queue (a ∷ [])),
    omega arith,
  )

  to_vector_of-append : (xs acc : List T) → to_vector_of xs acc ≡ acc ++ xs
  unfolding to_vector_of
  to_vector_of-append [] acc = sym (append-nil acc)
  to_vector_of-append (x ∷ xs) acc =
      to_vector_of-append xs (acc ++ x ∷ []) ∙ sym (snoc-append acc x xs)

  pub to_vector-queue : (q : Deque T) → to_vector q ≡ q.queue
  unfolding to_vector
  to_vector-queue q = to_vector_of-append q.queue []

  unfoldable pub push_all : Deque T → List T → Deque T
  push_all q [] = q
  push_all q (x ∷ xs) = push_all (push_back q x) xs

  -- Pops `n` items from the front.
  unfoldable pub pop_many : ℕ → Deque T → Result (List T × Deque T)
  pop_many zero q = ok ([], q)
  pop_many (suc n) q = do
    popped ← pop_front q
    rest ← pop_many n popped.1
    ok (popped.0 ∷ rest.0, rest.1)

  push_all-queue : (q : Deque T) (xs : List T) → push_all q xs ≡ deque (q.queue ++ xs)
  unfolding push_all push_back
  push_all-queue q [] = ap deque (sym (append-nil q.queue))
  push_all-queue q (x ∷ xs) =
      push_all-queue (push_back q x) xs ∙ ap deque (sym (snoc-append q.queue x xs))

  pop_many-append : (xs ys : List T) → pop_many (length xs) (deque (xs ++ ys)) ≡ ok (xs, deque ys)
  unfolding pop_many pop_front
  pop_many-append [] ys = refl
  pop_many-append (x ∷ xs) ys = rw (pop_many-append xs ys)

  pop_many-over : (xs : List T) → pop_many (suc (length xs)) (deque xs) ≡ err runtime_error
  unfolding pop_many pop_front
  pop_many-over [] = refl
  pop_many-over (x ∷ xs) = rw (pop_many-over xs)

  count-push_all : (q : Deque T) (xs : List T) → count q + length xs ≡ length (q.queue ++ xs)
  unfolding count
  count-push_all q xs = omega (arith, length-append q.queue xs)

  -- First in, first out, for any queue and items: items pushed at the back leave the front behind
  -- the items that were there, in the order of the pushes, and one pop more throws.
  pub pop_many-push_all :
      (q : Deque T) (xs : List T)
      → (pop_many (count q + length xs) (push_all q xs) ≡ ok (q.queue ++ xs, deque []))
        × (pop_many (suc (count q + length xs)) (push_all q xs) ≡ err runtime_error)
  pop_many-push_all q xs =
      rw (push_all-queue q xs, count-push_all q xs)
        (
          subst (λ l. pop_many (length (q.queue ++ xs)) (deque l) ≡ ok (q.queue ++ xs, deque []))
              (append-nil (q.queue ++ xs)) (pop_many-append (q.queue ++ xs) []),
          pop_many-over (q.queue ++ xs),
        )
