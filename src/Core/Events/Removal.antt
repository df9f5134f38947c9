-- ===== src/Core/Events/Removal.antt =====
-- `remove_observer`, by how often the observer is registered.
use haraka_engine.Base.{
  ℕ, suc, ◌+◌, ◌≡◌, refl, ap, true, false, List, [], ◌∷◌, ◌==◌, if◌then◌else◌, ok, err,
  bad_iterator, length, drop, append-nil, arith, Bool-cases, inl, inr,
}
use haraka_engine.Core.Events.{Observable, others, remove_observer}

abbrev pub times : ℕ → List ℕ → ℕ
times observer [] = 0
times observer (o ∷ observers) =
    if o == observer then suc (times observer observers) else times observer observers

length-others :
    (observer : ℕ) (os : List ℕ) → length (others observer os) + times observer os ≡ length os
unfolding others
length-others observer [] = omega arith
length-others observer (o ∷ os) = elim (Bool-cases (o == observer)) [
  | inl e ↦ rw (e, others) (omega (arith, length-others observer os))
  | inr e ↦ rw (e, others) (omega (arith, length-others observer os))
]

drop-length : (os : List ℕ) (n : ℕ) → n ≡ length os → drop n os ≡ []
drop-length [] n e = rw e refl
drop-length (o ∷ os) n e = rw e (drop-length os (length os) refl)

-- Removing an observer that is not registered erases the end iterator, which is undefined.
pub remove_observer_absent :
    (s : Observable) (observer : ℕ)
    → times observer s.observers ≡ 0
    → remove_observer s observer ≡ err bad_iterator
unfolding remove_observer
remove_observer_absent s observer never =
    let sum = length-others observer s.observers in
    let same : (length (others observer s.observers) == length s.observers) ≡ true =
      ground (arith, sum, never) in
    rw (same, remove_observer) refl

-- An observer that is registered exactly once is removed, and the others stay, in order.
pub remove_observer_once :
    (s : Observable) (observer : ℕ)
    → times observer s.observers ≡ 1
    → remove_observer s observer ≡ ok (record { observers = others observer s.observers })
unfolding remove_observer
remove_observer_once s observer once =
    let sum = length-others observer s.observers in
    let differ : (length (others observer s.observers) == length s.observers) ≡ false =
      ground (arith, sum, once) in
    let none_left =
      drop-length s.observers (suc (length (others observer s.observers)))
        (omega (arith, sum, once)) in
    rw (differ, none_left, remove_observer)
      (ap (λ l. ok (record { observers = l })) (append-nil (others observer s.observers)))
