-- ===== src/Graphics/DrawInstance.antt =====
-- graphics/draw_instance.hpp and graphics/draw_instance.cpp: `DrawInstance`, which observes the object
-- that it draws as long as it lives. Of the object, its list of observers is kept.
use haraka_engine.Base.{
  ℕ, ◌+◌, ◌≡◌, refl, sym, ap, ◌∙◌, List, [], ◌∷◌, ◌++◌, append-nil, ◌==◌, ==_refl, Result, ok,
  arith, Bool-cases, inl, inr,
}
use haraka_engine.Base.Map.Prefix.{snoc-append}
use haraka_engine.Core.Events
use haraka_engine.Core.Events.{Observable}
use haraka_engine.Core.Events.Removal.{times, remove_observer_once}

-- The constructor of the instance at an address: what becomes of the object.
unfoldable pub create : Observable → ℕ → Observable
create object self = Events.add_observer object self

-- The destructor.
unfoldable pub destroy : Observable → ℕ → Result Observable
destroy object self = Events.remove_observer object self

-- The observers that come, one after the other.
abbrev pub add_all : Observable → List ℕ → Observable
add_all object [] = object
add_all object (o ∷ observers) = add_all (Events.add_observer object o) observers

add_all_lem :
    (observers before : List ℕ)
    → add_all (record { observers = before }) observers ≡ record { observers = before ++ observers }
unfolding Events.add_observer
add_all_lem [] before = ap (λ l. record { observers = l }) (sym (append-nil before))
add_all_lem (o ∷ observers) before =
    add_all_lem observers (before ++ o ∷ [])
    ∙ ap (λ l. record { observers = l }) (sym (snoc-append before o observers))

times-append : (self : ℕ) (xs ys : List ℕ) → times self (xs ++ ys) ≡ times self xs + times self ys
times-append self [] ys = omega arith
times-append self (x ∷ xs) ys = elim (Bool-cases (x == self)) [
  | inl e ↦ rw e (omega (arith, times-append self xs ys))
  | inr e ↦ rw e (times-append self xs ys)
]

others-append :
    (self : ℕ) (xs ys : List ℕ)
    → Events.others self (xs ++ ys) ≡ Events.others self xs ++ Events.others self ys
unfolding Events.others
others-append self [] ys = refl
others-append self (x ∷ xs) ys = elim (Bool-cases (x == self)) [
  | inl e ↦ rw (e, Events.others) (others-append self xs ys)
  | inr e ↦ rw (e, Events.others) (ap (λ l. x ∷ l) (others-append self xs ys))
]

others_absent : (self : ℕ) (xs : List ℕ) → times self xs ≡ 0 → Events.others self xs ≡ xs
unfolding Events.others
others_absent self [] h = refl
others_absent self (x ∷ xs) h = elim (Bool-cases (x == self)) [
  | inl e ↦ absurd (cc (rw e at h))
  | inr e ↦ rw (e, Events.others) (ap (λ l. x ∷ l) (others_absent self xs (rw e at h)))
]

times_with :
    (self : ℕ) (before observers : List ℕ)
    → times self before ≡ 0
    → times self observers ≡ 0
    → times self (before ++ self ∷ observers) ≡ 1
times_with self before observers h g =
    times-append self before (self ∷ observers) ∙ rw (==_refl self, h, g) (omega arith)

others_with :
    (self : ℕ) (before observers : List ℕ)
    → times self before ≡ 0
    → times self observers ≡ 0
    → Events.others self (before ++ self ∷ observers) ≡ before ++ observers
unfolding Events.others
others_with self before observers h g =
    others-append self before (self ∷ observers)
    ∙ rw (==_refl self, Events.others, others_absent self before h, others_absent self observers g)
        refl

-- For an object that a drawing did not observe: the drawing created, any other observers added, and
-- the drawing destroyed, the object has its observers and the added ones, in order.
pub destroy-create :
    (object : Observable) (self : ℕ) (observers : List ℕ)
    → times self object.observers ≡ 0
    → times self observers ≡ 0
    → destroy (add_all (create object self) observers) self ≡ ok (add_all object observers)
unfolding create destroy Events.add_observer
destroy-create object self observers h g =
    let before = object.observers in
    let drawn : Observable = record { observers = before ++ self ∷ observers } in
    let made : add_all (Events.add_observer object self) observers ≡ drawn =
      add_all_lem observers (before ++ self ∷ [])
      ∙ ap (λ l. record { observers = l }) (sym (snoc-append before self observers)) in
    rw (made, add_all_lem observers before)
      (remove_observer_once drawn self (times_with self before observers h g)
        ∙ ap (λ l. ok (record { observers = l })) (others_with self before observers h g))
