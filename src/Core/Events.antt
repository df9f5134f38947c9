-- ===== src/Core/Events.antt =====
-- core/events.hpp and core/events.cpp: `Observable`. An observer is known by its address; what it does
-- in `react_event` is a parameter.
pub mod Removal
use haraka_engine.Base.{
  ℕ, suc, List, [], ◌∷◌, ◌++◌, ◌==◌, if◌then◌else◌, Result, ok, err, bad_iterator, length, drop,
}

pub data EventType : Type 0 where
  object_deleted : EventType

pub record Event : Type 0 where
  pub type : EventType

pub record Observable : Type 0 where
  pub observers : List ℕ

-- The loop of `notify`, over a world that the observers change.
unfoldable pub notify_all : {W : Type 0} → (ℕ → Event → W → W) → Event → List ℕ → W → W
notify_all react_event event [] world = world
notify_all react_event event (o ∷ observers) world =
    notify_all react_event event observers (react_event o event world)

unfoldable pub notify : {W : Type 0} → (ℕ → Event → W → W) → Observable → Event → W → W
notify react_event s event world = notify_all react_event event s.observers world

unfoldable pub add_observer : Observable → ℕ → Observable
add_observer s observer = record { observers = s.observers ++ observer ∷ [] }

-- What `remove_if` moves to the front.
unfoldable pub others : ℕ → List ℕ → List ℕ
others observer [] = []
others observer (o ∷ observers) =
    if o == observer then others observer observers else o ∷ others observer observers

-- `erase` of the one iterator that `remove_if` returns, the first behind those that stay: at the end
-- this is undefined, elsewhere it erases one entry. The entries behind it are as they were.
unfoldable pub remove_observer : Observable → ℕ → Result Observable
remove_observer s observer =
    let stay = others observer s.observers in
    if length stay == length s.observers
    then err bad_iterator
    else ok (record { observers = stay ++ drop (suc (length stay)) s.observers })
