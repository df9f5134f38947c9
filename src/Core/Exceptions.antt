-- ===== src/Core/Exceptions.antt =====
-- core/exception.hpp: the exceptions of the engine with their contents, and which `catch` clause takes
-- them. Elsewhere an exception is its kind and its message.
use haraka_engine.Base.{
  ℕ, ◌≡◌, refl, Bool, true, false, ◌||◌, Option, none, some, if◌then◌else◌, haraka, unknown_id,
  unknown_class_type, unknown_class_constructor, impossible_action, Error,
}
use haraka_engine.Base.Order.{Bytes}
use haraka_engine.Core.Action.{Attempt, returns, throws, GameAction}
use haraka_engine.Core.Instance.{report}

-- The classes. Each but the first derives from the first.
pub data ExceptionClass : Type 0 where
  haraka_class unknown_id_class unknown_type_class unknown_constructor_class : ExceptionClass
  impossible_action_class : ExceptionClass

pub data HarakaException (F : Type 0) : Type 0 where
  haraka_exception : Bytes → HarakaException F
  unknown_id_exception : Bytes → ℕ → HarakaException F
  unknown_class_type_exception : Bytes → Bytes → HarakaException F
  unknown_class_constructor_exception : Bytes → HarakaException F
  impossible_action_exception : Bytes → GameAction F → HarakaException F

module _ {F : Type 0} where
  unfoldable pub what : HarakaException F → Bytes
  what (haraka_exception message) = message
  what (unknown_id_exception message id) = message
  what (unknown_class_type_exception message class_type) = message
  what (unknown_class_constructor_exception message) = message
  what (impossible_action_exception message action) = message

  -- The accessors of the derived classes; another class has none.
  unfoldable pub get_id : HarakaException F → Option ℕ
  get_id (unknown_id_exception message id) = some id
  get_id _ = none

  unfoldable pub type : HarakaException F → Option Bytes
  type (unknown_class_type_exception message class_type) = some class_type
  type _ = none

  unfoldable pub get_action : HarakaException F → Option (GameAction F)
  get_action (impossible_action_exception message action) = some action
  get_action _ = none

  -- Whether a `catch` clause for a reference to the class takes the exception.
  abbrev pub caught_by : ExceptionClass → HarakaException F → Bool
  caught_by haraka_class _ = true
  caught_by unknown_id_class (unknown_id_exception message id) = true
  caught_by unknown_type_class (unknown_class_type_exception message class_type) = true
  caught_by unknown_constructor_class (unknown_class_constructor_exception message) = true
  caught_by impossible_action_class (impossible_action_exception message action) = true
  caught_by _ _ = false

  abbrev pub kind : HarakaException F → Error
  kind (haraka_exception message) = haraka
  kind (unknown_id_exception message id) = unknown_id
  kind (unknown_class_type_exception message class_type) = unknown_class_type
  kind (unknown_class_constructor_exception message) = unknown_class_constructor
  kind (impossible_action_exception message action) = impossible_action

  -- A `throw` of the exception.
  abbrev pub thrown : {A : Type 0} → HarakaException F → Attempt A
  thrown e = throws (kind e) (what e)

  -- What the `catch` clauses of `_play_action` make of an exception of the engine.
  pub report-thrown :
      (id : ℕ) (e : HarakaException F)
      → report id (thrown e) ≡ (
          if caught_by unknown_id_class e || caught_by impossible_action_class e
          then returns (record { action_id = id; success = false; message = what e })
          else thrown e)
  unfolding report what
  report-thrown id (haraka_exception message) = refl
  report-thrown id (unknown_id_exception message n) = refl
  report-thrown id (unknown_class_type_exception message class_type) = refl
  report-thrown id (unknown_class_constructor_exception message) = refl
  report-thrown id (impossible_action_exception message action) = refl
