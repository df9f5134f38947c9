-- ===== src/Core/Action.antt =====
-- core/action.hpp and core/action.cpp: actions on the game state, their factory and their exchange
-- with protocol buffers, and the reports of how they ended.
pub mod Serial
use haraka_engine.Base.{
  ℕ, Bool, true, false, List, [], ◌∷◌, ◌++◌, Result, ok, err, Error, impossible_action,
  unknown_class_type, or_fail, ◌>>=◌,
}
use haraka_engine.Base.Order.{Bytes, bytes_ord}
use haraka_engine.Base.Map.{Map, find, assign}
use haraka_engine.Base.Text.{codes}
use haraka_engine.Core.Platform.{Platform}
use haraka_engine.Core.Types.{GameValue}
use haraka_engine.Core.Object.{for_values, restore, serialize_values}
use haraka_engine.Core.Snapshot.{Snapshot}

-- How a call ends: with a value, or with an exception and its message.
pub data Attempt (A : Type 0) : Type 0 where
  returns : A → Attempt A
  throws : Error → Bytes → Attempt A

-- The fields of an action, and its virtual functions over the world. What `perform_act` did to the
-- world before it throws stays done.
pub record GameAction (F : Type 0) : Type 0 where
  pub id : ℕ
  pub values : Map Bytes (GameValue F)
  pub type_name : Bytes
  pub check_action : Map Bytes (GameValue F) → Snapshot F → Attempt Bool
  pub perform_act : Map Bytes (GameValue F) → Snapshot F → Snapshot F × Attempt (Unit {0})

-- What a game adds: the registered classes with the action that each creator makes, and the virtual
-- function that maps the values of an action.
pub record ActionGame (F : Type 0) : Type 0 where
  pub registry : Map Bytes (GameAction F)
  pub add_values : GameAction F → GameAction F

-- `serialization::Action`
pub record ActionBuffer : Type 0 where
  pub id : ℕ
  pub type_name : Bytes
  pub values : Map Bytes Bytes

pub record ActionStatus : Type 0 where
  pub action_id : ℕ
  pub success : Bool
  pub message : Bytes

-- `serialization::ActionStatus`
pub record StatusBuffer : Type 0 where
  pub id : ℕ
  pub success : Bool
  pub message : Bytes

module _ {F : Type 0} where
  unfoldable pub act : GameAction F → Snapshot F → Snapshot F × Attempt (Unit {0})
  act a world = elim (a.check_action a.values world) [
    | throws e message ↦ (world, throws e message)
    | returns true ↦ a.perform_act a.values world
    | returns false ↦ (world, throws impossible_action (codes "Action cannot be activated"))
  ]

  -- `ActionRegistrar`
  unfoldable pub registrar : ActionGame F → Bytes → GameAction F → ActionGame F
  registrar g name created = record g { registry = assign name created g.registry }

  unfoldable pub instantiate : ActionGame F → Bytes → Result (GameAction F)
  instantiate g type = or_fail (find type g.registry) unknown_class_type

module _ {F : Type 0} ⦃p : Platform F⦄ where
  unfoldable pub serialize : GameAction F → ActionBuffer
  serialize a = record { id = a.id; type_name = a.type_name; values = serialize_values a.values [] }

  unfoldable pub deserialize : ActionGame F → ActionBuffer → Result (GameAction F)
  deserialize g buffer = do
    created ← instantiate g buffer.type_name
    let new_action = g.add_values (record created { id = buffer.id })
    values ← for_values restore buffer.values new_action.values
    ok (record new_action { values = values })

unfoldable pub serialize_status : ActionStatus → StatusBuffer
serialize_status s = record { id = s.action_id; success = s.success; message = s.message }

unfoldable pub deserialize_status : StatusBuffer → ActionStatus
deserialize_status b = record { action_id = b.id; success = b.success; message = b.message }

-- The loops of `serialize_action_status_list` and `deserialize_action_status_list`.
unfoldable pub add_statuses : List ActionStatus → List StatusBuffer → List StatusBuffer
add_statuses [] list = list
add_statuses (s ∷ statuses) list = add_statuses statuses (list ++ serialize_status s ∷ [])

unfoldable pub serialize_action_status_list : List ActionStatus → List StatusBuffer
serialize_action_status_list statuses = add_statuses statuses []

unfoldable pub read_statuses : List StatusBuffer → List ActionStatus → List ActionStatus
read_statuses [] list = list
read_statuses (b ∷ buffers) list = read_statuses buffers (list ++ deserialize_status b ∷ [])

unfoldable pub deserialize_action_status_list : List StatusBuffer → List ActionStatus
deserialize_action_status_list buffers = read_statuses buffers []
