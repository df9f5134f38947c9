-- ===== src/Core/Action/Serial.antt =====
-- `serialize` and `deserialize` of actions, and of the reports of a tick.
use haraka_engine.Base.{◌≡◌, sym, ap, ◌∙◌, some, List, [], ◌∷◌, ◌++◌, append-nil, ok}
use haraka_engine.Base.Order.{Bytes, bytes_ord}
use haraka_engine.Base.Map.{find, IsSorted, Aligned}
use haraka_engine.Base.Map.Prefix.{Before-nil, snoc-append}
use haraka_engine.Core.Platform.{Platform, IsIeee}
use haraka_engine.Core.Types.{GameValue}
use haraka_engine.Core.Object.{restore}
use haraka_engine.Core.Object.Loops.{for_values-Steps}
use haraka_engine.Core.Object.Serial.{Receives, written, serialize_values-written, written-Steps}
use haraka_engine.Core.Action.{
  GameAction, ActionGame, ActionStatus, StatusBuffer, instantiate, serialize, deserialize,
  serialize_status, deserialize_status, add_statuses, serialize_action_status_list, read_statuses,
  deserialize_action_status_list,
}

module _ {F : Type 0} ⦃p : Platform F⦄ where
  -- The action that `deserialize` fills: made by the class's creator, with the buffer's id.
  abbrev pub fresh : ActionGame F → GameAction F → GameAction F → GameAction F
  fresh g a created = g.add_values (record created { id = a.id })

  -- The class of `a` is registered: a fresh action has its id, its class and its behaviour, and takes
  -- its values.
  pub record IsRegistered (g : ActionGame F) (a : GameAction F) : Type 0 where
    pub created : GameAction F
    pub found : find a.type_name g.registry ≡ some created
    pub keeps_id : (fresh g a created).id ≡ a.id
    pub keeps_type : (fresh g a created).type_name ≡ a.type_name
    pub keeps_check : (fresh g a created).check_action ≡ a.check_action
    pub keeps_act : (fresh g a created).perform_act ≡ a.perform_act
    pub sorted : IsSorted a.values
    pub fresh_sorted : IsSorted (fresh g a created).values
    pub receives : Aligned Receives (fresh g a created).values a.values

  action_eq :
      (a b : GameAction F)
      → a.id ≡ b.id
      → a.type_name ≡ b.type_name
      → a.check_action ≡ b.check_action
      → a.perform_act ≡ b.perform_act
      → record a { values = b.values } ≡ b
  action_eq a b e f c d i = record {
    id = e i;
    values = b.values;
    type_name = f i;
    check_action = c i;
    perform_act = d i;
  }

  -- With IEEE floats: an action of a registered class is read back from its buffer as it was.
  pub deserialize-serialize_action :
      (ieee : IsIeee p) (g : ActionGame F) (a : GameAction F)
      → IsRegistered g a
      → deserialize g (serialize a) ≡ ok a
  unfolding deserialize serialize instantiate
  deserialize-serialize_action ieee g a h =
      rw
        (
          h.found,
          serialize_values-written a.values [] h.sorted (Before-nil Bytes a.values),
          for_values-Steps restore [] (written a.values) (fresh g a h.created).values a.values
              h.fresh_sorted (Before-nil (GameValue F) (fresh g a h.created).values)
              (written-Steps ieee _ a.values h.receives),
        )
        (ap ok
          (action_eq (fresh g a h.created) a h.keeps_id h.keeps_type h.keeps_check h.keeps_act))

abbrev sent : List ActionStatus → List StatusBuffer
sent [] = []
sent (s ∷ statuses) = serialize_status s ∷ sent statuses

add_statuses-sent :
    (statuses : List ActionStatus) (list : List StatusBuffer)
    → add_statuses statuses list ≡ list ++ sent statuses
unfolding add_statuses
add_statuses-sent [] list = sym (append-nil list)
add_statuses-sent (s ∷ statuses) list =
    add_statuses-sent statuses (list ++ serialize_status s ∷ [])
    ∙ sym (snoc-append list (serialize_status s) (sent statuses))

read_statuses-sent :
    (statuses list : List ActionStatus) → read_statuses (sent statuses) list ≡ list ++ statuses
unfolding read_statuses serialize_status deserialize_status
read_statuses-sent [] list = sym (append-nil list)
read_statuses-sent (s ∷ statuses) list =
    read_statuses-sent statuses (list ++ s ∷ []) ∙ sym (snoc-append list s statuses)

-- Any list of reports is read back from its buffer as it was, in order.
pub read_back_statuses :
    (statuses : List ActionStatus)
    → deserialize_action_status_list (serialize_action_status_list statuses) ≡ statuses
unfolding deserialize_action_status_list serialize_action_status_list
read_back_statuses statuses = rw (add_statuses-sent statuses []) (read_statuses-sent statuses [])
