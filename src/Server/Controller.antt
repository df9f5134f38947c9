-- ===== src/Server/Controller.antt =====
-- server/packet_types.hpp, server/server_controller.hpp and server/server_controller.cpp. The
-- comparison of `val.session()` with the client is read as one of pointers. Protocol buffers as bytes
-- are the parameter `Codec`. A fault at the end of a function leaves the state that
-- its last statement left.
pub mod Sessions
pub mod Keeps
pub mod Runs
pub mod Informing
pub mod Handshake
pub mod Updates
pub mod Messages
pub mod Mirror
pub mod Numbering
use haraka_engine.Base.{
  ℕ, zero, suc, ◌+◌, get_elem?, ◌%◌, ◌^◌, Bool, true, false, Option, none, some, List, [], ◌∷◌,
  ◌++◌, map, ◌==◌, Result, ok, err, bad_iterator, invalid_delete, if◌then◌else◌, length,
}
use haraka_engine.Base.Order.{Bytes}
use haraka_engine.Base.Int.{pos}
use haraka_engine.Core.Platform.{Platform}
use haraka_engine.Core.Object.{Game}
use haraka_engine.Core.Snapshot
use haraka_engine.Core.Delta
use haraka_engine.Core.Delta.{DeltaSnapshot, DeltaBuffer}
use haraka_engine.Core.Action
use haraka_engine.Core.Action.{GameAction, ActionBuffer, ActionStatus, StatusBuffer}
use haraka_engine.Core.Instance
use haraka_engine.Core.Instance.{GameInstance}
use haraka_engine.Net.Session.{Packet, PacketHeader}
use haraka_engine.Net.Server
use haraka_engine.Net.Server.{Server, Callbacks}
use haraka_engine.Server.SessionInfo
use haraka_engine.Server.SessionInfo.{SessionInfo}

-- `HarakaPackets`
pub data PacketType : Type 0 where
  connection connection_result connection_confirmed connection_denied disconnection full_snapshot
        full_snapshot_result delta_snapshot_result action :
      PacketType

-- `serialization::ConnectionResponse`
pub record ConnectionResponse : Type 0 where
  pub username : Bytes
  pub token : Bytes

-- `serialization::DeltaSnapshotUpdate`
pub record UpdateBuffer : Type 0 where
  pub tick : ℕ
  pub delta_snapshot : DeltaBuffer
  pub actions : List ActionBuffer
  pub status_list : List StatusBuffer

-- `SerializeToArray` and `ParseFromArray` of the buffers that are sent. A difference whose body does not
-- parse is none; of a connection's, the fields that were read are left.
pub record Codec : Type 0 where
  pub write_delta : DeltaBuffer → Bytes
  pub read_delta : Bytes → Option DeltaBuffer
  pub read_connection : Bytes → ConnectionResponse

-- The state beside that of `ServerInterface`.
pub record Controller (F : Type 0) : Type 0 where
  pub game_instance : GameInstance F
  pub session_info : List SessionInfo
  pub current_tick : ℕ
  pub tick_rate : ℕ
  pub ms_per_tick : F

unfoldable pub same_pointer : Option ℕ → Option ℕ → Bool
same_pointer none none = true
same_pointer none (some c) = false
same_pointer (some a) none = false
same_pointer (some a) (some c) = a == c

-- `find_if` over the sessions' information.
unfoldable pub find_session : List SessionInfo → Option ℕ → Option SessionInfo
find_session [] client = none
find_session (i ∷ infos) client =
    if same_pointer i.session client then some i else find_session infos client

-- The information that `find_if` finds, disconnected in place.
unfoldable pub disconnect_session : List SessionInfo → Option ℕ → List SessionInfo
disconnect_session [] client = []
disconnect_session (i ∷ infos) client =
    if same_pointer i.session client
    then SessionInfo.disconnect i ∷ infos
    else i ∷ disconnect_session infos client

-- A packet without a body.
unfoldable pub header_only : PacketType → Packet PacketType
header_only type = record { header = record { id = type; size = 0 }; body = [] }

-- `packet.header.size` has 32 bits.
unfoldable pub encode_packet : Bytes → PacketType → Packet PacketType
encode_packet msg type = record {
  header = record { id = type; size = length msg % 2 ^ 32 };
  body = msg;
}

unfoldable pub is_connection : PacketType → Bool
is_connection connection = true
is_connection _ = false

abbrev pub ServerController : Type 0 → Type 0
ServerController F = Server PacketType (Controller F)

module _ {F : Type 0} where
  unfoldable pub on_client_disconnect : Controller F → Option ℕ → Controller F
  on_client_disconnect h client = record h {
    session_info = disconnect_session h.session_info client;
  }

  unfoldable pub on_client_connect : ServerController F → ℕ → ServerController F × Bool
  on_client_connect s c =
      (Server.message_client on_client_disconnect s (some c) (header_only connection), true)

  -- `_session_info.push_back(info)`
  unfoldable pub add_info : ServerController F → SessionInfo → ServerController F
  add_info s info = record s {
    derived = record s.derived { session_info = s.derived.session_info ++ info ∷ [] };
  }

  unfoldable pub parse_connection_result :
      Codec → ServerController F → Option ℕ → Packet PacketType → ServerController F
  parse_connection_result codec s client packet =
      let buffer = codec.read_connection packet.body in
      let (info, logged) =
        SessionInfo.log (SessionInfo.create client) buffer.username buffer.token none in
      if logged
      then add_info
          (Server.message_client on_client_disconnect s client (header_only connection_confirmed))
          info
      else Server.message_client on_client_disconnect s client (header_only connection_denied)

  -- The `switch` for a session that is logged in: none of its cases does anything.
  unfoldable pub dispatch : PacketType → ServerController F → ServerController F
  dispatch disconnection s = s
  dispatch full_snapshot s = s
  dispatch action s = s
  dispatch _ s = s

  -- The end iterator is read through where no session is found and the packet is no `connection`.
  unfoldable pub on_message :
      Codec → ServerController F → Option ℕ → Packet PacketType → Result (ServerController F)
  on_message codec s client packet = elim (find_session s.derived.session_info client) [
    | none ↦
        if is_connection packet.header.id
        then ok (parse_connection_result codec s client packet)
        else err bad_iterator
    | some info ↦ ok (if SessionInfo.logged info then dispatch packet.header.id s else s)
  ]

  -- The virtual functions of the class.
  abbrev pub virtuals : Codec → Callbacks PacketType (Controller F)
  virtuals codec = record {
    on_client_connect = on_client_connect;
    on_client_disconnect = on_client_disconnect;
    on_message = on_message codec;
  }

  -- The loop of `_message_all_clients` from an index on, with the number of entries left. A client that
  -- has gone is disconnected in the list that the loop runs over.
  unfoldable pub visit_logged : Packet PacketType → ServerController F → ℕ → ℕ → ServerController F
  visit_logged packet s k zero = s
  visit_logged packet s k (suc n) =
      let s' : ServerController F = elim (get_elem? s.derived.session_info k) [
        | none ↦ s
        | some info ↦
            if SessionInfo.logged info
            then Server.message_client on_client_disconnect s info.session packet
            else s
      ] in
      visit_logged packet s' (k + 1) n

  -- The session to exclude is not looked at.
  unfoldable pub message_all_logged :
      ServerController F → Packet PacketType → Option ℕ → ServerController F
  message_all_logged s packet exclude = visit_logged packet s 0 (length s.derived.session_info)

module _ {F : Type 0} ⦃p : Platform F⦄ where
  unfoldable pub create : Game F → ℕ → (ℕ → Bool) → ServerController F
  create g tick_rate connected = record {
    sessions = [];
    connected = connected;
    outbox = [];
    session_ids = [];
    client_id_counter = 0;
    derived = record {
      game_instance = Instance.create g (Snapshot.empty 0) true tick_rate;
      session_info = [];
      current_tick = 0;
      tick_rate = tick_rate;
      ms_per_tick = Instance.ms_of tick_rate;
    };
  }

  -- The buffer `update` of `_send_delta_update`; its tick is not set.
  unfoldable pub delta_update :
      DeltaSnapshot F → List ActionStatus → List (GameAction F) → UpdateBuffer
  delta_update delta status_list actions = record {
    tick = 0;
    delta_snapshot = Delta.serialize delta;
    actions = map Action.serialize actions;
    status_list = map Action.serialize_status status_list;
  }

  -- What `_send_delta_update` sends: of `update`, the difference only. `update` was given the address of
  -- the local buffer of the difference, which its destructor deletes at the end.
  unfoldable pub send_delta_update :
      Codec
      → ServerController F
      → DeltaSnapshot F
      → List ActionStatus
      → List (GameAction F)
      → ServerController F × Result (Unit {0})
  send_delta_update codec s delta status_list actions =
      let update = delta_update delta status_list actions in
      let packet = encode_packet (codec.write_delta update.delta_snapshot) delta_snapshot_result in
      (Server.message_all_clients on_client_disconnect s packet none, err invalid_delete)

  unfoldable pub update_tick :
      Game F → Codec → ServerController F → ServerController F × Result (Unit {0})
  update_tick g codec s =
      let actions = Instance.action_list s.derived.game_instance in
      let (instance', ticked) = Instance.update_tick g s.derived.game_instance in
      let s' : ServerController F = record s {
        derived = record s.derived { game_instance = instance' };
      } in
      elim ticked [
        | err e ↦ (s', err e)
        | ok delta ↦ send_delta_update codec s' delta instance'.action_status_list actions
      ]
