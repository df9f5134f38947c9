-- ===== src/Net/Server.antt =====
-- net/server.hpp: `ServerInterface`. A session is known by its address, and an entry of `_sessions` may
-- be a null pointer. `connected` says which sockets are open while a member runs. The virtual
-- functions are `Callbacks`; that of a disconnection changes the derived class's own state only, and
-- that of a message may end in a fault.
pub mod Broadcast
pub mod Ids
pub mod Lifecycle
pub mod Waiting
use haraka_engine.Base.{
  ℕ, zero, suc, ◌+◌, ◌%◌, ◌^◌, Bool, true, false, Option, none, some, List, [], ◌∷◌, ◌++◌, ◌==◌,
  if◌then◌else◌, Result, ok, ◌>>=◌,
}
use haraka_engine.Util.Deque
use haraka_engine.Util.Deque.{Deque}
use haraka_engine.Net.Session.{Packet}

-- The state, `derived` that of the derived class. What the sessions were told is recorded: the packets
-- of `send_packet`, and the ids of `connect_to_client`.
pub record Server (E H : Type 0) : Type 0 where
  pub sessions : List (Option ℕ)
  pub connected : ℕ → Bool
  pub outbox : List (ℕ × Packet E)
  pub session_ids : List (ℕ × ℕ)
  pub client_id_counter : ℕ
  pub derived : H

-- `on_client_disconnect`
abbrev pub Disconnection : Type 0 → Type 0
Disconnection H = H → Option ℕ → H

pub record Callbacks (E H : Type 0) : Type 0 where
  pub on_client_connect : Server E H → ℕ → Server E H × Bool
  pub on_client_disconnect : Disconnection H
  pub on_message : Server E H → Option ℕ → Packet E → Result (Server E H)

pub record OwnedPacket (E : Type 0) : Type 0 where
  pub remote : Option ℕ
  pub packet : Packet E

-- `erase(remove(begin, end, nullptr), end)`
unfoldable pub remove_null : List (Option ℕ) → List (Option ℕ)
remove_null [] = []
remove_null (none ∷ clients) = remove_null clients
remove_null (some c ∷ clients) = some c ∷ remove_null clients

unfoldable pub is_session : Option ℕ → ℕ → Bool
is_session none c = false
is_session (some x) c = x == c

module _ {E H : Type 0} where
  unfoldable pub send : Server E H → ℕ → Packet E → Server E H
  send s c packet = record s { outbox = s.outbox ++ (c, packet) ∷ [] }

  unfoldable pub told : Disconnection H → Server E H → Option ℕ → Server E H
  told on_client_disconnect s client = record s { derived = on_client_disconnect s.derived client }

  -- The `else` of `message_client`: the pointer is reset before it is looked for.
  unfoldable pub drop_client : Disconnection H → Server E H → Option ℕ → Server E H
  drop_client on_client_disconnect s client =
      let s' = told on_client_disconnect s client in
      record s' { sessions = remove_null s'.sessions }

  unfoldable pub message_client : Disconnection H → Server E H → Option ℕ → Packet E → Server E H
  message_client on_client_disconnect s none packet = drop_client on_client_disconnect s none
  message_client on_client_disconnect s (some c) packet =
      if s.connected c then send s c packet else drop_client on_client_disconnect s (some c)

  -- The loop of `message_all_clients`: the server, the list with its pointers reset, and whether one
  -- was.
  unfoldable pub visit_clients :
      Disconnection H
      → Packet E
      → Option ℕ
      → List (Option ℕ)
      → List (Option ℕ)
      → Bool
      → Server E H
      → Server E H × List (Option ℕ) × Bool
  visit_clients on_client_disconnect msg exclude [] visited invalid s = (s, visited, invalid)
  visit_clients on_client_disconnect msg exclude (none ∷ clients) visited invalid s =
      visit_clients on_client_disconnect msg exclude clients (visited ++ none ∷ []) true
        (told on_client_disconnect s none)
  visit_clients on_client_disconnect msg exclude (some c ∷ clients) visited invalid s =
      elim (s.connected c) [
        | true ↦
            visit_clients on_client_disconnect msg exclude clients (visited ++ some c ∷ []) invalid
              (if is_session exclude c then s else send s c msg)
        | false ↦
            visit_clients on_client_disconnect msg exclude clients (visited ++ none ∷ []) true
              (told on_client_disconnect s (some c))
      ]

  unfoldable pub message_all_clients :
      Disconnection H → Server E H → Packet E → Option ℕ → Server E H
  message_all_clients on_client_disconnect s msg exclude =
      let (s', visited, invalid) =
        visit_clients on_client_disconnect msg exclude s.sessions [] false s in
      record s' { sessions = if invalid then remove_null visited else visited }

  -- The handler of `async_accept` for a new session, without an error; `connect_to_client` gives the
  -- id to a session that is connected.
  unfoldable pub accept_session : Callbacks E H → Server E H → ℕ → Server E H
  accept_session virtuals s c =
      let (s', approved) = virtuals.on_client_connect s c in
      if approved
      then record s' {
        sessions = s'.sessions ++ some c ∷ [];
        session_ids =
            if s'.connected c
            then s'.session_ids ++ (c, s'.client_id_counter) ∷ []
            else s'.session_ids;
        client_id_counter = (s'.client_id_counter + 1) % 2 ^ 32;
      }
      else s'

  -- The loop of `update`, with the number of messages that it may still take.
  unfoldable pub update :
      Callbacks E H
      → ℕ
      → Server E H
      → Deque (OwnedPacket E)
      → Result (Server E H × Deque (OwnedPacket E))
  update virtuals zero s input_queue = ok (s, input_queue)
  update virtuals (suc n) s input_queue =
      if Deque.empty input_queue then ok (s, input_queue) else do
        popped ← Deque.pop_front input_queue
        t ← virtuals.on_message s popped.0.remote popped.0.packet
        update virtuals n t popped.1
