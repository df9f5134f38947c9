-- ===== src/Lib.antt =====
-- A model of the haraka game engine: the state of a game, how it changes from tick to tick, how the
-- changes are sent, and the queues and sessions that carry them.
--
-- The program. A game's state at a tick is a `Snapshot` of `GameObject`s, each with named
-- `GameValue`s. A `GameInstance` plays the queued `GameAction`s on a copy of its snapshot, lets the
-- objects update themselves, and keeps the difference of the two snapshots, a `DeltaSnapshot`. Values,
-- objects, snapshots, differences, actions and their reports are exchanged as protocol buffers. The
-- queue is a `ThreadSafeDeque`. A `TCPSession` sends packets, a header and a body each, and receives
-- them. A `ServerInterface` accepts sessions, answers what they receive, and sends to one or to all; a
-- `Client` has one session. A `ServerController` is such a server with a `GameInstance`: it logs
-- clients in, and sends the difference of each tick to all of them; a `ClientController` has a
-- `Client`. A `Window` and its `DrawInstance`s draw the objects.
--
-- The files.
--   Base               the names that all share: results and faults (Outcome), integers and the
--                      32-bit `int` (Int), orders (Order), `std::map` as a sorted list (Map)
--   Util.Deque         include/util/tsdeque.hpp; Wait has `wait` as a step relation
--   Core.Platform      parameters: `float` and boost's CRC-32
--   Core.Types         include/core/types.hpp: Template (the type parameter), Primitives, Vectors, and
--                      the virtual functions over the classes of the typedefs
--   Core.Object        include/core/game_object.hpp, sources/core/game_object.cpp
--   Core.Snapshot      include/core/snapshot.hpp, sources/core/snapshot.cpp: `Snapshot`
--   Core.Delta         the same files: `DeltaSnapshot` and `Snapshot::apply`
--   Core.Action        include/core/action.hpp, sources/core/action.cpp
--   Core.Instance      include/core/gameinstance.hpp, sources/core/gameinstance.cpp
--   Core.Exceptions    include/core/exception.hpp
--   Core.Player        include/core/player.hpp, include/core/teams.hpp and their sources
--   Core.Events        include/core/events.hpp, sources/core/events.cpp
--   Net.Session        include/net/packet.hpp and `TCPSession` of include/net/session.hpp: Sending,
--                      Runs, Draining and Drained for the half that writes, Receiving, Cutting and
--                      Delivery for the half that reads
--   Net.Link           the same header: how a session connects and closes
--   Net.Server         include/net/server.hpp: `ServerInterface`; Ids for the ids of its sessions, and
--                      Lifecycle for how it starts, accepts and stops, Waiting for `update` that waits
--   Net.Client         include/net/client.hpp: `Client`
--   Server.SessionInfo include/server/session_info.hpp, sources/server/session_info.cpp
--   Server.Controller  include/server/server_controller.hpp, packet_types.hpp and
--                      sources/server/server_controller.cpp: Sessions, Keeps, Runs, Handshake, Informing
--                      for the list of clients, Messages for what protocol buffers take, Updates for the
--                      tick, Mirror for a client over many ticks, Numbering for the ids
--   Client.Controller  include/client and its source: `ClientController`
--   Graphics.Window    include/graphics/window.hpp and its source; Handles and Freed for what it does to
--                      the handles of SDL
--   Graphics.DrawInstance    include/graphics/draw_instance.hpp and its source
--   Core.Examples, Util.Examples, Net.Examples, Server.Examples, Client.Examples,
--   Graphics.Examples  a small game, small queues, a session, a client, a server and a window, on which
--                      the theorems are used
--
-- A class is a record of its fields and a member function is a function of its name that takes and
-- returns the record; a loop is a function by recursion on the list it runs over, or on the
-- number of rounds that it has left, so no fuel is needed. An exception, a failed assertion, a null
-- dereference, the delete of a local object and a signed overflow end a run with an error (`Result`); an action may throw after it
-- has changed the world (`Attempt`).
--
-- What is assumed of code outside the repository: the floats are a parameter `Platform`, with the
-- rules of IEEE 754 that are used as `IsIeee` (integers up to 2 ^ 24 are exact); the CRC is a
-- parameter, and where two objects with one checksum have to be equal this is a hypothesis; a game's
-- classes are the parameters `Game` and `ActionGame`, with `Clones` and `KeepsIds` for what the
-- comments of `clone` and `id` promise; protocol buffers as bytes are the parameter `Codec`, of which
-- `ReadsBack` says that a difference is parsed as it was written where proto3 allows it: with strings
-- in UTF-8, which the bytes of a value need not be, numbers of 32 bits and fewer than 2 ^ 31 bytes. The
-- buffers' maps are read in the order of their keys; Core.Object.AnyOrder, Core.Delta.AnyOrder and
-- Core.Delta.Unordered compare the orders. What the resolver, the system's threads and SDL answer are
-- arguments of the operations that ask them.
--
-- How the C++ is read: the build checks assertions; an `int` has 32 bits, two's complement, little
-- endian; ticks wrap at 2 ^ 32; a function that returns a local object does not copy it (a copy of a
-- snapshot would count its tick up); objects that two owners share are values, since what is shared
-- is only read. Each locked member of the deque is one step, and so is each handler of a session,
-- which the context's one thread runs; a write that completes has given all its bytes to the socket,
-- which is open, a read that completes has taken as many as it asks for, and a context that is stopped
-- runs no handler until it is restarted (what boost::asio documents). A write that had completed when
-- its socket is closed counts as one whose handler runs before the close. The memory of a packet's
-- header is the parameter `Layout`. The local object that `_send_delta_update` gives to
-- `set_allocated_delta_snapshot`, and that is deleted with the message, is a fault at its end.
--
-- Not modelled: the threads themselves, but for whether one is there; include/core/engine.hpp, which
-- has declarations without a body; the destructors and accessors that have no effect. Of the server's
-- controller, which the build leaves out, `_parse_action_packet` has no body, and the cast of a
-- session's pointer does not compile and is read as the comparison of pointers that it stands in.
pub mod Base
pub mod Util
pub mod Core
pub mod Graphics
pub mod Client
pub mod Net
pub mod Server
