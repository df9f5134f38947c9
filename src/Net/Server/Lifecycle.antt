-- ===== src/Net/Server/Lifecycle.antt =====
-- net/server.hpp: how a `ServerInterface` is started and stopped, and how it waits for connections.
-- boost::asio runs a handler on the context's thread, and only while the context is not stopped; a
-- context that has been stopped stays so until it is restarted.
pub mod Runs
pub mod Numbered
use haraka_engine.Base.{
  ℕ, zero, ◌+◌, ◌-◌, ◌<◌, ◌≡◌, Bool, true, false, Option, List, [], Result, ok, err, terminated,
  if◌then◌else◌,
}
use haraka_engine.Util.Deque.{Deque, deque}
use haraka_engine.Net.Session.{Packet}
use haraka_engine.Net.Server.{
  Server, Callbacks, OwnedPacket, accept_session, message_client, message_all_clients, update,
}

-- `stopped` is the context's state, `joinable` that of `_context_thread`; `accepting` counts the calls
-- of `async_accept` whose handler has not run.
pub record Lifecycle (E H : Type 0) : Type 0 where
  pub server : Server E H
  pub stopped : Bool
  pub joinable : Bool
  pub accepting : ℕ

module _ {E H : Type 0} where
  -- The constructor; which sockets are open is no field of the server.
  unfoldable pub create : (ℕ → Bool) → H → Lifecycle E H
  create connected derived = record {
    server = record {
      sessions = [];
      connected = connected;
      outbox = [];
      session_ids = [];
      client_id_counter = 0;
      derived = derived;
    };
    stopped = false;
    joinable = false;
    accepting = 0;
  }

  unfoldable pub wait_for_new_connection : Lifecycle E H → Lifecycle E H
  wait_for_new_connection l = record l { accepting = l.accepting + 1 }

  -- `threaded` says whether the system makes the thread, or the constructor throws. A thread that is
  -- joinable must not be assigned to: `std::terminate` is called.
  unfoldable pub start : Bool → Lifecycle E H → Result (Lifecycle E H × Bool)
  start threaded l =
      let w = wait_for_new_connection l in
      if threaded
      then (if l.joinable then err terminated else ok (record w { joinable = true }, true))
      else ok (w, false)

  unfoldable pub stop : Lifecycle E H → Lifecycle E H
  stop l = record l { stopped = true; joinable = false }

  -- The handler of `async_accept`, which is no longer outstanding: for a session, and with an error.
  unfoldable pub accepted : Callbacks E H → ℕ → Lifecycle E H → Lifecycle E H
  accepted virtuals c l =
      wait_for_new_connection
        (record l { server = accept_session virtuals l.server c; accepting = l.accepting - 1 })

  unfoldable pub accept_failed : Lifecycle E H → Lifecycle E H
  accept_failed l = wait_for_new_connection (record l { accepting = l.accepting - 1 })

  -- A handler may run: the context's thread is there and not stopped, and an accept is outstanding.
  pub record IsServing (l : Lifecycle E H) : Type 0 where
    pub running : l.stopped ≡ false
    pub threaded : l.joinable ≡ true
    pub outstanding : 0 < l.accepting

  -- What happens to a server: a call of one of its members, a handler that the context runs, and
  -- sockets that open and close.
  pub data Step (virtuals : Callbacks E H) (l : Lifecycle E H) : Lifecycle E H → Type 0 where
    starts :
        {m : Lifecycle E H} (threaded result : Bool)
        → start threaded l ≡ ok (m, result)
        → Step virtuals l m
    stops : Step virtuals l (stop l)
    waits : Step virtuals l (wait_for_new_connection l)
    accepts : (c : ℕ) → IsServing l → Step virtuals l (accepted virtuals c l)
    accept_fails : IsServing l → Step virtuals l (accept_failed l)
    messages :
        (client : Option ℕ) (packet : Packet E)
        → Step virtuals l (record l {
          server = message_client virtuals.on_client_disconnect l.server client packet;
        })
    broadcasts :
        (msg : Packet E) (exclude : Option ℕ)
        → Step virtuals l (record l {
          server = message_all_clients virtuals.on_client_disconnect l.server msg exclude;
        })
    updates :
        (max_messages : ℕ) (queue rest : List (OwnedPacket E)) (s : Server E H)
        → update virtuals max_messages l.server (deque queue) ≡ ok (s, deque rest)
        → Step virtuals l (record l { server = s })
    sockets :
        (connected : ℕ → Bool)
        → Step virtuals l (record l { server = record l.server { connected = connected } })

  pub data Reach (virtuals : Callbacks E H) (l : Lifecycle E H) : Lifecycle E H → Type 0 where
    here : Reach virtuals l l
    later : {m n : Lifecycle E H} → Reach virtuals l m → Step virtuals m n → Reach virtuals l n
