-- ===== src/Net/Examples/Lifecycle.antt =====
-- The theorems on starting and stopping, used on a server that accepts two sessions, fails to accept a
-- third, sends a message, and is stopped and started again.
use haraka_engine.Base.{ℕ, ◌≡◌, refl, Bool, true, false, not, Option, List, [], ◌∷◌, arith, ◌==◌}
use haraka_engine.Net.Examples.{clerk}
use haraka_engine.Net.Server
use haraka_engine.Net.Server.{Server}
use haraka_engine.Net.Server.Lifecycle
use haraka_engine.Net.Server.Lifecycle.{
  Lifecycle, IsServing, Reach, here, later, starts, accepts, accept_fails, broadcasts, stops, waits,
}
use haraka_engine.Net.Server.Lifecycle.Runs.{
  arrivals_of, IsWaiting, IsStopped, Reach-IsWaiting, stop-IsStopped,
}

abbrev online : ℕ → Bool
online c = not (c == 8)

abbrev Evening : Type 0
Evening = Lifecycle Bool (List (Option ℕ))

abbrev fresh : Evening
fresh = Lifecycle.create online []

-- The second session has closed before it gets its id.
abbrev open_house : Evening
open_house = record {
  server = record {
    sessions = Option.some 7 ∷ Option.some 8 ∷ Option.some 9 ∷ [];
    connected = online;
    outbox = [];
    session_ids = (7, 0) ∷ (9, 2) ∷ [];
    client_id_counter = 3;
    derived = [];
  };
  stopped = false;
  joinable = true;
  accepting = 1;
}

open_house-Reach : Reach clerk fresh open_house
unfolding Lifecycle.create Lifecycle.start Lifecycle.wait_for_new_connection Lifecycle.accepted
    Lifecycle.accept_failed Server.accept_session
open_house-Reach =
    later
      (later
        (later
          (later (later here (starts true true refl))
            (accepts 7 (record { running = refl; threaded = refl; outstanding = omega arith })))
          (accept_fails (record { running = refl; threaded = refl; outstanding = omega arith })))
        (accepts 8 (record { running = refl; threaded = refl; outstanding = omega arith })))
      (accepts 9 (record { running = refl; threaded = refl; outstanding = omega arith }))

-- It waits for one more connection beside the one that it waits for.
abbrev crowded : Evening
crowded = record open_house { accepting = 2 }

crowded-Reach : Reach clerk fresh crowded
unfolding Lifecycle.wait_for_new_connection
crowded-Reach = later open_house-Reach waits

Reach-IsWaiting_example : IsWaiting crowded 2
unfolding open_house-Reach crowded-Reach
Reach-IsWaiting_example = Reach-IsWaiting online [] crowded-Reach

-- It stops, starts again, and sends a message.
abbrev reopened : Evening
reopened = record (Lifecycle.stop open_house) { joinable = true; accepting = 2 }

reopened-Reach : Reach clerk (Lifecycle.stop open_house) reopened
unfolding Lifecycle.stop Lifecycle.start Lifecycle.wait_for_new_connection
reopened-Reach = later here (starts true true refl)

stop-IsStopped_example : IsStopped reopened × (arrivals_of reopened-Reach ≡ 0)
stop-IsStopped_example = stop-IsStopped open_house reopened-Reach
