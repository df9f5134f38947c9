-- ===== src/Server/Examples/Opening.antt =====
-- The theorem on the ids of sessions, used on a server of the example game that is started.
use haraka_engine.Base.{◌≤◌, refl, true, arith}
use haraka_engine.Base.Int.{ℤ}
use haraka_engine.Net.Server.Ids.{Rising}
use haraka_engine.Net.Server.Lifecycle
use haraka_engine.Net.Server.Lifecycle.{Lifecycle, IsServing, Reach, here, later, starts, accepts}
use haraka_engine.Net.Server.Lifecycle.Numbered.{Reach-Rising}
use haraka_engine.Server.Controller.{PacketType, Controller, virtuals}
use haraka_engine.Server.Controller.Numbering.{virtuals-KeepsIds, virtuals-AnswersKeepIds}
use haraka_engine.Server.Examples.{codec, lobby}

abbrev closed : Lifecycle PacketType (Controller ℤ)
closed = Lifecycle.create (λ c. true) lobby.derived

abbrev started : Lifecycle PacketType (Controller ℤ)
started = record (Lifecycle.wait_for_new_connection closed) { joinable = true }

abbrev visited : Lifecycle PacketType (Controller ℤ)
visited = Lifecycle.accepted (virtuals codec) 5 (Lifecycle.accepted (virtuals codec) 8 started)

visited-Reach : Reach (virtuals codec) closed visited
unfolding Lifecycle.create Lifecycle.start Lifecycle.wait_for_new_connection Lifecycle.accepted
visited-Reach =
    later
      (later (later here (starts true true refl))
        (accepts 8 (record { running = refl; threaded = refl; outstanding = omega arith })))
      (accepts 5 (record { running = refl; threaded = refl; outstanding = omega arith }))

Reach-Rising_example :
    (visited.server.client_id_counter ≤ 2)
    × Rising visited.server.session_ids visited.server.client_id_counter
unfolding visited-Reach
Reach-Rising_example =
    Reach-Rising (virtuals codec) (λ c. true) lobby.derived visited-Reach (virtuals-KeepsIds codec)
      (virtuals-AnswersKeepIds codec) (omega arith)
