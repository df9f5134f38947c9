-- ===== src/Client/Controller.antt =====
-- client/client_controller.hpp and client/client_controller.cpp: `ClientController`, which has a client
-- and connects it.
use haraka_engine.Base.{
  ◌≡◌, refl, sym, ap, ◌∙◌, subst, Bool, true, false, inl, inr, some, Result, ok, err, terminated,
  ◌>>=◌, >>=-eq-ok,
}
use haraka_engine.Net.Link
use haraka_engine.Net.Client
use haraka_engine.Net.Client.{
  Client, connects, closes_session, stops, sends, takes, connected, refused, receives, read_fails,
  closes, packet_read,
}
use haraka_engine.Net.Client.Disconnected.{connect_cases}
use haraka_engine.Server.SessionInfo.{SessionStatus, disconnected}
use haraka_engine.Server.Controller.{PacketType}

pub record ClientController : Type 0 where
  pub status : SessionStatus
  pub client : Client PacketType

unfoldable pub create : ClientController
create = record { status = disconnected; client = Client.create }

-- `resolved`, `opened` and `threaded` are those of the client's `connect`.
unfoldable pub connect : Bool → Bool → Bool → ClientController → Result (ClientController × Bool)
connect resolved opened threaded c = do
  success ← Client.connect resolved opened threaded c.client
  ok (record c { client = success.0 }, success.1)

-- The steps of a client that are handlers which its context runs.
abbrev pub IsHandler : {c d : Client PacketType} → Client.Step c d → Type 0
IsHandler (connects resolved opened threaded result e) = ⊥
IsHandler closes_session = ⊥
IsHandler stops = ⊥
IsHandler (sends msg) = ⊥
IsHandler (takes packet queue e) = ⊥
IsHandler _ = Unit

-- What happens to a controller: a call of its one member, and the handlers of its client.
pub data Step (c : ClientController) : ClientController → Type 0 where
  tries :
      {d : ClientController} (resolved opened threaded result : Bool)
      → connect resolved opened threaded c ≡ ok (d, result)
      → Step c d
  handles :
      {d : Client PacketType} (step : Client.Step c.client d)
      → IsHandler step
      → Step c (record c { client = d })

pub data Reach (c : ClientController) : ClientController → Type 0 where
  here : Reach c c
  later : {d e : ClientController} → Reach c d → Step d e → Reach c e

-- A client that has its thread.
abbrev HasThread : ClientController → Type 0
HasThread c = c.client.joinable ≡ true

client_of_connect :
    (resolved opened threaded result : Bool) (c d : ClientController)
    → connect resolved opened threaded c ≡ ok (d, result)
    → (Client.connect resolved opened threaded c.client ≡ ok (d.client, result))
      × (d.status ≡ c.status)
unfolding connect
client_of_connect resolved opened threaded result c d e =
    let (r, made, same) = >>=-eq-ok (Client.connect resolved opened threaded c.client) _ e in
    let k : ClientController = record c { client = r.0 } in
    let at : k ≡ d = cc in
    let flag : r.1 ≡ result = cc in
    (made ∙ λ i. ok ((ap (λ x. x.client) at) i, flag i), sym (ap (λ x. x.status) at))

handler-HasThread :
    {c d : Client PacketType} (step : Client.Step c d)
    → IsHandler step
    → c.joinable ≡ true
    → d.joinable ≡ true
unfolding packet_read
handler-HasThread (connects resolved opened threaded result e) not_one h = absurd not_one
handler-HasThread closes_session not_one h = absurd not_one
handler-HasThread stops not_one h = absurd not_one
handler-HasThread (sends msg) not_one h = absurd not_one
handler-HasThread (takes packet queue e) not_one h = absurd not_one
handler-HasThread (connected l s at c) _ h = h
handler-HasThread (refused l opened s at c) _ h = h
handler-HasThread (receives self l packet s at r) _ h = h
handler-HasThread (read_fails l s at r) _ h = h
handler-HasThread (closes l s at p) _ h = h

connect-HasThread :
    (resolved opened threaded result : Bool) (c d : ClientController)
    → connect resolved opened threaded c ≡ ok (d, result)
    → HasThread c
    → HasThread d
connect-HasThread resolved opened threaded result c d e h =
    elim (connect_cases resolved opened threaded result c.client d.client
      (client_of_connect resolved opened threaded result c d e).0) [
        | inl same ↦ subst (λ k. k.joinable ≡ true) same h
        | inr (inl same) ↦ subst (λ k. k.joinable ≡ true) same h
        | inr (inr same) ↦ subst (λ k. k.joinable ≡ true) same refl
      ]

Reach-HasThread : {c d : ClientController} → Reach c d → HasThread c → HasThread d
Reach-HasThread here h = h
Reach-HasThread (later {d} {e} r (tries resolved opened threaded result q)) h =
    connect-HasThread resolved opened threaded result d e q (Reach-HasThread r h)
Reach-HasThread (later r (handles step is)) h = handler-HasThread step is (Reach-HasThread r h)

Reach-status : {c d : ClientController} → Reach c d → d.status ≡ c.status
Reach-status here = refl
Reach-status (later {d} {e} r (tries resolved opened threaded result q)) =
    (client_of_connect resolved opened threaded result d e q).1 ∙ Reach-status r
Reach-status (later r (handles step is)) = Reach-status r

-- A controller whose client has a session that connects, and its thread.
abbrev pub connecting : Bool → ClientController → ClientController
connecting opened c = record c {
  client = record c.client {
    session = some (Link.connect_to_server opened (Link.create Link.client false));
    joinable = true;
  };
}

-- On a controller whose client has no thread, `connect` with a host that resolves returns true
-- where the system makes the thread; after that, whatever handlers run and calls of `connect`
-- return, another `connect` with a host that resolves, and a thread that is made, ends in
-- `std::terminate`, and the status is as it was before the first one.
pub connect_again :
    (opened again : Bool) (c d : ClientController)
    → c.client.joinable ≡ false
    → Reach (connecting opened c) d
    → (connect true opened true c ≡ ok (connecting opened c, true))
      × (connect true again true d ≡ err terminated)
      × (d.status ≡ c.status)
unfolding connect Client.connect
connect_again opened again c d free r = (
  rw (free, Client.connect) refl,
  rw (Reach-HasThread r refl, Client.connect) refl,
  Reach-status r,
)
