-- ===== src/Net/Examples/Waiting.antt =====
-- The theorem on a server that waits, used on one to which a packet comes meanwhile.
use haraka_engine.Base.{Bool, false, refl, some, [], ◌∷◌, ok}
use haraka_engine.Util.Deque
use haraka_engine.Util.Deque.{deque}
use haraka_engine.Util.Deque.Wait.{State, Reach, returned, start, later, push, notify, test_filled}
use haraka_engine.Net.Examples.{clerk, club, farewell}
use haraka_engine.Net.Server
use haraka_engine.Net.Server.{OwnedPacket}
use haraka_engine.Net.Server.Waiting.{Updates, IsAnswering, Updates-IsAnswering}

abbrev letter : OwnedPacket Bool
letter = record { remote = some 1; packet = farewell }

abbrev served : State (OwnedPacket Bool)
served = record { queue = deque (letter ∷ []); waiter = returned; notifying = false }

-- The packet is pushed before the queue is tested.
served-Reach : Reach (deque []) served
unfolding Deque.push_back Deque.empty
served-Reach =
    later (later (later start (push letter refl)) (notify refl)) (test_filled refl refl refl)

club-Updates : Updates clerk 3 club (deque []) (ok (club, deque []))
unfolding Server.update Deque.empty Deque.is_empty Deque.pop_front Deque.pop_front_of
club-Updates = record { waited = served; waits = served-Reach; back = refl; loop = refl }

Updates-IsAnswering_example : IsAnswering clerk 2 club (deque (letter ∷ [])) (ok (club, deque []))
unfolding club-Updates
Updates-IsAnswering_example =
    Updates-IsAnswering clerk 2 club (deque []) (ok (club, deque [])) club-Updates
