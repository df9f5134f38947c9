-- ===== src/Net/Client/Reading.antt =====
-- A client while it runs: its session is its own, and what it reads has no remote.
use haraka_engine.Base.{
  ℕ, Bool-cases, inl, inr, Option, none, some, List, [], ◌∷◌, ◌++◌, ◌≡◌, refl, subst,
}
use haraka_engine.Util.Deque
use haraka_engine.Net.Session.{Packet}
use haraka_engine.Net.Server.{OwnedPacket}
use haraka_engine.Net.Link
use haraka_engine.Net.Link.{Link, OwnerType}
use haraka_engine.Net.Client.{
  Client, create, is_connected, close_session, stop_context, send, packet_read, Step, connects,
  closes_session, stops, sends, takes, connected, refused, receives, read_fails, closes, Reach,
  start, later,
}
use haraka_engine.Net.Client.Disconnected.{connect_cases, pop_front_queue}

-- The session is a client's.
abbrev pub IsOwn : Option Link → Type 0
IsOwn none = Unit
IsOwn (some l) = l.owner ≡ Link.client

disconnect-IsOwn :
    (session : Option Link)
    → IsOwn session
    → IsOwn (elim session [ none ↦ none | some l ↦ some (Link.disconnect l) ])
unfolding Link.disconnect
disconnect-IsOwn none h = tt
disconnect-IsOwn (some l) h = elim (Bool-cases l.is_open) [
  | inl up ↦ rw (up, Link.disconnect) h
  | inr down ↦ rw (down, Link.disconnect) h
]

module _ {E : Type 0} where
  abbrev pub NoRemotes : List (OwnedPacket E) → Type 0
  NoRemotes [] = Unit
  NoRemotes (m ∷ queue) = (m.remote ≡ none) × NoRemotes queue

  NoRemotes-snoc :
      (queue : List (OwnedPacket E)) (m : OwnedPacket E)
      → m.remote ≡ none
      → NoRemotes queue
      → NoRemotes (queue ++ m ∷ [])
  NoRemotes-snoc [] m e h = (e, tt)
  NoRemotes-snoc (n ∷ queue) m e h = (h.0, NoRemotes-snoc queue m e h.1)

  pub record IsReader (c : Client E) : Type 0 where
    pub own : IsOwn c.session
    pub unowned : NoRemotes c.input_queue.queue

  close_session-IsOwn : (c : Client E) → IsReader c → IsReader (close_session c)
  unfolding close_session
  close_session-IsOwn c h = elim (Bool-cases (is_connected c)) [
    | inl up ↦
        rw (up, close_session)
          (record { own = disconnect-IsOwn c.session h.own; unowned = h.unowned })
    | inr down ↦ rw (down, close_session) h
  ]

  remote-owned :
      (l : Link) (self : ℕ) (packet : Packet E)
      → l.owner ≡ Link.client
      → (Link.owned l.owner self packet).remote ≡ none
  unfolding Link.owned
  remote-owned l self packet e = rw e refl

  Step-IsReader : (c d : Client E) → IsReader c → Step c d → IsReader d
  unfolding stop_context send packet_read Link.create Link.connect_to_server Link.server_connected
      Link.connect_failed Link.read_failed Link.close_posted Link.read_header Deque.push_back
  Step-IsReader c d h (connects resolved opened threaded result q) =
      elim (connect_cases resolved opened threaded result c d q) [
        | inl same ↦ subst IsReader same h
        | inr (inl same) ↦ subst IsReader same (record { own = refl; unowned = h.unowned })
        | inr (inr same) ↦ subst IsReader same (record { own = refl; unowned = h.unowned })
      ]
  Step-IsReader c d h closes_session = close_session-IsOwn c h
  Step-IsReader c d h stops = record { own = tt; unowned = h.unowned }
  Step-IsReader c d h (sends msg) = elim (Bool-cases (is_connected c)) [
    | inl up ↦ rw (up, send) (record { own = h.own; unowned = h.unowned })
    | inr down ↦ rw (down, send) h
  ]
  Step-IsReader c d h (takes packet queue q) = record {
    own = h.own;
    unowned = (subst NoRemotes (pop_front_queue c.input_queue queue packet q) h.unowned).1;
  }
  Step-IsReader c d h (connected l _ s _) = record {
    own = subst IsOwn s h.own;
    unowned = h.unowned;
  }
  Step-IsReader c d h (refused l opened _ s _) = record {
    own = subst IsOwn s h.own;
    unowned = h.unowned;
  }
  Step-IsReader c d h (receives self l packet _ s _) =
      let own = subst IsOwn s h.own in
      record {
        own = own;
        unowned = NoRemotes-snoc c.input_queue.queue _ (remote-owned l self packet own) h.unowned;
      }
  Step-IsReader c d h (read_fails l _ s _) = record {
    own = subst IsOwn s h.own;
    unowned = h.unowned;
  }
  Step-IsReader c d h (closes l _ s _) = record { own = subst IsOwn s h.own; unowned = h.unowned }

  Reach-IsReader : (c : Client E) → Reach create c → IsReader c
  unfolding create
  Reach-IsReader c start = record { own = tt; unowned = tt }
  Reach-IsReader c (later {d} r step) = Step-IsReader d c (Reach-IsReader d r) step

  -- In every state that a new client reaches, no packet of its input queue has a remote.
  pub Reach-NoRemotes : {c : Client E} → Reach create c → NoRemotes c.input_queue.queue
  Reach-NoRemotes {c} r = (Reach-IsReader c r).unowned
