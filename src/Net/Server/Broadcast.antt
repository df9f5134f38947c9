-- ===== src/Net/Server/Broadcast.antt =====
-- What the loops of the server do to its sessions, its clients and its queue.
use haraka_engine.Base.{
  Result, ◌>>=◌, Result-cases, ℕ, zero, suc, ◌≡◌, refl, sym, ap, ◌∙◌, Bool, true, false, ◌||◌,
  Option, none, some, List, [], ◌∷◌, ◌++◌, append-nil, if◌then◌else◌, ok, Bool-cases, inl, inr,
  drop, take,
}
use mathlib.Core.List.{Memᴰ}
use mathlib.Core.List.Memᴰ.{head, tail}
use haraka_engine.Base.Map.Prefix.{snoc-append}
use haraka_engine.Util.Deque
use haraka_engine.Util.Deque.{Deque, deque}
use haraka_engine.Net.Session.{Packet}
use haraka_engine.Net.Server.{
  Server, Callbacks, Disconnection, OwnedPacket, remove_null, is_session, send, told, drop_client,
  message_client, visit_clients, message_all_clients, update,
}

module _ (connected : ℕ → Bool) where
  -- The sessions that are there and connected.
  abbrev pub live : List (Option ℕ) → List (Option ℕ)
  live [] = []
  live (none ∷ clients) = live clients
  live (some c ∷ clients) = if connected c then some c ∷ live clients else live clients

  -- The list with a null pointer for each session that is not connected.
  abbrev reset : List (Option ℕ) → List (Option ℕ)
  reset [] = []
  reset (none ∷ clients) = none ∷ reset clients
  reset (some c ∷ clients) = (if connected c then some c else none) ∷ reset clients

  abbrev has_dead : List (Option ℕ) → Bool
  has_dead [] = false
  has_dead (none ∷ clients) = true
  has_dead (some c ∷ clients) = if connected c then has_dead clients else true

  remove_null-reset : (clients : List (Option ℕ)) → remove_null (reset clients) ≡ live clients
  unfolding remove_null
  remove_null-reset [] = refl
  remove_null-reset (none ∷ clients) = remove_null-reset clients
  remove_null-reset (some c ∷ clients) = elim (Bool-cases (connected c)) [
    | inl e ↦ rw (e, remove_null) (ap (λ l. some c ∷ l) (remove_null-reset clients))
    | inr e ↦ rw (e, remove_null) (remove_null-reset clients)
  ]

  reset-live : (clients : List (Option ℕ)) → has_dead clients ≡ false → reset clients ≡ live clients
  reset-live [] h = refl
  reset-live (none ∷ clients) h = absurd (cc (h))
  reset-live (some c ∷ clients) h = elim (Bool-cases (connected c)) [
    | inl e ↦ rw e (ap (λ l. some c ∷ l) (reset-live clients (rw e at h)))
    | inr e ↦ absurd (cc (rw e at h))
  ]

  module _ {E : Type 0} (msg : Packet E) (exclude : Option ℕ) where
    -- What the sessions that are connected are sent, but for the one that is excluded.
    abbrev pub mail : List (Option ℕ) → List (ℕ × Packet E)
    mail [] = []
    mail (none ∷ clients) = mail clients
    mail (some c ∷ clients) =
        if connected c
        then (if is_session exclude c then mail clients else (c, msg) ∷ mail clients)
        else mail clients

  module _ {H : Type 0} (on_client_disconnect : Disconnection H) where
    -- The derived class hears of each entry that is null or not connected, in order.
    abbrev pub told_all : List (Option ℕ) → H → H
    told_all [] h = h
    told_all (none ∷ clients) h = told_all clients (on_client_disconnect h none)
    told_all (some c ∷ clients) h =
        if connected c
        then told_all clients h
        else told_all clients (on_client_disconnect h (some c))

or_false : (b : Bool) → (b || false) ≡ b
or_false true = refl
or_false false = refl

or_true : (b : Bool) → (b || true) ≡ true
or_true true = refl
or_true false = refl

some-remove_null :
    (c : ℕ) (clients : List (Option ℕ))
    → Memᴰ (some c) clients
    → Memᴰ (some c) (remove_null clients)
unfolding remove_null
some-remove_null c (some x ∷ clients) (head e) = head e
some-remove_null c (some x ∷ clients) (tail h) = tail (some-remove_null c clients h)
some-remove_null c [] h = elim h [ ]
some-remove_null c (none ∷ clients) (tail h) = some-remove_null c clients h
some-remove_null c (none ∷ clients) (head e) = absurd (cc (e))

kept :
    (connected : ℕ → Bool) (clients : List (Option ℕ))
    → (if has_dead connected clients
        then remove_null (reset connected clients)
        else reset connected clients)
      ≡ live connected clients
kept connected clients = elim (Bool-cases (has_dead connected clients)) [
  | inl e ↦ rw e (remove_null-reset connected clients)
  | inr e ↦ rw e (reset-live connected clients e)
]

module _ {E H : Type 0} (on_client_disconnect : Disconnection H) where
  module _ (msg : Packet E) (exclude : Option ℕ) where
    abbrev visited_all :
        List (Option ℕ) → List (Option ℕ) → Bool → Server E H → Server E H × List (Option ℕ) × Bool
    visited_all clients visited invalid s = (
      record s {
        outbox = s.outbox ++ mail s.connected msg exclude clients;
        derived = told_all s.connected on_client_disconnect clients s.derived;
      },
      visited ++ reset s.connected clients,
      invalid || has_dead s.connected clients,
    )

    abbrev outcome :
        Server E H
        → List (ℕ × Packet E)
        → H
        → List (Option ℕ)
        → Bool
        → Server E H × List (Option ℕ) × Bool
    outcome s outbox derived visited invalid =
        (record s { outbox = outbox; derived = derived }, visited, invalid)

    visit_clients_lem :
        (clients visited : List (Option ℕ)) (invalid : Bool) (s : Server E H)
        → visit_clients on_client_disconnect msg exclude clients visited invalid s
          ≡ visited_all clients visited invalid s
    unfolding visit_clients told send
    visit_clients_lem [] visited invalid s = λ i.
        outcome s (sym (append-nil s.outbox) i) s.derived (sym (append-nil visited) i)
          (sym (or_false invalid) i)
    visit_clients_lem (none ∷ clients) visited invalid s =
        visit_clients_lem clients (visited ++ none ∷ []) true (told on_client_disconnect s none)
        ∙ λ i.
            outcome s (s.outbox ++ mail s.connected msg exclude clients)
              (told_all s.connected on_client_disconnect clients
                (on_client_disconnect s.derived none))
              (sym (snoc-append visited none (reset s.connected clients)) i)
              (sym (or_true invalid) i)
    visit_clients_lem (some c ∷ clients) visited invalid s = elim (Bool-cases (s.connected c)) [
      | inl e ↦ elim (Bool-cases (is_session exclude c)) [
        | inl f ↦
            rw (e, f, visit_clients)
              (visit_clients_lem clients (visited ++ some c ∷ []) invalid s ∙ λ i.
                outcome s (s.outbox ++ mail s.connected msg exclude clients)
                  (told_all s.connected on_client_disconnect clients s.derived)
                  (sym (snoc-append visited (some c) (reset s.connected clients)) i)
                  (invalid || has_dead s.connected clients))
        | inr f ↦
            rw (e, f, visit_clients)
              (visit_clients_lem clients (visited ++ some c ∷ []) invalid (send s c msg) ∙ λ i.
                outcome s
                  (sym (snoc-append s.outbox (c, msg) (mail s.connected msg exclude clients)) i)
                  (told_all s.connected on_client_disconnect clients s.derived)
                  (sym (snoc-append visited (some c) (reset s.connected clients)) i)
                  (invalid || has_dead s.connected clients))
      ]
      | inr e ↦
          rw (e, visit_clients)
            (visit_clients_lem clients (visited ++ none ∷ []) true
                (told on_client_disconnect s (some c))
              ∙ λ i.
                  outcome s (s.outbox ++ mail s.connected msg exclude clients)
                    (told_all s.connected on_client_disconnect clients
                      (on_client_disconnect s.derived (some c)))
                    (sym (snoc-append visited none (reset s.connected clients)) i)
                    (sym (or_true invalid) i))
    ]

    -- For any list of sessions: `message_all_clients` keeps exactly the sessions that are there and
    -- connected, in order, sends the message to each of these but the excluded one, tells the
    -- derived class of each other entry, in order, and changes nothing else.
    pub message_all_clients_lem :
        (s : Server E H)
        → message_all_clients on_client_disconnect s msg exclude ≡ record s {
          sessions = live s.connected s.sessions;
          outbox = s.outbox ++ mail s.connected msg exclude s.sessions;
          derived = told_all s.connected on_client_disconnect s.sessions s.derived;
        }
    unfolding message_all_clients
    message_all_clients_lem s =
        rw (visit_clients_lem s.sessions [] false s, message_all_clients)
          (λ i. record s {
            sessions = kept s.connected s.sessions i;
            outbox = s.outbox ++ mail s.connected msg exclude s.sessions;
            derived = told_all s.connected on_client_disconnect s.sessions s.derived;
          })

  -- When `message_client` finds a session of the list disconnected, the list still has that session
  -- afterwards.
  pub message_client_keeps :
      (s : Server E H) (c : ℕ) (packet : Packet E)
      → s.connected c ≡ false
      → Memᴰ (some c) s.sessions
      → Memᴰ (some c) (message_client on_client_disconnect s (some c) packet).sessions
  unfolding message_client drop_client told
  message_client_keeps s c packet e h = rw (e, message_client) (some-remove_null c s.sessions h)

module _ {E H : Type 0} (virtuals : Callbacks E H) where
  -- The handler, for each message in turn.
  abbrev pub answered : List (OwnedPacket E) → Server E H → Result (Server E H)
  answered [] s = ok s
  answered (m ∷ queue) s = virtuals.on_message s m.remote m.packet >>= answered queue

  -- `update` with room for n messages answers the first n messages of the queue, or all where there
  -- are fewer, from the front, each with the state that the ones before it left; the others stay
  -- queued. Where the handler of a message ends in a fault, so does it.
  pub update_lem :
      (n : ℕ) (s : Server E H) (queue : List (OwnedPacket E))
      → update virtuals n s (deque queue)
        ≡ (answered (take n queue) s >>= λ t. ok (t, deque (drop n queue)))
  unfolding update Deque.empty Deque.is_empty Deque.pop_front Deque.pop_front_of
  update_lem zero s queue = refl
  update_lem (suc n) s [] = refl
  update_lem (suc n) s (m ∷ queue) = elim (Result-cases (virtuals.on_message s m.remote m.packet)) [
    | inl (t, e) ↦ rw (e, update) (update_lem n t queue)
    | inr (x, e) ↦ rw (e, update) refl
  ]
