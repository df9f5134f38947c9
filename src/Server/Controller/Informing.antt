-- ===== src/Server/Controller/Informing.antt =====
-- `_message_all_clients`, whose loop changes the list that it runs over.
use haraka_engine.Base.{
  ℕ, ◌+◌, ◌≡◌, refl, sym, ap, ◌∙◌, subst, true, Bool-cases, inl, inr, Option, none, some, List, [],
  ◌∷◌, ◌++◌, append-nil, map, length, length-append, get_elem?, if◌then◌else◌, arith,
}
use haraka_engine.Base.Map.Prefix.{snoc-append}
use haraka_engine.Net.Session.{Packet}
use haraka_engine.Net.Server
use haraka_engine.Net.Server.{remove_null}
use haraka_engine.Server.SessionInfo
use haraka_engine.Server.SessionInfo.{SessionInfo}
use haraka_engine.Server.Controller.{
  PacketType, ServerController, same_pointer, find_session, disconnect_session,
  on_client_disconnect, visit_logged, message_all_logged,
}
use haraka_engine.Server.Controller.Sessions.{
  IsLog, has_session, Fresh-same, same_pointer_self, disconnect_session-IsLog,
}

-- An entry between others is found by its session.
find_session-here :
    (pre rest : List SessionInfo) (i : SessionInfo) (c : ℕ)
    → same_pointer i.session (some c) ≡ true
    → find_session (pre ++ i ∷ rest) (some c) ≡ none
    → ⊥
unfolding find_session
find_session-here [] rest i c e h = absurd (cc (rw (e, find_session) at h))
find_session-here (j ∷ pre) rest i c e h = elim (Bool-cases (same_pointer j.session (some c))) [
  | inl f ↦ absurd (cc (rw (f, find_session) at h))
  | inr f ↦ find_session-here pre rest i c e (rw (f, find_session) at h)
]

find_session-before :
    (pre rest : List SessionInfo) (i : SessionInfo) (c : ℕ)
    → same_pointer i.session (some c) ≡ true
    → IsLog (pre ++ i ∷ rest)
    → find_session pre (some c) ≡ none
unfolding find_session
find_session-before [] rest i c e h = refl
find_session-before (j ∷ pre) rest i c e h = elim (Bool-cases (same_pointer j.session (some c))) [
  | inl f ↦
      absurd (find_session-here pre rest i c e (Fresh-same j.session c (pre ++ i ∷ rest) f h.1))
  | inr f ↦ rw (f, find_session) (find_session-before pre rest i c e h.2)
]

disconnect_session-here :
    (pre rest : List SessionInfo) (i : SessionInfo) (c : ℕ)
    → same_pointer i.session (some c) ≡ true
    → find_session pre (some c) ≡ none
    → disconnect_session (pre ++ i ∷ rest) (some c) ≡ pre ++ SessionInfo.disconnect i ∷ rest
unfolding disconnect_session find_session
disconnect_session-here [] rest i c e h = rw (e, disconnect_session)
disconnect_session-here (j ∷ pre) rest i c e h =
    elim (Bool-cases (same_pointer j.session (some c))) [
      | inl f ↦ absurd (cc (rw (f, find_session) at h))
      | inr f ↦
          rw (f, disconnect_session)
            (ap (λ l. j ∷ l) (disconnect_session-here pre rest i c e (rw (f, find_session) at h)))
    ]

IsLog-here :
    (pre rest : List SessionInfo) (i : SessionInfo)
    → IsLog (pre ++ i ∷ rest)
    → SessionInfo.logged i ≡ has_session i.session
unfolding SessionInfo.logged
IsLog-here [] rest i h = h.0
IsLog-here (j ∷ pre) rest i h = IsLog-here pre rest i h.2

get_elem-here :
    (pre rest : List SessionInfo) (i : SessionInfo)
    → get_elem? (pre ++ i ∷ rest) (length pre) ≡ some i
get_elem-here [] rest i = refl
get_elem-here (j ∷ pre) rest i = get_elem-here pre rest i

length-snoc : (pre : List SessionInfo) (i : SessionInfo) → length (pre ++ i ∷ []) ≡ length pre + 1
length-snoc pre i = omega (arith, length-append pre (i ∷ []))

module _ {F : Type 0} (packet : Packet PacketType) (s : ServerController F) where
  -- What becomes of each entry, and what each is sent.
  abbrev pub settled : SessionInfo → SessionInfo
  settled i = elim i.session [
    | none ↦ i
    | some c ↦ if s.connected c then i else SessionInfo.disconnect i
  ]

  abbrev pub logged_mail : List SessionInfo → List (ℕ × Packet PacketType)
  logged_mail [] = []
  logged_mail (i ∷ infos) = elim i.session [
    | none ↦ logged_mail infos
    | some c ↦ if s.connected c then (c, packet) ∷ logged_mail infos else logged_mail infos
  ]

  -- The null pointers go when a client is found disconnected.
  abbrev pub swept : List SessionInfo → List (Option ℕ) → List (Option ℕ)
  swept [] sessions = sessions
  swept (i ∷ infos) sessions = elim i.session [
    | none ↦ swept infos sessions
    | some c ↦ if s.connected c then swept infos sessions else swept infos (remove_null sessions)
  ]

  abbrev state :
      List (Option ℕ) → List (ℕ × Packet PacketType) → List SessionInfo → ServerController F
  state sessions outbox infos = record s {
    sessions = sessions;
    outbox = outbox;
    derived = record s.derived { session_info = infos };
  }

  abbrev AfterEntry :
      List SessionInfo
      → List SessionInfo
      → SessionInfo
      → List (Option ℕ)
      → List (ℕ × Packet PacketType)
      → Type 0
  AfterEntry pre rest i sessions outbox =
      visit_logged packet (state sessions outbox (pre ++ i ∷ rest)) (length pre + 1) (length rest)
      ≡ state (swept rest sessions) (outbox ++ logged_mail rest) (pre ++ i ∷ map settled rest)

  abbrev Visited :
      List SessionInfo → List SessionInfo → List (Option ℕ) → List (ℕ × Packet PacketType) → Type 0
  Visited pre rest sessions outbox =
      visit_logged packet (state sessions outbox (pre ++ rest)) (length pre) (length rest)
      ≡ state (swept rest sessions) (outbox ++ logged_mail rest) (pre ++ map settled rest)

  after_snoc :
      (pre rest : List SessionInfo) (j : SessionInfo) (sessions : List (Option ℕ))
      (outbox : List (ℕ × Packet PacketType))
      → (IsLog ((pre ++ j ∷ []) ++ rest) → Visited (pre ++ j ∷ []) rest sessions outbox)
      → IsLog (pre ++ j ∷ rest)
      → AfterEntry pre rest j sessions outbox
  after_snoc pre rest j sessions outbox visit l =
      rw (sym (length-snoc pre j), snoc-append pre j rest, snoc-append pre j (map settled rest))
        (visit (rw (sym (snoc-append pre j rest)) l))

  abbrev with_session : SessionInfo → Option ℕ → SessionInfo
  with_session i session = record i { session = session }

  visit_entry :
      (pre rest : List SessionInfo) (i : SessionInfo) (session : Option ℕ)
      (sessions : List (Option ℕ)) (outbox : List (ℕ × Packet PacketType))
      → ((j : SessionInfo) (sessions' : List (Option ℕ)) (outbox' : List (ℕ × Packet PacketType))
          → IsLog (pre ++ j ∷ rest)
          → AfterEntry pre rest j sessions' outbox')
      → IsLog (pre ++ with_session i session ∷ rest)
      → Visited pre (with_session i session ∷ rest) sessions outbox
  unfolding visit_logged Server.message_client Server.send Server.drop_client Server.told
      on_client_disconnect SessionInfo.disconnect
  visit_entry pre rest i none sessions outbox visit h =
      let j = with_session i none in
      rw (get_elem-here pre rest j, IsLog-here pre rest j h, visit_logged)
        (visit j sessions outbox h)
  visit_entry pre rest i (some c) sessions outbox visit h =
      let j = with_session i (some c) in
      elim (Bool-cases (s.connected c)) [
        | inl up ↦
            rw
              (
                get_elem-here pre rest j,
                IsLog-here pre rest j h,
                up,
                visit_logged,
                Server.message_client,
              )
              (visit j sessions (outbox ++ (c, packet) ∷ []) h
                ∙ ap (λ o. state (swept rest sessions) o (pre ++ j ∷ map settled rest))
                    (sym (snoc-append outbox (c, packet) (logged_mail rest))))
        | inr down ↦
            let m = same_pointer_self c in
            let here =
              disconnect_session-here pre rest j c m (find_session-before pre rest j c m h) in
            rw
              (
                get_elem-here pre rest j,
                IsLog-here pre rest j h,
                down,
                visit_logged,
                Server.message_client,
                here,
              )
              (visit (SessionInfo.disconnect j) (remove_null sessions) outbox
                (subst IsLog here (disconnect_session-IsLog _ (some c) h)))
      ]

  visit_logged_lem :
      (rest pre : List SessionInfo) (sessions : List (Option ℕ))
      (outbox : List (ℕ × Packet PacketType))
      → IsLog (pre ++ rest)
      → Visited pre rest sessions outbox
  unfolding visit_logged
  visit_logged_lem [] pre sessions outbox h =
      ap (λ o. state sessions o (pre ++ [])) (sym (append-nil outbox))
  visit_logged_lem (i ∷ rest) pre sessions outbox h =
      visit_entry pre rest i i.session sessions outbox
        (λ j sessions' outbox' l.
          after_snoc pre rest j sessions' outbox'
            (visit_logged_lem rest (pre ++ j ∷ []) sessions' outbox') l)
        h

  -- With at most one entry for a session, each logged in exactly while it has its session:
  -- `_message_all_clients` sends the packet once to each entry whose session is connected, in
  -- order, whatever session is to be excluded, disconnects the other entries that have a session,
  -- in place, removes the null pointers from the sessions if there was such an entry, and changes
  -- nothing else.
  pub message_all_logged_lem :
      (exclude : Option ℕ)
      → IsLog s.derived.session_info
      → message_all_logged s packet exclude ≡ record s {
        sessions = swept s.derived.session_info s.sessions;
        outbox = s.outbox ++ logged_mail s.derived.session_info;
        derived = record s.derived { session_info = map settled s.derived.session_info };
      }
  unfolding message_all_logged
  message_all_logged_lem exclude h =
      visit_logged_lem s.derived.session_info [] s.sessions s.outbox h
