-- ===== src/Net/Server/Ids.antt =====
-- The ids that the handler of `async_accept` gives to the sessions.
use haraka_engine.Base.{
  Option, some, none, refl, ℕ, ◌+◌, ◌%◌, ◌^◌, ◌<◌, ◌≤◌, ◌≡◌, subst, Bool-cases, inl, inr, List, [],
  ◌∷◌, ◌++◌, length, if◌then◌else◌, arith,
}
use haraka_engine.Net.Session.{Packet}
use haraka_engine.Net.Server.{
  Server, Callbacks, Disconnection, accept_session, message_client, drop_client, told, send,
}

-- Each id lies above this one.
abbrev pub AllAbove : ℕ → List (ℕ × ℕ) → Type 0
AllAbove i [] = Unit
AllAbove i ((c, j) ∷ ids) = (i < j) × AllAbove i ids

-- The ids rise, and lie below the bound.
abbrev pub Rising : List (ℕ × ℕ) → ℕ → Type 0
Rising [] bound = Unit
Rising ((c, i) ∷ ids) bound = (i < bound) × AllAbove i ids × Rising ids bound

AllAbove-snoc :
    (i c j : ℕ) (ids : List (ℕ × ℕ)) → i < j → AllAbove i ids → AllAbove i (ids ++ (c, j) ∷ [])
AllAbove-snoc i c j [] h a = (h, tt)
AllAbove-snoc i c j ((d, k) ∷ ids) h a = (a.0, AllAbove-snoc i c j ids h a.1)

Rising-snoc :
    (c bound : ℕ) (ids : List (ℕ × ℕ))
    → Rising ids bound
    → Rising (ids ++ (c, bound) ∷ []) (bound + 1)
Rising-snoc c bound [] r = (omega arith, tt, tt)
Rising-snoc c bound ((d, i) ∷ ids) r =
    (omega (arith, r.0), AllAbove-snoc i c bound ids r.0 r.1, Rising-snoc c bound ids r.2)

Rising-mono : (bound : ℕ) (ids : List (ℕ × ℕ)) → Rising ids bound → Rising ids (bound + 1)
Rising-mono bound [] r = tt
Rising-mono bound ((d, i) ∷ ids) r = (omega (arith, r.0), r.1, Rising-mono bound ids r.2)

module _ {E H : Type 0} where
  -- The servers that agree in the ids and the counter.
  abbrev pub SameIds : Server E H → Server E H → Type 0
  SameIds s t = (t.session_ids ≡ s.session_ids) × (t.client_id_counter ≡ s.client_id_counter)

  pub message_client-SameIds :
      (on_client_disconnect : Disconnection H) (s : Server E H) (client : Option ℕ)
      (packet : Packet E)
      → SameIds s (message_client on_client_disconnect s client packet)
  unfolding message_client drop_client told send
  message_client-SameIds on_client_disconnect s none packet = (refl, refl)
  message_client-SameIds on_client_disconnect s (some c) packet =
      elim (Bool-cases (s.connected c)) [
        | inl up ↦ rw (up, message_client) (refl, refl)
        | inr down ↦ rw (down, message_client) (refl, refl)
      ]

module _ {E H : Type 0} (virtuals : Callbacks E H) where
  -- What the handler of a connection leaves as it is.
  pub record KeepsIds : Type 0 where
    pub ids :
        (s : Server E H) (c : ℕ) → (virtuals.on_client_connect s c).0.session_ids ≡ s.session_ids
    pub counter :
        (s : Server E H) (c : ℕ)
        → (virtuals.on_client_connect s c).0.client_id_counter ≡ s.client_id_counter

  -- The sessions that come, one after the other.
  unfoldable pub accept_all : List ℕ → Server E H → Server E H
  accept_all [] s = s
  accept_all (c ∷ cs) s = accept_all cs (accept_session virtuals s c)

  abbrev pub IsNumbered : Server E H → ℕ → Type 0
  IsNumbered s n = (s.client_id_counter ≤ n) × Rising s.session_ids s.client_id_counter

  next_id : (n bound : ℕ) → n ≤ bound → bound + 1 < 2 ^ 32 → (n + 1) % 2 ^ 32 ≡ n + 1
  next_id n bound below small = omega (arith, below, small)

  -- The counter and the ids behind a session that was approved.
  numbered-IsNumbered :
      (s : Server E H) (c n : ℕ)
      → n + 1 < 2 ^ 32
      → IsNumbered s n
      → ((s.client_id_counter + 1) % 2 ^ 32 ≤ n + 1)
        × Rising
            (if s.connected c
              then s.session_ids ++ (c, s.client_id_counter) ∷ []
              else s.session_ids)
            ((s.client_id_counter + 1) % 2 ^ 32)
  numbered-IsNumbered s c n small h = rw (next_id s.client_id_counter n h.0 small) (
    omega (arith, h.0),
    elim (Bool-cases (s.connected c)) [
      | inl up ↦ rw up (Rising-snoc c s.client_id_counter s.session_ids h.1)
      | inr down ↦ rw down (Rising-mono s.client_id_counter s.session_ids h.1)
    ],
  )

  pub accept_session-IsNumbered :
      (s : Server E H) (c n : ℕ)
      → KeepsIds
      → n + 1 < 2 ^ 32
      → IsNumbered s n
      → IsNumbered (accept_session virtuals s c) (n + 1)
  unfolding accept_session
  accept_session-IsNumbered s c n keeps small h =
      let s' = (virtuals.on_client_connect s c).0 in
      let l : IsNumbered s' n = rw (keeps.counter s c, keeps.ids s c) h in
      elim (Bool-cases (virtuals.on_client_connect s c).1) [
        | inl approved ↦ rw (approved, accept_session) (numbered-IsNumbered s' c n small l)
        | inr denied ↦ rw (denied, accept_session) (omega (arith, l.0), l.1)
      ]

  accept_all-IsNumbered :
      (cs : List ℕ) (s : Server E H) (n : ℕ)
      → KeepsIds
      → n + length cs < 2 ^ 32
      → IsNumbered s n
      → IsNumbered (accept_all cs s) (n + length cs)
  unfolding accept_all
  accept_all-IsNumbered [] s n keeps small h = subst (λ m. IsNumbered s m) (omega arith) h
  accept_all-IsNumbered (c ∷ cs) s n keeps small h =
      let t = accept_session virtuals s c in
      let k = accept_session-IsNumbered s c n keeps (omega (arith, small)) h in
      subst (λ m. IsNumbered (accept_all cs t) m) (omega arith)
        (accept_all-IsNumbered cs t (n + 1) keeps (omega (arith, small)) k)

  -- With a handler of connections that leaves ids and counter alone: from a server whose counter is
  -- 0 and that has given no id, the ids given to fewer than 2 ^ 32 sessions that come, approved and
  -- connected or not, rise strictly and lie below the counter, which is at most the number of the
  -- sessions.
  pub accept_all-Rising :
      (cs : List ℕ) (s : Server E H)
      → KeepsIds
      → s.client_id_counter ≡ 0
      → s.session_ids ≡ []
      → length cs < 2 ^ 32
      → ((accept_all cs s).client_id_counter ≤ length cs)
        × Rising (accept_all cs s).session_ids (accept_all cs s).client_id_counter
  accept_all-Rising cs s keeps e f small =
      let numbered =
        accept_all-IsNumbered cs s 0 keeps (omega (arith, small)) (rw (e, f) (omega arith, tt)) in
      (omega (arith, numbered.0), numbered.1)
