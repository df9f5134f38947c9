-- ===== src/Server/Controller/Sessions.antt =====
-- The sessions' information: what a list of it has to be, and the searches in it.
use haraka_engine.Base.{
  ℕ, ◌≡◌, refl, subst, Bool, true, false, Bool-cases, inl, inr, Option, none, some, List, [], ◌∷◌,
  ◌++◌, arith,
}
use haraka_engine.Server.SessionInfo
use haraka_engine.Server.SessionInfo.{SessionInfo, is_logged}
use haraka_engine.Server.Controller.{same_pointer, find_session, disconnect_session}

abbrev pub has_session : Option ℕ → Bool
has_session none = false
has_session (some c) = true

-- No entry has the session of this one.
abbrev pub Fresh : Option ℕ → List SessionInfo → Type 0
Fresh none infos = Unit
Fresh (some c) infos = find_session infos (some c) ≡ none

abbrev pub IsLog : List SessionInfo → Type 0
IsLog [] = Unit
IsLog (i ∷ infos) =
    (is_logged i.status ≡ has_session i.session) × Fresh i.session infos × IsLog infos

same_pointer_same : (a b : ℕ) → same_pointer (some a) (some b) ≡ true → a ≡ b
unfolding same_pointer
same_pointer_same a b h = ground (arith, h)

pub same_pointer_self : (a : ℕ) → same_pointer (some a) (some a) ≡ true
unfolding same_pointer
same_pointer_self a = ground arith

-- An entry with a session is not found by another pointer once it is disconnected.
pub disconnect_session_absent :
    (infos : List SessionInfo) (client : Option ℕ) (c : ℕ)
    → find_session infos (some c) ≡ none
    → find_session (disconnect_session infos client) (some c) ≡ none
unfolding find_session disconnect_session SessionInfo.disconnect same_pointer
disconnect_session_absent [] client c h = refl
disconnect_session_absent (i ∷ infos) client c h =
    elim (Bool-cases (same_pointer i.session (some c))) [
      | inl e ↦ absurd (cc (rw (e, find_session) at h))
      | inr e ↦ elim (Bool-cases (same_pointer i.session client)) [
        | inl f ↦ rw (f, disconnect_session, find_session, same_pointer) (rw (e, find_session) at h)
        | inr f ↦
            rw (f, disconnect_session, find_session, e)
              (disconnect_session_absent infos client c (rw (e, find_session) at h))
      ]
    ]

disconnect_session-Fresh :
    (session client : Option ℕ) (infos : List SessionInfo)
    → Fresh session infos
    → Fresh session (disconnect_session infos client)
disconnect_session-Fresh none client infos h = tt
disconnect_session-Fresh (some c) client infos h = disconnect_session_absent infos client c h

pub disconnect_session-IsLog :
    (infos : List SessionInfo) (client : Option ℕ)
    → IsLog infos
    → IsLog (disconnect_session infos client)
unfolding disconnect_session SessionInfo.disconnect is_logged
disconnect_session-IsLog [] client h = tt
disconnect_session-IsLog (i ∷ infos) client h = elim (Bool-cases (same_pointer i.session client)) [
  | inl f ↦ rw (f, disconnect_session) (refl, tt, h.2)
  | inr f ↦
      rw (f, disconnect_session)
        (
          h.0,
          disconnect_session-Fresh i.session client infos h.1,
          disconnect_session-IsLog infos client h.2,
        )
]

pub Fresh-same :
    (session : Option ℕ) (c : ℕ) (infos : List SessionInfo)
    → same_pointer session (some c) ≡ true
    → Fresh session infos
    → find_session infos (some c) ≡ none
unfolding same_pointer
Fresh-same none c infos e h = absurd (cc)
Fresh-same (some a) c infos e h =
    subst (λ b. find_session infos (some b) ≡ none) (same_pointer_same a c e) h

-- A client that is disconnected is not found any more.
pub find_session-disconnect_session :
    (infos : List SessionInfo) (c : ℕ)
    → IsLog infos
    → find_session (disconnect_session infos (some c)) (some c) ≡ none
unfolding find_session disconnect_session SessionInfo.disconnect same_pointer
find_session-disconnect_session [] c h = refl
find_session-disconnect_session (i ∷ infos) c h =
    elim (Bool-cases (same_pointer i.session (some c))) [
      | inl e ↦
          rw (e, disconnect_session, find_session, same_pointer)
            (Fresh-same i.session c infos e h.1)
      | inr e ↦
          rw (e, disconnect_session, find_session, e) (find_session-disconnect_session infos c h.2)
    ]

find_session-snoc :
    (infos : List SessionInfo) (i : SessionInfo) (client : Option ℕ)
    → find_session infos client ≡ none
    → same_pointer i.session client ≡ false
    → find_session (infos ++ i ∷ []) client ≡ none
unfolding find_session
find_session-snoc [] i client h e = rw (e, find_session) refl
find_session-snoc (j ∷ infos) i client h e = elim (Bool-cases (same_pointer j.session client)) [
  | inl f ↦ absurd (cc (rw (f, find_session) at h))
  | inr f ↦ rw (f, find_session) (find_session-snoc infos i client (rw (f, find_session) at h) e)
]

absent-Fresh :
    (session : Option ℕ) (infos : List SessionInfo)
    → find_session infos session ≡ none
    → Fresh session infos
absent-Fresh none infos h = tt
absent-Fresh (some a) infos h = h

same_pointer_sym : (a b : Option ℕ) → same_pointer a b ≡ false → same_pointer b a ≡ false
unfolding same_pointer
same_pointer_sym none none h = h
same_pointer_sym none (some b) h = refl
same_pointer_sym (some a) none h = refl
same_pointer_sym (some a) (some b) h = ground (arith, h)

Fresh-snoc :
    (session : Option ℕ) (infos : List SessionInfo) (i : SessionInfo)
    → Fresh session infos
    → same_pointer i.session session ≡ false
    → Fresh session (infos ++ i ∷ [])
Fresh-snoc none infos i h e = tt
Fresh-snoc (some a) infos i h e = find_session-snoc infos i (some a) h e

-- An entry that is logged in, for a client that has none, goes to the end.
pub snoc-IsLog :
    (infos : List SessionInfo) (i : SessionInfo)
    → is_logged i.status ≡ has_session i.session
    → find_session infos i.session ≡ none
    → IsLog infos
    → IsLog (infos ++ i ∷ [])
unfolding find_session
snoc-IsLog [] i e f h = (e, absent-Fresh i.session [] refl, tt)
snoc-IsLog (j ∷ infos) i e f h = elim (Bool-cases (same_pointer j.session i.session)) [
  | inl m ↦ absurd (cc (rw (m, find_session) at f))
  | inr m ↦ (
    h.0,
    Fresh-snoc j.session infos i h.1 (same_pointer_sym j.session i.session m),
    snoc-IsLog infos i e (rw (m, find_session) at f) h.2,
  )
]
