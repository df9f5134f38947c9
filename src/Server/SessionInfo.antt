-- ===== src/Server/SessionInfo.antt =====
-- server/session_info.hpp and server/session_info.cpp. A session is known by its address, as in
-- `Net/Server`; the null pointer is `none`.
use haraka_engine.Base.{ℕ, Bool, true, false, Option, none, some, []}
use haraka_engine.Base.Order.{Bytes}

pub data SessionStatus : Type 0 where
  disconnected logged_in : SessionStatus

pub record SessionInfo : Type 0 where
  pub status : SessionStatus
  pub username : Bytes
  pub token : Bytes
  pub session : Option ℕ

unfoldable pub create : Option ℕ → SessionInfo
create session = record { status = disconnected; username = []; token = []; session = session }

-- A reconnection that is a null pointer leaves the session as it is.
unfoldable pub reconnected : Option ℕ → Option ℕ → Option ℕ
reconnected session none = session
reconnected session (some c) = some c

unfoldable pub log : SessionInfo → Bytes → Bytes → Option ℕ → SessionInfo × Bool
log i username token reconnection = (
  record {
    status = logged_in;
    username = username;
    token = token;
    session = reconnected i.session reconnection;
  },
  true,
)

unfoldable pub is_logged : SessionStatus → Bool
is_logged logged_in = true
is_logged disconnected = false

unfoldable pub logged : SessionInfo → Bool
unfolding is_logged
logged i = is_logged i.status

unfoldable pub disconnect : SessionInfo → SessionInfo
disconnect i = record i { status = disconnected; session = none }
