-- ===== src/Websocket/Logout.antt =====
-- Sessions over the steps of the server's threads, and that they can be ended.
use janosh.Common.{◌≡◌, false}
use janosh.Result.{Result}
use janosh.Websocket.Auth.{Auth, Crypto, has_connection_handle}
use janosh.Websocket.Server.{Server}
use janosh.Websocket.Steps.{Step, accepts}

-- No registration is accepted for a connection that has a session.
abbrev pub Orderly : {crypto : Crypto} {s t : Server} → Step crypto s t → Type 0
Orderly {s = s} (accepts h username password user_data key drawn) =
    has_connection_handle h s.auth ≡ false
Orderly _ = Unit {0}

pub data Run (crypto : Crypto) (first : Server) : Server → Type 0 where
  start : Run crypto first first
  next :
      {s t : Server}
      → Run crypto first s
      → (step : Step crypto s t) → Orderly step
      → Run crypto first t
