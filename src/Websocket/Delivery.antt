-- ===== src/Websocket/Delivery.antt =====
-- Every step of the server keeps the handles, so that answers reach the connection they are for.
use janosh.Common.{ℕ, ◌≤◌}
use janosh.Result.{Result}
use janosh.Websocket.Auth.{Auth}
use janosh.Websocket.Handles.{HandlesFit}
use janosh.Websocket.Server.{Server}

record Sound (n : ℕ) (s : Server) : Type 0 where
  fits : HandlesFit s.auth
  few : s.auth.lua_handle_max ≤ n
