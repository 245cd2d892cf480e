-- ===== src/Websocket/Server.antt =====
-- `WebsocketServer`: its callbacks, its loop over actions, and what Lua threads call. A queue is the
-- list of its items, oldest first. `sent` has the texts that were sent to single connections, with the
-- connection. Where a message has to wait for `receiveLimit`, the thread of the callbacks waits.
use janosh.Common.{
  getlines, ℕ, Bool, true, false, not, List, [], ◌∷◌, ◌++◌, Bytes, codes, ◌==◌, ◌&&◌, ◌||◌,
  bytes_eq, contains, if◌then◌else◌,
}
use janosh.Result.{Result, ok, err, undefined_behaviour}
use janosh.Exec.{Exec, ◌>>=◌}
use janosh.Websocket.Auth.{
  Auth, Crypto, has_username, has_session, has_connection_handle, remap_session, create_session,
  create_user, destroy_session, get_user_data, get_user_name, get_handles, get_lua_handle,
  get_connection_handle, create_lua_handle, destroy_lua_handle,
}

-- `enum action_type`
pub data ActionType : Type 0 where
  subscribe unsubscribe message broadcast_all : ActionType

pub record Action : Type 0 where
  pub type : ActionType
  pub hdl : ℕ
  pub msg : Bytes

-- `RegisterMessage`
pub record Registration : Type 0 where
  pub connection : ℕ
  pub username : Bytes
  pub password : Bytes
  pub user_data : Bytes

-- What the thread of the callbacks does: nothing, or `on_message` from its call of `wait` on, before
-- and after it has the permit.
pub data Hub : Type 0 where
  idle : Hub
  waiting permitted : ℕ → Bytes → Hub

pub record Server : Type 0 where
  pub do_authenticate : Bool
  pub auth : Auth
  pub connections : ℕ → Bool
  pub actions : List Action
  pub received : List (ℕ × Bytes)
  pub validations : List Registration
  -- the count of `receiveLimit`
  pub permits : ℕ
  pub hub : Hub
  -- calls of `receive` that have a message and have not notified yet
  pub popped : ℕ
  pub sent : List (ℕ × Bytes)
  pub broadcasts : List Bytes

-- `WebsocketServer(passwdFile)`, where `users` is what was read from the file.
abbrev pub starting : Bool → Auth → Server
starting authenticates users = record {
  do_authenticate = authenticates;
  auth = users;
  connections = λ c. false;
  actions = [];
  received = [];
  validations = [];
  permits = 10;
  hub = idle;
  popped = 0;
  sent = [];
  broadcasts = [];
}

abbrev pub lines : Bytes → List Bytes
lines s = getlines 10 [] s

-- `send`: the exception for a handle that is gone is caught.
unfoldable pub send : ℕ → Bytes → Server → Server
send l text s = elim (get_connection_handle l s.auth) [
  | err e ↦ s
  | ok c ↦ record s { sent = s.sent ++ (c, text) ∷ [] }
]

-- `this->send(auth_.getLuaHandle(c), text)`
unfoldable pub answer : ℕ → Bytes → Exec Server (Unit {0})
unfolding send
answer c text s = elim (get_lua_handle c s.auth) [
  | err e ↦ (err e, s)
  | ok l ↦ (ok tt, send l text s)
]

unfoldable pub login_session : ℕ → Bytes → Exec Server Bytes
login_session h key s =
    if not (has_session key s.auth)
    then (ok (codes "session-invalid"), s)
    else (elim (remap_session h key s.auth) [
      | err e ↦ (err e, s)
      | ok a ↦ (ok (codes "session-success:" ++ key), record s { auth = a })
    ])

module _ (crypto : Crypto) where
  unfoldable pub login_user : ℕ → Bytes → Bytes → Bytes → Bytes → Exec Server Bytes
  login_user h username password key drawn s =
      if contains b' ' username || contains b' ' password
      then (ok (codes "login-invalid"), s)
      else if not (has_username username s.auth)
      then (ok (codes "login-notfound"), s)
      else (let created = create_session crypto h username password key drawn s.auth in
          let s' = record s { auth = created.1 } in
          elim created.0 [
            | [] ↦ (ok (codes "login-nomatch"), s')
            | c ∷ rest ↦ (ok (codes "login-success:" ++ c ∷ rest), s')
          ])

  unfoldable pub accept : ℕ → Bytes → Bytes → Bytes → Bytes → Bytes → Exec Server (Unit {0})
  accept h username password user_data key drawn s =
      if has_username username s.auth
      then answer h (codes "register-duplicate") s
      else (let created = create_user crypto h username password user_data key drawn s.auth in
          answer h (codes "register-success:" ++ created.0) (record s { auth = created.1 }))

unfoldable pub reject : ℕ → Bytes → Exec Server (Unit {0})
reject h reason = answer h (codes "register-failed:" ++ reason)

unfoldable pub register_user : ℕ → Bytes → Bytes → Bytes → Server → Server
register_user h username password user_data s = record s {
  validations =
      s.validations
      ++ record { connection = h; username = username; password = password; user_data = user_data }
        ∷ [];
}

unfoldable pub logout_user : Bytes → Exec Server Bool
logout_user key s =
    if has_session key s.auth
    then (elim (destroy_session key s.auth) [
      | err e ↦ (err e, s)
      | ok a ↦ (ok true, record s { auth = a })
    ])
    else (ok false, s)

abbrev pub act : ActionType → ℕ → Bytes → Server → Server
act type c text s = record s {
  actions = s.actions ++ record { type = type; hdl = c; msg = text } ∷ [];
}

unfoldable pub on_open : ℕ → Server → Server
on_open c = act subscribe c []

unfoldable pub on_close : ℕ → Server → Server
on_close c = act unsubscribe c []

unfoldable pub broadcast : Bytes → Server → Server
broadcast text = act broadcast_all 0 text

-- The call of `receiveLimit.wait()`.
abbrev pub await : ℕ → Bytes → Exec Server (Unit {0})
await c payload s = (ok tt, record s { hub = waiting c payload })

abbrev pub is_login : Bytes → Bool
is_login t = bytes_eq t (codes "register") || bytes_eq t (codes "login")

-- A message of a connection with a session, or of any connection where there are no sessions.
unfoldable pub from_user : ℕ → Bytes → List Bytes → Exec Server (Unit {0})
from_user c payload (t ∷ key ∷ []) s =
    if bytes_eq t (codes "logout") && has_session key s.auth
    then (logout_user key >>= λ done.
          answer c (codes (if done then "logout-success" else "logout-nosession")))
        s
    else if is_login t
    then (ok tt, s)
    else await c payload s
from_user c payload (t ∷ key ∷ more ∷ rest) s = if is_login t then (ok tt, s) else await c payload s
from_user c payload tokens s = await c payload s

module _ (crypto : Crypto) where
  -- A message of a connection that has to log in first.
  unfoldable pub from_stranger : ℕ → List Bytes → Bytes → Bytes → Exec Server (Unit {0})
  from_stranger c (t ∷ username ∷ password ∷ user_data ∷ []) key drawn s =
      if bytes_eq t (codes "register")
      then (ok tt, register_user c username password user_data s)
      else answer c (codes "auth") s
  from_stranger c (t ∷ username ∷ password ∷ []) key drawn s =
      if bytes_eq t (codes "login")
      then (login_user crypto c username password key drawn >>= answer c) s
      else answer c (codes "auth") s
  from_stranger c (t ∷ session ∷ []) key drawn s =
      if bytes_eq t (codes "login")
      then (login_session c session >>= answer c) s
      else answer c (codes "auth") s
  from_stranger c tokens key drawn s = answer c (codes "auth") s

  -- `on_message` up to the call of `wait`; `key` and `drawn` are what a login draws.
  unfoldable pub on_message : ℕ → Bytes → Bytes → Bytes → Exec Server (Unit {0})
  on_message c payload key drawn s =
      if (s.do_authenticate && has_connection_handle c s.auth) || not s.do_authenticate
      then from_user c payload (lines payload) s
      else from_stranger c (lines payload) key drawn s

-- `on_message` after `wait`.
unfoldable pub deliver : ℕ → Bytes → Exec Server (Unit {0})
deliver c payload s = elim (get_lua_handle c s.auth) [
  | err e ↦ (err e, s)
  | ok l ↦ (ok tt, record s { received = s.received ++ (l, payload) ∷ []; hub = idle })
]

-- The body of the loop in `process_messages`, for an action that was popped.
unfoldable pub process : Action → Exec Server (Unit {0})
process action s = elim action.type [
  | subscribe ↦ (
    ok tt,
    record s {
      connections = λ c. if c == action.hdl then true else s.connections c;
      auth = create_lua_handle action.hdl s.auth;
    },
  )
  | unsubscribe ↦ (
    ok tt,
    record s {
      connections = λ c. if c == action.hdl then false else s.connections c;
      auth = destroy_lua_handle action.hdl s.auth;
    },
  )
  | message ↦
      if action.hdl == 0
      then (err undefined_behaviour, s)
      else (ok tt, record s { sent = s.sent ++ (action.hdl, action.msg) ∷ [] })
  | broadcast_all ↦ (ok tt, record s { broadcasts = s.broadcasts ++ action.msg ∷ [] })
]

abbrev pub or_invalid : Bytes → Bytes
or_invalid [] = codes "invalid"
or_invalid (c ∷ s) = c ∷ s

unfoldable pub user_data_of : ℕ → Server → Bytes × Server
user_data_of l s =
    let read = get_user_data l s.auth in (or_invalid read.0, record s { auth = read.1 })

unfoldable pub user_name_of : ℕ → Server → Bytes × Server
user_name_of l s =
    let read = get_user_name l s.auth in (or_invalid read.0, record s { auth = read.1 })

unfoldable pub handles_of : Bytes → Server → Result (List ℕ)
handles_of name s = get_handles name s.auth
