-- ===== src/Tests/Sessions.antt =====
-- Clients of the web socket server.
use janosh.Common.{
  getlines, ℕ, ◌≤◌, ◌≡◌, refl, inl, ◌⊎◌, true, false, [], ◌∷◌, Bytes, codes, arith, no_entries,
  number_eq, text_eq, length, bytes_eq, if◌then◌else◌, ◌==◌,
}
use janosh.Result.{err, assertion_failed}
use janosh.Websocket.Auth.{
  Auth, Crypto, no_users, known_users, has_session, has_connection_handle, has_username,
  create_user, destroy_session, disconnect, get_lua_handle, create_lua_handle,
}
use janosh.Websocket.Server
use janosh.Websocket.Server.{
  Server, Hub, starting, accept, answer, logout_user, on_message, on_open, process, from_user,
  from_stranger, lines,
}
use janosh.Websocket.Steps.{Reach}
use janosh.Websocket.Steps
use janosh.Websocket.Limit.{Reach-received}
use janosh.Websocket.Progress.{Reach-permitted}
use janosh.Websocket.Access.{Admitted, on_message-Admitted}
use janosh.Websocket.Passwd.{read_auth_data}
use janosh.Websocket.Passwd.RoundTrip.{Readable, IsEntry, create_user-Readable}

-- Codes that are good enough for a test.
abbrev drop_first : Bytes → Bytes
drop_first [] = []
drop_first (c ∷ s) = s

abbrev toy : Crypto
toy = record { derive = λ password salt. password; encode64 = λ s. b'e' ∷ s; decode64 = drop_first }

abbrev key : Bytes
key = codes "k"

-- A server without log in, and a connection that was opened.
abbrev first : Server
first = starting false (known_users no_entries [])

abbrev connected : Server
connected = record first {
  connections = λ c. if c == 5 then true else false;
  auth = create_lua_handle 5 (known_users no_entries []);
}

connected-Reach : Reach toy first 2 connected
unfolding on_open process create_lua_handle
connected-Reach =
    Reach.next (Reach.next Reach.start (Steps.opens 5 refl)) (Steps.processes _ [] refl)

abbrev asking : Server
asking = record connected { hub = Hub.waiting 5 (codes "hi") }

asking-Reach : Reach toy first 3 asking
unfolding on_message from_user getlines has_connection_handle
asking-Reach = Reach.next connected-Reach (Steps.messages 5 (codes "hi") [] [] refl refl)

Reach-received_example : length asking.received ≤ 10
Reach-received_example = Reach-received toy false (known_users no_entries []) asking-Reach

Reach-permitted_example :
    (m : ℕ) × (t : Server) × (m ≤ 3) × Reach toy asking m t × (t.hub ≡ Hub.permitted 5 (codes "hi"))
Reach-permitted_example =
    Reach-permitted toy false (known_users no_entries []) 5 (codes "hi") asking-Reach refl

abbrev guarded : Server
guarded = starting true (known_users no_entries [])

on_message-Admitted_example :
    (has_connection_handle 5 (on_message toy 5 (codes "x") [] [] guarded).1.auth ≡ false)
    ⊎ Admitted toy [] guarded (lines (codes "x"))
unfolding has_connection_handle
on_message-Admitted_example = (on_message-Admitted toy 5 [] guarded (codes "x") [] refl refl).2

no_users-Readable : Readable toy (no_users [])
unfolding read_auth_data getlines
no_users-Readable = record { ends = inl refl; reads = refl }

ann-IsEntry :
    IsEntry toy
      (codes "ann")
      (record { hash = codes "pw"; salt = codes "s"; user_data = codes "d" })
ann-IsEntry = record {
  name_words = omega arith;
  hash_words = omega arith;
  salt_words = omega arith;
  code_words = omega arith;
  code_text = λ e. cc;
  decodes = refl;
}

create_user-Readable_example :
    Readable toy
      (create_user toy 5 (codes "ann") (codes "pw") (codes "d") key (codes "s") (no_users [])).1
unfolding has_username
create_user-Readable_example =
    create_user-Readable toy 5 (codes "ann") (codes "pw") (codes "d") key (codes "s") (no_users [])
      no_users-Readable refl ann-IsEntry

-- A registration that was accepted for a connection without a session.
abbrev ann : Server
ann = (accept toy 5 (codes "ann") [] [] key [] first).1

-- With a second registration for the same connection, the second session cannot be ended after the
-- first, and an assertion fails.
abbrev both : Server
both = (accept toy 5 (codes "bob") [] [] (codes "q") [] ann).1

logout_user-twice : (logout_user (codes "q") (logout_user key both).1).0 ≡ err assertion_failed
unfolding accept has_session has_username create_user answer get_lua_handle logout_user
    destroy_session disconnect bytes_eq
logout_user-twice = refl
