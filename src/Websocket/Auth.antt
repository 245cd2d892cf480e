-- ===== src/Websocket/Auth.antt =====
-- `WebsocketServer::Authenticator`: the users, the sessions, and the handles that Lua code has for
-- connections. A connection is a number, and 0 the null pointer. Every method holds the lock.
use janosh.Common.{
  ℕ, ◌+◌, ◌%◌, ◌^◌, Bool, List, [], ◌∷◌, ◌++◌, Option, none, some, Bytes, ◌==◌, ◌&&◌, bytes_eq,
  if◌then◌else◌, Map, no_entries, put, erase, is_some, or_default, number_eq, text_eq,
}
use janosh.Result.{Result, ok, err, janosh_exception, assertion_failed, ◌>>=◌}

pub record Credentials : Type 0 where
  pub hash : Bytes
  pub salt : Bytes
  pub user_data : Bytes

abbrev pub no_credentials : Credentials
no_credentials = record { hash = []; salt = []; user_data = [] }

-- What is used of Crypto++: the derived key of a password and a salt, and the code of the user data.
-- All are texts.
pub record Crypto : Type 0 where
  pub derive : Bytes → Bytes → Bytes
  pub encode64 : Bytes → Bytes
  pub decode64 : Bytes → Bytes

-- The maps of the class, and the text of the file `passwdFile`.
pub record Auth : Type 0 where
  pub lua_handles : Map ℕ ℕ
  pub lua_handles_rev : Map ℕ ℕ
  pub lua_handle_max : ℕ
  pub skey_name : Map Bytes Bytes
  pub name_skey : List (Bytes × Bytes)
  pub skey_con : Map Bytes ℕ
  pub con_skey : Map ℕ Bytes
  pub auth_data : Map Bytes Credentials
  pub passwd : Bytes

abbrev pub no_users : Bytes → Auth
no_users passwd = record {
  lua_handles = no_entries;
  lua_handles_rev = no_entries;
  lua_handle_max = 0;
  skey_name = no_entries;
  name_skey = [];
  skey_con = no_entries;
  con_skey = no_entries;
  auth_data = no_entries;
  passwd = passwd;
}

-- What `readAuthData` leaves: users without handles and sessions.
abbrev pub known_users : Map Bytes Credentials → Bytes → Auth
known_users users passwd = record (no_users passwd) { auth_data = users }

unfoldable pub has_username : Bytes → Auth → Bool
has_username name a = is_some (a.auth_data name)

unfoldable pub has_session : Bytes → Auth → Bool
has_session key a = is_some (a.skey_con key)

unfoldable pub has_connection_handle : ℕ → Auth → Bool
has_connection_handle c a = is_some (a.con_skey c)

unfoldable pub has_lua_handle : ℕ → Auth → Bool
has_lua_handle l a = is_some (a.lua_handles l)

-- The session gets the connection `h`.
abbrev pub connect : ℕ → Bytes → Auth → Auth
connect h key a = record a { skey_con = put key h a.skey_con; con_skey = put h key a.con_skey }

-- The end of `remapSession`, where the session's connection `old` is another one.
unfoldable pub remap_from : ℕ → ℕ → Bytes → Auth → Result Auth
remap_from old h key a = elim (a.lua_handles_rev old) [
  | some lh ↦ ok (
      connect h key (record a {
        lua_handles_rev = erase old (put h lh a.lua_handles_rev);
        lua_handles = put lh h a.lua_handles;
      }))
  | none ↦ if is_some (a.lua_handles_rev h) then ok (connect h key a) else err assertion_failed
]

unfoldable pub remap_session : ℕ → Bytes → Auth → Result Auth
unfolding remap_from
remap_session h key a =
    let old = or_default 0 (a.skey_con key) in
    let read = record a { skey_con = put key old a.skey_con } in
    if old == h then ok read else remap_from old h key read

-- The code of the user data loses its line ends.
abbrev pub without_line_ends : Bytes → Bytes
without_line_ends [] = []
without_line_ends (c ∷ s) = if c == 10 then without_line_ends s else c ∷ without_line_ends s

module _ (crypto : Crypto) where
  -- The last text is the salt that is drawn if none is given.
  unfoldable pub hash_password : Bytes → Bytes → Bytes → Bytes × Bytes
  hash_password password [] drawn = (crypto.derive password drawn, drawn)
  hash_password password (c ∷ salt) drawn = (crypto.derive password (c ∷ salt), c ∷ salt)

  -- A new session of a user.
  abbrev pub open_session : ℕ → Bytes → Bytes → Auth → Auth
  open_session h name key a = connect h key (record a {
    skey_name = put key name a.skey_name;
    name_skey = a.name_skey ++ (name, key) ∷ [];
  })

  -- `createSession`; `key` and `drawn` are what `make_sessionkey` and the salt's pool give. The
  -- result is empty if the password does not match.
  unfoldable pub create_session : ℕ → Bytes → Bytes → Bytes → Bytes → Auth → Bytes × Auth
  unfolding hash_password
  create_session h name password key drawn a =
      let c = or_default no_credentials (a.auth_data name) in
      let read = record a { auth_data = put name c a.auth_data } in
      if bytes_eq c.hash (hash_password password c.salt drawn).0
      then (key, open_session h name key read)
      else ([], read)

  -- A line of the password file.
  unfoldable pub passwd_line : Bytes → Credentials → Bytes
  passwd_line name c =
      name
      ++ b' '
        ∷ (c.hash
            ++ b' '
              ∷ (c.salt ++ b' ' ∷ (without_line_ends (crypto.encode64 c.user_data) ++ 10 ∷ [])))

  unfoldable pub create_user : ℕ → Bytes → Bytes → Bytes → Bytes → Bytes → Auth → Bytes × Auth
  unfolding hash_password passwd_line
  create_user h name password user_data key drawn a =
      let hashed = hash_password password [] drawn in
      let c : Credentials = record { hash = hashed.0; salt = hashed.1; user_data = user_data } in
      (
        key,
        open_session h name key (record a {
          auth_data = put name c a.auth_data;
          passwd = a.passwd ++ passwd_line name c;
        }),
      )

-- Erases the first of the name's keys that is `key`.
abbrev pub erase_pair : Bytes → Bytes → List (Bytes × Bytes) → List (Bytes × Bytes)
erase_pair name key [] = []
erase_pair name key ((n, k) ∷ rest) =
    if bytes_eq n name && bytes_eq k key then rest else (n, k) ∷ erase_pair name key rest

-- The end of `destroySession`.
unfoldable pub disconnect : Bytes → Auth → Result Auth
disconnect key a = elim (a.skey_con key) [
  | none ↦ err assertion_failed
  | some c ↦
      if is_some (a.con_skey c)
      then ok (record a { skey_con = erase key a.skey_con; con_skey = erase c a.con_skey })
      else err assertion_failed
]

unfoldable pub destroy_session : Bytes → Auth → Result Auth
unfolding disconnect
destroy_session key a = elim (a.skey_name key) [
  | none ↦ err assertion_failed
  | some name ↦ disconnect key (record a { name_skey = erase_pair name key a.name_skey })
]

-- The session of the connection that a handle stands for.
unfoldable pub session_of : ℕ → Auth → Option Bytes
session_of l a = elim (a.lua_handles l) [ none ↦ none | some c ↦ a.con_skey c ]

-- `getUserName`; reading with `[]` puts an entry into the map.
unfoldable pub get_user_name : ℕ → Auth → Bytes × Auth
unfolding session_of
get_user_name l a = elim (session_of l a) [
  | none ↦ ([], a)
  | some key ↦
      let name = or_default [] (a.skey_name key) in
      (name, record a { skey_name = put key name a.skey_name })
]

unfoldable pub get_user_data : ℕ → Auth → Bytes × Auth
unfolding session_of
get_user_data l a = elim (session_of l a) [
  | none ↦ ([], a)
  | some key ↦
      let name = or_default [] (a.skey_name key) in
      let c = or_default no_credentials (a.auth_data name) in
      (
        c.user_data,
        record a { skey_name = put key name a.skey_name; auth_data = put name c a.auth_data },
      )
]

-- The handle of a session's connection; both must be there.
unfoldable pub handle_of : Bytes → Auth → Result ℕ
handle_of key a = elim (a.skey_con key) [
  | none ↦ err assertion_failed
  | some c ↦ elim (a.lua_handles_rev c) [ none ↦ err assertion_failed | some l ↦ ok l ]
]

unfoldable pub handles_among : List (Bytes × Bytes) → Bytes → Auth → Result (List ℕ)
handles_among [] name a = ok []
handles_among ((n, key) ∷ rest) name a =
    let others = handles_among rest name a in
    if bytes_eq n name then (do l ← handle_of key a; ls ← others; ok (l ∷ ls)) else others

unfoldable pub get_handles : Bytes → Auth → Result (List ℕ)
unfolding handles_among
get_handles name a = handles_among a.name_skey name a

unfoldable pub get_lua_handle : ℕ → Auth → Result ℕ
get_lua_handle c a = elim (a.lua_handles_rev c) [
  | none ↦ err (janosh_exception "Lua handle doesn't exist anymore")
  | some l ↦ ok l
]

unfoldable pub get_connection_handle : ℕ → Auth → Result ℕ
get_connection_handle l a = elim (a.lua_handles l) [
  | none ↦ err (janosh_exception "Lua handle doesn't exist anymore")
  | some c ↦ ok c
]

unfoldable pub create_lua_handle : ℕ → Auth → Auth
create_lua_handle c a =
    let handle = (a.lua_handle_max + 1) % 2 ^ 64 in
    record a {
      lua_handle_max = handle;
      lua_handles = put handle c a.lua_handles;
      lua_handles_rev = put c handle a.lua_handles_rev;
    }

unfoldable pub destroy_lua_handle : ℕ → Auth → Auth
destroy_lua_handle c a = record a {
  lua_handles = erase (or_default 0 (a.lua_handles_rev c)) a.lua_handles;
  lua_handles_rev = erase c a.lua_handles_rev;
}
