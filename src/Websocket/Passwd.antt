-- ===== src/Websocket/Passwd.antt =====
-- The file of passwords: `readAuthData` of the web socket's authenticator.
pub mod RoundTrip
use janosh.Common.{
  getlines, getlines_end, getlines_next, getlines-delimiter, ℕ, ◌≡◌, ◌≢◌, refl, sym, ap, ◌∙◌, ◌⊎◌,
  ◌↔◌, inl, inr, Bool, true, false, List, [], ◌∷◌, ◌++◌, append_assoc, append-nil, Option, none,
  some, Bytes, Lacks, All, All-append, arith, ◌==◌, ==_refl, ==_iff, if◌then◌else◌, is_some, Map,
  put, no_entries, text_eq, Bool-cases,
}
use janosh.Result.{Result, ok, err, janosh_exception, ◌>>=◌}
use janosh.Websocket.Auth.{
  Auth, Credentials, Crypto, create_user, has_username, hash_password, passwd_line,
  without_line_ends,
}
use janosh.Websocket.Server.{lines}

module _ (crypto : Crypto) where
  -- The words of one line; a line of another form, or of a user that is known, is refused.
  unfoldable pub read_words : List Bytes → Map Bytes Credentials → Result (Map Bytes Credentials)
  read_words (name ∷ hash ∷ salt ∷ code ∷ []) users =
      if is_some (users name)
      then err (janosh_exception "Corrupt passwd file")
      else ok
          (put name (record { hash = hash; salt = salt; user_data = crypto.decode64 code }) users)
  read_words words users = err (janosh_exception "Corrupt passwd file")

  unfoldable pub read_lines : List Bytes → Map Bytes Credentials → Result (Map Bytes Credentials)
  read_lines [] users = ok users
  read_lines (line ∷ rest) users =
      read_words (getlines b' ' [] line) users >>= λ known. read_lines rest known

  -- `readAuthData` of a file's text, which is empty if there is no file.
  unfoldable pub read_auth_data : Bytes → Result (Map Bytes Credentials)
  unfolding read_lines
  read_auth_data text = read_lines (lines text) no_entries
