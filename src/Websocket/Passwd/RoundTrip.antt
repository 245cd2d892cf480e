-- ===== src/Websocket/Passwd/RoundTrip.antt =====
-- What `createUser` appends to the file of passwords is read by `readAuthData`.
use janosh.Common.{
  getlines, getlines-delimiter, getlines_last, getlines-append, ℕ, ◌≡◌, ◌≢◌, refl, ◌⊎◌, inl, inr,
  false, List, [], ◌∷◌, ◌++◌, append_assoc, Bytes, Lacks, All-append, arith, is_some, Map, put,
  no_entries, text_eq,
}
use janosh.Result.{Result, ok, err, ◌>>=◌}
use janosh.Websocket.Auth.{
  Auth, Credentials, Crypto, create_user, has_username, hash_password, passwd_line,
  without_line_ends,
}
use janosh.Websocket.Server.{lines}
use janosh.Websocket.Passwd.{read_words, read_lines, read_auth_data}

read_lines-append :
    (crypto : Crypto) (ls ms : List Bytes) (users : Map Bytes Credentials)
    → read_lines crypto (ls ++ ms) users
      ≡ (read_lines crypto ls users >>= λ known. read_lines crypto ms known)
unfolding read_lines
read_lines-append crypto [] ms users = refl
read_lines-append crypto (l ∷ ls) ms users =
    then_read (read_words crypto (getlines b' ' [] l) users) (read_lines-append crypto ls ms)
  where
    then_read :
        (r : Result (Map Bytes Credentials))
        → ((known : Map Bytes Credentials)
            → read_lines crypto (ls ++ ms) known
              ≡ (read_lines crypto ls known >>= λ more. read_lines crypto ms more))
        → (r >>= λ known. read_lines crypto (ls ++ ms) known)
          ≡ ((r >>= λ known. read_lines crypto ls known) >>= λ known. read_lines crypto ms known)
    then_read (err e) ih = refl
    then_read (ok known) ih = ih known

-- What the texts of a user have to be.
pub record IsEntry (crypto : Crypto) (name : Bytes) (c : Credentials) : Type 0 where
  pub name_words : Lacks b' ' name × Lacks 10 name
  pub hash_words : Lacks b' ' c.hash × Lacks 10 c.hash
  pub salt_words : Lacks b' ' c.salt × Lacks 10 c.salt
  pub code_words :
      Lacks b' ' (without_line_ends (crypto.encode64 c.user_data))
      × Lacks 10 (without_line_ends (crypto.encode64 c.user_data))
  pub code_text : without_line_ends (crypto.encode64 c.user_data) ≢ []
  pub decodes : crypto.decode64 (without_line_ends (crypto.encode64 c.user_data)) ≡ c.user_data

abbrev line_text : Crypto → Bytes → Credentials → Bytes
line_text crypto name c =
    name
    ++ b' ' ∷ (c.hash ++ b' ' ∷ (c.salt ++ b' ' ∷ without_line_ends (crypto.encode64 c.user_data)))

-- The words of a line of the file.
words :
    (crypto : Crypto) (name : Bytes) (c : Credentials)
    → IsEntry crypto name c
    → getlines b' ' [] (line_text crypto name c)
      ≡ name ∷ c.hash ∷ c.salt ∷ without_line_ends (crypto.encode64 c.user_data) ∷ []
words crypto name c e =
    rw
      (
        getlines-delimiter b' ' name [] _ e.name_words.0,
        getlines-delimiter b' ' c.hash [] _ e.hash_words.0,
        getlines-delimiter b' ' c.salt [] _ e.salt_words.0,
        getlines_last b' ' (without_line_ends (crypto.encode64 c.user_data)) [] e.code_words.0
            e.code_text,
      )
      refl

-- The file ends with a line's end, if it is not empty, and holds the known users.
pub record Readable (crypto : Crypto) (a : Auth) : Type 0 where
  pub ends : (a.passwd ≡ []) ⊎ ((text : Bytes) × (a.passwd ≡ text ++ 10 ∷ []))
  pub reads : read_auth_data crypto a.passwd ≡ ok a.auth_data

passwd_line-line_text :
    (crypto : Crypto) (name : Bytes) (c : Credentials)
    → passwd_line crypto name c ≡ line_text crypto name c ++ 10 ∷ []
unfolding passwd_line
passwd_line-line_text crypto name c = simp append_assoc

line_text-Lacks :
    (crypto : Crypto) (name : Bytes) (c : Credentials)
    → IsEntry crypto name c
    → Lacks 10 (line_text crypto name c)
line_text-Lacks crypto name c e =
    All-append (λ b. b ≢ 10) name _ e.name_words.1
      (
        omega arith,
        All-append (λ b. b ≢ 10) c.hash _ e.hash_words.1
            (
              omega arith,
              All-append (λ b. b ≢ 10) c.salt _ e.salt_words.1 (omega arith, e.code_words.1),
            ),
      )

-- The line of a user is read as the user.
read_line :
    (crypto : Crypto) (name : Bytes) (c : Credentials) (users : Map Bytes Credentials)
    → IsEntry crypto name c
    → is_some (users name) ≡ false
    → read_lines crypto (lines (passwd_line crypto name c)) users ≡ ok (put name c users)
unfolding read_lines read_words getlines
read_line crypto name c users e unknown =
    rw
      (
        passwd_line-line_text crypto name c,
        getlines-delimiter 10 (line_text crypto name c) [] [] (line_text-Lacks crypto name c e),
        words crypto name c e,
        unknown,
        e.decodes,
      )
      refl

lines-append :
    (text rest : Bytes)
    → (text ≡ []) ⊎ ((start : Bytes) × (text ≡ start ++ 10 ∷ []))
    → lines (text ++ rest) ≡ lines text ++ lines rest
unfolding getlines
lines-append text rest (inl e) = rw e refl
lines-append text rest (inr (start, e)) = rw e (getlines-append 10 start [] rest)

appended_end :
    (text line : Bytes) → (start : Bytes) × (text ++ (line ++ 10 ∷ []) ≡ start ++ 10 ∷ [])
appended_end text line = (text ++ line, simp append_assoc)

-- If the file of passwords holds the known users, and ends with a line's end or is empty, then it
-- does so after the creation of a user that was not known, whose name, hash, salt and coded data
-- have no space and no line's end, whose coded data are not empty, and whose data are decoded as
-- they were.
pub create_user-Readable :
    (crypto : Crypto) (h : ℕ) (name password user_data key drawn : Bytes) (a : Auth)
    → Readable crypto a
    → has_username name a ≡ false
    → IsEntry crypto name
        (record { hash = crypto.derive password drawn; salt = drawn; user_data = user_data })
    → Readable crypto (create_user crypto h name password user_data key drawn a).1
unfolding create_user hash_password has_username read_auth_data
create_user-Readable crypto h name password user_data key drawn a readable unknown e =
    let c : Credentials = record {
      hash = crypto.derive password drawn;
      salt = drawn;
      user_data = user_data;
    } in
    record {
      ends =
          rw (passwd_line-line_text crypto name c)
            (inr (appended_end a.passwd (line_text crypto name c)));
      reads =
          rw
            (
              lines-append a.passwd (passwd_line crypto name c) readable.ends,
              read_lines-append crypto (lines a.passwd) (lines (passwd_line crypto name c))
                  no_entries,
              readable.reads,
            )
            (read_line crypto name c a.auth_data e unknown);
    }
