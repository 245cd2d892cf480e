-- ===== src/Websocket/Access.antt =====
-- Who may send messages where clients have to log in.
use janosh.Common.{
  ℕ, ◌≡◌, refl, ap, ◌⊎◌, inl, inr, true, false, List, [], ◌∷◌, some, Bytes, codes, arith, bytes_eq,
  bytes_eq_iff, Bool-cases, Option-cases, ◌∙◌, number_eq,
}
use janosh.Result.{Result, ok, err}
use janosh.Exec.{continue}
use janosh.Websocket.Auth.{
  Auth, Credentials, Crypto, hash_password, has_session, has_username, has_connection_handle,
  create_session,
}
use janosh.Websocket.Server.{
  Server, on_message, answer, login_user, login_session, from_stranger, register_user, lines,
}
use janosh.Websocket.Answers.{answer-auth}
use janosh.Websocket.Limit.{from_stranger-Frame}

-- The message is a login with a known session, or with a known user and a password that has the
-- user's hash.
abbrev pub Admitted : Crypto → Bytes → Server → List Bytes → Type 0
Admitted crypto drawn s tokens =
    ((key : Bytes) × (tokens ≡ codes "login" ∷ key ∷ []) × (has_session key s.auth ≡ true))
    ⊎ ((username : Bytes) × (password : Bytes) × (c : Credentials) × (tokens
          ≡ codes "login" ∷ username ∷ password ∷ [])
        × (s.auth.auth_data username ≡ some c)
        × (c.hash ≡ (hash_password crypto password c.salt drawn).0))

module _ (crypto : Crypto) (c : ℕ) (drawn : Bytes) (s : Server) where
  -- The connection has no session, or its message is a login that succeeds.
  abbrev pub Outcome : List Bytes → Server → Type 0
  Outcome tokens t = (t.auth.con_skey c ≡ s.auth.con_skey c) ⊎ Admitted crypto drawn s tokens

  answer-Outcome : (tokens : List Bytes) (text : Bytes) → Outcome tokens (answer c text s).1
  answer-Outcome tokens text = inl (ap (λ (a : Auth). a.con_skey c) (answer-auth c text s))

  continue-Outcome :
      (tokens : List Bytes) (r : Result Bytes × Server)
      → Outcome tokens r.1
      → Outcome tokens (continue r (answer c)).1
  continue-Outcome tokens (ok a, t) (inl e) =
      inl (ap (λ (a : Auth). a.con_skey c) (answer-auth c a t) ∙ e)
  continue-Outcome tokens (ok a, t) (inr admitted) = inr admitted
  continue-Outcome tokens (err e, t) o = o

  login_user-Outcome :
      (username password key : Bytes)
      → Outcome
          (codes "login" ∷ username ∷ password ∷ [])
          (login_user crypto c username password key drawn s).1
  unfolding login_user create_session has_username
  login_user-Outcome username password key = elim (Option-cases (s.auth.auth_data username)) [
    | inl e ↦ inl (ground arith)
    | inr (found, e) ↦
        elim (Bool-cases (bytes_eq found.hash (hash_password crypto password found.salt drawn).0)) [
          | inl matches ↦
              inr (inr (username, password, found, refl, e, (bytes_eq_iff found.hash _).0 matches))
          | inr differs ↦ inl (ground arith)
        ]
  ]

  login_session-Outcome :
      (key : Bytes) → Outcome (codes "login" ∷ key ∷ []) (login_session c key s).1
  unfolding login_session
  login_session-Outcome key = elim (Bool-cases (has_session key s.auth)) [
    | inl known ↦ inr (inl (key, refl, known))
    | inr unknown ↦ inl (rw unknown)
  ]

  from_stranger-Outcome :
      (tokens : List Bytes) (key : Bytes)
      → Outcome tokens (from_stranger crypto c tokens key drawn s).1
  unfolding from_stranger register_user
  from_stranger-Outcome (t ∷ u ∷ p ∷ d ∷ []) key =
      elim (Bool-cases (bytes_eq t (codes "register"))) [
        | inl e ↦ rw e (inl refl)
        | inr e ↦ rw e (answer-Outcome _ (codes "auth"))
      ]
  from_stranger-Outcome (t ∷ u ∷ p ∷ []) key = elim (Bool-cases (bytes_eq t (codes "login"))) [
    | inl e ↦ rw e (
        continue-Outcome (t ∷ u ∷ p ∷ []) (login_user crypto c u p key drawn s)
          (rw ((bytes_eq_iff t (codes "login")).0 e) (login_user-Outcome u p key)))
    | inr e ↦ rw e (answer-Outcome _ (codes "auth"))
  ]
  from_stranger-Outcome (t ∷ k ∷ []) key = elim (Bool-cases (bytes_eq t (codes "login"))) [
    | inl e ↦ rw e (
        continue-Outcome (t ∷ k ∷ []) (login_session c k s)
          (rw ((bytes_eq_iff t (codes "login")).0 e) (login_session-Outcome k)))
    | inr e ↦ rw e (answer-Outcome _ (codes "auth"))
  ]
  from_stranger-Outcome tokens key = answer-Outcome tokens (codes "auth")

  stranger_message :
      (payload key : Bytes)
      → s.do_authenticate ≡ true
      → has_connection_handle c s.auth ≡ false
      → on_message crypto c payload key drawn s ≡ from_stranger crypto c (lines payload) key drawn s
  unfolding on_message
  stranger_message payload key authenticates stranger = simp (authenticates, stranger)

  -- Where clients have to log in, a message of a connection without a session reaches neither the
  -- queue of received messages nor the wait for it, and the connection has no session afterwards,
  -- unless the message is a login with a known session, or with a known user and a password whose
  -- hash is the user's.
  pub on_message-Admitted :
      (payload key : Bytes)
      → s.do_authenticate ≡ true
      → has_connection_handle c s.auth ≡ false
      → let t = (on_message crypto c payload key drawn s).1 in
        (t.received ≡ s.received)
        × (t.hub ≡ s.hub)
        × ((has_connection_handle c t.auth ≡ false) ⊎ Admitted crypto drawn s (lines payload))
  on_message-Admitted payload key authenticates stranger =
      let f = from_stranger-Frame crypto c (lines payload) key drawn s in
      let o = from_stranger-Outcome (lines payload) key in
      rw (stranger_message payload key authenticates stranger) (
        f.1,
        f.3,
        unfold has_connection_handle in
            elim o [ inl e ↦ inl (rw e stranger) | inr admitted ↦ inr admitted ],
      )
