-- ===== src/Websocket/Replies.antt =====
-- Messages are answered to their sender.
use janosh.Common.{
  ℕ, refl, inl, inr, Bool, not, List, [], ◌∷◌, ◌++◌, Bytes, codes, ◌&&◌, ◌||◌, bytes_eq,
  if◌then◌else◌, Bool-cases,
}
use janosh.Result.{ok}
use janosh.Websocket.Auth.{
  Auth, Crypto, has_session, has_username, has_connection_handle, create_user,
}
use janosh.Websocket.Server
use janosh.Websocket.Server.{
  Server, Action, ActionType, subscribe, unsubscribe, message, broadcast_all, idle, waiting,
  starting, on_open, on_close, on_message, deliver, process, accept, reject, broadcast,
  user_data_of, user_name_of, answer, send, logout_user, login_user, login_session, register_user,
  from_user, from_stranger, lines,
}
use janosh.Websocket.Answers.{
  KeepsHandles, same_handles, Replies, Quiet-Replies, answer-Replies, continue-Replies,
  logout_user-Quiet, login_user-Quiet, login_session-Quiet,
}

pub unchanged : (a : Auth) → KeepsHandles a a
unchanged a = same_handles a a refl refl refl

from_stranger-Replies :
    (crypto : Crypto) (c : ℕ) (tokens : List Bytes) (key drawn : Bytes) (s : Server)
    → Replies c s (from_stranger crypto c tokens key drawn s).1
unfolding from_stranger register_user
from_stranger-Replies crypto c (t ∷ u ∷ p ∷ d ∷ []) key drawn s =
    elim (Bool-cases (bytes_eq t (codes "register"))) [
      | inl e ↦ rw e (Quiet-Replies c s (register_user c u p d s) (unchanged s.auth, refl))
      | inr e ↦ rw e (answer-Replies c (codes "auth") s)
    ]
from_stranger-Replies crypto c (t ∷ u ∷ p ∷ []) key drawn s =
    elim (Bool-cases (bytes_eq t (codes "login"))) [
      | inl e ↦ rw e (
          continue-Replies c (λ (r : Bytes). r) s (login_user crypto c u p key drawn s)
            (login_user-Quiet crypto c u p key drawn s))
      | inr e ↦ rw e (answer-Replies c (codes "auth") s)
    ]
from_stranger-Replies crypto c (t ∷ k ∷ []) key drawn s =
    elim (Bool-cases (bytes_eq t (codes "login"))) [
      | inl e ↦ rw e (
          continue-Replies c (λ (r : Bytes). r) s (login_session c k s) (login_session-Quiet c k s))
      | inr e ↦ rw e (answer-Replies c (codes "auth") s)
    ]
from_stranger-Replies crypto c tokens key drawn s = answer-Replies c (codes "auth") s

awaited :
    (c : ℕ) (payload : Bytes) (s : Server) → Replies c s (record s { hub = waiting c payload })
awaited c payload s = Quiet-Replies c s _ (unchanged s.auth, refl)

ignored : (c : ℕ) (s : Server) → Replies c s s
ignored c s = Quiet-Replies c s s (unchanged s.auth, refl)

from_user-Replies :
    (c : ℕ) (payload : Bytes) (tokens : List Bytes) (s : Server)
    → Replies c s (from_user c payload tokens s).1
unfolding from_user
from_user-Replies c payload (t ∷ k ∷ []) s =
    elim (Bool-cases (bytes_eq t (codes "logout") && has_session k s.auth)) [
      | inl e ↦ rw e (
          continue-Replies c
            (λ (done : Bool). codes (if done then "logout-success" else "logout-nosession")) s
            (logout_user k s) (logout_user-Quiet k s))
      | inr e ↦ rw e (elim (Bool-cases (Server.is_login t)) [
        | inl l ↦ rw l (ignored c s)
        | inr l ↦ rw l (awaited c payload s)
      ])
    ]
from_user-Replies c payload (t ∷ k ∷ m ∷ rest) s = elim (Bool-cases (Server.is_login t)) [
  | inl l ↦ rw l (ignored c s)
  | inr l ↦ rw l (awaited c payload s)
]
from_user-Replies c payload tokens s = awaited c payload s

pub on_message-Replies :
    (crypto : Crypto) (c : ℕ) (payload key drawn : Bytes) (s : Server)
    → Replies c s (on_message crypto c payload key drawn s).1
unfolding on_message
on_message-Replies crypto c payload key drawn s =
    elim (Bool-cases
      ((s.do_authenticate && has_connection_handle c s.auth) || not s.do_authenticate)) [
        | inl e ↦ rw e (from_user-Replies c payload (lines payload) s)
        | inr e ↦ rw e (from_stranger-Replies crypto c (lines payload) key drawn s)
      ]

pub accept-Replies :
    (crypto : Crypto) (h : ℕ) (username password user_data key drawn : Bytes) (s : Server)
    → Replies h s (accept crypto h username password user_data key drawn s).1
unfolding accept
accept-Replies crypto h username password user_data key drawn s =
    let created = create_user crypto h username password user_data key drawn s.auth in
    elim (Bool-cases (has_username username s.auth)) [
      | inl e ↦ rw e (answer-Replies h (codes "register-duplicate") s)
      | inr e ↦ rw e (
          continue-Replies h (λ (r : Bytes). codes "register-success:" ++ r) s
            (ok created.0, record s { auth = created.1 })
            (unfold create_user in same_handles s.auth created.1 refl refl refl, refl))
    ]
