-- ===== src/Websocket/Sessions.antt =====
-- Messages and registrations keep the sessions as they should be, where the connection that gets a
-- session has none.
use janosh.Common.{
  ℕ, ◌≡◌, refl, ap, sym, inl, inr, Bool, true, false, not, List, [], ◌∷◌, ◌++◌, none, Bytes, codes,
  arith, bytes_eq, ◌&&◌, ◌||◌, contains, Bool-cases, Map, put, or_default, text_eq, number_eq,
  is_some, if◌then◌else◌, ◌∙◌,
}
use janosh.Result.{Result, ok, err}
use janosh.Exec.{continue}
use janosh.Websocket.Auth.{
  Auth, no_credentials, Crypto, has_session, has_username, has_connection_handle, hash_password,
  create_session, create_user, remap_session, destroy_session,
}
use janosh.Websocket.Handles.{
  SessionsFit, remap_session-SessionsFit, open_session-SessionsFit, destroy_session-SessionsFit,
}
use janosh.Websocket.Server
use janosh.Websocket.Server.{
  Server, Action, ActionType, subscribe, unsubscribe, message, broadcast_all, starting, on_open,
  on_close, on_message, deliver, process, accept, reject, broadcast, user_data_of, user_name_of,
  answer, send, logout_user, login_user, login_session, register_user, from_user, from_stranger,
  lines,
}
use janosh.Websocket.Answers.{answer-auth}

-- The same sessions, and no name is lost.
pub same_sessions :
    (a b : Auth)
    → b.skey_con ≡ a.skey_con
    → b.con_skey ≡ a.con_skey
    → ((k : Bytes) → is_some (a.skey_name k) ≡ true → is_some (b.skey_name k) ≡ true)
    → SessionsFit a
    → SessionsFit b
same_sessions a b cons keys names fit = record {
  held = λ k c e.
      ground (
        arith,
        fit.held k c,
        ap (λ (f : Map Bytes ℕ). f k) cons,
        ap (λ (f : Map ℕ Bytes). f c) keys,
      );
  named = λ k c e. names k (fit.named k c (ap (λ (f : Map Bytes ℕ). f k) (sym cons) ∙ e));
}

pub answer-SessionsFit :
    (c : ℕ) (text : Bytes) (s : Server) → SessionsFit s.auth → SessionsFit (answer c text s).1.auth
answer-SessionsFit c text s fit = rw (answer-auth c text s) fit

continue-SessionsFit :
    {A : Type 0} (c : ℕ) (text : A → Bytes) (r : Result A × Server)
    → SessionsFit r.1.auth
    → SessionsFit (continue r (λ a. answer c (text a))).1.auth
continue-SessionsFit c text (err e, t) fit = fit
continue-SessionsFit c text (ok a, t) fit = answer-SessionsFit c (text a) t fit

create_session-SessionsFit :
    (crypto : Crypto) (h : ℕ) (name password key drawn : Bytes) (a : Auth)
    → a.con_skey h ≡ none
    → SessionsFit a
    → SessionsFit (create_session crypto h name password key drawn a).1
unfolding create_session
create_session-SessionsFit crypto h name password key drawn a free fit =
    let c = or_default no_credentials (a.auth_data name) in
    let read = record a { auth_data = put name c a.auth_data } in
    let kept : SessionsFit read = record { held = fit.held; named = fit.named } in
    elim (Bool-cases (bytes_eq c.hash (hash_password crypto password c.salt drawn).0)) [
      | inl e ↦ rw e (open_session-SessionsFit h name key read _ refl refl refl free kept)
      | inr e ↦ rw e kept
    ]

create_user-SessionsFit :
    (crypto : Crypto) (h : ℕ) (name password user_data key drawn : Bytes) (a : Auth)
    → a.con_skey h ≡ none
    → SessionsFit a
    → SessionsFit (create_user crypto h name password user_data key drawn a).1
unfolding create_user
create_user-SessionsFit crypto h name password user_data key drawn a free fit =
    open_session-SessionsFit h name key a _ refl refl refl free fit

logout_user-SessionsFit :
    (key : Bytes) (s : Server) → SessionsFit s.auth → SessionsFit (logout_user key s).1.auth
unfolding logout_user
logout_user-SessionsFit key s fit = elim (Bool-cases (has_session key s.auth)) [
  | inl known ↦ finishing (destroy_session key s.auth) refl known
  | inr unknown ↦ rw unknown fit
]
  where
    finishing :
        (r : Result Auth)
        → destroy_session key s.auth ≡ r
        → has_session key s.auth ≡ true
        → SessionsFit (logout_user key s).1.auth
    finishing (err e) p known = rw (known, p) fit
    finishing (ok a) p known = rw (known, p) (destroy_session-SessionsFit key s.auth a p fit)

login_session-SessionsFit :
    (h : ℕ) (key : Bytes) (s : Server)
    → s.auth.con_skey h ≡ none
    → SessionsFit s.auth
    → SessionsFit (login_session h key s).1.auth
unfolding login_session
login_session-SessionsFit h key s free fit = elim (Bool-cases (has_session key s.auth)) [
  | inl known ↦ remapping (remap_session h key s.auth) refl known
  | inr unknown ↦ rw unknown fit
]
  where
    remapping :
        (r : Result Auth)
        → remap_session h key s.auth ≡ r
        → has_session key s.auth ≡ true
        → SessionsFit (login_session h key s).1.auth
    remapping (err e) p known = rw (known, p) fit
    remapping (ok a) p known =
        rw (known, p) (remap_session-SessionsFit h key s.auth a p known free fit)

login_user-SessionsFit :
    (crypto : Crypto) (h : ℕ) (username password key drawn : Bytes) (s : Server)
    → s.auth.con_skey h ≡ none
    → SessionsFit s.auth
    → SessionsFit (login_user crypto h username password key drawn s).1.auth
unfolding login_user
login_user-SessionsFit crypto h username password key drawn s free fit =
    elim (Bool-cases (contains b' ' username || contains b' ' password)) [
      | inl e ↦ rw e fit
      | inr e ↦ elim (Bool-cases (has_username username s.auth)) [
        | inl known ↦
            replied (create_session crypto h username password key drawn s.auth).0 refl e known
        | inr unknown ↦ rw (e, unknown) fit
      ]
    ]
  where
    replied :
        (r : Bytes)
        → (create_session crypto h username password key drawn s.auth).0 ≡ r
        → (contains b' ' username || contains b' ' password) ≡ false
        → has_username username s.auth ≡ true
        → SessionsFit (login_user crypto h username password key drawn s).1.auth
    replied [] p e known =
        rw (e, known, p)
          (create_session-SessionsFit crypto h username password key drawn s.auth free fit)
    replied (c ∷ rest) p e known =
        rw (e, known, p)
          (create_session-SessionsFit crypto h username password key drawn s.auth free fit)

from_stranger-SessionsFit :
    (crypto : Crypto) (c : ℕ) (tokens : List Bytes) (key drawn : Bytes) (s : Server)
    → s.auth.con_skey c ≡ none
    → SessionsFit s.auth
    → SessionsFit (from_stranger crypto c tokens key drawn s).1.auth
unfolding from_stranger register_user
from_stranger-SessionsFit crypto c (t ∷ u ∷ p ∷ d ∷ []) key drawn s free fit =
    elim (Bool-cases (bytes_eq t (codes "register"))) [
      | inl e ↦ rw e fit
      | inr e ↦ rw e (answer-SessionsFit c (codes "auth") s fit)
    ]
from_stranger-SessionsFit crypto c (t ∷ u ∷ p ∷ []) key drawn s free fit =
    elim (Bool-cases (bytes_eq t (codes "login"))) [
      | inl e ↦ rw e (
          continue-SessionsFit c (λ (r : Bytes). r) (login_user crypto c u p key drawn s)
            (login_user-SessionsFit crypto c u p key drawn s free fit))
      | inr e ↦ rw e (answer-SessionsFit c (codes "auth") s fit)
    ]
from_stranger-SessionsFit crypto c (t ∷ k ∷ []) key drawn s free fit =
    elim (Bool-cases (bytes_eq t (codes "login"))) [
      | inl e ↦ rw e (
          continue-SessionsFit c (λ (r : Bytes). r) (login_session c k s)
            (login_session-SessionsFit c k s free fit))
      | inr e ↦ rw e (answer-SessionsFit c (codes "auth") s fit)
    ]
from_stranger-SessionsFit crypto c tokens key drawn s free fit =
    answer-SessionsFit c (codes "auth") s fit

from_user-SessionsFit :
    (c : ℕ) (payload : Bytes) (tokens : List Bytes) (s : Server)
    → SessionsFit s.auth
    → SessionsFit (from_user c payload tokens s).1.auth
unfolding from_user
from_user-SessionsFit c payload (t ∷ k ∷ []) s fit =
    elim (Bool-cases (bytes_eq t (codes "logout") && has_session k s.auth)) [
      | inl e ↦ rw e (
          continue-SessionsFit c
            (λ (done : Bool). codes (if done then "logout-success" else "logout-nosession"))
            (logout_user k s) (logout_user-SessionsFit k s fit))
      | inr e ↦ rw e (elim (Bool-cases (Server.is_login t)) [ inl l ↦ rw l fit | inr l ↦ rw l fit ])
    ]
from_user-SessionsFit c payload (t ∷ k ∷ m ∷ rest) s fit = elim (Bool-cases (Server.is_login t)) [
  | inl l ↦ rw l fit
  | inr l ↦ rw l fit
]
from_user-SessionsFit c payload tokens s fit = fit

stranger_free :
    (c : ℕ) (s : Server)
    → ((s.do_authenticate && has_connection_handle c s.auth) || not s.do_authenticate) ≡ false
    → s.auth.con_skey c ≡ none
unfolding has_connection_handle
stranger_free c s e = ground arith

pub on_message-SessionsFit :
    (crypto : Crypto) (c : ℕ) (payload key drawn : Bytes) (s : Server)
    → SessionsFit s.auth
    → SessionsFit (on_message crypto c payload key drawn s).1.auth
unfolding on_message
on_message-SessionsFit crypto c payload key drawn s fit =
    elim (Bool-cases
      ((s.do_authenticate && has_connection_handle c s.auth) || not s.do_authenticate)) [
        | inl e ↦ rw e (from_user-SessionsFit c payload (lines payload) s fit)
        | inr e ↦ rw e (
            from_stranger-SessionsFit crypto c (lines payload) key drawn s (stranger_free c s e)
              fit)
      ]

pub accept-SessionsFit :
    (crypto : Crypto) (h : ℕ) (username password user_data key drawn : Bytes) (s : Server)
    → s.auth.con_skey h ≡ none
    → SessionsFit s.auth
    → SessionsFit (accept crypto h username password user_data key drawn s).1.auth
unfolding accept
accept-SessionsFit crypto h username password user_data key drawn s free fit =
    let created = create_user crypto h username password user_data key drawn s.auth in
    elim (Bool-cases (has_username username s.auth)) [
      | inl e ↦ rw e (answer-SessionsFit h (codes "register-duplicate") s fit)
      | inr e ↦ rw e (
          answer-SessionsFit h (codes "register-success:" ++ created.0)
            (record s { auth = created.1 })
            (create_user-SessionsFit crypto h username password user_data key drawn s.auth free
              fit))
    ]
