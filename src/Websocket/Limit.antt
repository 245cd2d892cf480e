-- ===== src/Websocket/Limit.antt =====
-- `receiveLimit`: at most ten messages are in the queue of received messages.
use janosh.Common.{
  ℕ, ◌+◌, ◌≤◌, ◌≡◌, refl, ap, Bool, List, [], ◌∷◌, ◌++◌, Bytes, arith, codes, ◌&&◌, bytes_eq,
  if◌then◌else◌, length, length-append, inl, inr, Bool-cases,
}
use janosh.Result.{Result, ok, err}
use janosh.Exec.{Exec, continue, ◌>>=◌}
use janosh.Websocket.Auth.{Auth, Crypto, has_session, create_user}
use janosh.Websocket.Server.{
  Server, Action, Hub, idle, waiting, permitted, starting, on_open, on_close, on_message, deliver,
  process, accept, reject, broadcast, user_data_of, user_name_of, answer, send, logout_user,
  login_user, login_session, register_user, from_user, from_stranger, lines,
}
use janosh.Websocket.Steps.{
  pass, receive, notify, Step, opens, closes, messages, passes, delivers, processes, receives,
  notifies, registers, accepts, rejects, sends, broadcasts, reads_data, reads_name, Reach, start,
  next,
}

-- The permit that the thread of the callbacks holds.
abbrev pub held : Hub → ℕ
held idle = 0
held (waiting c payload) = 0
held (permitted c payload) = 1

-- All permits, wherever they are.
abbrev pub total : Server → ℕ
total s = s.permits + length s.received + s.popped + held s.hub

-- What the methods that have nothing to do with the limit leave alone.
abbrev Frame : Server → Server → Type 0
Frame s t =
    (t.permits ≡ s.permits) × (t.received ≡ s.received) × (t.popped ≡ s.popped) × (t.hub ≡ s.hub)

answer-Frame : (c : ℕ) (text : Bytes) (s : Server) → Frame s (answer c text s).1
unfolding answer send
answer-Frame c text s = ground arith

accept-Frame :
    (crypto : Crypto) (h : ℕ) (username password user_data key drawn : Bytes) (s : Server)
    → Frame s (accept crypto h username password user_data key drawn s).1
unfolding accept
accept-Frame crypto h username password user_data key drawn s =
    let created = create_user crypto h username password user_data key drawn s.auth in
    ground (
      arith,
      answer-Frame h (codes "register-duplicate") s,
      answer-Frame h (codes "register-success:" ++ created.0) (record s { auth = created.1 }),
    )

then_answer-Frame :
    {A : Type 0} (m : Exec Server A) (c : ℕ) (text : A → Bytes) (s : Server)
    → Frame s (m s).1
    → Frame s ((m >>= λ a. answer c (text a)) s).1
then_answer-Frame {A} m c text s h = ended (m s) h
  where
    ended : (r : Result A × Server) → Frame s r.1 → Frame s (continue r (λ a. answer c (text a))).1
    ended (ok a, t) f = ground (arith, answer-Frame c (text a) t)
    ended (err e, t) f = f

logout_user-Frame : (key : Bytes) (s : Server) → Frame s (logout_user key s).1
unfolding logout_user
logout_user-Frame key s = ground arith

login_session-Frame : (h : ℕ) (key : Bytes) (s : Server) → Frame s (login_session h key s).1
unfolding login_session
login_session-Frame h key s = ground arith

login_user-Frame :
    (crypto : Crypto) (h : ℕ) (username password key drawn : Bytes) (s : Server)
    → Frame s (login_user crypto h username password key drawn s).1
unfolding login_user
login_user-Frame crypto h username password key drawn s = ground arith

pub from_stranger-Frame :
    (crypto : Crypto) (c : ℕ) (tokens : List Bytes) (key drawn : Bytes) (s : Server)
    → Frame s (from_stranger crypto c tokens key drawn s).1
unfolding from_stranger register_user
from_stranger-Frame crypto c (t ∷ u ∷ p ∷ d ∷ []) key drawn s =
    ground (arith, answer-Frame c (codes "auth") s)
from_stranger-Frame crypto c (t ∷ u ∷ p ∷ []) key drawn s =
    elim (Bool-cases (bytes_eq t (codes "login"))) [
      | inl e ↦ rw e (
          then_answer-Frame (login_user crypto c u p key drawn) c (λ r. r) s
            (login_user-Frame crypto c u p key drawn s))
      | inr e ↦ rw e (answer-Frame c (codes "auth") s)
    ]
from_stranger-Frame crypto c (t ∷ k ∷ []) key drawn s =
    elim (Bool-cases (bytes_eq t (codes "login"))) [
      | inl e ↦
          rw e (then_answer-Frame (login_session c k) c (λ r. r) s (login_session-Frame c k s))
      | inr e ↦ rw e (answer-Frame c (codes "auth") s)
    ]
from_stranger-Frame crypto c tokens key drawn s = answer-Frame c (codes "auth") s

-- A message of a user ends, or comes to the limit.
abbrev Held : Server → Server → Type 0
Held s t =
    (t.permits ≡ s.permits)
    × (t.received ≡ s.received)
    × (t.popped ≡ s.popped)
    × (held t.hub ≡ held s.hub)

from_user-Held :
    (c : ℕ) (payload : Bytes) (tokens : List Bytes) (s : Server)
    → s.hub ≡ idle
    → Held s (from_user c payload tokens s).1
unfolding from_user
from_user-Held c payload (t ∷ k ∷ []) s h =
    elim (Bool-cases (bytes_eq t (codes "logout") && has_session k s.auth)) [
      | inl e ↦ rw e (
          let f =
            then_answer-Frame (logout_user k) c
              (λ (done : Bool). codes (if done then "logout-success" else "logout-nosession")) s
              (logout_user-Frame k s) in
          (f.0, f.1, f.2, ap held f.3))
      | inr e ↦ rw e (ground arith)
    ]
from_user-Held c payload (t ∷ k ∷ m ∷ rest) s h = ground arith
from_user-Held c payload tokens s h = ground arith

on_message-Held :
    (crypto : Crypto) (c : ℕ) (payload key drawn : Bytes) (s : Server)
    → s.hub ≡ idle
    → Held s (on_message crypto c payload key drawn s).1
unfolding on_message
on_message-Held crypto c payload key drawn s h = ground (
  arith,
  from_user-Held c payload (lines payload) s h,
  from_stranger-Frame crypto c (lines payload) key drawn s,
)

process-Frame : (a : Action) (s : Server) → Frame s (process a s).1
unfolding process
process-Frame a s = ground arith

-- No step makes a permit, or loses one.
Step-total : (crypto : Crypto) {s t : Server} → Step crypto s t → total s ≡ 10 → total t ≡ 10
unfolding on_open on_close broadcast pass receive notify deliver reject send user_data_of
    user_name_of
Step-total crypto {s} (opens c h) e = e
Step-total crypto {s} (closes c h) e = e
Step-total crypto {s} (messages c payload key drawn h m) e =
    ground (arith, on_message-Held crypto c payload key drawn s h)
Step-total crypto {s} (passes c payload h room) e = ground arith
Step-total crypto {s} (delivers {t} c payload h m) e = grind (arith, length-append)
Step-total crypto {s} (processes a rest h) e =
    ground (arith, process-Frame a (record s { actions = rest }))
Step-total crypto {s} (receives m rest h) e = ground arith
Step-total crypto {s} (notifies h) e = ground arith
Step-total crypto {s} (registers r rest h) e = e
Step-total crypto {s} (accepts h u p d key drawn) e =
    ground (arith, accept-Frame crypto h u p d key drawn s)
Step-total crypto {s} (rejects h reason) e =
    ground (arith, answer-Frame h (codes "register-failed:" ++ reason) s)
Step-total crypto {s} (sends l text) e = ground arith
Step-total crypto {s} (broadcasts text) e = e
Step-total crypto {s} (reads_data l) e = e
Step-total crypto {s} (reads_name l) e = e

pub Reach-total :
    (crypto : Crypto) (authenticates : Bool) (users : Auth) {n : ℕ} {s : Server}
    → Reach crypto (starting authenticates users) n s
    → total s ≡ 10
Reach-total crypto authenticates users start = refl
Reach-total crypto authenticates users (next r st) =
    Step-total crypto st (Reach-total crypto authenticates users r)

-- After any steps of the web socket server's threads, in any order, at most ten messages are in the
-- queue of received messages.
pub Reach-received :
    (crypto : Crypto) (authenticates : Bool) (users : Auth) {n : ℕ} {s : Server}
    → Reach crypto (starting authenticates users) n s
    → length s.received ≤ 10
Reach-received crypto authenticates users r =
    omega (arith, Reach-total crypto authenticates users r)
