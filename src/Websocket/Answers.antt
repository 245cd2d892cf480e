-- ===== src/Websocket/Answers.antt =====
-- What is sent while a message is handled goes to the connection that the message came from.
use janosh.Common.{
  ℕ, ◌≡◌, refl, ap, ◌⊎◌, inl, inr, true, [], ◌∷◌, ◌++◌, Bytes, arith, Bool-cases, Option-cases, Map,
  ◌∙◌,
}
use janosh.Result.{Result, ok, err}
use janosh.Exec.{continue}
use janosh.Websocket.Auth.{
  Auth, Crypto, has_session, remap_session, create_session, destroy_session, disconnect,
  get_lua_handle, get_connection_handle,
}
use janosh.Websocket.Handles.{HandlesFit, remap_session-HandlesFit}
use janosh.Websocket.Server.{Server, answer, send, logout_user, login_user, login_session}

-- The handles are the same, or at least fit as before.
pub record KeepsHandles (a b : Auth) : Type 0 where
  pub fits : HandlesFit a → HandlesFit b
  pub drawn_before : b.lua_handle_max ≡ a.lua_handle_max

pub same_handles :
    (a b : Auth)
    → b.lua_handles ≡ a.lua_handles
    → b.lua_handles_rev ≡ a.lua_handles_rev
    → b.lua_handle_max ≡ a.lua_handle_max
    → KeepsHandles a b
same_handles a b to back most = record {
  fits = λ fit. record {
    drawn = λ c l e. ground (arith, fit.drawn c l, ap (λ (f : Map ℕ ℕ). f c) back);
    back = λ c l e.
        ground (arith, fit.back c l, ap (λ (f : Map ℕ ℕ). f c) back, ap (λ (f : Map ℕ ℕ). f l) to);
  };
  drawn_before = most;
}

-- What a method may do that handles a message of the connection.
abbrev pub Quiet : Server → Server → Type 0
Quiet s t = KeepsHandles s.auth t.auth × (t.sent ≡ s.sent)

abbrev pub Answered : ℕ → Server → Server → Type 0
Answered c s t = (t.sent ≡ s.sent) ⊎ ((text : Bytes) × (t.sent ≡ s.sent ++ (c, text) ∷ []))

pub record Replies (c : ℕ) (s t : Server) : Type 0 where
  pub keeps : KeepsHandles s.auth t.auth
  pub answered : HandlesFit s.auth → Answered c s t

pub Quiet-Replies : (c : ℕ) (s t : Server) → Quiet s t → Replies c s t
Quiet-Replies c s t q = record { keeps = q.0; answered = λ fit. inl q.1 }

pub answer-auth : (c : ℕ) (text : Bytes) (s : Server) → (answer c text s).1.auth ≡ s.auth
unfolding answer send
answer-auth c text s = ground arith

-- An answer reaches the connection, if this still has a handle.
pub answer-Answered :
    (c : ℕ) (text : Bytes) (s : Server) → HandlesFit s.auth → Answered c s (answer c text s).1
unfolding answer send get_lua_handle get_connection_handle
answer-Answered c text s fit = elim (Option-cases (s.auth.lua_handles_rev c)) [
  | inl e ↦ inl (ground arith)
  | inr (l, e) ↦ inr (text, ground (arith, fit.back c l))
]

pub answer-Replies : (c : ℕ) (text : Bytes) (s : Server) → Replies c s (answer c text s).1
answer-Replies c text s = record {
  keeps = rw (answer-auth c text s) (same_handles s.auth s.auth refl refl refl);
  answered = answer-Answered c text s;
}

pub continue-Replies :
    {A : Type 0} (c : ℕ) (text : A → Bytes) (s : Server) (r : Result A × Server)
    → Quiet s r.1
    → Replies c s (continue r (λ a. answer c (text a))).1
continue-Replies c text s (err e, t) q = Quiet-Replies c s t q
continue-Replies c text s (ok a, t) (k, e) =
    let after = answer-Replies c (text a) t in
    record {
      keeps = record {
        fits = λ fit. after.keeps.fits (k.fits fit);
        drawn_before = after.keeps.drawn_before ∙ k.drawn_before;
      };
      answered = λ fit. rw (← e) (after.answered (k.fits fit));
    }

pub logout_user-Quiet : (key : Bytes) (s : Server) → Quiet s (logout_user key s).1
unfolding logout_user destroy_session disconnect
logout_user-Quiet key s = (
  same_handles s.auth (logout_user key s).1.auth (ground arith) (ground arith) (ground arith),
  ground arith,
)

pub login_user-Quiet :
    (crypto : Crypto) (h : ℕ) (username password key drawn : Bytes) (s : Server)
    → Quiet s (login_user crypto h username password key drawn s).1
unfolding login_user create_session
login_user-Quiet crypto h username password key drawn s = (
  same_handles s.auth (login_user crypto h username password key drawn s).1.auth (ground arith)
      (ground arith) (ground arith),
  ground arith,
)

remapped-KeepsHandles :
    (h : ℕ) (key : Bytes) (a b : Auth) → remap_session h key a ≡ ok b → KeepsHandles a b
unfolding remap_session
remapped-KeepsHandles h key a b e = record {
  fits = remap_session-HandlesFit h key a b e;
  drawn_before = ground arith;
}

pub login_session-Quiet : (h : ℕ) (key : Bytes) (s : Server) → Quiet s (login_session h key s).1
unfolding login_session
login_session-Quiet h key s = elim (Bool-cases (has_session key s.auth)) [
  | inl known ↦ remapping (remap_session h key s.auth) refl known
  | inr unknown ↦ rw unknown (same_handles s.auth s.auth refl refl refl, refl)
]
  where
    remapping :
        (r : Result Auth)
        → remap_session h key s.auth ≡ r
        → has_session key s.auth ≡ true
        → Quiet s (login_session h key s).1
    remapping (err e) p known = rw (known, p) (same_handles s.auth s.auth refl refl refl, refl)
    remapping (ok a) p known = rw (known, p) (remapped-KeepsHandles h key s.auth a p, refl)
