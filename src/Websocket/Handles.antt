-- ===== src/Websocket/Handles.antt =====
-- Handles and sessions of the authenticator: what the maps of `Authenticator` have in common, and
-- that every method keeps it.
use janosh.Common.{
  ℕ, ◌+◌, ◌^◌, ◌<◌, ◌≤◌, ◌≡◌, ap, true, false, [], none, some, Bytes, bytes_eq_iff, arith, Map, put,
  erase, is_some, or_default, number_eq, text_eq, Option-cases, inl, inr,
}
use janosh.Result.{ok}
use janosh.Websocket.Auth.{
  Auth, has_session, remap_session, destroy_session, disconnect, erase_pair, create_lua_handle,
  destroy_lua_handle,
}

-- A connection's handle was drawn, and stands for this connection.
pub record HandlesFit (a : Auth) : Type 0 where
  pub drawn : (c l : ℕ) → a.lua_handles_rev c ≡ some l → (0 < l) × (l ≤ a.lua_handle_max)
  pub back : (c l : ℕ) → a.lua_handles_rev c ≡ some l → a.lua_handles l ≡ some c

-- A session's connection has this session, and the session a user.
pub record SessionsFit (a : Auth) : Type 0 where
  pub held : (key : Bytes) (c : ℕ) → a.skey_con key ≡ some c → a.con_skey c ≡ some key
  pub named : (key : Bytes) (c : ℕ) → a.skey_con key ≡ some c → is_some (a.skey_name key) ≡ true

pub create_lua_handle-HandlesFit :
    (c : ℕ) (a : Auth)
    → a.lua_handle_max + 1 < 2 ^ 64
    → HandlesFit a
    → HandlesFit (create_lua_handle c a)
unfolding create_lua_handle
create_lua_handle-HandlesFit c a room fit = record {
  drawn = λ d l e. ground (arith, fit.drawn d l);
  back = λ d l e. ground (arith, fit.drawn d l, fit.back d l);
}

pub destroy_lua_handle-HandlesFit :
    (c : ℕ) (a : Auth) → HandlesFit a → HandlesFit (destroy_lua_handle c a)
unfolding destroy_lua_handle
destroy_lua_handle-HandlesFit c a fit = record {
  drawn = λ d l e. ground (arith, fit.drawn d l);
  back = λ d l e.
      ground (arith, fit.drawn d l, fit.back d l, fit.back c (or_default 0 (a.lua_handles_rev c)));
}

pub remap_session-HandlesFit :
    (h : ℕ) (key : Bytes) (a b : Auth) → remap_session h key a ≡ ok b → HandlesFit a → HandlesFit b
unfolding remap_session
remap_session-HandlesFit h key a b e fit =
    let old = or_default 0 (a.skey_con key) in
    record {
      drawn = λ d l p. ground (arith, fit.drawn d l, fit.drawn old l);
      back = λ d l p. ground (arith, fit.back d l, fit.back old l);
    }

pub remap_session-SessionsFit :
    (h : ℕ) (key : Bytes) (a b : Auth)
    → remap_session h key a ≡ ok b
    → has_session key a ≡ true
    → a.con_skey h ≡ none
    → SessionsFit a
    → SessionsFit b
unfolding remap_session has_session
remap_session-SessionsFit h key a b e known free fit =
    let old = or_default 0 (a.skey_con key) in
    record {
      held = λ k d p. ground (arith, fit.held k d, bytes_eq_iff k key);
      named = λ k d p. ground (arith, fit.named k d, fit.named key old, bytes_eq_iff k key);
    }

-- The session of a connection that had none.
pub open_session-SessionsFit :
    (h : ℕ) (name key : Bytes) (a b : Auth)
    → b.skey_con ≡ put key h a.skey_con
    → b.con_skey ≡ put h key a.con_skey
    → b.skey_name ≡ put key name a.skey_name
    → a.con_skey h ≡ none
    → SessionsFit a
    → SessionsFit b
open_session-SessionsFit h name key a b cons keys names free fit = record {
  held = λ k d p. ground (
    arith,
    fit.held k d,
    bytes_eq_iff k key,
    ap (λ (f : Map Bytes ℕ). f k) cons,
    ap (λ (f : Map ℕ Bytes). f d) keys,
  );
  named = λ k d p. ground (
    arith,
    fit.named k d,
    bytes_eq_iff k key,
    ap (λ (f : Map Bytes ℕ). f k) cons,
    ap (λ (f : Map Bytes Bytes). f k) names,
  );
}

pub destroy_session-SessionsFit :
    (key : Bytes) (a b : Auth) → destroy_session key a ≡ ok b → SessionsFit a → SessionsFit b
unfolding destroy_session disconnect
destroy_session-SessionsFit key a b e fit = record {
  held = λ k d p. ground (arith, fit.held k d, fit.held key d, bytes_eq_iff k key);
  named = λ k d p. ground (arith, fit.named k d, bytes_eq_iff k key);
}

-- If every session's connection has this session and every session has a user, then ending a
-- session that there is meets no failed assertion, the session is gone, and the others are as they
-- should be.
pub destroy_session-ends :
    (key : Bytes) (a : Auth)
    → SessionsFit a
    → has_session key a ≡ true
    → (b : Auth) × (destroy_session key a ≡ ok b) × (has_session key b ≡ false) × SessionsFit b
unfolding destroy_session disconnect has_session
destroy_session-ends key a fit known = elim (Option-cases (a.skey_con key)) [
  | inl e ↦ absurd (ground arith)
  | inr (c, e) ↦
      let b = record a {
        name_skey = erase_pair (or_default [] (a.skey_name key)) key a.name_skey;
        skey_con = erase key a.skey_con;
        con_skey = erase c a.con_skey;
      } in
      let ended : destroy_session key a ≡ ok b = ground (arith, fit.held key c, fit.named key c) in
      (
        b,
        ended,
        ground (arith, bytes_eq_iff key key),
        destroy_session-SessionsFit key a b ended fit,
      )
]
