-- ===== src/Websocket/Progress.antt =====
-- A message that waits for `receiveLimit` is let through if Lua threads go on to receive.
use janosh.Common.{ℕ, zero, suc, ◌+◌, ◌<◌, ◌≤◌, ◌≡◌, refl, Bool, List, [], ◌∷◌, Bytes, arith}
use janosh.Websocket.Auth.{Auth, Crypto}
use janosh.Websocket.Server.{Server, waiting, permitted, starting}
use janosh.Websocket.Steps.{pass, receive, notify, passes, receives, notifies, Reach, start, next}
use janosh.Websocket.Limit.{total, Reach-total}

module _ (crypto : Crypto) (first : Server) (c : ℕ) (payload : Bytes) where
  -- After at most so many steps the message has its permit.
  abbrev Admits : ℕ → Type 0
  Admits most =
      (m : ℕ) × (t : Server) × (m ≤ most) × Reach crypto first m t × (t.hub ≡ permitted c payload)

  pass-Admits :
      {n : ℕ} {s : Server}
      → Reach crypto first n s
      → s.hub ≡ waiting c payload
      → 0 < s.permits
      → Admits (n + 1)
  unfolding pass
  pass-Admits {n} {s} r h room =
      (suc n, pass c payload s, omega arith, next r (passes c payload h room), refl)

  notify-Admits :
      {n : ℕ} {s : Server}
      → Reach crypto first n s
      → s.hub ≡ waiting c payload
      → s.permits ≡ 0
      → 0 < s.popped
      → Admits (n + 2)
  unfolding notify
  notify-Admits r h none_left p =
      let (m, t, few, r', e) = pass-Admits (next r (notifies p)) h (ground arith) in
      (m, t, omega arith, r', e)

  received-Admits :
      (received : List (ℕ × Bytes)) {n : ℕ} {s : Server}
      → s.received ≡ received
      → Reach crypto first n s
      → s.hub ≡ waiting c payload
      → s.permits ≡ 0
      → total s ≡ 10
      → Admits (n + 3)
  unfolding receive
  received-Admits [] e r h none_left all =
      let (m, t, few, r', e') = notify-Admits r h none_left (ground arith) in
      (m, t, omega arith, r', e')
  received-Admits (received ∷ rest) e r h none_left all =
      let (m, t, few, r', e') =
        notify-Admits (next r (receives received rest e)) h none_left (omega arith) in
      (m, t, omega arith, r', e')

  permits-Admits :
      (permits : ℕ) {n : ℕ} {s : Server}
      → s.permits ≡ permits
      → Reach crypto first n s
      → s.hub ≡ waiting c payload
      → total s ≡ 10
      → Admits (n + 3)
  permits-Admits zero {s = s} e r h all = received-Admits s.received refl r h e all
  permits-Admits (suc k) e r h all =
      let (m, t, few, r', e') = pass-Admits r h (omega arith) in (m, t, omega arith, r', e')

-- Whenever, after any steps of the web socket server's threads, a message waits for the limit of
-- received messages, at most three further steps of the threads lead to a state in which it has its
-- permit.
pub Reach-permitted :
    (crypto : Crypto) (authenticates : Bool) (users : Auth) (c : ℕ) (payload : Bytes) {n : ℕ}
    {s : Server}
    → Reach crypto (starting authenticates users) n s
    → s.hub ≡ waiting c payload
    → (m : ℕ) × (t : Server) × (m ≤ 3) × Reach crypto s m t × (t.hub ≡ permitted c payload)
Reach-permitted crypto authenticates users c payload {s = s} r h =
    permits-Admits crypto s c payload s.permits refl start h
      (Reach-total crypto authenticates users r)
