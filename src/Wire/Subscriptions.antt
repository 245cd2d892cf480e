-- ===== src/Wire/Subscriptions.antt =====
-- The class `Subscriptions` of lua_script.cpp: which prefixes of messages Lua threads have subscribed
-- to. A socket is a number; what it receives is a parameter.
use janosh.Common.{ℕ, ◌+◌, Bool, none, some, Bytes, Map, put, erase, text_eq, is_some}
use janosh.Result.{Result, ok, err, janosh_exception, undefined_behaviour}
use janosh.Exec.{Exec}
use janosh.Wire.Subscription

pub record Subscriptions : Type 0 where
  pub context_map : Map Bytes ℕ
  pub socket_map : Map Bytes ℕ
  -- a number above those of all sockets
  pub next : ℕ

unfoldable pub has : Bytes → Subscriptions → Bool
has prefix s = is_some (s.context_map prefix)

unfoldable pub make : Bytes → Exec Subscriptions (Unit {0})
make prefix s = elim (s.context_map prefix) [
  | some c ↦ (err (janosh_exception "Attempt to create a duplicate subscription detected"), s)
  | none ↦ (
    ok tt,
    record {
      context_map = put prefix s.next s.context_map;
      socket_map = put prefix s.next s.socket_map;
      next = s.next + 1;
    },
  )
]

unfoldable pub destroy : Bytes → Exec Subscriptions (Unit {0})
destroy prefix s = elim (s.context_map prefix) [
  | none ↦ (err (janosh_exception "Attempt to destroy an unknown subscription"), s)
  | some c ↦ (
    ok tt,
    record s { context_map = erase prefix s.context_map; socket_map = erase prefix s.socket_map },
  )
]

-- The start of `receive`; `update` is the message that the socket receives.
unfoldable pub receive_from : Bytes → (ℕ → Bytes) → Subscriptions → Result (Bytes × Bytes × Bytes)
receive_from prefix update s = elim (s.context_map prefix) [
  | none ↦ err (janosh_exception "Attempt to read from an unknown subscription")
  | some c ↦ (elim (s.socket_map prefix) [
    | none ↦ err undefined_behaviour
    | some socket ↦ Subscription.receive (update socket)
  ])
]
